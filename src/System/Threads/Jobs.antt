-- ===== src/System/Threads/Jobs.antt =====
-- Lists of jobs: the heating statuses that wait to be announced, and what waits behind the
-- destructor's procedure.
use openpressod.Prelude.{
  Bool, true, false, ◌&&◌, ◌||◌, List, [], ◌∷◌, ◌++◌, map, ◌≡◌, refl, ap, ◌∙◌, arith,
}
use openpressod.Messages.{HeatingStatus}
use openpressod.Reactor.{EventsStreamReactor}
use openpressod.Status.Publishing.{last_or}
use openpressod.Dispatcher.{Procedure}
use openpressod.Dispatcher.Heater.{is_notification}
use openpressod.Dispatcher.View.{SeesHeater}
use openpressod.System.Threads.{Job, procedure, shut_down, is_quiet, notification}

abbrev pub statuses : List Job → List HeatingStatus
statuses [] = []
statuses (procedure (Procedure.notify_heating_status_change s) ∷ l) = s ∷ statuses l
statuses (_ ∷ l) = statuses l

-- The last status that waits to be announced is the current one, or else every subscriber knows it.
abbrev pub WillKnow : List HeatingStatus → HeatingStatus → List EventsStreamReactor → Type 0
WillKnow [] current sinks = SeesHeater current sinks
WillKnow (x ∷ l) current sinks = last_or x l ≡ current

last_or-append :
    (x : HeatingStatus) (l k : List HeatingStatus) → last_or x (l ++ k) ≡ last_or (last_or x l) k
last_or-append x [] k = refl
last_or-append x (y ∷ l) k = last_or-append y l k

-- New statuses wait behind the others.
pub WillKnow-append :
    (waiting news : List HeatingStatus) (current : HeatingStatus) (sinks : List EventsStreamReactor)
    → WillKnow waiting current sinks
    → WillKnow (waiting ++ news) (last_or current news) sinks
WillKnow-append [] [] current sinks h = h
WillKnow-append [] (n ∷ news) current sinks h = refl
WillKnow-append (x ∷ l) news current sinks h = last_or-append x l news ∙ ap (λ y. last_or y news) h

pub statuses-append : (l k : List Job) → statuses (l ++ k) ≡ statuses l ++ statuses k
statuses-append [] k = refl
statuses-append (procedure p ∷ l) k = ground (arith, statuses-append l k)
statuses-append (shut_down ∷ l) k = statuses-append l k

pub statuses-notifications : (l : List HeatingStatus) → statuses (map notification l) ≡ l
statuses-notifications [] = refl
statuses-notifications (x ∷ l) = ap (λ k. x ∷ k) (statuses-notifications l)

pub notification_of :
    (p : Procedure)
    → is_notification p ≡ true
    → (x : HeatingStatus) × (p ≡ Procedure.notify_heating_status_change x)
notification_of (Procedure.notify_heating_status_change x) h = (x, refl)
notification_of p h = absurd (ground arith)

pub statuses-other :
    (p : Procedure) (l : List Job)
    → is_notification p ≡ false
    → statuses (procedure p ∷ l) ≡ statuses l
statuses-other p l h = ground arith

-- All jobs are quiet; no job is the destructor's; one is, with only quiet ones behind it.
abbrev pub all_quiet : List Job → Bool
all_quiet [] = true
all_quiet (procedure p ∷ l) = is_quiet p && all_quiet l
all_quiet (shut_down ∷ l) = false

abbrev pub no_shut_down : List Job → Bool
no_shut_down [] = true
no_shut_down (procedure p ∷ l) = no_shut_down l
no_shut_down (shut_down ∷ l) = false

abbrev pub closes : List Job → Bool
closes [] = false
closes (procedure p ∷ l) = closes l
closes (shut_down ∷ l) = all_quiet l

-- What may wait, by how far the destructor has come.
abbrev pub may_wait : (ending ended : Bool) → List Job → Bool
may_wait true true l = all_quiet l
may_wait true false l = closes l
may_wait false true l = false
may_wait false false l = no_shut_down l

all_quiet-append :
    (l k : List Job) → all_quiet l ≡ true → all_quiet k ≡ true → all_quiet (l ++ k) ≡ true
all_quiet-append [] k a b = b
all_quiet-append (procedure p ∷ l) k a b = ground (arith, all_quiet-append l k (ground arith) b)
all_quiet-append (shut_down ∷ l) k a b = absurd (ground arith)

no_shut_down-append :
    (l k : List Job) → no_shut_down l ≡ true → no_shut_down k ≡ true → no_shut_down (l ++ k) ≡ true
no_shut_down-append [] k a b = b
no_shut_down-append (procedure p ∷ l) k a b = no_shut_down-append l k a b
no_shut_down-append (shut_down ∷ l) k a b = absurd (ground arith)

pub closes-append : (l k : List Job) → closes l ≡ true → all_quiet k ≡ true → closes (l ++ k) ≡ true
closes-append [] k a b = absurd (ground arith)
closes-append (procedure p ∷ l) k a b = closes-append l k a b
closes-append (shut_down ∷ l) k a b = all_quiet-append l k a b

pub closes-snoc : (l : List Job) → no_shut_down l ≡ true → closes (l ++ shut_down ∷ []) ≡ true
closes-snoc [] h = refl
closes-snoc (procedure p ∷ l) h = closes-snoc l h
closes-snoc (shut_down ∷ l) h = absurd (ground arith)

no_shut_down-quiet : (l : List Job) → all_quiet l ≡ true → no_shut_down l ≡ true
no_shut_down-quiet [] h = refl
no_shut_down-quiet (procedure p ∷ l) h = no_shut_down-quiet l (ground arith)
no_shut_down-quiet (shut_down ∷ l) h = absurd (ground arith)

pub may_wait-append :
    (ending ended : Bool) (l k : List Job)
    → may_wait ending ended l ≡ true
    → no_shut_down k ≡ true
    → (ending ≡ true → all_quiet k ≡ true)
    → may_wait ending ended (l ++ k) ≡ true
may_wait-append true true l k a n q = all_quiet-append l k a (q refl)
may_wait-append true false l k a n q = closes-append l k a (q refl)
may_wait-append false true l k a n q = absurd (ground arith)
may_wait-append false false l k a n q = no_shut_down-append l k a n

pub all_quiet-notifications : (l : List HeatingStatus) → all_quiet (map notification l) ≡ true
all_quiet-notifications [] = refl
all_quiet-notifications (x ∷ l) = all_quiet-notifications l

pub no_shut_down-notifications : (l : List HeatingStatus) → no_shut_down (map notification l) ≡ true
no_shut_down-notifications l = no_shut_down-quiet (map notification l) (all_quiet-notifications l)

-- What is left when the first job has been run.
pub may_wait-rest :
    (ending ended : Bool) (p : Procedure) (l : List Job)
    → may_wait ending ended (procedure p ∷ l) ≡ true
    → may_wait ending ended l ≡ true
may_wait-rest true true p l h = ground arith
may_wait-rest true false p l h = h
may_wait-rest false true p l h = absurd (ground arith)
may_wait-rest false false p l h = h

pub may_wait-shut_down :
    (ending ended : Bool) (l : List Job)
    → may_wait ending ended (shut_down ∷ l) ≡ true
    → (may_wait ending true l ≡ true) × (ending ≡ true)
may_wait-shut_down true true l h = absurd (ground arith)
may_wait-shut_down true false l h = (h, refl)
may_wait-shut_down false true l h = absurd (ground arith)
may_wait-shut_down false false l h = absurd (ground arith)

-- Behind the destructor's procedure.
pub may_wait-quiet :
    (ending : Bool) (p : Procedure) (l : List Job)
    → may_wait ending true (procedure p ∷ l) ≡ true
    → is_quiet p ≡ true
may_wait-quiet true p l h = ground arith
may_wait-quiet false p l h = absurd (ground arith)

pub or_true : (b : Bool) → b || true ≡ true
or_true true = refl
or_true false = refl

pub or_left : (b c : Bool) → b ≡ true → b || c ≡ true
or_left true c h = refl
or_left false c h = absurd (ground arith)

-- Before the destructor is called.
pub may_wait-open :
    (ending ended : Bool) (l : List Job)
    → ending ≡ false
    → may_wait ending ended l ≡ true
    → (no_shut_down l ≡ true) × (ended ≡ false)
may_wait-open true ended l n h = absurd (ground arith)
may_wait-open false true l n h = absurd (ground arith)
may_wait-open false false l n h = (h, refl)

pub unless : (b : Bool) {c : Bool} → c ≡ false → (b ≡ true → c ≡ true) → b ≡ false
unless true n h = absurd (ground (arith, h refl))
unless false n h = refl

-- After its procedure.
pub may_wait-ended :
    (ending ended : Bool) (l : List Job)
    → ended ≡ true
    → may_wait ending ended l ≡ true
    → all_quiet l ≡ true
may_wait-ended true true l n h = h
may_wait-ended false true l n h = absurd (ground arith)
may_wait-ended ending false l n h = absurd (ground arith)

-- While the destructor waits.
pub may_wait-ending :
    (ending ended : Bool) (l : List Job)
    → ending ≡ true
    → ended ≡ false
    → may_wait ending ended l ≡ true
    → closes l ≡ true
may_wait-ending true true l e n h = absurd (ground arith)
may_wait-ending true false l e n h = h
may_wait-ending false ended l e n h = absurd (ground arith)
