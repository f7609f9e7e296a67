-- ===== src/Dispatcher/View.antt =====
-- What a subscriber knows: the latest event of each kind, among all that were pushed to it.
use openpressod.Prelude.{
  ◌∙◌, ap, ℕ, Bool, Option, none, some, List, [], ◌∷◌, ◌++◌, map, ◌≡◌, refl, arith, Bool-cases, inl,
  inr, ◌==◌,
}
use openpressod.Messages.{
  HeatingStatus, BrewProfile, UserSettings, Event, power_state, brew_state, steam_mode_state,
  heater_state, brew_profile, user_settings, brew_progress,
}
use openpressod.Reactor.{EventsStreamReactor, notify_changed}
use openpressod.Dispatcher.{send_all, remove_sink}

pub record View : Type 0 where
  pub power : Option Bool
  pub brew : Option Bool
  pub steam : Option Bool
  pub heater : Option HeatingStatus
  pub profile : Option BrewProfile
  pub settings : Option UserSettings

abbrev pub blank : View
blank = record {
  power = none;
  brew = none;
  steam = none;
  heater = none;
  profile = none;
  settings = none;
}

abbrev pub see : View → Event → View
see v (power_state b) = record v { power = some b }
see v (brew_state b) = record v { brew = some b }
see v (steam_mode_state b) = record v { steam = some b }
see v (heater_state s) = record v { heater = some s }
see v (brew_profile p) = record v { profile = some p }
see v (user_settings u) = record v { settings = some u }
see v (brew_progress n) = v

unfoldable pub view_from : View → List Event → View
view_from v [] = v
view_from v (e ∷ l) = view_from (see v e) l

unfoldable pub view : EventsStreamReactor → View
view s = view_from blank s.events_queue

view_from-append :
    (v : View) (l : List Event) (e : Event) → view_from v (l ++ e ∷ []) ≡ see (view_from v l) e
unfolding view_from
view_from-append v [] e = refl
view_from-append v (x ∷ l) e = view_from-append (see v x) l e

-- Pushing an event shows it to the subscriber.
pub view-notify_changed :
    (e : Event) (s : EventsStreamReactor) → view (notify_changed e s) ≡ see (view s) e
unfolding view notify_changed
view-notify_changed e s = view_from-append blank s.events_queue e

-- A predicate of every sink.
abbrev pub All : (EventsStreamReactor → Type 0) → List EventsStreamReactor → Type 0
All P [] = Unit
All P (s ∷ l) = P s × All P l

pub All-map :
    (P Q : EventsStreamReactor → Type 0) (f : EventsStreamReactor → EventsStreamReactor)
    (l : List EventsStreamReactor)
    → ((s : EventsStreamReactor) → P s → Q (f s))
    → All P l
    → All Q (map f l)
All-map P Q f [] h a = tt
All-map P Q f (s ∷ l) h a = (h s a.0, All-map P Q f l h a.1)

pub All-append :
    (P : EventsStreamReactor → Type 0) (l : List EventsStreamReactor) (s : EventsStreamReactor)
    → All P l
    → P s
    → All P (l ++ s ∷ [])
All-append P [] s a h = (h, tt)
All-append P (x ∷ l) s a h = (a.0, All-append P l s a.1 h)

pub All-remove_sink :
    (P : EventsStreamReactor → Type 0) (id : ℕ) (l : List EventsStreamReactor)
    → All P l
    → All P (remove_sink id l)
unfolding remove_sink
All-remove_sink P id [] a = tt
All-remove_sink P id (s ∷ l) a = elim (Bool-cases (s.reactor_id == id)) [
  | inl e ↦ rw e (All-remove_sink P id l a.1)
  | inr e ↦ rw e (a.0, All-remove_sink P id l a.1)
]

-- What a subscriber knows of the power and of the steam mode after one more event.
abbrev pub power_after : Event → Bool → Bool
power_after (power_state b) a = b
power_after _ a = a

abbrev pub steam_after : Event → Bool → Bool
steam_after (steam_mode_state b) a = b
steam_after _ a = a

abbrev pub brew_after : Event → Bool → Bool
brew_after (brew_state b) a = b
brew_after _ a = a

-- Every subscriber knows these states.
abbrev pub Sees : Bool → Bool → List EventsStreamReactor → Type 0
Sees power steam = All (λ s. ((view s).power ≡ some power) × ((view s).steam ≡ some steam))

abbrev pub SeesBrew : Bool → List EventsStreamReactor → Type 0
SeesBrew brew = All (λ s. (view s).brew ≡ some brew)

abbrev pub SeesHeater : HeatingStatus → List EventsStreamReactor → Type 0
SeesHeater status = All (λ s. (view s).heater ≡ some status)

see_modes :
    (e : Event) (v : View) (power steam : Bool)
    → v.power ≡ some power
    → v.steam ≡ some steam
    → ((see v e).power ≡ some (power_after e power))
      × ((see v e).steam ≡ some (steam_after e steam))
see_modes e v power steam p s = ground arith

see_brew :
    (e : Event) (v : View) (brew : Bool)
    → v.brew ≡ some brew
    → (see v e).brew ≡ some (brew_after e brew)
see_brew e v brew p = ground arith

-- Whatever they knew before, all are told.
pub SeesHeater-told :
    (status : HeatingStatus) (l : List EventsStreamReactor)
    → SeesHeater status (map (notify_changed (heater_state status)) l)
SeesHeater-told status [] = tt
SeesHeater-told status (s ∷ l) = (
  ap (λ (v : View). v.heater) (view-notify_changed (heater_state status) s),
  SeesHeater-told status l,
)

pub Sees-notify_changed :
    (e : Event) (power steam : Bool) (l : List EventsStreamReactor)
    → Sees power steam l
    → Sees (power_after e power) (steam_after e steam) (map (notify_changed e) l)
Sees-notify_changed e power steam l a =
    All-map _ _ (notify_changed e) l
      (λ s h. rw (view-notify_changed e s) (see_modes e (view s) power steam h.0 h.1)) a

pub SeesBrew-notify_changed :
    (e : Event) (brew : Bool) (l : List EventsStreamReactor)
    → SeesBrew brew l
    → SeesBrew (brew_after e brew) (map (notify_changed e) l)
SeesBrew-notify_changed e brew l a =
    All-map _ _ (notify_changed e) l
      (λ s h. rw (view-notify_changed e s) (see_brew e (view s) brew h)) a

-- Events sent one after another are seen one after another.
pub view-send_all :
    (l : List Event) (s : EventsStreamReactor) → view (send_all l s) ≡ view_from (view s) l
unfolding send_all view_from
view-send_all [] s = refl
view-send_all (e ∷ l) s =
    view-send_all l (notify_changed e s) ∙ ap (λ v. view_from v l) (view-notify_changed e s)
