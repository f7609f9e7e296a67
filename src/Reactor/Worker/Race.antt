-- ===== src/Reactor/Worker/Race.antt =====
-- The worker between the two halves of `pushEvent`.
use openpressod.Prelude.{ℕ, ◌+◌, ◌-◌, true, [], ◌∷◌, ◌≡◌, ◌≢◌, refl, arith, length}
use openpressod.Messages.{Event}
use openpressod.Reactor.{
  size_mod, WriteStatus, make, enqueue_event, count_event, on_write_done, on_cancel,
}
use openpressod.Reactor.Worker.{
  finished, Stream, open_stream, push, count, splice, subtract, start_write, write_done, pop, Reach,
  pushes, counts, wakes, subtracts, writes, confirms, pops, here, next,
}

one_pos : 0 + 1 ≢ 0
one_pos = omega arith

last_pos : size_mod - 1 ≢ 0
last_pos = omega arith

-- Any three events, pushed one after another by one thread, can end the stream although nobody has
-- cancelled it and no write has failed: the worker takes the second event before it is counted, the
-- size goes round to 2^64 - 1, and once the two events are written the worker wakes to an empty
-- queue and finishes. The third event is queued and never written.
pub push-splice_race :
    (id : ℕ) (a b c : Event)
    → (s : Stream) × Reach (open_stream id) s
      × (s.stage ≡ finished)
      × (s.cancels ≡ 0)
      × (s.reactor.write_status ≡ WriteStatus.idle)
      × (s.pushed ≡ a ∷ b ∷ c ∷ [])
      × (s.written ≡ a ∷ b ∷ [])
      × (s.reactor.events_queue ≡ c ∷ [])
unfolding open_stream push count splice subtract start_write write_done pop make enqueue_event
    count_event on_write_done on_cancel length
push-splice_race id a b c =
    let counted = next (next here (pushes a refl)) (counts refl) in
    let half = next counted (pushes b refl) in
    let took = next (next half (wakes refl (λ h. one_pos h))) (subtracts refl) in
    let first =
      next (next (next took (writes refl)) (confirms true refl refl))
        (pops a (b ∷ []) refl refl (λ h. ground arith)) in
    let second =
      next (next (next first (writes refl)) (confirms true refl refl))
        (pops b [] refl refl (λ h. ground arith)) in
    let ended = next (next second (wakes refl (λ h. last_pos h))) (subtracts refl) in
    let third = next (next ended (counts refl)) (pushes c refl) in
    (_, third, refl, refl, refl, refl, refl, refl)
