-- ===== src/Main/Ends.antt =====
-- How the process ends.
use Prim.Native.String.{String}
use openpressod.Prelude.{
  Bool, true, List, [], ◌∷◌, ◌≡◌, ◌≢◌, ◌↔◌, ◌⊎◌, inl, inr, refl, arith, Bool-cases,
}
use openpressod.Core.{Core, Readings}
use openpressod.Results.{Error, Result, ok, err, done, no_signal_handler, Result-cases}
use openpressod.Files.{File, Json}
use openpressod.Config.{ConfigLibrary}
use openpressod.ConfigMaker.Components.{DeviceConfig}
use openpressod.Daemon.Start.{Hardware, Daemon}
use openpressod.Main.{
  Signal, interrupt, terminate, hang_up, config_path, exited, terminated, waits, ex_ok, ex_software,
  register_exit_handler, init, exit_signals_handler, exit_flag, serve_until_signal, start_from_file,
  main,
}

-- The exit flag is set by the first signal, whichever it is, and stays set.
exit_flag_iff : (signals : List Signal) → (exit_flag signals ≡ true) ↔ (signals ≢ [])
unfolding exit_flag exit_signals_handler
exit_flag_iff [] = (λ h. absurd (ground arith), λ h. absurd (h refl))
exit_flag_iff (s ∷ l) = (λ h e. ground arith, λ h. refl)

-- All three handlers have been registered.
abbrev pub AllAccepted : (Signal → Bool) → Type 0
AllAccepted accepts =
    (accepts interrupt ≡ true) × (accepts terminate ≡ true) × (accepts hang_up ≡ true)

init-cases :
    (accepts : Signal → Bool)
    → ((init accepts ≡ done) × AllAccepted accepts)
      ⊎ (((e : Error) × (init accepts ≡ err e)) × (¬ AllAccepted accepts))
unfolding init register_exit_handler
init-cases accepts = elim (Bool-cases (accepts interrupt)) [
  | inr a ↦ inr ((no_signal_handler, ground arith), λ h. ground (arith, h.0))
  | inl a ↦ elim (Bool-cases (accepts terminate)) [
    | inr b ↦ inr ((no_signal_handler, ground arith), λ h. ground (arith, h.1))
    | inl b ↦ elim (Bool-cases (accepts hang_up)) [
      | inr c ↦ inr ((no_signal_handler, ground arith), λ h. ground (arith, h.2))
      | inl c ↦ inl (ground arith, (a, b, c))
    ]
  ]
]

both : {A B : Type 0} → A → B → A ↔ B
both a b = (λ x. b, λ y. a)

neither : {A B : Type 0} → ¬ A → ¬ B → A ↔ B
neither a b = (λ x. absurd (a x), λ y. absurd (b y))

signals-cases : (l : List Signal) → (l ≡ []) ⊎ ((l ≢ []) × (exit_flag l ≡ true))
signals-cases [] = inl refl
signals-cases (s ∷ l) = inr (λ e. ground arith, (exit_flag_iff (s ∷ l)).1 (λ e. ground arith))

-- With the path of a configuration file: the process returns EX_OK exactly if all handlers have been
-- registered, the daemon's constructor has thrown nothing and a signal has arrived, also one that
-- arrived before the wait; EX_SOFTWARE exactly if they have and the constructor has thrown; it waits
-- exactly if the daemon runs and no signal has arrived; and an exception leaves `main` exactly if a
-- handler has been refused.
pub main-ends :
    {core : Core} (lib : ConfigLibrary) (read_file : String → Result lib.Value)
    (get_core : DeviceConfig lib → Result (Hardware core)) (json : Json) (files : String → File)
    (r : Readings) (path : String) (accepts : Signal → Bool) (signals : List Signal)
    → let outcome = main lib read_file get_core json files r (config_path path) accepts signals in
      let daemon = start_from_file lib read_file get_core json files r path in
      let starts = (d : Daemon core) × (daemon ≡ ok d) in
      ((outcome ≡ exited ex_ok) ↔ (AllAccepted accepts × starts × (signals ≢ [])))
      × ((outcome ≡ exited ex_software) ↔ (AllAccepted accepts × ((e : Error) × (daemon ≡ err e))))
      × ((outcome ≡ waits) ↔ (AllAccepted accepts × starts × (signals ≡ [])))
      × ((outcome ≡ terminated) ↔ ¬ AllAccepted accepts)
unfolding main serve_until_signal exit_flag
main-ends {core} lib read_file get_core json files r path accepts signals =
    let daemon = start_from_file lib read_file get_core json files r path in
    elim (init-cases accepts) [
      | inr ((x, e), refused) ↦ (
        neither (λ h. ground arith) (λ h. refused h.0),
        neither (λ h. ground arith) (λ h. refused h.0),
        neither (λ h. ground arith) (λ h. refused h.0),
        both (ground arith) refused,
      )
      | inl (e, all) ↦ elim (Result-cases daemon) [
        | inr (x, thrown) ↦ (
          neither (λ h. ground arith) (λ h. ground (arith, h.1.1)),
          both (ground arith) (all, (x, thrown)),
          neither (λ h. ground arith) (λ h. ground (arith, h.1.1)),
          neither (λ h. ground arith) (λ h. h all),
        )
        | inl (d, made) ↦ elim (signals-cases signals) [
          | inl none_yet ↦ (
            neither (λ h. ground arith) (λ h. h.2 none_yet),
            neither (λ h. ground arith) (λ h. ground (arith, h.1.1)),
            both (ground arith) (all, (d, made), none_yet),
            neither (λ h. ground arith) (λ h. h all),
          )
          | inr (some_came, flag) ↦ (
            both (ground arith) (all, (d, made), some_came),
            neither (λ h. ground arith) (λ h. ground (arith, h.1.1)),
            neither (λ h. ground arith) (λ h. some_came h.2),
            neither (λ h. ground arith) (λ h. h all),
          )
        ]
      ]
    ]
