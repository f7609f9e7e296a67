-- ===== src/Status/Publishing.antt =====
-- What the status callback is told: every call of it, and no other change of the status.
use openpressod.Prelude.{
  ℤ, ℕ, Bool, true, false, Option, List, [], ◌∷◌, ◌++◌, ◌≡◌, refl, ap, ◌∙◌, inl, inr, Bool-cases,
  Option-cases, append_assoc, append_nil, sym, ltb, leb, ◌+◌,
}
use openpressod.Messages.{HeatingStatus, disabled, preheat, ready, overheat}
use openpressod.Core.{Core, Readings}
use openpressod.Status.{
  StatusManager, TemperatureCallback, Pacing, fixed_rate, variable_rate, same, set_callback,
  unregister_temperature_callback, publish_status, apply_status, disable, set_pacing,
  fixed_rate_call, variable_rate_call, temperature_call, on_temperature, indicate,
  indicate_brew_state, indicate_steam_state, since_or,
}

-- The last of a list, or `x` if it is empty.
abbrev pub last_or {ℓ} : {A : Type ℓ} → A → List A → A
last_or x [] = x
last_or x (y ∷ l) = last_or y l

pub last_or-snoc {ℓ} : {A : Type ℓ} (x : A) (l : List A) (y : A) → last_or x (l ++ y ∷ []) ≡ y
last_or-snoc x [] y = refl
last_or-snoc x (z ∷ l) y = last_or-snoc z l y

-- What a list has after its beginning `k`.
abbrev pub rest_after {ℓ} : {A : Type ℓ} → List A → List A → List A
rest_after [] l = l
rest_after (x ∷ k) [] = []
rest_after (x ∷ k) (y ∷ l) = rest_after k l

pub rest_after-append {ℓ} : {A : Type ℓ} (k l : List A) → rest_after k (k ++ l) ≡ l
rest_after-append [] l = refl
rest_after-append (x ∷ k) l = rest_after-append k l

-- The callback is installed and was told `news` since the calls `old`, and the status that was
-- `before` is now the last of them.
pub record Told (old : List HeatingStatus) (before : HeatingStatus) (installed : Bool)
    (notified : List HeatingStatus) (status : HeatingStatus) : Type 0 where
  pub news : List HeatingStatus
  pub is_installed : installed ≡ true
  pub appended : notified ≡ old ++ news
  pub latest : status ≡ last_or before news

module _ {core : Core} where
  -- `t` is what `s` became.
  abbrev pub Follows : StatusManager core → StatusManager core → Type 0
  Follows s t = Told s.notified s.heating_status t.callback_installed t.notified t.heating_status

  pub Follows-refl : (s : StatusManager core) → s.callback_installed ≡ true → Follows s s
  Follows-refl s h = record {
    news = [];
    is_installed = h;
    appended = sym (append_nil s.notified);
    latest = refl;
  }

  pub set_callback-installed : (s : StatusManager core) → (set_callback s).callback_installed ≡ true
  unfolding set_callback
  set_callback-installed s = refl

  -- What the callback was told meanwhile.
  abbrev pub told_since : StatusManager core → StatusManager core → List HeatingStatus
  told_since s t = rest_after s.notified t.notified

  pub told_since-news : (s t : StatusManager core) (v : Follows s t) → told_since s t ≡ v.news
  told_since-news s t v =
      ap (rest_after s.notified) v.appended ∙ rest_after-append s.notified v.news

  -- Nothing is told while nothing happens.
  pub told_since-same : (s : StatusManager core) → told_since s s ≡ []
  told_since-same s =
      ap (rest_after s.notified) (sym (append_nil s.notified)) ∙ rest_after-append s.notified []

  module _ (s : StatusManager core) where
    publish-Follows :
        (x : HeatingStatus) (t : StatusManager core) → Follows s t → Follows s (publish_status x t)
    unfolding publish_status
    publish-Follows x t v = elim (Bool-cases (same x t.heating_status_cached)) [
      | inl e ↦ rw e v
      | inr e ↦
          rw (e, v.is_installed)
            (record {
              news = v.news ++ x ∷ [];
              is_installed = refl;
              appended = ap (λ l. l ++ x ∷ []) v.appended ∙ append_assoc s.notified v.news (x ∷ []);
              latest = sym (last_or-snoc s.heating_status v.news x);
            })
    ]

    apply_status-Follows :
        (b : Bool) (x : HeatingStatus) (t : StatusManager core)
        → Follows s t
        → Follows s (apply_status b x t)
    unfolding apply_status
    apply_status-Follows true x t v = publish-Follows x _ v
    apply_status-Follows false x t v = publish-Follows x _ v

    pub disable-Follows : (t : StatusManager core) → Follows s t → Follows s (disable t)
    unfolding disable unregister_temperature_callback
    disable-Follows t v = publish-Follows disabled _ v

    indicate-Follows :
        (b : Bool) (target window : ℤ) (r : Readings) (t : StatusManager core)
        → Follows s t
        → Follows s (indicate b target window r t)
    unfolding indicate unregister_temperature_callback
    indicate-Follows b target window r t v = apply_status-Follows b _ _ v

    pub indicate_brew_state-Follows :
        (target : ℤ) (r : Readings) (t : StatusManager core)
        → Follows s t
        → Follows s (indicate_brew_state target r t)
    unfolding indicate_brew_state
    indicate_brew_state-Follows target r t v = indicate-Follows false target _ r t v

    pub indicate_steam_state-Follows :
        (target : ℤ) (r : Readings) (t : StatusManager core)
        → Follows s t
        → Follows s (indicate_steam_state target r t)
    unfolding indicate_steam_state
    indicate_steam_state-Follows target r t v = indicate-Follows true target _ r t v

    fixed_rate_call-Follows :
        (cb : TemperatureCallback) (n k : ℕ) (x : HeatingStatus) (t : StatusManager core)
        → Follows s t
        → Follows s (fixed_rate_call cb n k x t)
    unfolding fixed_rate_call set_pacing
    fixed_rate_call-Follows cb n k ready t v =
        elim (Bool-cases (same t.heating_status_cached ready)) [
          | inl e ↦ rw e v
          | inr e ↦ elim (Bool-cases (ltb (k + 1) n)) [
            | inl f ↦ rw (e, f) v
            | inr f ↦ rw (e, f) (apply_status-Follows cb.steam_mode ready _ v)
          ]
        ]
    fixed_rate_call-Follows cb n k disabled t v = apply_status-Follows cb.steam_mode _ _ v
    fixed_rate_call-Follows cb n k preheat t v = apply_status-Follows cb.steam_mode _ _ v
    fixed_rate_call-Follows cb n k overheat t v = apply_status-Follows cb.steam_mode _ _ v

    variable_rate_call-Follows :
        (cb : TemperatureCallback) (o : Option ℕ) (k : ℕ) (x : HeatingStatus)
        (t : StatusManager core)
        → Follows s t
        → Follows s (variable_rate_call cb o k x t)
    unfolding variable_rate_call set_pacing
    variable_rate_call-Follows cb o k ready t v =
        elim (Bool-cases (same t.heating_status_cached ready)) [
          | inl e ↦ rw e v
          | inr e ↦ elim (Bool-cases (leb (since_or o k + t.ready_hysteresis_period) k)) [
            | inl f ↦ rw (e, f) (apply_status-Follows cb.steam_mode ready _ v)
            | inr f ↦ rw (e, f) v
          ]
        ]
    variable_rate_call-Follows cb o k disabled t v = apply_status-Follows cb.steam_mode _ _ v
    variable_rate_call-Follows cb o k preheat t v = apply_status-Follows cb.steam_mode _ _ v
    variable_rate_call-Follows cb o k overheat t v = apply_status-Follows cb.steam_mode _ _ v

    temperature_call-Follows :
        (cb : TemperatureCallback) (p : Pacing) (r : Readings) (t : StatusManager core)
        → Follows s t
        → Follows s (temperature_call cb p r t)
    unfolding temperature_call
    temperature_call-Follows cb (fixed_rate n k) r t v = fixed_rate_call-Follows cb n k _ t v
    temperature_call-Follows cb (variable_rate o) r t v =
        variable_rate_call-Follows cb o r.clock _ t v

    pub on_temperature-Follows :
        (r : Readings) (t : StatusManager core) → Follows s t → Follows s (on_temperature r t)
    unfolding on_temperature
    on_temperature-Follows r t v = elim (Option-cases t.temperature_callback) [
      | inl e ↦ rw (e, on_temperature) v
      | inr (cb, e) ↦ rw (e, on_temperature) (temperature_call-Follows cb cb.pacing r t v)
    ]
