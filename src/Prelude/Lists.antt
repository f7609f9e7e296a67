-- ===== src/Prelude/Lists.antt =====
-- Lengths of lists over the native numbers, and appending at the end.
use Prim.Native.Nat.{ℕ, ◌+◌}
use mathlib.Core.Path.{◌≡◌, refl, ap}
use mathlib.Core.List.{List, [], ◌∷◌, ◌++◌}
use native.Mathlib.Omega.{arith}

unfoldable pub length {ℓ} : {A : Type ℓ} → List A → ℕ
length [] = 0
length (x ∷ l) = length l + 1

pub length-snoc {ℓ} : {A : Type ℓ} (l : List A) (a : A) → length (l ++ a ∷ []) ≡ length l + 1
unfolding length
length-snoc [] a = refl
length-snoc (x ∷ l) a = ap (λ n. n + 1) (length-snoc l a)

pub append_assoc {ℓ} : {A : Type ℓ} (k l m : List A) → k ++ l ++ m ≡ k ++ (l ++ m)
append_assoc [] l m = refl
append_assoc (x ∷ k) l m = ap (λ n. x ∷ n) (append_assoc k l m)

pub append_nil {ℓ} : {A : Type ℓ} (l : List A) → l ++ [] ≡ l
append_nil [] = refl
append_nil (x ∷ l) = ap (λ n. x ∷ n) (append_nil l)

pub length_zero {ℓ} : {A : Type ℓ} (l : List A) → length l ≡ 0 → l ≡ []
unfolding length
length_zero [] h = refl
length_zero (x ∷ l) h = absurd (omega arith)
