-- ===== src/Base/Count.antt =====
-- How many entries of a list pass a Boolean test. Two lists that agree on every test hold the same
-- entries, as often.
use Prim.Native.Nat.{ℕ, suc, ◌+◌}
use mathlib.Core.Path.{◌≡◌, refl}
use mathlib.Core.Bool.{Bool, true, not}
use mathlib.Core.List.{List, [], ◌∷◌, ◌++◌}
use native.Mathlib.Omega.{arith}
use xgameruntime_rs.Base.Tests.{if◌then◌else◌}
use xgameruntime_rs.Base.Lists.{length, keep_if}

module _ {ℓ} {A : Type ℓ} where
  abbrev pub count_if : (A → Bool) → List A → ℕ
  count_if p [] = 0
  count_if p (x ∷ xs) = if p x then suc (count_if p xs) else count_if p xs

  pub count_if-append :
      (p : A → Bool) (xs ys : List A) → count_if p (xs ++ ys) ≡ count_if p xs + count_if p ys
  count_if-append p [] ys = omega arith
  count_if-append p (x ∷ xs) ys = ground (arith, count_if-append p xs ys)

  pub count_if-keep_if :
      (p q : A → Bool) (xs : List A)
      → count_if p xs ≡ count_if p (keep_if q xs) + count_if p (keep_if (λ x. not (q x)) xs)
  count_if-keep_if p q [] = refl
  count_if-keep_if p q (x ∷ xs) = ground (arith, count_if-keep_if p q xs)

  pub count_if-length : (xs : List A) → count_if (λ _. true) xs ≡ length xs
  count_if-length [] = refl
  count_if-length (x ∷ xs) = omega (arith, count_if-length xs)

  -- `xs` holds what `ys` and `zs` hold together.
  abbrev pub Splits : List A → List A → List A → Type ℓ
  Splits xs ys zs = (p : A → Bool) → count_if p xs ≡ count_if p ys + count_if p zs

  pub Splits-length : (xs ys zs : List A) → Splits xs ys zs → length xs ≡ length ys + length zs
  Splits-length xs ys zs h =
      omega (arith, h (λ _. true), count_if-length xs, count_if-length ys, count_if-length zs)
