-- ===== src/Base/Lists.antt =====
-- Lists over the native numbers: length, Boolean filters, and a predicate on all entries.
use Prim.Native.Nat.{ℕ, suc, ◌+◌}
use mathlib.Core.Path.{◌≡◌, refl}
use mathlib.Core.Logic.{inl, inr}
use mathlib.Core.Bool.{Bool, false, not, ◌||◌}
use mathlib.Core.List.{List, [], ◌∷◌, ◌++◌, Perm, perm_middle}
use mathlib.Core.List.Perm
use native.Mathlib.Omega.{arith}
use xgameruntime_rs.Base.Tests.{◌==◌, if◌then◌else◌, Bool-cases}

module _ {ℓ} {A : Type ℓ} where
  abbrev pub length : List A → ℕ
  length [] = 0
  length (x ∷ xs) = suc (length xs)

  pub length-append : (xs ys : List A) → length (xs ++ ys) ≡ length xs + length ys
  length-append [] ys = omega arith
  length-append (x ∷ xs) ys = omega (arith, length-append xs ys)

  -- The entries that pass a Boolean test, in order.
  abbrev pub keep_if : (A → Bool) → List A → List A
  keep_if p [] = []
  keep_if p (x ∷ xs) = if p x then x ∷ keep_if p xs else keep_if p xs

  pub keep_if-append :
      (p : A → Bool) (xs ys : List A) → keep_if p (xs ++ ys) ≡ keep_if p xs ++ keep_if p ys
  keep_if-append p [] ys = refl
  keep_if-append p (x ∷ xs) ys = ground (arith, keep_if-append p xs ys)

  -- What passes and what fails a test make up the list.
  pub drop_if-perm :
      (p : A → Bool) (xs : List A) → Perm xs (keep_if p xs ++ keep_if (λ x. not (p x)) xs)
  drop_if-perm p [] = Perm.nil
  drop_if-perm p (x ∷ xs) = elim (Bool-cases (p x)) [
    | inl e ↦ rw e (Perm.cons x (drop_if-perm p xs))
    | inr e ↦ rw e (
        Perm.trans (Perm.cons x (drop_if-perm p xs))
          (Perm.symm (perm_middle (keep_if p xs) (keep_if (λ y. not (p y)) xs))))
  ]

  abbrev pub All {κ} : (A → Type κ) → List A → Type κ
  All P [] = Unit
  All P (x ∷ xs) = P x × All P xs

  pub All-append {κ} : (P : A → Type κ) (xs ys : List A) → All P xs → All P ys → All P (xs ++ ys)
  All-append P [] ys h k = k
  All-append P (x ∷ xs) ys h k = (h.0, All-append P xs ys h.1 k)

  pub All-append_left {κ} : (P : A → Type κ) (xs ys : List A) → All P (xs ++ ys) → All P xs
  All-append_left P [] ys h = tt
  All-append_left P (x ∷ xs) ys h = (h.0, All-append_left P xs ys h.1)

  pub All-append_right {κ} : (P : A → Type κ) (xs ys : List A) → All P (xs ++ ys) → All P ys
  All-append_right P [] ys h = h
  All-append_right P (x ∷ xs) ys h = All-append_right P xs ys h.1

-- Membership in a list of numbers, as a test.
abbrev pub is_listed : ℕ → List ℕ → Bool
is_listed name [] = false
is_listed name (n ∷ ns) = (n == name) || is_listed name ns

pub is_listed-append :
    (name : ℕ) (ns : List ℕ) (n : ℕ)
    → is_listed name (ns ++ n ∷ []) ≡ ((n == name) || is_listed name ns)
is_listed-append name [] n = ground arith
is_listed-append name (m ∷ ns) n = ground (arith, is_listed-append name ns n)

pub is_listed-keep_if :
    (name gone : ℕ) (ns : List ℕ)
    → is_listed name (keep_if (λ n. not (n == gone)) ns)
      ≡ (if gone == name then false else is_listed name ns)
is_listed-keep_if name gone [] = ground arith
is_listed-keep_if name gone (n ∷ ns) = ground (arith, is_listed-keep_if name gone ns)
