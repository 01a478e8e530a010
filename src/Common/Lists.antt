-- ===== src/Common/Lists.antt =====
-- Lists over the native numbers, and the standard algorithms that the program calls.
use Prim.Native.Nat.{ℕ, zero, suc, ◌+◌, ◌-◌}
use mathlib.Core.Path.{◌≡◌, refl}
use mathlib.Core.Bool.{Bool, true, false, ◌||◌}
use mathlib.Core.List.{List, [], ◌∷◌, ◌++◌}
use mathlib.Core.Option.{Option, none, some}
use native.Mathlib.Omega.{arith}
use near_object_framework.Common.Tests.{if◌then◌else◌}

module _ {ℓ} {A : Type ℓ} where
  abbrev pub length : List A → ℕ
  length [] = 0
  length (x ∷ xs) = suc (length xs)

  abbrev pub get_elem? : List A → ℕ → Option A
  get_elem? [] i = none
  get_elem? (x ∷ xs) zero = some x
  get_elem? (x ∷ xs) (suc i) = get_elem? xs i

  abbrev pub drop : ℕ → List A → List A
  drop zero xs = xs
  drop (suc n) [] = []
  drop (suc n) (x ∷ xs) = drop n xs

  abbrev pub take : ℕ → List A → List A
  take zero xs = []
  take (suc n) [] = []
  take (suc n) (x ∷ xs) = x ∷ take n xs

  -- std::vector::empty and std::queue::empty.
  abbrev pub is_empty : List A → Bool
  is_empty [] = true
  is_empty (x ∷ xs) = false

  -- std::any_of.
  abbrev pub any_of : (A → Bool) → List A → Bool
  any_of p [] = false
  any_of p (x ∷ xs) = p x || any_of p xs

  -- The elements that pass the test, in their order: std::copy_if.
  abbrev pub copy_if : (A → Bool) → List A → List A
  copy_if p [] = []
  copy_if p (x ∷ xs) = if p x then x ∷ copy_if p xs else copy_if p xs

  pub length-append : (xs ys : List A) → length (xs ++ ys) ≡ length xs + length ys
  length-append [] ys = omega arith
  length-append (x ∷ xs) ys = omega (arith, length-append xs ys)

  pub drop-append : (xs ys : List A) (n : ℕ) → n ≡ length xs → drop n (xs ++ ys) ≡ ys
  drop-append [] ys zero e = refl
  drop-append [] ys (suc n) e = absurd (omega arith)
  drop-append (x ∷ xs) ys zero e = absurd (omega arith)
  drop-append (x ∷ xs) ys (suc n) e = drop-append xs ys n (omega arith)

  pub length-drop : (n : ℕ) (xs : List A) → length (drop n xs) ≡ length xs - n
  length-drop zero xs = omega arith
  length-drop (suc n) [] = omega arith
  length-drop (suc n) (x ∷ xs) = omega (arith, length-drop n xs)

  pub copy_if_all : (p : A → Bool) (xs : List A) → ((x : A) → p x ≡ true) → copy_if p xs ≡ xs
  copy_if_all p [] h = refl
  copy_if_all p (x ∷ xs) h = ground (arith, h x, copy_if_all p xs h)

  pub copy_if-append :
      (p : A → Bool) (xs ys : List A) → copy_if p (xs ++ ys) ≡ copy_if p xs ++ copy_if p ys
  copy_if-append p [] ys = refl
  copy_if-append p (x ∷ xs) ys = ground (arith, copy_if-append p xs ys)

  -- Every element of the list satisfies the predicate.
  abbrev pub Every {κ} : (A → Type κ) → List A → Type κ
  Every Q [] = Unit {κ}
  Every Q (y ∷ ys) = Q y × Every Q ys

  pub Every-append {κ} :
      (front rest : List A) (Q : A → Type κ)
      → Every Q front
      → Every Q rest
      → Every Q (front ++ rest)
  Every-append [] rest Q f r = r
  Every-append (y ∷ front) rest Q f r = (f.0, Every-append front rest Q f.1 r)

  pub Every-copy_if : (p : A → Bool) (xs : List A) → Every (λ x. p x ≡ true) (copy_if p xs)
  Every-copy_if p [] = tt
  Every-copy_if p (x ∷ xs) = ground (arith, Every-copy_if p xs)

  pub copy_if_of_Every :
      (p : A → Bool) (xs : List A) → Every (λ x. p x ≡ true) xs → copy_if p xs ≡ xs
  copy_if_of_Every p [] h = refl
  copy_if_of_Every p (x ∷ xs) h = rw h.0 (rw (copy_if_of_Every p xs h.1))

  pub copy_if_none : (p : A → Bool) (xs : List A) → Every (λ x. p x ≡ false) xs → copy_if p xs ≡ []
  copy_if_none p [] h = refl
  copy_if_none p (x ∷ xs) h = rw h.0 (copy_if_none p xs h.1)
