-- ===== src/Session/Membership.antt =====
-- Which objects RemoveNearObjects takes out, and how its event names them.
use mathlib.Core.List.{Perm, perm_middle}
use mathlib.Core.List.Perm
use near_object_framework.Common.{
  ◌≡◌, refl, inl, inr, Bool, true, false, not, List, [], ◌∷◌, ◌++◌, arith, copy_if, Every,
  Every-copy_if, ==_self, Bool-cases, ap,
}
use near_object_framework.NearObject.{NearObject, same_pointer}
use near_object_framework.Session.{is_named, stable_partition}

module _ {A : Type 0} where
  -- Two tests that agree on the elements select the same elements.
  pub copy_if_congr :
      (p q : A → Bool) (xs : List A) → Every (λ x. p x ≡ q x) xs → copy_if p xs ≡ copy_if q xs
  copy_if_congr p q [] h = refl
  copy_if_congr p q (x ∷ xs) h = ground (arith, copy_if_congr p q xs h.1)

  pub Every-map : {P Q : A → Type 0} (xs : List A) → ((x : A) → P x → Q x) → Every P xs → Every Q xs
  Every-map [] f h = tt
  Every-map (x ∷ xs) f h = (f x h.0, Every-map xs f h.1)

  pub Every-copy_if_of_Every :
      (P : A → Type 0) (p : A → Bool) (xs : List A) → Every P xs → Every P (copy_if p xs)
  Every-copy_if_of_Every P p [] h = tt
  Every-copy_if_of_Every P p (x ∷ xs) h = elim (Bool-cases (p x)) [
    | inl kept ↦ rw kept (h.0, Every-copy_if_of_Every P p xs h.1)
    | inr dropped ↦ rw dropped (Every-copy_if_of_Every P p xs h.1)
  ]

  pub partition-perm :
      (p : A → Bool) (xs : List A) → Perm xs (copy_if p xs ++ copy_if (λ x. not (p x)) xs)
  partition-perm p [] = Perm.nil
  partition-perm p (x ∷ xs) =
      let rest = Perm.cons x (partition-perm p xs) in
      elim (Bool-cases (p x)) [
        | inl kept ↦ rw kept rest
        | inr dropped ↦
            rw dropped (
              Perm.trans rest
                (Perm.symm (perm_middle (copy_if p xs) (copy_if (λ x. not (p x)) xs))))
      ]

module _ {D : Type 0} where
  -- Whether an object is named depends on its pointer alone.
  is_named-congr :
      (named : List (NearObject D)) (a b : NearObject D)
      → same_pointer a b ≡ true
      → is_named named a ≡ is_named named b
  is_named-congr [] a b h = refl
  is_named-congr (x ∷ named) a b h = ground (arith, is_named-congr named a b h)

  not_named :
      (named removed : List (NearObject D)) (o : NearObject D)
      → Every (λ r. is_named named r ≡ true) removed
      → is_named named o ≡ false
      → is_named removed o ≡ false
  not_named named [] o h e = refl
  not_named named (r ∷ removed) o h e =
      ground (arith, not_named named removed o h.1 e, is_named-congr named o r)

  named_if_selected :
      (test : NearObject D → Bool) (xs ys : List (NearObject D))
      → ((o : NearObject D) → is_named (copy_if test xs) o ≡ true → is_named ys o ≡ true)
      → Every (λ o. test o ≡ true → is_named ys o ≡ true) xs
  named_if_selected test [] ys sub = tt
  named_if_selected test (x ∷ xs) ys sub = (
    λ t. sub x (rw t (ground (arith, ==_self x.address))),
    named_if_selected test xs ys (λ o h. sub o (ground arith)),
  )

  -- Dropping the pointers that the event lists leaves what dropping the caller's list leaves.
  pub copy_if-removed :
      (named members : List (NearObject D))
      → let removed = (stable_partition (λ o. not (is_named named o)) members).1 in
        copy_if (λ o. not (is_named removed o)) members
        ≡ copy_if (λ o. not (is_named named o)) members
  copy_if-removed named members = copy_if_congr _ _ members (Every-map members agree selected)
    where
      removed : List (NearObject D)
      removed = (stable_partition (λ o. not (is_named named o)) members).1

      selected :
          Every (λ o. not (not (is_named named o)) ≡ true → is_named removed o ≡ true) members
      selected = named_if_selected (λ o. not (not (is_named named o))) members removed (λ o h. h)

      named_all : Every (λ r. is_named named r ≡ true) removed
      named_all =
          Every-map removed (λ r h. ground arith)
            (Every-copy_if (λ o. not (not (is_named named o))) members)

      agree :
          (o : NearObject D)
          → (not (not (is_named named o)) ≡ true → is_named removed o ≡ true)
          → not (is_named removed o) ≡ not (is_named named o)
      agree o h = elim (Bool-cases (is_named named o)) [
        | inl yes_named ↦ rw yes_named (ap not (h (rw yes_named)))
        | inr no_named ↦ rw no_named (ap not (not_named named removed o named_all no_named))
      ]
