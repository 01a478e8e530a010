-- ===== src/Session/Members.antt =====
-- What AddNearObjects and RemoveNearObjects do to the members.
use mathlib.Core.List.{Perm}
use near_object_framework.Common.{
  ◌≡◌, Bool, Bool-cases, inl, inr, true, false, not, List, [], ◌∷◌, ◌++◌, some, arith, any_of,
  copy_if, Every, Every-copy_if, Every-append,
}
use near_object_framework.NearObject.{DoubleEq, NearObject, near_object_eq}
use near_object_framework.Session.{
  Session, on_session_membership_changed, is_named, new_objects, stable_partition, add_near_objects,
  remove_near_objects,
}
use near_object_framework.Session.Membership.{partition-perm, Every-map, Every-copy_if_of_Every}
use near_object_framework.TaskQueue

module _ {D : Type 0} where
  -- RemoveNearObjects, where it does not throw: the members that stay and the objects that the
  -- event reports as removed are together the old members; no pointer that stays was named, every
  -- removed one was; and the event is the one posted.
  pub remove_near_objects_lem :
      (named : List (NearObject D)) (s t : Session D)
      → remove_near_objects named s ≡ (t, some tt)
      → (removed : List (NearObject D)) × Perm s.m_near_objects (t.m_near_objects ++ removed)
        × Every (λ o. is_named named o ≡ false) t.m_near_objects
        × Every (λ o. is_named named o ≡ true) removed
        × (t.m_task_queue.posted
            ≡ s.m_task_queue.posted ++ on_session_membership_changed [] removed ∷ [])
  unfolding remove_near_objects TaskQueue.post
  remove_near_objects_lem named s t h = (
    parts.1,
    rw stay (partition-perm keep s.m_near_objects),
    rw stay (Every-map parts.0 (λ o k. ground arith) (Every-copy_if keep s.m_near_objects)),
    Every-map parts.1 (λ o k. ground arith) (Every-copy_if (λ o. not (keep o)) s.m_near_objects),
    ground arith,
  )
    where
      keep : NearObject D → Bool
      keep o = not (is_named named o)

      parts : List (NearObject D) × List (NearObject D)
      parts = stable_partition keep s.m_near_objects

      stay : t.m_near_objects ≡ parts.0
      stay = ground arith

module _ {D : Type 0} ⦃e : DoubleEq D⦄ where
  -- No object equals an earlier one by value.
  abbrev pub Distinct : List (NearObject D) → Type 0
  Distinct [] = Unit {0}
  Distinct (o ∷ os) = Every (λ later. near_object_eq later o ≡ false) os × Distinct os

  Distinct-copy_if :
      (p : NearObject D → Bool) (os : List (NearObject D)) → Distinct os → Distinct (copy_if p os)
  Distinct-copy_if p [] h = tt
  Distinct-copy_if p (o ∷ os) h = elim (Bool-cases (p o)) [
    | inl kept ↦ rw kept (
      Every-copy_if_of_Every (λ later. near_object_eq later o ≡ false) p os h.0,
      Distinct-copy_if p os h.1,
    )
    | inr dropped ↦ rw dropped (Distinct-copy_if p os h.1)
  ]

  Distinct-append :
      (xs ys : List (NearObject D))
      → Distinct xs
      → Distinct ys
      → Every (λ y. any_of (near_object_eq y) xs ≡ false) ys
      → Distinct (xs ++ ys)
  Distinct-append [] ys hx hy apart = hy
  Distinct-append (x ∷ xs) ys hx hy apart = (
    Every-append xs ys (λ later. near_object_eq later x ≡ false) hx.0
        (Every-map ys (λ y a. ground arith) apart),
    Distinct-append xs ys hx.1 hy (Every-map ys (λ y a. ground arith) apart),
  )

  -- The test by which AddNearObjects keeps an object to add.
  is_new : List (NearObject D) → NearObject D → Bool
  is_new members o = not (any_of (near_object_eq o) members)

  new_objects-apart :
      (members to_add : List (NearObject D))
      → Every (λ o. any_of (near_object_eq o) members ≡ false) (new_objects members to_add)
  new_objects-apart members to_add =
      Every-map (new_objects members to_add) (λ o k. ground arith)
        (Every-copy_if (λ o. not (any_of (near_object_eq o) members)) to_add)

  new_objects-added :
      (to_add : List (NearObject D)) (s t : Session D)
      → add_near_objects to_add s ≡ (t, some tt)
      → t.m_near_objects ≡ s.m_near_objects ++ new_objects s.m_near_objects to_add
  unfolding add_near_objects TaskQueue.post
  new_objects-added to_add s t h = ground arith

  -- AddNearObjects, where it does not throw: the objects to add are those that are appended and
  -- reported by the event, none of which equals an old member by value, and those that are passed
  -- over, each of which does.
  pub add_near_objects_lem :
      (to_add : List (NearObject D)) (s t : Session D)
      → add_near_objects to_add s ≡ (t, some tt)
      → (added passed : List (NearObject D)) × Perm to_add (added ++ passed)
        × (t.m_near_objects ≡ s.m_near_objects ++ added)
        × (t.m_task_queue.posted
            ≡ s.m_task_queue.posted ++ on_session_membership_changed added [] ∷ [])
        × Every (λ o. any_of (near_object_eq o) s.m_near_objects ≡ false) added
        × Every (λ o. any_of (near_object_eq o) s.m_near_objects ≡ true) passed
  unfolding add_near_objects TaskQueue.post is_new
  add_near_objects_lem to_add s t h = (
    new_objects s.m_near_objects to_add,
    copy_if (λ o. not (is_new s.m_near_objects o)) to_add,
    partition-perm (is_new s.m_near_objects) to_add,
    new_objects-added to_add s t h,
    ground arith,
    new_objects-apart s.m_near_objects to_add,
    Every-map (copy_if (λ o. not (is_new s.m_near_objects o)) to_add) (λ o k. ground arith)
        (Every-copy_if (λ o. not (is_new s.m_near_objects o)) to_add),
  )

  -- AddNearObjects, where it does not throw, keeps the members distinct by value, if the objects to
  -- add are distinct among themselves.
  pub add_near_objects-Distinct :
      (to_add : List (NearObject D)) (s t : Session D)
      → add_near_objects to_add s ≡ (t, some tt)
      → Distinct s.m_near_objects
      → Distinct to_add
      → Distinct t.m_near_objects
  add_near_objects-Distinct to_add s t h old new = rw (new_objects-added to_add s t h) (
      Distinct-append s.m_near_objects (new_objects s.m_near_objects to_add) old
        (Distinct-copy_if (λ o. not (any_of (near_object_eq o) s.m_near_objects)) to_add new)
        (new_objects-apart s.m_near_objects to_add))
