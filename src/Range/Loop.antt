-- ===== src/Range/Loop.antt =====
-- What a loop over a range visits.
use near_object_framework.Common.{
  ℕ, zero, suc, ◌+◌, ◌<◌, ◌≤◌, ◌≡◌, refl, sym, ◌∙◌, List, [], ◌∷◌, ◌++◌, Option, none, some,
  get_elem?, length, arith, append_assoc, ◌>>=◌, ◌==◌, false, length-append,
}
use native.Mathlib.Decide.{dec_lt}
use near_object_framework.Range.{
  make_range, make_range_of_count, begin_of, end_of, visit, for_each, make_iterator_range,
}

module _ {A : Type 0} where
  get_elem?-middle :
      (front : List A) (x : A) (rest : List A)
      → get_elem? (front ++ x ∷ rest) (length front) ≡ some x
  get_elem?-middle [] x rest = refl
  get_elem?-middle (y ∷ front) x rest = get_elem?-middle front x rest

  get_elem?-beyond : (xs : List A) (i : ℕ) → length xs ≤ i → get_elem? xs i ≡ none
  get_elem?-beyond [] i h = refl
  get_elem?-beyond (x ∷ xs) zero h = absurd (omega arith)
  get_elem?-beyond (x ∷ xs) (suc i) h = get_elem?-beyond xs i (omega arith)

  visit-middle :
      (front middle rest xs : List A) (fuel end it : ℕ)
      → xs ≡ front ++ (middle ++ rest)
      → it ≡ length front
      → end ≡ it + length middle
      → length middle < fuel
      → visit fuel xs it end ≡ some middle
  unfolding visit
  visit-middle front middle rest xs zero end it e b n h = absurd (omega arith)
  visit-middle front [] rest xs (suc fuel) end it e b n h =
      let there : it ≡ end = omega arith in ground arith
  visit-middle front (x ∷ middle) rest xs (suc fuel) end it e b n h =
      let differs : (it == end) ≡ false = ground arith in
      let read : get_elem? xs it ≡ some x =
        rw e (rw b (get_elem?-middle front x (middle ++ rest))) in
      let others =
        visit-middle (front ++ x ∷ []) middle rest xs fuel end (it + 1)
          (e ∙ sym (append_assoc front (x ∷ []) (middle ++ rest)))
          (omega (arith, length-append front (x ∷ []))) (omega arith) (omega arith) in
      rw differs (rw read (rw others))

  none_after : (o : Option A) (f : A → Option (List A)) → ((x : A) → f x ≡ none) → (o >>= f) ≡ none
  none_after none f h = refl
  none_after (some x) f h = h x

  visit-beyond :
      (fuel : ℕ) (xs : List A) (it end : ℕ)
      → it ≤ length xs
      → length xs < end
      → visit fuel xs it end ≡ none
  unfolding visit
  visit-beyond zero xs it end b n = refl
  visit-beyond (suc fuel) xs it end b n =
      let differs : (it == end) ≡ false = ground arith in
      rw differs (elim (dec_lt it (length xs)) [
        | yes more ↦
            let others = visit-beyond fuel xs (it + 1) end (omega arith) n in
            none_after (get_elem? xs it) _ (λ x. rw others)
        | no over ↦ rw (get_elem?-beyond xs it (omega arith))
      ])

  -- A range of a beginning and a count that lie within a sequence: the loop over it visits exactly the
  -- elements of that part, in order, and reads no other, in no more turns than there are elements and one
  -- for the last test; and so does the range of the beginning and the end.
  pub for_each-make_range :
      (front middle rest : List A) (fuel : ℕ)
      → length middle < fuel
      → let xs = front ++ (middle ++ rest) in
        (for_each fuel xs (make_range_of_count (length front) (length middle)) ≡ some middle)
        × (for_each fuel xs (make_range (length front) (length front + length middle))
            ≡ some middle)
  unfolding for_each make_range make_range_of_count begin_of end_of make_iterator_range
  for_each-make_range front middle rest fuel h =
      let visited =
        visit-middle front middle rest (front ++ (middle ++ rest)) fuel
          (length front + length middle) (length front) refl refl refl h in
      (visited, visited)

  -- A range of a count that goes beyond the end of the sequence: the loop over it does not come to an end
  -- without a read of an element that is not there.
  pub for_each_beyond :
      (xs : List A) (begin count fuel : ℕ)
      → begin ≤ length xs
      → length xs < begin + count
      → for_each fuel xs (make_range_of_count begin count) ≡ none
  unfolding for_each make_range_of_count begin_of end_of make_iterator_range
  for_each_beyond xs begin count fuel b n = visit-beyond fuel xs begin (begin + count) b n
