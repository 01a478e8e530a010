-- ===== src/Range.antt =====
-- lib/shared/notstd/include/notstd/range.hxx. An iterator is an index into a sequence, and the place behind
-- the last element has one too. A read of an element that is not there is `none`.
mod Loop
mod Tests
use near_object_framework.Common.{
  ℕ, zero, suc, ◌+◌, List, [], ◌∷◌, Option, none, some, get_elem?, if◌then◌else◌, ◌>>=◌, ◌==◌,
}

-- notstd::iterator_range.
pub record IteratorRange : Type 0 where
  pub m_begin : ℕ
  pub m_end : ℕ

-- iterator_range::iterator_range.
pub make_iterator_range : ℕ → ℕ → IteratorRange
make_iterator_range begin end = record { m_begin = begin; m_end = end }

-- iterator_range::begin and iterator_range::end.
pub begin_of : IteratorRange → ℕ
begin_of range = range.m_begin

pub end_of : IteratorRange → ℕ
end_of range = range.m_end

-- make_range of two iterators.
pub make_range : ℕ → ℕ → IteratorRange
unfolding make_iterator_range
make_range begin end = make_iterator_range begin end

-- make_range of an iterator and a count.
pub make_range_of_count : ℕ → ℕ → IteratorRange
unfolding make_iterator_range
make_range_of_count begin count = make_iterator_range begin (begin + count)

module _ {ℓ} {A : Type ℓ} where
  -- A range-based for loop from an iterator to the end, with the elements that its body gets.
  pub visit : ℕ → List A → ℕ → ℕ → Option (List A)
  visit zero xs it end = none
  visit (suc fuel) xs it end =
      if it == end
      then some []
      else (get_elem? xs it >>= λ x. visit fuel xs (it + 1) end >>= λ rest. some (x ∷ rest))

  -- The loop over a range, with so many turns at most.
  pub for_each : ℕ → List A → IteratorRange → Option (List A)
  unfolding visit begin_of end_of
  for_each fuel xs range = visit fuel xs (begin_of range) (end_of range)
