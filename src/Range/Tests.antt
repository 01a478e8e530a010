-- ===== src/Range/Tests.antt =====
-- Ranges of a sequence of four numbers.
use near_object_framework.Common.{ℕ, ◌≡◌, List, [], ◌∷◌, ◌++◌, none, some, arith}
use near_object_framework.Range.{make_range, make_range_of_count, for_each}
use near_object_framework.Range.Loop.{for_each-make_range, for_each_beyond}

abbrev front : List ℕ
front = 1 ∷ []

abbrev middle : List ℕ
middle = 2 ∷ 3 ∷ []

abbrev rest : List ℕ
rest = 4 ∷ []

middle_visited :
    (for_each 3 (front ++ (middle ++ rest)) (make_range_of_count 1 2) ≡ some middle)
    × (for_each 3 (front ++ (middle ++ rest)) (make_range 1 3) ≡ some middle)
middle_visited = for_each-make_range front middle rest 3 (omega arith)

beyond_is_read : for_each 100 (front ++ (middle ++ rest)) (make_range_of_count 2 3) ≡ none
beyond_is_read = for_each_beyond (front ++ (middle ++ rest)) 2 3 100 (omega arith) (omega arith)
