-- ===== src/ScopeExit/Tests.antt =====
-- A callable that is moved twice, with all its objects destroyed.
use near_object_framework.Common.{◌≡◌, refl, List, [], ◌∷◌}
use near_object_framework.ScopeExit.{
  scope_exit, move, reset, release, destroy, Operation, moves, releases, resets, destroys, operate,
  operate_all,
}
use near_object_framework.ScopeExit.Once.{pending, runs_exactly_once}

abbrev handed_on : List Operation
handed_on = moves 0 ∷ destroys 0 ∷ moves 1 ∷ destroys 2 ∷ destroys 1 ∷ []

abbrev given_up : List Operation
given_up = moves 0 ∷ releases 1 ∷ resets 1 ∷ destroys 0 ∷ destroys 1 ∷ []

given_up_runs : (operate_all given_up scope_exit).runs ≡ 0
unfolding operate_all operate move reset release destroy scope_exit
given_up_runs = refl

all_done : pending (operate_all handed_on scope_exit).m_call ≡ 0
unfolding operate_all operate move reset destroy scope_exit
all_done = refl

runs_exactly_once_example : (operate_all handed_on scope_exit).runs ≡ 1
runs_exactly_once_example =
    runs_exactly_once handed_on (refl, (refl, (refl, (refl, (refl, tt))))) all_done
