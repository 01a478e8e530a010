-- ===== src/ScopeExit/Once.antt =====
-- How often the callable runs.
use near_object_framework.Common.{
  ℕ, zero, suc, ◌+◌, ◌≤◌, ◌≡◌, refl, Bool, true, false, List, [], ◌∷◌, ◌++◌, if◌then◌else◌, arith,
  Every,
}
use near_object_framework.ScopeExit.{
  LambdaCalls, will_call, clear, scope_exit, move, release, reset, destroy, Operation, moves,
  releases, resets, destroys, operate, operate_all,
}

-- How many objects are still going to call.
abbrev pub pending : List Bool → ℕ
pending [] = 0
pending (b ∷ bs) = if b then suc (pending bs) else pending bs

abbrev one_if : Bool → ℕ
one_if b = if b then 1 else 0

pending-append : (bs : List Bool) (b : Bool) → pending (bs ++ b ∷ []) ≡ pending bs + one_if b
pending-append [] b = ground arith
pending-append (x ∷ bs) b = ground (arith, pending-append bs b)

pending-clear :
    (i : ℕ) (bs : List Bool) → pending (clear i bs) + one_if (will_call i bs) ≡ pending bs
pending-clear i [] = ground arith
pending-clear zero (b ∷ bs) = ground arith
pending-clear (suc i) (b ∷ bs) = ground (arith, pending-clear i bs)

abbrev pub is_release : Operation → Bool
is_release (releases i) = true
is_release (moves i) = false
is_release (resets i) = false
is_release (destroys i) = false

-- The runs of the callable and the runs that may still come.
abbrev pub total : LambdaCalls → ℕ
total s = s.runs + pending s.m_call

total-operate_keeps :
    (o : Operation) (s : LambdaCalls) → is_release o ≡ false → total (operate o s) ≡ total s
unfolding operate move reset destroy
total-operate_keeps (moves i) s h =
    ground
      (arith, pending-append (clear i s.m_call) (will_call i s.m_call), pending-clear i s.m_call)
total-operate_keeps (releases i) s h = absurd (ground arith)
total-operate_keeps (resets i) s h = ground (arith, pending-clear i s.m_call)
total-operate_keeps (destroys i) s h = ground (arith, pending-clear i s.m_call)

total-operate : (o : Operation) (s : LambdaCalls) → total (operate o s) ≤ total s
unfolding operate release
total-operate (moves i) s = omega (arith, total-operate_keeps (moves i) s refl)
total-operate (releases i) s = ground (arith, pending-clear i s.m_call)
total-operate (resets i) s = omega (arith, total-operate_keeps (resets i) s refl)
total-operate (destroys i) s = omega (arith, total-operate_keeps (destroys i) s refl)

total-operate_all : (os : List Operation) (s : LambdaCalls) → total (operate_all os s) ≤ total s
unfolding operate_all
total-operate_all [] s = omega arith
total-operate_all (o ∷ os) s = omega (arith, total-operate_all os (operate o s), total-operate o s)

total-operate_all_keeps :
    (os : List Operation) (s : LambdaCalls)
    → Every (λ o. is_release o ≡ false) os
    → total (operate_all os s) ≡ total s
unfolding operate_all
total-operate_all_keeps [] s h = refl
total-operate_all_keeps (o ∷ os) s h =
    omega (arith, total-operate_all_keeps os (operate o s) h.1, total-operate_keeps o s h.0)

-- Whatever is done with the objects of one callable: it runs at most once, or not yet and then at
-- most one object is going to call it.
pub runs_at_most_once : (os : List Operation) → total (operate_all os scope_exit) ≤ 1
unfolding scope_exit
runs_at_most_once os = total-operate_all os scope_exit

-- Without a release, and once no object is going to call it any more, as when all have been
-- destroyed, the callable has run exactly once.
pub runs_exactly_once :
    (os : List Operation)
    → Every (λ o. is_release o ≡ false) os
    → pending (operate_all os scope_exit).m_call ≡ 0
    → (operate_all os scope_exit).runs ≡ 1
unfolding scope_exit
runs_exactly_once os kept done = omega (arith, total-operate_all_keeps os scope_exit kept, done)
