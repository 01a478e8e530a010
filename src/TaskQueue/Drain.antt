-- ===== src/TaskQueue/Drain.antt =====
-- The worker left to itself once a stop is pending: which tasks it runs before it returns.
use near_object_framework.Common.{
  ℕ, suc, zero, ◌+◌, ◌-◌, ◌≤◌, ◌≡◌, refl, ◌≢◌, ◌⊎◌, inl, inr, List, [], ◌∷◌, ◌++◌, arith,
  append_assoc, append-nil, length, ◌∙◌, ap,
}
use near_object_framework.TaskQueue.{
  State, stopping, canceling, System, Worker, sleeping, exited, busy, checking, process_queue,
  process_queue_step, taken, wake,
}

module _ {T : Type 0} where
  -- A state of the thread over the rest of the object.
  abbrev pub at : System T → State → Worker T → List T → List T → System T
  at s state w runnables ran = record s {
    queue = record { runnables = runnables; state = state };
    worker = w;
    ran = ran;
  }

  module _ (s : System T) (state : State) where
    process_queue-exited :
        (fuel : ℕ) (xs ran : List T)
        → process_queue fuel (at s state exited xs ran) ≡ at s state exited xs ran
    unfolding process_queue process_queue_step
    process_queue-exited zero xs ran = refl
    process_queue-exited (suc fuel) xs ran = process_queue-exited fuel xs ran

    -- The tasks that were taken are run to the end, whatever has been asked for meanwhile.
    process_queue-busy :
        (ts : List T) (fuel left : ℕ) (xs ran : List T)
        → fuel ≡ suc (length ts + left)
        → process_queue fuel (at s state (busy ts) xs ran)
          ≡ process_queue left (at s state checking xs (ran ++ ts))
    unfolding process_queue process_queue_step
    process_queue-busy ts zero left xs ran e = absurd (omega arith)
    process_queue-busy [] (suc fuel) left xs ran e =
        let same : fuel ≡ left = omega arith in rw (same, append-nil ran)
    process_queue-busy (t ∷ ts) (suc fuel) left xs ran e =
        process_queue-busy ts fuel left xs (ran ++ t ∷ []) (omega arith)
        ∙ ap (λ ys. process_queue left (at s state checking xs ys)) (append_assoc ran (t ∷ []) ts)

  process_queue-stopping :
      (s : System T) (xs ran : List T) (fuel : ℕ)
      → length xs + 3 ≤ fuel
      → process_queue fuel (at s stopping checking xs ran) ≡ at s stopping exited [] (ran ++ xs)
  unfolding process_queue process_queue_step
  process_queue-stopping s xs ran zero h = absurd (omega arith)
  process_queue-stopping s [] ran (suc fuel) h =
      rw (append-nil ran) (process_queue-exited s stopping fuel [] ran)
  process_queue-stopping s (x ∷ xs) ran (suc fuel) h =
      process_queue-busy s stopping (x ∷ xs) fuel (suc rest) [] ran (omega arith)
      ∙ process_queue-exited s stopping rest [] (ran ++ x ∷ xs)
    where
      rest : ℕ
      rest = fuel - length xs - 3

  process_queue-canceling :
      (s : System T) (xs ran : List T) (fuel : ℕ)
      → 1 ≤ fuel
      → process_queue fuel (at s canceling checking xs ran) ≡ at s canceling exited xs ran
  unfolding process_queue process_queue_step
  process_queue-canceling s xs ran zero h = absurd (omega arith)
  process_queue-canceling s [] ran (suc fuel) h = process_queue-exited s canceling fuel [] ran
  process_queue-canceling s (x ∷ xs) ran (suc fuel) h =
      process_queue-exited s canceling fuel (x ∷ xs) ran

  -- From a worker that has not returned, with the notification delivered.
  pub finish_stopping :
      (s : System T) (w : Worker T) (xs ran : List T) (fuel : ℕ)
      → w ≢ exited
      → length (taken w) + length xs + 4 ≤ fuel
      → process_queue fuel (at s stopping (wake w) xs ran)
        ≡ at s stopping exited [] (ran ++ (taken w ++ xs))
  finish_stopping s checking xs ran fuel live h = process_queue-stopping s xs ran fuel (omega arith)
  finish_stopping s sleeping xs ran fuel live h = process_queue-stopping s xs ran fuel (omega arith)
  finish_stopping s exited xs ran fuel live h = absurd (live refl)
  finish_stopping s (busy ts) xs ran fuel live h =
      let left = fuel - length ts - 1 in
      process_queue-busy s stopping ts fuel left xs ran (omega arith)
      ∙ (process_queue-stopping s xs (ran ++ ts) left (omega arith)
          ∙ ap (λ ys. at s stopping exited [] ys) (append_assoc ran ts xs))

  pub finish_canceling :
      (s : System T) (w : Worker T) (xs ran : List T) (fuel : ℕ)
      → length (taken w) + 2 ≤ fuel
      → process_queue fuel (at s canceling (wake w) xs ran)
        ≡ at s canceling exited xs (ran ++ taken w)
  finish_canceling s checking xs ran fuel h =
      rw (append-nil ran) (process_queue-canceling s xs ran fuel (omega arith))
  finish_canceling s sleeping xs ran fuel h =
      rw (append-nil ran) (process_queue-canceling s xs ran fuel (omega arith))
  finish_canceling s exited xs ran fuel h =
      rw (append-nil ran) (process_queue-exited s canceling fuel xs ran)
  finish_canceling s (busy ts) xs ran fuel h =
      let left = fuel - length ts - 1 in
      process_queue-busy s canceling ts fuel left xs ran (omega arith)
      ∙ process_queue-canceling s xs (ran ++ ts) left (omega arith)

  pub finish_exited :
      (s : System T) (state : State) (w : Worker T) (xs ran : List T) (fuel : ℕ)
      → w ≡ exited
      → process_queue fuel (at s state (wake w) xs ran) ≡ at s state exited xs ran
  finish_exited s state w xs ran fuel e = rw e (process_queue-exited s state fuel xs ran)

  pub taken-wake : (w : Worker T) → taken (wake w) ≡ taken w
  taken-wake checking = refl
  taken-wake sleeping = refl
  taken-wake exited = refl
  taken-wake (busy ts) = refl

  pub wake-exited : (w : Worker T) → wake w ≡ exited → w ≡ exited
  wake-exited checking e = cc
  wake-exited sleeping e = cc
  wake-exited exited e = refl
  wake-exited (busy ts) e = e

  pub exited? : (w : Worker T) → (w ≡ exited) ⊎ (w ≢ exited)
  exited? checking = inr (λ e. cc)
  exited? sleeping = inr (λ e. cc)
  exited? exited = inl refl
  exited? (busy ts) = inr (λ e. cc)
