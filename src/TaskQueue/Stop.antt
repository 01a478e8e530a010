-- ===== src/TaskQueue/Stop.antt =====
-- Stopping a task queue: what post does afterwards, what has run by the end, and cancellation.
use near_object_framework.Common.{
  ℕ, ◌+◌, ◌≤◌, ◌≡◌, refl, ◌≢◌, ◌⊎◌, inl, inr, true, [], ◌++◌, none, some, arith, append-nil, length,
  sym, ◌∙◌, ap,
}
use near_object_framework.TaskQueue.{
  stopping, cancel, run, PendingTaskAction, System, exited, is_stop_pending, post, stop, notify,
  awaken, process_queue, process_queue_step, create, Step, client_posts, client_stops,
  client_notifies, worker_wakes, worker_works, Reach, here, later, taken, wake,
  stop_and_wait_for_task_completion,
}
use near_object_framework.TaskQueue.Invariant.{Reach-Inv, create-Inv}
use near_object_framework.TaskQueue.Drain.{
  finish_stopping, finish_canceling, finish_exited, taken-wake, wake-exited, exited?,
}

module _ {T : Type 0} where
  -- Once a stop has been asked for it stays asked for, and nothing is accepted any more.
  Step-pending :
      {s t : System T}
      → Step s t
      → is_stop_pending s.queue.state ≡ true
      → (is_stop_pending t.queue.state ≡ true) × (t.posted ≡ s.posted)
  Step-pending {s} (client_posts x e) h = unfold post in ground arith
  Step-pending {s} (client_stops cancel) h = unfold stop in ground arith
  Step-pending {s} (client_stops run) h = unfold stop in ground arith
  Step-pending {s} (client_notifies {n} e) h = unfold notify in ground arith
  Step-pending {s} worker_wakes h = unfold awaken in ground arith
  Step-pending {s} worker_works h = unfold process_queue_step in ground arith

  Reach-pending :
      {s t : System T}
      → Reach s t
      → is_stop_pending s.queue.state ≡ true
      → (is_stop_pending t.queue.state ≡ true) × (t.posted ≡ s.posted)
  Reach-pending here h = (h, refl)
  Reach-pending {s} (later {t} {u} r st) h =
      let (before, same) = Reach-pending r h in
      let (after, same') = Step-pending st before in (after, same' ∙ same)

  -- After any stop, in every state that can follow, post throws, and the accepted tasks stay those
  -- that were accepted before the stop.
  pub post_after_stop :
      (s : System T) (action : PendingTaskAction) (x : T) {t : System T}
      → Reach (stop action s) t
      → (post x t ≡ none) × (t.posted ≡ s.posted)
  unfolding stop
  post_after_stop s action x {t} r =
      let (pending, same) = Reach-pending r (stopped action) in
      ((unfold post in ground arith), same)
    where
      stopped : (a : PendingTaskAction) → is_stop_pending (stop a s).queue.state ≡ true
      stopped cancel = refl
      stopped run = refl

  -- stop_and_wait_for_task_completion on an object whose worker has not returned: it returns, and
  -- all that was taken or queued has run.
  pub stop_and_wait-live :
      (s : System T)
      → s.worker ≢ exited
      → let u = stop_and_wait_for_task_completion s in
        (u.worker ≡ exited)
        × (u.ran ≡ s.ran ++ (taken s.worker ++ s.queue.runnables))
        × (u.posted ≡ s.posted)
        × (u.queue.runnables ≡ [])
  unfolding stop_and_wait_for_task_completion
  stop_and_wait-live s live =
      let w = s.worker in
      let xs = s.queue.runnables in
      let e =
        finish_stopping s w xs s.ran (length (taken (wake w)) + length xs + 4) live
          (omega (arith, ap length (taken-wake w))) in
      (ap (λ u. u.worker) e, ap (λ u. u.ran) e, ap (λ u. u.posted) e, ap (λ u. u.queue.runnables) e)

  pub stop_and_wait-exited :
      (s : System T)
      → s.worker ≡ exited
      → let u = stop_and_wait_for_task_completion s in
        (u.worker ≡ exited)
        × (u.ran ≡ s.ran)
        × (u.posted ≡ s.posted)
        × (u.queue.runnables ≡ s.queue.runnables)
  unfolding stop_and_wait_for_task_completion
  stop_and_wait-exited s over =
      let w = s.worker in
      let xs = s.queue.runnables in
      let e = finish_exited s stopping w xs s.ran (length (taken (wake w)) + length xs + 4) over in
      (ap (λ u. u.worker) e, ap (λ u. u.ran) e, ap (λ u. u.posted) e, ap (λ u. u.queue.runnables) e)

  -- The destructor or an explicit call, in any reachable state: stop_and_wait_for_task_completion
  -- returns, the accepted tasks are those from before, and all of them have run, unless the worker
  -- had already returned from a queue that was told to cancel.
  pub stop_and_wait_runs_all :
      {s t : System T}
      → create true ≡ some s
      → Reach s t
      → let u = stop_and_wait_for_task_completion t in
        (u.worker ≡ exited)
        × (u.posted ≡ t.posted)
        × ((u.ran ≡ u.posted) ⊎ ((t.worker ≡ exited) × (t.canceled ≡ true)))
  stop_and_wait_runs_all {t = t} e r =
      let v = Reach-Inv (create-Inv e) r in
      elim (exited? t.worker) [
        | inl over ↦
            let (done, ran, same, _) = stop_and_wait-exited t over in
            (done, same, ground (arith, v.drained, v.ordered, append-nil t.ran))
        | inr live ↦
            let (done, all, same, _) = stop_and_wait-live t live in
            (done, same, inl (all ∙ sym (same ∙ v.ordered)))
      ]

  -- stop with cancel, and the worker left to itself: it finishes the tasks that it had taken and
  -- returns without touching those in the queue.
  pub stop_cancel :
      (s : System T) (fuel : ℕ)
      → length (taken s.worker) + 2 ≤ fuel
      → let u = process_queue fuel (notify s.notices (stop cancel s)) in
        (u.worker ≡ exited)
        × (u.ran ≡ s.ran ++ taken s.worker)
        × (u.queue.runnables ≡ s.queue.runnables)
  unfolding stop notify
  stop_cancel s fuel h =
      let e =
        finish_canceling (record s { canceled = true }) s.worker s.queue.runnables s.ran fuel h in
      (ap (λ u. u.worker) e, ap (λ u. u.ran) e, ap (λ u. u.queue.runnables) e)

  -- A cancel is undone by the destructor: unless the worker has returned in between, every task that
  -- was pending when stop was called with cancel is run all the same.
  pub cancel_undone :
      (s : System T)
      → s.worker ≢ exited
      → (stop_and_wait_for_task_completion (notify s.notices (stop cancel s))).ran
        ≡ s.ran ++ (taken s.worker ++ s.queue.runnables)
  unfolding notify stop
  cancel_undone s live =
      let (_, all, _, _) =
        stop_and_wait-live (notify s.notices (stop cancel s))
          (λ e. live (wake-exited s.worker e)) in
      all ∙ ap (λ ts. s.ran ++ (ts ++ s.queue.runnables)) (taken-wake s.worker)
