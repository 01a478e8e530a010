-- ===== src/TaskQueue/Futures.antt =====
-- What becomes of the futures that post has returned: the future of a task is ready once the task has
-- run, and its promise is broken when the task is destroyed before.
use near_object_framework.Common.{
  ◌≡◌, ◌⊎◌, inl, inr, true, [], ◌++◌, some, arith, append-nil, sym, ◌∙◌, ap,
}
use near_object_framework.TaskQueue.{
  System, exited, create, destroy, Reach, dispatch, throws, stop_and_wait_for_task_completion, stop,
  PendingTaskAction,
}
use near_object_framework.TaskQueue.Invariant.{Reach-Inv, create-Inv}
use near_object_framework.TaskQueue.Drain.{exited?}
use near_object_framework.TaskQueue.Stop.{stop_and_wait-live, stop_and_wait-exited, post_after_stop}

module _ {T : Type 0} where
  -- The destruction of a queue in any reachable state: it returns with a worker that has returned, and the
  -- tasks that were ever posted are, in order, those that have run and those whose promises are broken.
  -- There are none of the latter unless the queue was told to cancel.
  pub destroy_settles :
      {s t : System T}
      → create true ≡ some s
      → Reach s t
      → let (u, broken) = destroy t in
        (u.worker ≡ exited) × (t.posted ≡ u.ran ++ broken) × ((broken ≡ []) ⊎ (t.canceled ≡ true))
  unfolding destroy
  destroy_settles {t = t} e r =
      let v = Reach-Inv (create-Inv e) r in
      elim (exited? t.worker) [
        | inl over ↦
            let (done, ran, same, left) = stop_and_wait-exited t over in
            (done, ground (arith, v.ordered), ground (arith, v.drained))
        | inr live ↦
            let (done, all, same, left) = stop_and_wait-live t live in
            (
              done,
              v.ordered ∙ (sym all ∙ (sym (append-nil u.ran) ∙ ap (λ l. u.ran ++ l) (sym left))),
              inl left,
            )
      ]
    where
      u : System T
      u = stop_and_wait_for_task_completion t

  -- A dispatcher posts to the queue that it refers to; after any stop of that queue its post throws.
  pub dispatch_after_stop :
      (s : System T) (action : PendingTaskAction) (x : T) {t : System T}
      → Reach (stop action s) t
      → dispatch x (some t) ≡ throws
  unfolding dispatch
  dispatch_after_stop s action x {t} r =
      let (throws_now, _) = post_after_stop s action x r in ground arith
