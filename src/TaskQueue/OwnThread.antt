-- ===== src/TaskQueue/OwnThread.antt =====
-- lib/shared/notstd/task_queue.cxx: what a task of the queue brings about when it calls
-- stop_and_wait_for_task_completion itself, and so on the worker's own thread.
use near_object_framework.Common.{
  ◌≡◌, refl, ◌≢◌, true, List, none, some, length, sym, ◌∙◌, ap, arith,
}
use near_object_framework.TaskQueue.{
  PendingTaskAction, System, exited, busy, enough, create, Reach, post, stop, notify, process_queue,
}
use near_object_framework.TaskQueue.Drain.{finish_stopping, taken-wake}
use near_object_framework.TaskQueue.Invariant.{Reach-Inv, create-Inv}

module _ {T : Type 0} where
  -- The call asks for the stop; then join throws, since the thread would wait for itself, and the
  -- exception is dropped.
  unfoldable pub stop_and_wait_in_task : System T → System T
  unfolding stop notify
  stop_and_wait_in_task s = notify s.notices (stop PendingTaskAction.run s)

  -- A task that calls stop_and_wait_for_task_completion, in any reachable state: the call returns at
  -- once, with the tasks behind it not run, and what the task posts then throws. Left to itself the
  -- worker runs every task that was accepted all the same, in order, and returns.
  pub stop_in_task :
      (ts : List T) (x : T) {s t : System T}
      → create true ≡ some s
      → Reach s t
      → t.worker ≡ busy ts
      → let u = stop_and_wait_in_task t in
        let v = process_queue (enough u) u in
        (u.worker ≡ busy ts)
        × (u.ran ≡ t.ran)
        × (u.queue.runnables ≡ t.queue.runnables)
        × (post x u ≡ none)
        × (v.worker ≡ exited)
        × (v.ran ≡ t.posted)
  unfolding stop_and_wait_in_task stop notify
  stop_in_task ts x {t = t} e r at_work =
      let xs = t.queue.runnables in
      let live : t.worker ≢ exited = λ over. cc in
      let done =
        finish_stopping t t.worker xs t.ran (enough (stop_and_wait_in_task t)) live
          (omega (arith, ap length (taken-wake t.worker))) in
      (
        rw at_work,
        refl,
        refl,
        (unfold post in refl),
        ap (λ u. u.worker) done,
        ap (λ u. u.ran) done ∙ sym (Reach-Inv (create-Inv e) r).ordered,
      )
