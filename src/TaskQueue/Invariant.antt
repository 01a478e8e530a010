-- ===== src/TaskQueue/Invariant.antt =====
-- What holds of a task queue in every reachable state.
use near_object_framework.Common.{
  ℕ, ◌<◌, ◌≡◌, refl, ◌⊎◌, true, false, List, [], ◌∷◌, ◌++◌, some, arith, append_assoc, append-nil,
}
use near_object_framework.TaskQueue.{
  PendingTaskAction, cancel, System, Worker, sleeping, exited, busy, checking, is_stop_pending,
  canceling, post, stop, notify, awaken, process_queue_step, create, Step, client_posts,
  client_stops, client_notifies, worker_wakes, worker_works, Reach, here, later, taken, work,
}

module _ {T : Type 0} where
  pub record Inv (s : System T) : Type 0 where
    pub ordered : s.posted ≡ s.ran ++ (taken s.worker ++ s.queue.runnables)
    pub awake :
        s.worker ≡ sleeping
        → (0 < s.notices) ⊎ ((s.queue.runnables ≡ []) × (is_stop_pending s.queue.state ≡ false))
    pub pending : s.worker ≡ exited → is_stop_pending s.queue.state ≡ true
    pub drained : s.worker ≡ exited → (s.queue.runnables ≡ []) ⊎ (s.canceled ≡ true)
    pub asked : s.queue.state ≡ canceling → s.canceled ≡ true

  post-ordered :
      (t : T) (ran w xs posted : List T)
      → posted ≡ ran ++ (w ++ xs)
      → posted ++ t ∷ [] ≡ ran ++ (w ++ (xs ++ t ∷ []))
  post-ordered t ran w xs posted e = rw e (simp append_assoc)

  post-Inv : (t : T) {s u : System T} → post t s ≡ some u → Inv s → Inv u
  unfolding post
  post-Inv t {s} {u} e v =
      ground (arith, post-ordered t s.ran (taken s.worker) s.queue.runnables s.posted)

  stop-Inv : (a : PendingTaskAction) (s : System T) → Inv s → Inv (stop a s)
  unfolding stop
  stop-Inv cancel s v = ground arith
  stop-Inv PendingTaskAction.run s v = ground arith

  awaken-Inv : (s : System T) → Inv s → Inv (awaken s)
  unfolding awaken
  awaken-Inv s v = ground arith

  notify-Inv : (n : ℕ) (s : System T) → Inv s → Inv (notify n s)
  unfolding notify
  notify-Inv n s v = ground arith

  work_at-Inv : (w : Worker T) (s : System T) → s.worker ≡ w → Inv s → Inv (work w s)
  unfolding work
  work_at-Inv checking s e v = ground (arith, append-nil s.queue.runnables)
  work_at-Inv sleeping s e v = v
  work_at-Inv exited s e v = v
  work_at-Inv (busy []) s e v = ground arith
  work_at-Inv (busy (t ∷ ts)) s e v =
      ground (arith, append_assoc s.ran (t ∷ []) (ts ++ s.queue.runnables))

  process_queue_step-Inv : (s : System T) → Inv s → Inv (process_queue_step s)
  unfolding process_queue_step
  process_queue_step-Inv s v = work_at-Inv s.worker s refl v

  Step-Inv : {s t : System T} → Step s t → Inv s → Inv t
  Step-Inv (client_posts x e) v = post-Inv x e v
  Step-Inv {s} (client_stops a) v = stop-Inv a s v
  Step-Inv {s} (client_notifies {n} e) v = notify-Inv n s v
  Step-Inv {s} worker_wakes v = awaken-Inv s v
  Step-Inv {s} worker_works v = process_queue_step-Inv s v

  pub Reach-Inv : {s t : System T} → Inv s → Reach s t → Inv t
  Reach-Inv v here = v
  Reach-Inv v (later r st) = Step-Inv st (Reach-Inv v r)

  pub create-Inv : {s : System T} → create true ≡ some s → Inv s
  unfolding create
  create-Inv e = ground arith

  -- In every state that a created queue can reach, whatever the threads do in whatever order: the
  -- tasks that have run, then those that the worker has taken, then those in the queue, are the
  -- posted tasks in the order of posting.
  pub posted_in_order :
      {s t : System T}
      → create true ≡ some s
      → Reach s t
      → t.posted ≡ t.ran ++ (taken t.worker ++ t.queue.runnables)
  posted_in_order e r = (Reach-Inv (create-Inv e) r).ordered

  -- No wakeup is lost: in every reachable state a worker that sleeps has a notification on its way,
  -- or the queue is empty and no stop has been asked for.
  pub no_lost_wakeup :
      {s t : System T}
      → create true ≡ some s
      → Reach s t
      → t.worker ≡ sleeping
      → (0 < t.notices) ⊎ ((t.queue.runnables ≡ []) × (is_stop_pending t.queue.state ≡ false))
  no_lost_wakeup e r = (Reach-Inv (create-Inv e) r).awake

  -- The worker does not return early: once it has, in any reachable state, a stop has been asked
  -- for, and every task that was posted has run unless the queue was told to cancel.
  pub exited_after_all :
      {s t : System T}
      → create true ≡ some s
      → Reach s t
      → t.worker ≡ exited
      → (is_stop_pending t.queue.state ≡ true) × ((t.ran ≡ t.posted) ⊎ (t.canceled ≡ true))
  exited_after_all {t = t} e r x =
      let v = Reach-Inv (create-Inv e) r in
      ground (arith, v.ordered, v.pending, v.drained, append-nil t.ran)
