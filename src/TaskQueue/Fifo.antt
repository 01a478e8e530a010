-- ===== src/TaskQueue/Fifo.antt =====
-- The contract of a task queue by itself, and that the queue keeps it. The dispatcher's documentation
-- says it: tasks run first in, first out, and one that is posted before the queue is asked to stop runs.
use near_object_framework.Common.{
  ◌≡◌, refl, ◌⊎◌, inl, inr, ◌↔◌, Bool, true, false, List, [], ◌∷◌, ◌++◌, none, some, arith, subst,
  sym,
}
use near_object_framework.TaskQueue.{
  PendingTaskAction, cancel, run, System, Worker, sleeping, exited, busy, checking, is_stop_pending,
  post, stop, notify, awaken, process_queue_step, create, Step, client_posts, client_stops,
  client_notifies, worker_wakes, worker_works, Reach, here, later, work,
}
use near_object_framework.TaskQueue.Invariant.{Inv, Reach-Inv, create-Inv}

-- A first-in-first-out executor: what it has accepted, what has run, and whether it is closed.
pub record Fifo (T : Type 0) : Type 0 where
  pub accepted : List T
  pub executed : List T
  pub closed : Bool

pub data FifoStep {T : Type 0} (a : Fifo T) : Fifo T → Type 0 where
  accepts : (t : T) → a.closed ≡ false → FifoStep a (record a { accepted = a.accepted ++ t ∷ [] })
  executes :
      (t : T) (rest : List T)
      → a.accepted ≡ a.executed ++ t ∷ rest
      → FifoStep a (record a { executed = a.executed ++ t ∷ [] })
  closes : FifoStep a (record a { closed = true })

pub data FifoReach {T : Type 0} (a : Fifo T) : Fifo T → Type 0 where
  start : FifoReach a a
  then_step : {b c : Fifo T} → FifoReach a b → FifoStep b c → FifoReach a c

abbrev pub new_fifo : {T : Type 0} → Fifo T
new_fifo = record { accepted = []; executed = []; closed = false }

module _ {T : Type 0} where
  -- What a client sees of a queue.
  abbrev pub view : System T → Fifo T
  view s = record { accepted = s.posted; executed = s.ran; closed = is_stop_pending s.queue.state }

  -- A step that a client does not see, or one of the executor.
  abbrev Seen : System T → System T → Type 0
  Seen s u = (view u ≡ view s) ⊎ FifoStep (view s) (view u)

  post-Seen : (t : T) (s : System T) {u : System T} → post t s ≡ some u → Seen s u
  unfolding post
  post-Seen t s {u} e = inr (subst (FifoStep (view s)) (ground arith) (accepts t (ground arith)))

  stop-Seen : (a : PendingTaskAction) (s : System T) → Seen s (stop a s)
  unfolding stop
  stop-Seen cancel s = inr closes
  stop-Seen run s = inr closes

  work-Seen : (w : Worker T) (s : System T) → s.worker ≡ w → Inv s → Seen s (work w s)
  unfolding work
  work-Seen checking s e v = inl (ground arith)
  work-Seen sleeping s e v = inl refl
  work-Seen exited s e v = inl refl
  work-Seen (busy []) s e v = inl refl
  work-Seen (busy (t ∷ ts)) s e v =
      inr (executes t (ts ++ s.queue.runnables) (ground (arith, v.ordered)))

  Step-Seen : {s u : System T} → Step s u → Inv s → Seen s u
  Step-Seen {s} (client_posts t e) v = post-Seen t s e
  Step-Seen {s} (client_stops a) v = stop-Seen a s
  Step-Seen {s} (client_notifies {n} e) v = unfold notify in inl refl
  Step-Seen {s} worker_wakes v = unfold awaken in inl refl
  Step-Seen {s} worker_works v = unfold process_queue_step in work-Seen s.worker s refl v

  seen : {a b c : Fifo T} → FifoReach a b → (c ≡ b) ⊎ FifoStep b c → FifoReach a c
  seen {a} r (inl same) = subst (FifoReach a) (sym same) r
  seen r (inr st) = then_step r st

  Reach-FifoReach : {s t : System T} → Inv s → Reach s t → FifoReach (view s) (view t)
  Reach-FifoReach v here = start
  Reach-FifoReach v (later r st) = seen (Reach-FifoReach v r) (Step-Seen st (Reach-Inv v r))

  created_view : {s : System T} → create true ≡ some s → view s ≡ new_fifo
  unfolding create
  created_view e = ground arith

  -- A task queue implements a first-in-first-out executor: whatever the threads do, what its clients can
  -- see of it is a state that the executor reaches from the beginning, and post throws exactly if the
  -- executor is closed. The executor accepts tasks while it is open, runs the first accepted one that has
  -- not run, and may be closed.
  pub implements_fifo :
      (x : T) {s t : System T}
      → create true ≡ some s
      → Reach s t
      → FifoReach new_fifo (view t) × ((post x t ≡ none) ↔ ((view t).closed ≡ true))
  implements_fifo x {s} {t} e r = (
    subst (λ a. FifoReach a (view t)) (created_view e) (Reach-FifoReach (create-Inv e) r),
    unfold post in ((λ h. ground arith), (λ h. ground arith)),
  )
