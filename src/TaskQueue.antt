-- ===== src/TaskQueue.antt =====
-- lib/shared/notstd/task_queue.cxx and include/notstd/task_queue.hxx. A task is whatever the client
-- posts; running it appends it to `ran`. A step is what happens under one hold of the mutex, or one
-- task, or one notification, so an interleaving of the threads is a sequence of steps.
pub mod Invariant
pub mod Stop
mod Drain
pub mod Futures
pub mod Fifo
mod OwnThread
mod Tests
use near_object_framework.Common.{
  ℕ, suc, zero, ◌+◌, ◌≡◌, Bool, true, false, not, ◌||◌, List, [], ◌∷◌, ◌++◌, Option, none, some,
  if◌then◌else◌, is_empty, length,
}

-- task_queue::state.
pub data State : Type 0 where
  running stopping canceling stopped : State

-- task_queue::pending_task_action.
pub data PendingTaskAction : Type 0 where
  run cancel : PendingTaskAction

-- The members that the mutex protects.
pub record TaskQueue {ℓ} (T : Type ℓ) : Type ℓ where
  pub runnables : List T
  pub state : State

-- The worker thread in process_queue: about to test the condition, blocked on the condition
-- variable, running the tasks that it took, or returned.
pub data Worker {ℓ} (T : Type ℓ) : Type ℓ where
  checking sleeping exited : Worker T
  busy : List T → Worker T

-- The whole object with its thread, the calls of notify_all that clients have still to make, and
-- three histories: the tasks that post has accepted, those that have run, and whether the queue was
-- ever told to cancel.
pub record System {ℓ} (T : Type ℓ) : Type ℓ where
  pub queue : TaskQueue T
  pub worker : Worker T
  pub notices : ℕ
  pub posted : List T
  pub ran : List T
  pub canceled : Bool

-- task_queue::is_stop_pending, by the state.
abbrev pub is_stop_pending : State → Bool
is_stop_pending State.running = false
is_stop_pending stopping = true
is_stop_pending canceling = true
is_stop_pending stopped = false

-- task_queue::stop chooses the next state by the action.
abbrev pub stop_state : PendingTaskAction → State
stop_state cancel = canceling
stop_state PendingTaskAction.run = stopping

-- What post does under the lock: `rejected` is the runtime_error, and an accepted task comes with
-- whether the queue was empty before.
pub data Posted {ℓ} (T : Type ℓ) : Type ℓ where
  accepted : TaskQueue T → Bool → Posted T
  rejected : Posted T

-- What a call of dispatcher::post comes to.
pub data Dispatched {ℓ} (T : Type ℓ) : Type ℓ where
  queued : System T → Dispatched T
  throws dangling : Dispatched T

module _ {ℓ} {T : Type ℓ} where
  -- task_queue::should_queue_exit.
  pub should_queue_exit : State → List T → Bool
  should_queue_exit stopping runnables = is_empty runnables
  should_queue_exit canceling runnables = true
  should_queue_exit State.running runnables = false
  should_queue_exit stopped runnables = false

  -- The locked part of task_queue::post.
  pub push : T → TaskQueue T → Posted T
  push t q =
      if is_stop_pending q.state
      then rejected
      else accepted (record q { runnables = q.runnables ++ t ∷ [] }) (is_empty q.runnables)

  -- task_queue::post, also through dispatcher::post: `none` if it throws.
  unfoldable pub post : T → System T → Option (System T)
  unfolding push
  post t s = elim (push t s.queue) [
    | rejected ↦ none
    | accepted q was_empty ↦ some (record s {
      queue = q;
      notices = if was_empty then suc s.notices else s.notices;
      posted = s.posted ++ t ∷ [];
    })
  ]

  -- task_queue::stop up to its notify_all.
  pub stop : PendingTaskAction → System T → System T
  stop action s = record s {
    queue = record s.queue { state = stop_state action };
    notices = suc s.notices;
    canceled = elim action [ cancel ↦ true | PendingTaskAction.run ↦ s.canceled ];
  }

  abbrev pub wake : Worker T → Worker T
  wake sleeping = checking
  wake checking = checking
  wake exited = exited
  wake (busy ts) = busy ts

  -- A wakeup of the condition variable, by a client's notify_all or spurious.
  pub awaken : System T → System T
  awaken s = record s { worker = wake s.worker }

  pub notify : ℕ → System T → System T
  unfolding awaken
  notify left s = record (awaken s) { notices = left }

  -- The wait, the exit test and the removal of all tasks, under one hold of the lock.
  pub check : System T → System T
  unfolding should_queue_exit
  check s =
      let exit = should_queue_exit s.queue.state s.queue.runnables in
      if not (is_empty s.queue.runnables) || exit
      then if exit
        then record s { worker = exited }
        else record s { worker = busy s.queue.runnables; queue = record s.queue { runnables = [] } }
      else record s { worker = sleeping }

  work : Worker T → System T → System T
  unfolding check
  work checking s = check s
  work sleeping s = s
  work exited s = s
  work (busy []) s = record s { worker = checking }
  work (busy (t ∷ ts)) s = record s { worker = busy ts; ran = s.ran ++ t ∷ [] }

  -- One step of process_queue.
  pub process_queue_step : System T → System T
  unfolding work
  process_queue_step s = work s.worker s

  -- process_queue, left to itself for so many steps.
  pub process_queue : ℕ → System T → System T
  process_queue zero s = s
  process_queue (suc fuel) s = process_queue fuel (process_queue_step s)

  -- The tasks that the worker has taken and not yet run.
  abbrev pub taken : Worker T → List T
  taken checking = []
  taken sleeping = []
  taken exited = []
  taken (busy ts) = ts

  -- Enough steps for the worker to run all that is there and return.
  abbrev pub enough : System T → ℕ
  enough s = length (taken s.worker) + length s.queue.runnables + 4

  -- stop_and_wait_for_task_completion: stop with its notification, then join the worker's thread. No other
  -- client calls stop before the join returns.
  pub stop_and_wait_for_task_completion : System T → System T
  unfolding stop notify process_queue
  stop_and_wait_for_task_completion s =
      let asked = notify s.notices (stop PendingTaskAction.run s) in
      process_queue (enough asked) asked

  -- task_queue::task_queue: `none` is the creation_exception, when no thread could be started.
  unfoldable pub create : Bool → Option (System T)
  create thread_started =
      if thread_started
      then some (record {
        queue = record { runnables = []; state = State.running };
        worker = checking;
        notices = 0;
        posted = [];
        ran = [];
        canceled = false;
      })
      else none

  -- task_queue::~task_queue: the tasks whose promises are broken are those that are left in the queue
  -- when its members are destroyed.
  pub destroy : System T → System T × List T
  unfolding stop_and_wait_for_task_completion
  destroy s = let over = stop_and_wait_for_task_completion s in (over, over.queue.runnables)

  -- dispatcher::post, by what is at its reference to the queue: `dangling` where the queue has been
  -- destroyed while a client keeps the dispatcher.
  pub dispatch : T → Option (System T) → Dispatched T
  unfolding post
  dispatch t none = dangling
  dispatch t (some s) = elim (post t s) [ none ↦ throws | some u ↦ queued u ]

  -- What the clients and the worker may do next.
  pub data Step (s : System T) : System T → Type ℓ where
    client_posts : (t : T) {u : System T} → post t s ≡ some u → Step s u
    client_stops : (action : PendingTaskAction) → Step s (stop action s)
    client_notifies : {n : ℕ} → s.notices ≡ suc n → Step s (notify n s)
    worker_wakes : Step s (awaken s)
    worker_works : Step s (process_queue_step s)

  pub data Reach (s : System T) : System T → Type ℓ where
    here : Reach s s
    later : {t u : System T} → Reach s t → Step t u → Reach s u
