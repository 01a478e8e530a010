-- ===== src/TaskQueue/Tests.antt =====
-- A queue of numbers: two tasks are posted, the worker takes both and runs one, then a stop.
use near_object_framework.Common.{
  ℕ, ◌<◌, ◌≡◌, refl, ◌⊎◌, ◌↔◌, Bool, true, false, [], ◌∷◌, ◌++◌, none, some,
}
use near_object_framework.TaskQueue.{
  running, stopping, cancel, System, sleeping, exited, checking, busy, is_stop_pending, post, stop,
  notify, create, process_queue_step, client_posts, client_stops, client_notifies, worker_works,
  Reach, here, later, destroy, stop_and_wait_for_task_completion, enough, process_queue,
}
use near_object_framework.TaskQueue.Invariant.{no_lost_wakeup}
use near_object_framework.TaskQueue.Stop.{stop_and_wait_runs_all, cancel_undone}
use near_object_framework.TaskQueue.Fifo.{FifoReach, new_fifo, view, implements_fifo}
use near_object_framework.TaskQueue.Futures.{destroy_settles}
use near_object_framework.TaskQueue.OwnThread.{stop_and_wait_in_task, stop_in_task}

abbrev created : System ℕ
created = record {
  queue = record { runnables = []; state = running };
  worker = checking;
  notices = 0;
  posted = [];
  ran = [];
  canceled = false;
}

created_lem : create true ≡ some created
unfolding create
created_lem = refl

-- The worker went to sleep before the first post.
abbrev asleep : System ℕ
asleep = record created { worker = sleeping }

abbrev one_posted : System ℕ
one_posted = record {
  queue = record { runnables = 5 ∷ []; state = running };
  worker = sleeping;
  notices = 1;
  posted = 5 ∷ [];
  ran = [];
  canceled = false;
}

asleep-Reach : Reach created asleep
unfolding process_queue_step
asleep-Reach = later here worker_works

one_posted-Reach : Reach created one_posted
unfolding post
one_posted-Reach = later asleep-Reach (client_posts 5 refl)

two_posted : Reach created (record one_posted {
  queue = record { runnables = 5 ∷ 6 ∷ []; state = running };
  posted = 5 ∷ 6 ∷ [];
})
unfolding post
two_posted = later one_posted-Reach (client_posts 6 refl)

-- The worker has taken the first task, and the second waits in the queue.
abbrev working : System ℕ
working = record {
  queue = record { runnables = 6 ∷ []; state = running };
  worker = busy (5 ∷ []);
  notices = 1;
  posted = 5 ∷ 6 ∷ [];
  ran = [];
  canceled = false;
}

working-Reach : Reach created working
unfolding post process_queue_step notify
working-Reach =
    later (later (later one_posted-Reach (client_notifies refl)) worker_works) (client_posts 6 refl)

no_lost_wakeup_example :
    (0 < one_posted.notices)
    ⊎ ((one_posted.queue.runnables ≡ []) × (is_stop_pending running ≡ false))
no_lost_wakeup_example = no_lost_wakeup created_lem one_posted-Reach refl

stopped_run : stop_and_wait_for_task_completion working ≡ record working {
  queue = record { runnables = []; state = stopping };
  worker = exited;
  ran = 5 ∷ 6 ∷ [];
}
unfolding stop_and_wait_for_task_completion process_queue_step
stopped_run = refl

-- The queue is told to stop and cancel while the worker is about to test its condition.
abbrev returned : System ℕ
returned = record (process_queue_step (stop cancel created)) { notices = 1 }

returned-Reach : Reach created (process_queue_step (stop cancel created))
returned-Reach = later (later here (client_stops cancel)) worker_works

stop_and_wait_runs_all_example :
    ((stop_and_wait_for_task_completion working).worker ≡ exited)
    × ((stop_and_wait_for_task_completion working).posted ≡ 5 ∷ 6 ∷ [])
    × (((stop_and_wait_for_task_completion working).ran
          ≡ (stop_and_wait_for_task_completion working).posted)
        ⊎ ((working.worker ≡ exited) × (working.canceled ≡ true)))
stop_and_wait_runs_all_example = stop_and_wait_runs_all created_lem working-Reach

cancel_undone_example :
    (stop_and_wait_for_task_completion (notify 1 (stop cancel working))).ran ≡ 5 ∷ 6 ∷ []
cancel_undone_example = cancel_undone working (λ e. cc)

destroy_settles_example :
    ((destroy working).0.worker ≡ exited)
    × (working.posted ≡ (destroy working).0.ran ++ (destroy working).1)
    × (((destroy working).1 ≡ []) ⊎ (working.canceled ≡ true))
destroy_settles_example = destroy_settles created_lem working-Reach

-- The first task is running, and the second waits.
abbrev in_first : System ℕ
in_first = record working { worker = busy []; ran = 5 ∷ [] }

in_first-Reach : Reach created in_first
unfolding process_queue_step
in_first-Reach = later working-Reach worker_works

stop_in_task_example :
    let u = stop_and_wait_in_task in_first in
    let v = process_queue (enough u) u in
    (u.worker ≡ busy [])
    × (u.ran ≡ 5 ∷ [])
    × (u.queue.runnables ≡ 6 ∷ [])
    × (post 7 u ≡ none)
    × (v.worker ≡ exited)
    × (v.ran ≡ 5 ∷ 6 ∷ [])
stop_in_task_example = stop_in_task [] 7 created_lem in_first-Reach refl

implements_fifo_example :
    FifoReach new_fifo (view in_first)
    × ((post 7 in_first ≡ none) ↔ (◌≡◌ {A = Bool} (is_stop_pending running) true))
implements_fifo_example = implements_fifo 7 created_lem in_first-Reach
