-- ===== src/ServiceRuntime/Worker.antt =====
-- The thread of a runtime: when it lives, and when Stop reaches it.
use near_object_framework.Common.{
  ℕ, zero, suc, ◌≢◌, ◌≡◌, refl, Bool, true, false, Option, none, some, arith, ap, ◌∙◌,
}
use near_object_framework.ServiceRuntime.{
  Place, loop_test, before_wait, waiting, woken, returned, ServiceRuntime, create,
  set_service_instance, assign_thread, start, stop, awaken, notify, run_step, run_at, run_steps,
  join, destroy, handle_event, Step, client_starts, client_stops, client_sets, notice_arrives,
  thread_wakes, thread_runs, Reach, here, later,
}

-- A thread that has not returned.
abbrev pub lives : Option Place → Bool
lives none = false
lives (some loop_test) = true
lives (some before_wait) = true
lives (some waiting) = true
lives (some woken) = true
lives (some returned) = false

start-lives :
    (spurious : Bool) (r u : ServiceRuntime)
    → (r.m_running ≡ true → lives r.m_thread_main ≡ true)
    → start spurious r ≡ some u
    → u.m_running ≡ true
    → lives u.m_thread_main ≡ true
unfolding start assign_thread
start-lives spurious r u h e on = ground arith

Step-lives :
    (r u : ServiceRuntime)
    → (r.m_running ≡ true → lives r.m_thread_main ≡ true)
    → Step r u
    → u.m_running ≡ true
    → lives u.m_thread_main ≡ true
unfolding stop awaken notify run_step run_at handle_event set_service_instance
Step-lives r u h (client_starts spurious e) on = start-lives spurious r u h e on
Step-lives r u h (client_stops spurious) on = ground arith
Step-lives r u h (client_sets service) on = h on
Step-lives r u h (notice_arrives e) on = ground arith
Step-lives r u h thread_wakes on = ground arith
Step-lives r u h thread_runs on = ground arith

-- Whatever the clients and the thread do, a runtime that is running has a thread that lives.
pub running_has_thread :
    {r : ServiceRuntime} → Reach create r → r.m_running ≡ true → lives r.m_thread_main ≡ true
unfolding create
running_has_thread here on = absurd (ground arith)
running_has_thread (later {t} {u} reach step) on = Step-lives t u (running_has_thread reach) step on

run_steps-returned :
    (n : ℕ) (r : ServiceRuntime)
    → r.m_thread_main ≡ some returned
    → (run_steps n r).m_thread_main ≡ some returned
unfolding run_steps run_step run_at
run_steps-returned zero r h = h
run_steps-returned (suc n) r h = run_steps-returned n (run_at r.m_thread_main r) (ground arith)

join-returned : (r : ServiceRuntime) → r.m_thread_main ≡ some returned → join r ≡ some r
unfolding join
join-returned r h = ground arith

join-asleep : (r : ServiceRuntime) → r.m_thread_main ≡ some waiting → join r ≡ none
unfolding join
join-asleep r h = ground arith

-- Wherever a stopped thread is, unless it is about to wait, it returns with its next step.
stop-returned :
    (r : ServiceRuntime) (place : Place)
    → r.m_running ≡ true
    → r.m_thread_main ≡ some place
    → place ≢ before_wait
    → (run_step (notify r.notices (stop false r))).m_thread_main ≡ some returned
unfolding stop notify awaken run_step run_at
stop-returned r loop_test on here_now h = ground arith
stop-returned r before_wait on here_now h = absurd (h refl)
stop-returned r waiting on here_now h = ground arith
stop-returned r woken on here_now h = ground arith
stop-returned r returned on here_now h = ground arith

-- The destruction of a running runtime, where the exchange of its Stop succeeds, returns as soon as
-- the thread has had a step, and the thread has returned then, unless the thread was between the
-- test of the loop and the wait.
pub destroy_returns :
    (n : ℕ) (r : ServiceRuntime) (place : Place)
    → r.m_running ≡ true
    → r.m_thread_main ≡ some place
    → place ≢ before_wait
    → (u : ServiceRuntime) × (destroy false (suc n) r ≡ some u) × (u.m_thread_main ≡ some returned)
unfolding destroy run_steps
destroy_returns n r place on here_now h =
    let stopped = run_step (notify r.notices (stop false r)) in
    let done = run_steps-returned n stopped (stop-returned r place on here_now h) in
    (run_steps n stopped, join-returned (run_steps n stopped) done, done)

stopped_early :
    (r : ServiceRuntime)
    → r.m_running ≡ true
    → r.m_thread_main ≡ some before_wait
    → run_step (notify r.notices (stop false r))
      ≡ record r { m_running = false; m_thread_main = some waiting }
unfolding stop notify awaken run_step run_at
stopped_early r on tests = ground arith

run_steps-asleep :
    (n : ℕ) (r : ServiceRuntime)
    → r.m_thread_main ≡ some waiting
    → (run_steps n r).m_thread_main ≡ some waiting
unfolding run_steps run_step run_at
run_steps-asleep zero r h = h
run_steps-asleep (suc n) r h = run_steps-asleep n (run_at r.m_thread_main r) (ground arith)

-- When the thread of a running runtime is between the test of the loop and the wait, the notification
-- of the destructor comes too early: where the exchange of its Stop succeeds and without a spurious
-- wakeup, the destruction does not return, however many steps the thread has.
pub destroy_hangs :
    (n : ℕ) (r : ServiceRuntime)
    → r.m_running ≡ true
    → r.m_thread_main ≡ some before_wait
    → destroy false n r ≡ none
unfolding destroy run_steps join stop notify awaken
destroy_hangs zero r on here_now = ground arith
destroy_hangs (suc n) r on here_now =
    let asleep = record r { m_running = false; m_thread_main = some waiting } in
    ap (λ s. join (run_steps n s)) (stopped_early r on here_now)
    ∙ join-asleep (run_steps n asleep) (run_steps-asleep n asleep refl)

-- A runtime cannot be restarted: in every reachable state where it is running, Stop and then Start,
-- with exchanges that succeed, end the program by the assignment to a thread that nobody has joined.
pub restart_terminates :
    {r : ServiceRuntime} → Reach create r → r.m_running ≡ true → start false (stop false r) ≡ none
unfolding start stop assign_thread
restart_terminates {r} reach on = ground (arith, running_has_thread reach on)
