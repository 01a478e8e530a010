-- ===== src/ServiceRuntime/Tests.antt =====
-- A runtime that has been started once.
use near_object_framework.Common.{◌≢◌, arith, ◌≡◌, refl, true, false, none, some}
use near_object_framework.ServiceRuntime.{
  Place, loop_test, before_wait, waiting, returned, ServiceRuntime, create, assign_thread, start,
  run_step, destroy, run_at, client_starts, thread_runs, Reach, here, later,
}
use near_object_framework.ServiceRuntime.Worker.{destroy_returns}

abbrev at_place : Place → ServiceRuntime
at_place place = record {
  m_running = true;
  m_thread_main = some place;
  m_service = none;
  notices = 0;
  handled = 0;
}

started_runs : start false create ≡ some (at_place loop_test)
unfolding start create assign_thread
started_runs = refl

reached : Reach create (run_step (at_place loop_test))
reached = later (later here (client_starts false started_runs)) thread_runs

now_running : (run_step (at_place loop_test)).m_running ≡ true
unfolding run_step run_at
now_running = refl

waiting_differs : waiting ≢ before_wait
waiting_differs e = ground arith

destroy_returns_example :
    (u : ServiceRuntime) × (destroy false 4 (at_place waiting) ≡ some u)
    × (u.m_thread_main ≡ some returned)
destroy_returns_example = destroy_returns 3 (at_place waiting) waiting refl refl waiting_differs
