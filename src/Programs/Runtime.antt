-- ===== src/Programs/Runtime.antt =====
-- The runtime of main, from its start to its destruction.
use near_object_framework.Common.{
  ℕ, zero, suc, ◌≡◌, refl, ◌≢◌, true, false, none, some, arith, ap, ◌==◌, if◌then◌else◌, Option,
  Bool, not, ◌∙◌, ◌&&◌, has_value,
}
use near_object_framework.Service.{NearObjectService}
use near_object_framework.ServiceRuntime
use near_object_framework.ServiceRuntime.{
  Place, loop_test, before_wait, waiting, woken, returned, ServiceRuntime, assign_thread, run_step,
  run_at, run_steps, join, set_service_instance, destroy_in, notify, awaken, stop,
}
use near_object_framework.Programs.{
  Schedule, returns, waits, started_runtime, ending_of, leave, leave_without_thread,
}

-- Where the thread is after so many steps, if nothing else happens.
abbrev pub place_after : ℕ → Place
place_after zero = loop_test
place_after (suc zero) = before_wait
place_after (suc (suc n)) = waiting

-- The runtime with its thread at a place.
abbrev pub running_at : NearObjectService → Place → ServiceRuntime
running_at service place = record {
  m_running = true;
  m_thread_main = some place;
  m_service = some service.address;
  notices = 0;
  handled = 0;
}

waiting_on :
    (n : ℕ) (service : NearObjectService)
    → run_steps n (running_at service waiting) ≡ running_at service waiting
unfolding run_steps run_step run_at
waiting_on zero service = refl
waiting_on (suc n) service = waiting_on n service

stepped :
    (n : ℕ) (service : NearObjectService)
    → run_steps n (running_at service loop_test) ≡ running_at service (place_after n)
unfolding run_steps run_step run_at
stepped zero service = refl
stepped (suc zero) service = refl
stepped (suc (suc n)) service = waiting_on n service

-- A start that does not fail spuriously.
pub started_runtime_lem :
    (schedule : Schedule) (service : NearObjectService)
    → schedule.start_spurious ≡ false
    → started_runtime schedule service ≡ some (running_at service (place_after schedule.before))
unfolding started_runtime ServiceRuntime.start assign_thread set_service_instance
    ServiceRuntime.create
started_runtime_lem schedule service h = rw h (ap some (stepped schedule.before service))

-- The runtime when the exchange of Stop has succeeded, with so many notifications on their way.
abbrev stopped_at : NearObjectService → ℕ → Place → ServiceRuntime
stopped_at service notices place = record {
  m_running = false;
  m_thread_main = some place;
  m_service = some service.address;
  notices = notices;
  handled = 0;
}

-- Where a stopped thread is after a step, and after more.
abbrev step_on : Place → Place
step_on loop_test = returned
step_on before_wait = waiting
step_on waiting = waiting
step_on woken = returned
step_on returned = returned

abbrev steps_on : ℕ → Place → Place
steps_on zero place = place
steps_on (suc n) place = step_on place

abbrev woken_up : Place → Place
woken_up loop_test = loop_test
woken_up before_wait = before_wait
woken_up waiting = woken
woken_up woken = woken
woken_up returned = returned

settled :
    (n notices : ℕ) (service : NearObjectService) (place : Place)
    → step_on place ≡ place
    → run_steps n (stopped_at service notices place) ≡ stopped_at service notices place
unfolding run_steps run_step run_at
settled zero notices service place h = refl
settled (suc n) notices service loop_test h = absurd (ground arith)
settled (suc n) notices service before_wait h = absurd (ground arith)
settled (suc n) notices service waiting h = settled n notices service waiting h
settled (suc n) notices service woken h = absurd (ground arith)
settled (suc n) notices service returned h = settled n notices service returned h

stopped_steps :
    (n notices : ℕ) (service : NearObjectService) (place : Place)
    → run_steps n (stopped_at service notices place) ≡ stopped_at service notices (steps_on n place)
unfolding run_steps run_step run_at
stopped_steps zero notices service place = refl
stopped_steps (suc n) notices service loop_test = settled n notices service returned refl
stopped_steps (suc n) notices service before_wait = settled n notices service waiting refl
stopped_steps (suc n) notices service waiting = settled n notices service waiting refl
stopped_steps (suc n) notices service woken = settled n notices service returned refl
stopped_steps (suc n) notices service returned = settled n notices service returned refl

-- Where the thread is when the destructor joins it.
abbrev last_place : ℕ → ℕ → Option ℕ → Place → Place
last_place between during none place = steps_on during (woken_up (steps_on between place))
last_place between during (some more) place =
    steps_on more (woken_up (steps_on during (woken_up (steps_on between place))))

notified_at :
    (service : NearObjectService) (place : Place)
    → notify 0 (stopped_at service 1 place) ≡ stopped_at service 0 (woken_up place)
unfolding notify awaken
notified_at service place = ground arith

awakened_at :
    (service : NearObjectService) (place : Place)
    → awaken (stopped_at service 0 place) ≡ stopped_at service 0 (woken_up place)
unfolding awaken
awakened_at service place = ground arith

destroyed_at :
    (between during : ℕ) (wakeup : Option ℕ) (service : NearObjectService) (place : Place)
    → destroy_in false between during wakeup (running_at service place)
      ≡ join (stopped_at service 0 (last_place between during wakeup place))
unfolding destroy_in stop
destroyed_at between during none service place = rw (stopped_steps between 1 service place) (
    rw (notified_at service (steps_on between place))
      (rw (stopped_steps during 0 service (woken_up (steps_on between place)))))
destroyed_at between during (some more) service place = rw (stopped_steps between 1 service place) (
    rw (notified_at service (steps_on between place)) (
      rw (stopped_steps during 0 service (woken_up (steps_on between place))) (
        rw (awakened_at service (steps_on during (woken_up (steps_on between place)))) (
          rw (
            stopped_steps more 0 service
              (woken_up (steps_on during (woken_up (steps_on between place)))))))))

-- A spurious wakeup leaves the thread a step.
abbrev pub Steps : Option ℕ → Type 0
Steps none = Unit {0}
Steps (some more) = more ≢ 0

-- The thread waits in the end only if it was about to wait, stayed there until the notification, and
-- was not woken up spuriously.
abbrev pub stays : Schedule → Bool
stays schedule = (schedule.before == 1 && schedule.between == 0) && not (has_value schedule.woken)

last_place_lem :
    (before between n : ℕ) (wakeup : Option ℕ)
    → Steps wakeup
    → last_place between (suc n) wakeup (place_after before)
      ≡ (if (before == 1 && between == 0) && not (has_value wakeup) then waiting else returned)
last_place_lem zero zero n none h = ground arith
last_place_lem zero zero n (some zero) h = absurd (h refl)
last_place_lem zero zero n (some (suc w)) h = ground arith
last_place_lem zero (suc t) n none h = ground arith
last_place_lem zero (suc t) n (some zero) h = absurd (h refl)
last_place_lem zero (suc t) n (some (suc w)) h = ground arith
last_place_lem (suc zero) zero n none h = ground arith
last_place_lem (suc zero) zero n (some zero) h = absurd (h refl)
last_place_lem (suc zero) zero n (some (suc w)) h = ground arith
last_place_lem (suc zero) (suc t) n none h = ground arith
last_place_lem (suc zero) (suc t) n (some zero) h = absurd (h refl)
last_place_lem (suc zero) (suc t) n (some (suc w)) h = ground arith
last_place_lem (suc (suc b)) zero n none h = ground arith
last_place_lem (suc (suc b)) zero n (some zero) h = absurd (h refl)
last_place_lem (suc (suc b)) zero n (some (suc w)) h = ground arith
last_place_lem (suc (suc b)) (suc t) n none h = ground arith
last_place_lem (suc (suc b)) (suc t) n (some zero) h = absurd (h refl)
last_place_lem (suc (suc b)) (suc t) n (some (suc w)) h = ground arith

-- With a thread that has steps the destruction returns, unless the thread stays where it waits.
pub leave_lem :
    (schedule : Schedule) (n : ℕ) (service : NearObjectService)
    → schedule.stop_spurious ≡ false
    → schedule.during ≡ suc n
    → Steps schedule.woken
    → leave schedule (running_at service (place_after schedule.before))
      ≡ (if stays schedule then waits else returns 0)
unfolding leave join
leave_lem schedule n service h steps more =
    let at_stop = running_at service (place_after schedule.before) in
    ap (λ b. ending_of (destroy_in b schedule.between schedule.during schedule.woken at_stop)) h
    ∙ (ap (λ d. ending_of (destroy_in false schedule.between d schedule.woken at_stop)) steps
        ∙ (ap ending_of (
              destroyed_at schedule.between (suc n) schedule.woken service
                (place_after schedule.before))
            ∙ ground
                (arith, last_place_lem schedule.before schedule.between n schedule.woken more)))

-- Without its thread the destruction waits, wherever the thread was.
pub leave_without_thread_lem :
    (schedule : Schedule) (service : NearObjectService)
    → leave_without_thread schedule (running_at service (place_after schedule.before)) ≡ waits
unfolding leave_without_thread leave destroy_in ServiceRuntime.stop notify awaken run_steps join
leave_without_thread_lem schedule service = ground arith
