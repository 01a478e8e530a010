-- ===== src/ServiceRuntime.antt =====
-- lib/nearobject/service: ServiceRuntime.{hxx,cxx}. The thread of Run and the clients take turns; Stop
-- does not take the lock, so it may come between the loop's test and the wait. compare_exchange_weak
-- may fail spuriously. `none` is the end of the program by std::terminate.
pub mod Worker
mod Tests
use near_object_framework.Common.{
  ℕ, zero, suc, ◌+◌, ◌≡◌, Bool, true, false, not, ◌&&◌, Option, none, some, if◌then◌else◌,
}
use near_object_framework.DiscoveryAgent.{compare_exchange_weak}

-- Where the thread is in ServiceRuntime::Run.
pub data Place : Type 0 where
  loop_test before_wait waiting woken returned : Place

-- ServiceRuntime, with the notify_one calls that have not had their effect and the number of calls
-- of HandleEvent. `m_thread_main` is `none` as long as it is not joinable.
pub record ServiceRuntime : Type 0 where
  pub m_running : Bool
  pub m_thread_main : Option Place
  pub m_service : Option ℕ
  pub notices : ℕ
  pub handled : ℕ

unfoldable pub create : ServiceRuntime
create = record {
  m_running = false;
  m_thread_main = none;
  m_service = none;
  notices = 0;
  handled = 0;
}

-- ServiceRuntime::SetServiceInstance.
unfoldable pub set_service_instance : Option ℕ → ServiceRuntime → ServiceRuntime
set_service_instance service r = record r { m_service = service }

-- The assignment to m_threadMain: a thread that is joinable must not be assigned to.
unfoldable pub assign_thread : Option Place → ServiceRuntime → Option ServiceRuntime
assign_thread none r = some (record r { m_thread_main = some loop_test })
assign_thread (some place) r = none

-- ServiceRuntime::Start.
unfoldable pub start : Bool → ServiceRuntime → Option ServiceRuntime
unfolding assign_thread
start spurious r =
    let exchanged = compare_exchange_weak spurious r.m_running false true in
    if exchanged.1
    then assign_thread r.m_thread_main (record r { m_running = exchanged.0 })
    else some r

-- ServiceRuntime::Stop, up to its notify_one.
unfoldable pub stop : Bool → ServiceRuntime → ServiceRuntime
stop spurious r =
    let exchanged = compare_exchange_weak spurious r.m_running true false in
    if exchanged.1 then record r { m_running = exchanged.0; notices = suc r.notices } else r

-- A wakeup of the condition variable, by notify_one or spurious.
abbrev pub wake : Option Place → Option Place
wake none = none
wake (some waiting) = some woken
wake (some loop_test) = some loop_test
wake (some before_wait) = some before_wait
wake (some woken) = some woken
wake (some returned) = some returned

unfoldable pub awaken : ServiceRuntime → ServiceRuntime
awaken r = record r { m_thread_main = wake r.m_thread_main }

unfoldable pub notify : ℕ → ServiceRuntime → ServiceRuntime
unfolding awaken
notify left r = record (awaken r) { notices = left }

-- ServiceRuntime::HandleEvent does nothing yet; its calls are counted.
pub handle_event : ServiceRuntime → ServiceRuntime
handle_event r = record r { handled = r.handled + 1 }

unfoldable pub run_at : Option Place → ServiceRuntime → ServiceRuntime
unfolding handle_event
run_at none r = r
run_at (some loop_test) r =
    if r.m_running
    then record r { m_thread_main = some before_wait }
    else record r { m_thread_main = some returned }
run_at (some before_wait) r = record r { m_thread_main = some waiting }
run_at (some waiting) r = r
run_at (some woken) r =
    if not r.m_running
    then record r { m_thread_main = some returned }
    else record (handle_event r) { m_thread_main = some loop_test }
run_at (some returned) r = r

-- One step of ServiceRuntime::Run.
unfoldable pub run_step : ServiceRuntime → ServiceRuntime
unfolding run_at
run_step r = run_at r.m_thread_main r

-- The thread left to itself for so many steps.
unfoldable pub run_steps : ℕ → ServiceRuntime → ServiceRuntime
run_steps zero r = r
run_steps (suc n) r = run_steps n (run_step r)

-- Whether the destructor has nothing to join, or the join returns.
abbrev pub join_returns : Option Place → Bool
join_returns none = true
join_returns (some loop_test) = false
join_returns (some before_wait) = false
join_returns (some waiting) = false
join_returns (some woken) = false
join_returns (some returned) = true

unfoldable pub join : ServiceRuntime → Option ServiceRuntime
join r = if join_returns r.m_thread_main then some r else none

-- ServiceRuntime::~ServiceRuntime: Stop with its notification, and the join, given so many steps of
-- the thread; `none` if it waits still.
unfoldable pub destroy : Bool → ℕ → ServiceRuntime → Option ServiceRuntime
unfolding stop notify run_steps join
destroy spurious steps r = join (run_steps steps (notify r.notices (stop spurious r)))

-- The destructor in more detail: the thread has some steps between the exchange of Stop and its
-- notification, and some behind that; there may be a spurious wakeup then, and some more steps.
unfoldable pub destroy_in : Bool → ℕ → ℕ → Option ℕ → ServiceRuntime → Option ServiceRuntime
unfolding stop notify awaken run_steps join
destroy_in spurious between during none r =
    let stopped = run_steps between (stop spurious r) in
    join (run_steps during (notify r.notices stopped))
destroy_in spurious between during (some more) r =
    let stopped = run_steps between (stop spurious r) in
    join (run_steps more (awaken (run_steps during (notify r.notices stopped))))

-- What the clients and the thread may do next.
pub data Step (r : ServiceRuntime) : ServiceRuntime → Type 0 where
  client_starts : (spurious : Bool) {u : ServiceRuntime} → start spurious r ≡ some u → Step r u
  client_stops : (spurious : Bool) → Step r (stop spurious r)
  client_sets : (service : Option ℕ) → Step r (set_service_instance service r)
  notice_arrives : {n : ℕ} → r.notices ≡ suc n → Step r (notify n r)
  thread_wakes : Step r (awaken r)
  thread_runs : Step r (run_step r)

pub data Reach (r : ServiceRuntime) : ServiceRuntime → Type 0 where
  here : Reach r r
  later : {t u : ServiceRuntime} → Reach r t → Step t u → Reach r u
