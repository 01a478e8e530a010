-- ===== src/Session.antt =====
-- lib/nearobject: NearObjectSession.hxx and NearObjectSession.cxx, NearObjectSessionEventCallbacks.hxx.
-- A method runs under the mutex of what it changes, so it is one step; EndSession has no mutex around
-- its two parts, and Whole is about that. A call of a callback is an
-- `Event`, posted to the session's task queue and delivered when the worker runs it. Pointers to
-- near objects are not null.
mod Events
mod History
mod Membership
mod Members
mod Queue
mod Whole
mod End
pub mod Threads
pub mod Tests
use near_object_framework.Common.{
  ℕ, zero, suc, ◌≡◌, refl, Bool, true, false, not, List, [], ◌∷◌, ◌++◌, Option, none, some,
  if◌then◌else◌, any_of, copy_if, has_value,
}
use near_object_framework.NearObject.{
  DoubleEq, NearObject, NearObjectCapabilities, same_pointer, near_object_eq,
}
use near_object_framework.TaskQueue
use near_object_framework.TaskQueue.{System}

-- NearObjectSession::RangingSessionStatus.
pub data RangingSessionStatus : Type 0 where
  running error not_supported maximum_sessions_reached : RangingSessionStatus

-- NearObjectSession::StartRangingSessionResult.
pub record StartRangingSessionResult : Type 0 where
  pub status : RangingSessionStatus

-- NearObjectSession::RangingSession: its callback returns nothing.
pub record RangingSession : Type 0 where
  pub ranging_data_updated : Unit {0} → Unit {0}

-- The member functions of NearObjectSessionEventCallbacks with their arguments but the session.
pub data Event (D : Type 0) : Type 0 where
  on_session_ended : Event D
  on_ranging_started : Event D
  on_ranging_stopped : Event D
  on_near_object_properties_changed : (changed : List (NearObject D)) → Event D
  on_session_membership_changed : (added removed : List (NearObject D)) → Event D

-- NearObjectSession.
pub record Session (D : Type 0) : Type 0 where
  pub m_ranging_session : Option RangingSession
  pub m_capabilities : NearObjectCapabilities
  pub m_near_objects : List (NearObject D)
  pub m_task_queue : System (Event D)

-- A method's effect: the session that it leaves, and its result, or `none` if it throws.
abbrev pub Method : Type 0 → Type 0 → Type 0
Method D A = Session D → Session D × Option A

abbrev pub pure : {D A : Type 0} → A → Method D A
pure a s = (s, some a)

-- What follows a method that returns; a method that throws ends the chain.
abbrev next : {D A B : Type 0} → (A → Method D B) → Session D × Option A → Session D × Option B
next f (u, none) = (u, none)
next f (u, some a) = f a u

infixl 5 ◌>>=◌ ◌>>◌
abbrev pub ◌>>=◌ : {D A B : Type 0} → Method D A → (A → Method D B) → Method D B
◌>>=◌ m f s = next f (m s)

abbrev pub ◌>>◌ : {D B : Type 0} → Method D (Unit {0}) → Method D B → Method D B
m >> k = m >>= λ _. k

next-eq-some :
    {D A B : Type 0} (f : A → Method D B) (r : Session D × Option A) {t : Session D} {b : B}
    → next f r ≡ (t, some b)
    → (u : Session D) × (a : A) × (r ≡ (u, some a)) × (f a u ≡ (t, some b))
next-eq-some f (u, none) h = cc
next-eq-some f (u, some a) h = (u, a, refl, h)

>>=-eq-some :
    {D A B : Type 0} (m : Method D A) (f : A → Method D B) (s : Session D) {t : Session D} {b : B}
    → (m >>= f) s ≡ (t, some b)
    → (u : Session D) × (a : A) × (m s ≡ (u, some a)) × (f a u ≡ (t, some b))
>>=-eq-some m f s h = next-eq-some f (m s) h

module _ {D : Type 0} where
  abbrev posted : Session D → Option (System (Event D)) → Session D × Option (Unit {0})
  posted s none = (s, none)
  posted s (some q) = (record s { m_task_queue = q }, some tt)

  -- NearObjectSession::InvokeEventCallback: post throws if the queue is stopping.
  pub invoke_event_callback : Event D → Method D (Unit {0})
  invoke_event_callback event s = posted s (TaskQueue.post event s.m_task_queue)

  -- The task that it posts: the weak_ptr to the callbacks is locked when the task runs, and a client
  -- that is gone gets nothing. `received` is what the client has been told so far.
  pub run_callback : Bool → Event D → List (Event D) → List (Event D)
  run_callback client_alive event received =
      if client_alive then received ++ event ∷ [] else received

  -- The tasks of a queue run one after another, for a client that lets its callbacks go when this many
  -- of them have run.
  pub received : ℕ → List (Event D) → List (Event D) → List (Event D)
  unfolding run_callback
  received n [] sofar = sofar
  received zero (event ∷ events) sofar = received zero events (run_callback false event sofar)
  received (suc n) (event ∷ events) sofar = received n events (run_callback true event sofar)

  -- NearObjectSession::NearObjectSession.
  pub create : NearObjectCapabilities → List (NearObject D) → System (Event D) → Session D
  create capabilities near_objects queue = record {
    m_ranging_session = none;
    m_capabilities = capabilities;
    m_near_objects = near_objects;
    m_task_queue = queue;
  }

  pub get_capabilities : Session D → NearObjectCapabilities
  get_capabilities s = s.m_capabilities

  pub get_near_objects : Session D → List (NearObject D)
  get_near_objects s = s.m_near_objects

  pub is_ranging_active : Session D → Bool
  is_ranging_active s = has_value s.m_ranging_session

  abbrev with_running : Session D × Option (Unit {0}) → Session D × Option RangingSessionStatus
  with_running (s, none) = (s, none)
  with_running (s, some u) = (s, some running)

  begin_ranging : Method D RangingSessionStatus
  unfolding invoke_event_callback
  begin_ranging s =
      let session : RangingSession = record { ranging_data_updated = λ u. u } in
      with_running
        (invoke_event_callback on_ranging_started (record s { m_ranging_session = some session }))

  -- NearObjectSession::CreateNewRangingSession.
  pub create_new_ranging_session : Method D RangingSessionStatus
  unfolding begin_ranging
  create_new_ranging_session s =
      if s.m_capabilities.supports_ranging then begin_ranging s else (s, some not_supported)

  abbrev with_status :
      Session D × Option RangingSessionStatus → Session D × Option StartRangingSessionResult
  with_status (s, none) = (s, none)
  with_status (s, some status) = (s, some (record { status = status }))

  -- NearObjectSession::StartRanging.
  pub start_ranging : Method D StartRangingSessionResult
  unfolding create_new_ranging_session
  start_ranging s =
      if has_value s.m_ranging_session
      then (s, some (record { status = maximum_sessions_reached }))
      else with_status (create_new_ranging_session s)

  -- NearObjectSession::StopRanging.
  pub stop_ranging : Method D (Unit {0})
  unfolding invoke_event_callback
  stop_ranging s =
      if has_value s.m_ranging_session
      then invoke_event_callback on_ranging_stopped (record s { m_ranging_session = none })
      else (s, some tt)

  -- NearObjectSession::EndSession.
  pub end_session : Method D (Unit {0})
  unfolding stop_ranging
  end_session = do stop_ranging; invoke_event_callback on_session_ended

  -- NearObjectSession::NearObjectPropertiesChanged.
  pub near_object_properties_changed : NearObject D → Method D (Unit {0})
  unfolding invoke_event_callback
  near_object_properties_changed changed =
      invoke_event_callback (on_near_object_properties_changed (changed ∷ []))

  -- The removed part of the partition: the pointers that the caller named.
  abbrev pub is_named : List (NearObject D) → NearObject D → Bool
  is_named named object = any_of (same_pointer object) named

  -- std::stable_partition by a test: both parts keep their order.
  abbrev pub stable_partition :
      (NearObject D → Bool) → List (NearObject D) → List (NearObject D) × List (NearObject D)
  stable_partition keep objects = (copy_if keep objects, copy_if (λ o. not (keep o)) objects)

  -- NearObjectSession::RemoveNearObjects.
  pub remove_near_objects : List (NearObject D) → Method D (Unit {0})
  unfolding invoke_event_callback
  remove_near_objects to_remove s =
      let parts = stable_partition (λ o. not (is_named to_remove o)) s.m_near_objects in
      invoke_event_callback (on_session_membership_changed [] parts.1)
        (record s { m_near_objects = parts.0 })

  pub remove_near_object : NearObject D → Method D (Unit {0})
  unfolding remove_near_objects
  remove_near_object removed = remove_near_objects (removed ∷ [])

  -- NearObjectSession::~NearObjectSession: the body ends the session (what it throws would end the
  -- program, and it does not throw as long as the queue runs), and then m_taskQueue is destroyed.
  pub destroy : Session D → Session D
  unfolding end_session
  destroy s =
      let ended = (end_session s).0 in
      record ended { m_task_queue = TaskQueue.stop_and_wait_for_task_completion ended.m_task_queue }

module _ {D : Type 0} ⦃e : DoubleEq D⦄ where
  -- The objects that AddNearObjects adds: those that equal no member by value.
  abbrev pub new_objects : List (NearObject D) → List (NearObject D) → List (NearObject D)
  new_objects members to_add =
      copy_if (λ o. not (any_of (λ member. near_object_eq o member) members)) to_add

  -- NearObjectSession::AddNearObjects.
  pub add_near_objects : List (NearObject D) → Method D (Unit {0})
  unfolding invoke_event_callback
  add_near_objects to_add s =
      let added = new_objects s.m_near_objects to_add in
      invoke_event_callback (on_session_membership_changed added [])
        (record s { m_near_objects = s.m_near_objects ++ added })

  pub add_near_object : NearObject D → Method D (Unit {0})
  unfolding add_near_objects
  add_near_object added = add_near_objects (added ∷ [])
