-- ===== src/Session/Threads.antt =====
-- lib/nearobject/NearObjectSession.cxx with any number of threads in its methods: a thread takes the
-- mutex of a method, changes what it guards, posts the event and gives the mutex back, each of these a
-- step, and the others go on in between. The mutexes are m_nearObjectsGate and m_rangingStateGate.
mod Simulation
pub mod Atomic
pub mod Release
mod Tests
use near_object_framework.Common.{
  ◌≡◌, not, List, [], ◌++◌, Option, none, some, if◌then◌else◌, has_value,
}
use near_object_framework.NearObject.{DoubleEq, NearObject}
use near_object_framework.Session.{
  Session, Event, RangingSession, on_ranging_started, on_ranging_stopped, on_session_ended,
  on_session_membership_changed, stable_partition, is_named, new_objects, invoke_event_callback,
  near_object_properties_changed,
}
use near_object_framework.TaskQueue
use near_object_framework.TaskQueue.{System}

-- The methods that take m_nearObjectsGate and change the members.
pub data MembersCall (D : Type 0) : Type 0 where
  add remove : List (NearObject D) → MembersCall D

-- The methods that take m_rangingStateGate and change the ranging session.
pub data RangingCall : Type 0 where
  start stop : RangingCall

-- m_nearObjectsGate, and how far the thread that holds it has come: `changed` has the members as
-- they were when it took the mutex.
pub data MembersGate (D : Type 0) : Type 0 where
  free leaving : MembersGate D
  entered : MembersCall D → MembersGate D
  changed : MembersCall D → (before : List (NearObject D)) → MembersGate D

-- m_rangingStateGate, likewise.
pub data RangingGate : Type 0 where
  free leaving : RangingGate
  entered : RangingCall → RangingGate
  changed : RangingCall → (before : Option RangingSession) → RangingGate

-- A session with its mutexes and the threads that are in its methods.
pub record Threads (D : Type 0) : Type 0 where
  pub session : Session D
  pub members_gate : MembersGate D
  pub ranging_gate : RangingGate

-- The session that CreateNewRangingSession makes.
abbrev pub new_ranging_session : RangingSession
new_ranging_session = record { ranging_data_updated = λ u. u }

module _ {D : Type 0} where
  -- No thread is in a method.
  abbrev pub idle : Session D → Threads D
  idle s = record { session = s; members_gate = MembersGate.free; ranging_gate = RangingGate.free }

  -- What StartRanging and StopRanging do to the optional, by themselves.
  emplace_ranging : Threads D → Threads D
  emplace_ranging i =
      if i.session.m_capabilities.supports_ranging
      then record i {
        session = record i.session { m_ranging_session = some new_ranging_session };
        ranging_gate = RangingGate.changed start i.session.m_ranging_session;
      }
      else record i { ranging_gate = RangingGate.leaving }

  change_ranging : RangingCall → Threads D → Threads D
  unfolding emplace_ranging
  change_ranging start i =
      if has_value i.session.m_ranging_session
      then record i { ranging_gate = RangingGate.leaving }
      else emplace_ranging i
  change_ranging stop i =
      if has_value i.session.m_ranging_session
      then record i {
        session = record i.session { m_ranging_session = none };
        ranging_gate = RangingGate.changed stop i.session.m_ranging_session;
      }
      else record i { ranging_gate = RangingGate.leaving }

  pub ranging_event : RangingCall → Event D
  ranging_event start = on_ranging_started
  ranging_event stop = on_ranging_stopped

  -- The next step of the thread that holds m_rangingStateGate. It gives the mutex back also if post
  -- throws.
  pub ranging_goes_on : RangingGate → Threads D → Threads D
  unfolding change_ranging ranging_event
  ranging_goes_on free i = i
  ranging_goes_on (entered call) i = change_ranging call i
  ranging_goes_on (changed call before) i = record i {
    session = (invoke_event_callback (ranging_event call) i.session).0;
    ranging_gate = RangingGate.leaving;
  }
  ranging_goes_on leaving i = record i { ranging_gate = RangingGate.free }

module _ {D : Type 0} ⦃e : DoubleEq D⦄ where
  -- What AddNearObjects and RemoveNearObjects make of the members, and the event for it.
  pub changed_members : MembersCall D → List (NearObject D) → List (NearObject D)
  changed_members (add objects) members = members ++ new_objects members objects
  changed_members (remove objects) members =
      (stable_partition (λ o. not (is_named objects o)) members).0

  pub membership_event : MembersCall D → List (NearObject D) → Event D
  membership_event (add objects) members =
      on_session_membership_changed (new_objects members objects) []
  membership_event (remove objects) members =
      on_session_membership_changed [] (stable_partition (λ o. not (is_named objects o)) members).1

  -- The next step of the thread that holds m_nearObjectsGate.
  pub members_goes_on : MembersGate D → Threads D → Threads D
  unfolding changed_members membership_event
  members_goes_on free i = i
  members_goes_on (entered call) i = record i {
    session = record i.session { m_near_objects = changed_members call i.session.m_near_objects };
    members_gate = MembersGate.changed call i.session.m_near_objects;
  }
  members_goes_on (changed call before) i = record i {
    session = (invoke_event_callback (membership_event call before) i.session).0;
    members_gate = MembersGate.leaving;
  }
  members_goes_on leaving i = record i { members_gate = MembersGate.free }

  -- What may happen next: a thread takes a mutex that is free, the holder of one goes on, a thread
  -- posts an event that needs no mutex (EndSession does so after it has stopped the ranging), or the
  -- queue's own threads work. Nobody else posts to the queue or stops it,
  -- and CreateNewRangingSession, which is protected, is called by StartRanging alone.
  pub data Step (i : Threads D) : Threads D → Type 0 where
    enters_members :
        (call : MembersCall D)
        → i.members_gate ≡ MembersGate.free
        → Step i (record i { members_gate = MembersGate.entered call })
    members_go : Step i (members_goes_on i.members_gate i)
    enters_ranging :
        (call : RangingCall)
        → i.ranging_gate ≡ RangingGate.free
        → Step i (record i { ranging_gate = RangingGate.entered call })
    ranging_go : Step i (ranging_goes_on i.ranging_gate i)
    changes :
        (object : NearObject D)
        → Step i (record i { session = (near_object_properties_changed object i.session).0 })
    announces_end :
        Step i (record i { session = (invoke_event_callback on_session_ended i.session).0 })
    works :
        {q : System (Event D)}
        → TaskQueue.Step i.session.m_task_queue q
        → q.posted ≡ i.session.m_task_queue.posted
        → q.queue.state ≡ i.session.m_task_queue.queue.state
        → Step i (record i { session = record i.session { m_task_queue = q } })

  pub data Reach (i : Threads D) : Threads D → Type 0 where
    here : Reach i i
    later : {j k : Threads D} → Reach i j → Step j k → Reach i k
