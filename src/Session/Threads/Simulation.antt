-- ===== src/Session/Threads/Simulation.antt =====
-- Each step of a thread in a method of a session leaves the session as it would be without the method,
-- or is the method as a whole.
use near_object_framework.Common.{
  ◌≡◌, refl, ◌⊎◌, inl, inr, true, List, [], ◌∷◌, Option, none, some, arith, has_value, Bool, ◌∙◌,
}
use near_object_framework.NearObject.{DoubleEq, NearObject}
use near_object_framework.Session.{
  RangingSessionStatus, Session, Event, on_near_object_properties_changed, RangingSession,
  invoke_event_callback, add_near_objects, remove_near_objects, start_ranging, stop_ranging,
  near_object_properties_changed, on_session_ended,
}
use near_object_framework.Session.History
use near_object_framework.Session.History.{events_tell_members, events_tell_ranging}
use near_object_framework.Session.Threads.{
  Threads, MembersCall, add, remove, RangingCall, start, stop, MembersGate, RangingGate, free,
  leaving, entered, changed, new_ranging_session, ranging_goes_on, changed_members, members_goes_on,
  Step, enters_members, members_go, enters_ranging, ranging_go, changes, announces_end, works,
}
use near_object_framework.TaskQueue

-- The ranging session as it was before a change whose event has not been posted yet.
abbrev before_ranging : RangingGate → Option RangingSession → Option RangingSession
before_ranging free now = now
before_ranging leaving now = now
before_ranging (entered call) now = now
before_ranging (changed call before) now = before

-- What a thread that has changed the ranging session has yet to tell.
abbrev RangingIn : RangingGate → Bool → Option RangingSession → Type 0
RangingIn free supported now = Unit {0}
RangingIn leaving supported now = Unit {0}
RangingIn (entered call) supported now = Unit {0}
RangingIn (changed start before) supported now =
    (before ≡ none) × (supported ≡ true) × (now ≡ some new_ranging_session)
RangingIn (changed stop before) supported now = (has_value before ≡ true) × (now ≡ none)

module _ {D : Type 0} ⦃e : DoubleEq D⦄ where
  -- The members as they were before a change whose event has not been posted yet.
  abbrev before_members : MembersGate D → List (NearObject D) → List (NearObject D)
  before_members free now = now
  before_members leaving now = now
  before_members (entered call) now = now
  before_members (changed call before) now = before

  -- The session as if each method took effect when it posts its event.
  abbrev as_if : MembersGate D → RangingGate → Session D → Session D
  as_if m r s = record s {
    m_near_objects = before_members m s.m_near_objects;
    m_ranging_session = before_ranging r s.m_ranging_session;
  }

  abbrev pub atomic : Threads D → Session D
  atomic i = as_if i.members_gate i.ranging_gate i.session

  -- What a thread that has changed the session has yet to tell.
  abbrev MembersIn : MembersGate D → List (NearObject D) → Type 0
  MembersIn free now = Unit {0}
  MembersIn leaving now = Unit {0}
  MembersIn (entered call) now = Unit {0}
  MembersIn (changed call before) now = now ≡ changed_members call before

  pub record Inv (i : Threads D) : Type 0 where
    pub members : MembersIn i.members_gate i.session.m_near_objects
    pub ranging :
        RangingIn i.ranging_gate i.session.m_capabilities.supports_ranging
          i.session.m_ranging_session
    pub open_queue : i.session.m_task_queue.queue.state ≡ TaskQueue.State.running

  -- A step changes nothing that a method would, or it is a step of the session by itself.
  pub record Simulates (i j : Threads D) : Type 0 where
    pub kept : Inv j
    pub matched : (atomic j ≡ atomic i) ⊎ History.Step (atomic i) (atomic j)

  abbrev at : MembersGate D → RangingGate → Session D → Threads D
  at m r s = record { session = s; members_gate = m; ranging_gate = r }

  -- The event of AddNearObjects or RemoveNearObjects: with it the method has taken effect.
  post_members :
      (call : MembersCall D) (before : List (NearObject D)) (r : RangingGate) (s : Session D)
      → s.m_near_objects ≡ changed_members call before
      → s.m_task_queue.queue.state ≡ TaskQueue.State.running
      → let i = at (changed call before) r s in
        History.Step (atomic i) (atomic (members_goes_on i.members_gate i))
  unfolding members_goes_on invoke_event_callback TaskQueue.post
  post_members (add objects) before r s now open_queue =
      let i = at (changed (add objects) before) r s in
      History.adds objects {t = atomic (members_goes_on i.members_gate i)}
        (unfold add_near_objects in ground arith)
  post_members (remove objects) before r s now open_queue =
      let i = at (changed (remove objects) before) r s in
      History.removes objects {t = atomic (members_goes_on i.members_gate i)}
        (unfold remove_near_objects in ground arith)

  members_go-Simulates :
      (m : MembersGate D) (r : RangingGate) (s : Session D)
      → Inv (at m r s)
      → Simulates (at m r s) (members_goes_on m (at m r s))
  unfolding members_goes_on
  members_go-Simulates free r s v = record { kept = v; matched = inl refl }
  members_go-Simulates leaving r s v = record { kept = ground arith; matched = inl refl }
  members_go-Simulates (entered call) r s v = record { kept = ground arith; matched = inl refl }
  members_go-Simulates (changed call before) r s v = record {
    kept = unfold invoke_event_callback TaskQueue.post in ground arith;
    matched = inr (post_members call before r s v.members v.open_queue);
  }

  -- The event of StartRanging or StopRanging.
  post_ranging :
      (call : RangingCall) (before : Option RangingSession) (m : MembersGate D) (s : Session D)
      → Inv (at m (changed call before) s)
      → let i = at m (changed call before) s in
        History.Step (atomic i) (atomic (ranging_goes_on i.ranging_gate i))
  unfolding ranging_goes_on invoke_event_callback TaskQueue.post
  post_ranging start before m s v =
      let i = at m (changed start before) s in
      History.starts {t = atomic (ranging_goes_on i.ranging_gate i)}
        {r = record { status = RangingSessionStatus.running }}
        (unfold start_ranging in ground (arith, v.ranging, v.open_queue))
  post_ranging stop before m s v =
      let i = at m (changed stop before) s in
      History.stops {t = atomic (ranging_goes_on i.ranging_gate i)}
        (unfold stop_ranging in ground (arith, v.ranging, v.open_queue))

  ranging_go-Simulates :
      (m : MembersGate D) (r : RangingGate) (s : Session D)
      → Inv (at m r s)
      → Simulates (at m r s) (ranging_goes_on r (at m r s))
  unfolding ranging_goes_on
  ranging_go-Simulates m free s v = record { kept = v; matched = inl refl }
  ranging_go-Simulates m leaving s v = record { kept = ground arith; matched = inl refl }
  ranging_go-Simulates m (entered start) s v = record {
    kept = ground arith;
    matched = inl (ground arith);
  }
  ranging_go-Simulates m (entered stop) s v = record {
    kept = ground arith;
    matched = inl (ground arith);
  }
  ranging_go-Simulates m (changed call before) s v = record {
    kept = unfold invoke_event_callback TaskQueue.post in ground arith;
    matched = inr (post_ranging call before m s v);
  }

  -- An event that needs no mutex leaves alone what the mutexes guard.
  post_alone :
      (event : Event D) (m : MembersGate D) (r : RangingGate) (s : Session D)
      → Inv (at m r s)
      → let j = at m r (invoke_event_callback event s).0 in
        Inv j × (invoke_event_callback event (as_if m r s) ≡ (atomic j, some tt))
  unfolding invoke_event_callback TaskQueue.post
  post_alone event m r s v = (ground (arith, v.open_queue), ground (arith, v.open_queue))

  pub Step-Simulates : {i j : Threads D} → Step i j → Inv i → Simulates i j
  Step-Simulates {i} (enters_members call is_free) v = record {
    kept = record { members = tt; ranging = v.ranging; open_queue = v.open_queue };
    matched = inl (ground arith);
  }
  Step-Simulates {i} members_go v = members_go-Simulates i.members_gate i.ranging_gate i.session v
  Step-Simulates {i} (enters_ranging call is_free) v = record {
    kept = record { members = v.members; ranging = tt; open_queue = v.open_queue };
    matched = inl (ground arith);
  }
  Step-Simulates {i} ranging_go v = ranging_go-Simulates i.members_gate i.ranging_gate i.session v
  Step-Simulates {i} (changes object) v =
      let event = on_near_object_properties_changed (object ∷ []) in
      let (kept, posted) = post_alone event i.members_gate i.ranging_gate i.session v in
      unfold near_object_properties_changed in
      record { kept = kept; matched = inr (History.changes object posted) }
  Step-Simulates {i} announces_end v =
      let (kept, posted) = post_alone on_session_ended i.members_gate i.ranging_gate i.session v in
      record { kept = kept; matched = inr (History.announces_end posted) }
  Step-Simulates {i} (works st same state) v = record {
    kept = record { members = v.members; ranging = v.ranging; open_queue = state ∙ v.open_queue };
    matched = inr (History.works st same state);
  }
