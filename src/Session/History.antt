-- ===== src/Session/History.antt =====
-- What can happen to a session while it lives, and what holds throughout.
use near_object_framework.Common.{
  ◌≡◌, ◌⊎◌, true, false, not, List, [], ◌∷◌, some, arith, copy_if, has_value, copy_if_all,
  append-nil,
}
use near_object_framework.NearObject.{DoubleEq, NearObject, NearObjectCapabilities}
use near_object_framework.Session.{
  Session, Event, on_ranging_started, on_ranging_stopped, on_session_ended, stable_partition,
  >>=-eq-some, on_near_object_properties_changed, new_objects, on_session_membership_changed,
  is_named, StartRangingSessionResult, create, invoke_event_callback, add_near_objects,
  remove_near_objects, start_ranging, stop_ranging, end_session, near_object_properties_changed,
  is_ranging_active, get_capabilities, get_near_objects,
}
use near_object_framework.Session.Events.{
  ranging_after, members_after, ranging_after-append, members_after-append,
}
use near_object_framework.Session.Membership.{copy_if-removed}
use near_object_framework.TaskQueue
use near_object_framework.TaskQueue.{System}

module _ {D : Type 0} ⦃e : DoubleEq D⦄ where
  -- A public method that returns, the second half of EndSession alone, or the queue's own threads at work;
  -- CreateNewRangingSession, which is protected, is called by StartRanging alone;
  -- nobody else posts to the queue or stops it.
  pub data Step (s : Session D) : Session D → Type 0 where
    adds :
        (objects : List (NearObject D)) {t : Session D}
        → add_near_objects objects s ≡ (t, some tt)
        → Step s t
    removes :
        (objects : List (NearObject D)) {t : Session D}
        → remove_near_objects objects s ≡ (t, some tt)
        → Step s t
    starts :
        {t : Session D} {r : StartRangingSessionResult} → start_ranging s ≡ (t, some r) → Step s t
    stops : {t : Session D} → stop_ranging s ≡ (t, some tt) → Step s t
    ends : {t : Session D} → end_session s ≡ (t, some tt) → Step s t
    announces_end :
        {t : Session D} → invoke_event_callback on_session_ended s ≡ (t, some tt) → Step s t
    changes :
        (object : NearObject D) {t : Session D}
        → near_object_properties_changed object s ≡ (t, some tt)
        → Step s t
    works :
        {q : System (Event D)}
        → TaskQueue.Step s.m_task_queue q
        → q.posted ≡ s.m_task_queue.posted
        → q.queue.state ≡ s.m_task_queue.queue.state
        → Step s (record s { m_task_queue = q })

  pub data Reach (s : Session D) : Session D → Type 0 where
    here : Reach s s
    later : {t u : Session D} → Reach s t → Step t u → Reach s u

  -- The posted events tell a client who began with the first members all that it needs to know.
  pub record Inv (capabilities : NearObjectCapabilities) (first : List (NearObject D))
      (s : Session D) : Type 0 where
    pub ranging : ranging_after false s.m_task_queue.posted ≡ some (has_value s.m_ranging_session)
    pub members : members_after first s.m_task_queue.posted ≡ s.m_near_objects
    pub capable : has_value s.m_ranging_session ≡ true → capabilities.supports_ranging ≡ true
    pub constant : s.m_capabilities ≡ capabilities

  module _ {c : NearObjectCapabilities} {first : List (NearObject D)} {s t : Session D}
      (v : Inv c first s) where
    starts-Inv : {r : StartRangingSessionResult} → start_ranging s ≡ (t, some r) → Inv c first t
    unfolding start_ranging TaskQueue.post
    starts-Inv h = ground (
      arith,
      ranging_after-append false s.m_task_queue.posted on_ranging_started,
      members_after-append first s.m_task_queue.posted on_ranging_started,
    )

    stops-Inv : stop_ranging s ≡ (t, some tt) → Inv c first t
    unfolding stop_ranging TaskQueue.post
    stops-Inv h = ground (
      arith,
      ranging_after-append false s.m_task_queue.posted on_ranging_stopped,
      members_after-append first s.m_task_queue.posted on_ranging_stopped,
    )

    ended-Inv : invoke_event_callback on_session_ended s ≡ (t, some tt) → Inv c first t
    unfolding invoke_event_callback TaskQueue.post
    ended-Inv h = ground (
      arith,
      ranging_after-append false s.m_task_queue.posted on_session_ended,
      members_after-append first s.m_task_queue.posted on_session_ended,
    )

    changes-Inv :
        (o : NearObject D) → near_object_properties_changed o s ≡ (t, some tt) → Inv c first t
    unfolding near_object_properties_changed TaskQueue.post
    changes-Inv o h = ground (
      arith,
      ranging_after-append false s.m_task_queue.posted (on_near_object_properties_changed (o ∷ [])),
      members_after-append first s.m_task_queue.posted (on_near_object_properties_changed (o ∷ [])),
    )

    adds-Inv :
        (objects : List (NearObject D)) → add_near_objects objects s ≡ (t, some tt) → Inv c first t
    unfolding add_near_objects TaskQueue.post
    adds-Inv objects h =
        let event = on_session_membership_changed (new_objects s.m_near_objects objects) [] in
        ground (
          arith,
          ranging_after-append false s.m_task_queue.posted event,
          members_after-append first s.m_task_queue.posted event,
          copy_if_all (λ (o : NearObject D). true) s.m_near_objects,
        )

    removes-Inv :
        (objects : List (NearObject D))
        → remove_near_objects objects s ≡ (t, some tt)
        → Inv c first t
    unfolding remove_near_objects TaskQueue.post
    removes-Inv objects h =
        let removed = (stable_partition (λ o. not (is_named objects o)) s.m_near_objects).1 in
        let event = on_session_membership_changed [] removed in
        ground (
          arith,
          ranging_after-append false s.m_task_queue.posted event,
          members_after-append first s.m_task_queue.posted event,
          copy_if-removed objects s.m_near_objects,
          append-nil (copy_if (λ o. not (is_named objects o)) s.m_near_objects),
        )

  ends-Inv :
      {c : NearObjectCapabilities} {first : List (NearObject D)} {s t : Session D}
      → Inv c first s
      → end_session s ≡ (t, some tt)
      → Inv c first t
  unfolding end_session
  ends-Inv {s = s} v h =
      let (m, _, stopped, ended) =
        >>=-eq-some stop_ranging (λ _. invoke_event_callback on_session_ended) s h in
      ended-Inv (stops-Inv v stopped) ended

  Step-Inv :
      {c : NearObjectCapabilities} {first : List (NearObject D)} {s t : Session D}
      → Step s t
      → Inv c first s
      → Inv c first t
  Step-Inv (adds objects h) v = adds-Inv v objects h
  Step-Inv (removes objects h) v = removes-Inv v objects h
  Step-Inv (starts h) v = starts-Inv v h
  Step-Inv (stops h) v = stops-Inv v h
  Step-Inv (ends h) v = ends-Inv v h
  Step-Inv (announces_end h) v = ended-Inv v h
  Step-Inv (changes object h) v = changes-Inv v object h
  Step-Inv (works st same _) v = record {
    ranging = rw same v.ranging;
    members = rw same v.members;
    capable = v.capable;
    constant = v.constant;
  }

  pub Reach-Inv :
      {c : NearObjectCapabilities} {first : List (NearObject D)} {s t : Session D}
      → Inv c first s
      → Reach s t
      → Inv c first t
  Reach-Inv v here = v
  Reach-Inv v (later r st) = Step-Inv st (Reach-Inv v r)

  pub create-Inv :
      (c : NearObjectCapabilities) (first : List (NearObject D)) {q : System (Event D)}
      → TaskQueue.create true ≡ some q
      → Inv c first (create c first q)
  unfolding create TaskQueue.create ranging_after members_after
  create-Inv c first h = ground arith

  -- In every state of a living session: OnRangingStarted and OnRangingStopped have been posted in
  -- turns, the former first, and ranging is active exactly if the former came last.
  pub events_tell_ranging :
      (c : NearObjectCapabilities) (first : List (NearObject D)) {q : System (Event D)}
      {s : Session D}
      → TaskQueue.create true ≡ some q
      → Reach (create c first q) s
      → ranging_after false s.m_task_queue.posted ≡ some (is_ranging_active s)
  unfolding is_ranging_active
  events_tell_ranging c first h r = (Reach-Inv (create-Inv c first h) r).ranging

  -- In every state of a living session: a client that began with the first objects and follows the
  -- membership events, dropping the removed pointers and appending the added objects, has exactly
  -- what GetNearObjects returns, in the same order.
  pub events_tell_members :
      (c : NearObjectCapabilities) (first : List (NearObject D)) {q : System (Event D)}
      {s : Session D}
      → TaskQueue.create true ≡ some q
      → Reach (create c first q) s
      → members_after first s.m_task_queue.posted ≡ get_near_objects s
  unfolding get_near_objects
  events_tell_members c first h r = (Reach-Inv (create-Inv c first h) r).members

  -- In every state of a living session the capabilities are the first ones, and ranging is inactive
  -- or they support it.
  pub ranging_needs_capability :
      (c : NearObjectCapabilities) (first : List (NearObject D)) {q : System (Event D)}
      {s : Session D}
      → TaskQueue.create true ≡ some q
      → Reach (create c first q) s
      → (get_capabilities s ≡ c) × ((is_ranging_active s ≡ false) ⊎ (c.supports_ranging ≡ true))
  unfolding get_capabilities is_ranging_active
  ranging_needs_capability c first h r =
      let v = Reach-Inv (create-Inv c first h) r in (v.constant, ground (arith, v.capable))
