-- ===== src/Session/Queue.antt =====
-- Every method of a session moves its task queue by the queue's own steps.
use near_object_framework.Common.{
  ◌≡◌, refl, ◌⊎◌, inl, inr, true, not, List, [], ◌∷◌, some, arith, ◌∙◌,
}
use near_object_framework.NearObject.{DoubleEq, NearObject, NearObjectCapabilities}
use near_object_framework.Session.{
  Session, Event, create, on_ranging_started, on_ranging_stopped, on_session_ended, >>=-eq-some,
  on_session_membership_changed, on_near_object_properties_changed, stable_partition, is_named,
  new_objects, StartRangingSessionResult, invoke_event_callback, add_near_objects,
  remove_near_objects, start_ranging, stop_ranging, end_session, near_object_properties_changed,
}
use near_object_framework.Session.History.{
  Step, adds, removes, starts, stops, ends, announces_end, changes, works, Reach, here, later,
}
use near_object_framework.TaskQueue
use near_object_framework.TaskQueue.{System}

-- The queue has moved on by its own steps, and runs as before.
pub record Moves {E : Type 0} (q r : System E) : Type 0 where
  pub reach : TaskQueue.Reach q r
  pub same : r.queue.state ≡ q.queue.state

-- A method posts one event, or none.
abbrev Posts : {E : Type 0} → E → System E → System E → Type 0
Posts event q r = (r ≡ q) ⊎ (TaskQueue.post event q ≡ some r)

Posts-Moves : {E : Type 0} (event : E) (q r : System E) → Posts event q r → Moves q r
Posts-Moves event q r (inl e) = rw e (record { reach = TaskQueue.here; same = refl })
Posts-Moves event q r (inr e) = record {
  reach = TaskQueue.later TaskQueue.here (TaskQueue.client_posts event e);
  same = unfold TaskQueue.post in ground arith;
}

Reach-trans :
    {E : Type 0} {q r t : System E}
    → TaskQueue.Reach q r
    → TaskQueue.Reach r t
    → TaskQueue.Reach q t
Reach-trans a TaskQueue.here = a
Reach-trans a (TaskQueue.later b st) = TaskQueue.later (Reach-trans a b) st

pub Moves-trans : {E : Type 0} {q r t : System E} → Moves q r → Moves r t → Moves q t
Moves-trans a b = record { reach = Reach-trans a.reach b.reach; same = b.same ∙ a.same }

module _ {D : Type 0} (s t : Session D) where
  invoke-Moves :
      (event : Event D)
      → invoke_event_callback event s ≡ (t, some tt)
      → Moves s.m_task_queue t.m_task_queue
  unfolding invoke_event_callback
  invoke-Moves event h = Posts-Moves event s.m_task_queue t.m_task_queue (ground arith)

  stop_ranging-Moves : stop_ranging s ≡ (t, some tt) → Moves s.m_task_queue t.m_task_queue
  unfolding stop_ranging
  stop_ranging-Moves h = Posts-Moves on_ranging_stopped s.m_task_queue t.m_task_queue (ground arith)

  start_ranging-Moves :
      {r : StartRangingSessionResult}
      → start_ranging s ≡ (t, some r)
      → Moves s.m_task_queue t.m_task_queue
  unfolding start_ranging
  start_ranging-Moves h =
      Posts-Moves on_ranging_started s.m_task_queue t.m_task_queue (ground arith)

  remove_near_objects-Moves :
      (objects : List (NearObject D))
      → remove_near_objects objects s ≡ (t, some tt)
      → Moves s.m_task_queue t.m_task_queue
  unfolding remove_near_objects
  remove_near_objects-Moves objects h =
      let removed = (stable_partition (λ o. not (is_named objects o)) s.m_near_objects).1 in
      Posts-Moves (on_session_membership_changed [] removed) s.m_task_queue t.m_task_queue
        (ground arith)

  changes-Moves :
      (object : NearObject D)
      → near_object_properties_changed object s ≡ (t, some tt)
      → Moves s.m_task_queue t.m_task_queue
  unfolding near_object_properties_changed
  changes-Moves object h =
      Posts-Moves (on_near_object_properties_changed (object ∷ [])) s.m_task_queue t.m_task_queue
        (ground arith)

  add_near_objects-Moves :
      ⦃e : DoubleEq D⦄ (objects : List (NearObject D))
      → add_near_objects objects s ≡ (t, some tt)
      → Moves s.m_task_queue t.m_task_queue
  unfolding add_near_objects
  add_near_objects-Moves objects h =
      let added = new_objects s.m_near_objects objects in
      Posts-Moves (on_session_membership_changed added []) s.m_task_queue t.m_task_queue
        (ground arith)

pub end_session-Moves :
    {D : Type 0} (s t : Session D)
    → end_session s ≡ (t, some tt)
    → Moves s.m_task_queue t.m_task_queue
unfolding end_session
end_session-Moves s t h =
    let (m, _, stopped, ended) =
      >>=-eq-some stop_ranging (λ _. invoke_event_callback on_session_ended) s h in
    Moves-trans (stop_ranging-Moves s m stopped) (invoke-Moves m t on_session_ended ended)

module _ {D : Type 0} ⦃e : DoubleEq D⦄ where
  Step-Moves : {s t : Session D} → Step s t → Moves s.m_task_queue t.m_task_queue
  Step-Moves {s} {t} (adds objects h) = add_near_objects-Moves s t objects h
  Step-Moves {s} {t} (removes objects h) = remove_near_objects-Moves s t objects h
  Step-Moves {s} {t} (starts h) = start_ranging-Moves s t h
  Step-Moves {s} {t} (stops h) = stop_ranging-Moves s t h
  Step-Moves {s} {t} (ends h) = end_session-Moves s t h
  Step-Moves {s} {t} (announces_end h) = invoke-Moves s t on_session_ended h
  Step-Moves {s} {t} (changes object h) = changes-Moves s t object h
  Step-Moves (works st _ same) = record { reach = TaskQueue.later TaskQueue.here st; same = same }

  pub Reach-Moves : {s t : Session D} → Reach s t → Moves s.m_task_queue t.m_task_queue
  Reach-Moves here = record { reach = TaskQueue.here; same = refl }
  Reach-Moves (later r st) = Moves-trans (Reach-Moves r) (Step-Moves st)

pub created_running :
    {E : Type 0} {q : System E}
    → TaskQueue.create true ≡ some q
    → q.queue.state ≡ TaskQueue.State.running
unfolding TaskQueue.create
created_running h = ground arith

-- A new session's queue runs.
pub create-running :
    {D : Type 0} (c : NearObjectCapabilities) (first : List (NearObject D)) {q : System (Event D)}
    → TaskQueue.create true ≡ some q
    → (create c first q).m_task_queue.queue.state ≡ TaskQueue.State.running
unfolding create
create-running c first h = created_running h
