-- ===== src/Session/End.antt =====
-- The end of a session: its task queue is the library's, and its destructor delivers everything.
use near_object_framework.Common.{
  ℕ, zero, suc, take, ◌≡◌, ◌≢◌, inl, inr, none, true, false, List, [], ◌∷◌, ◌++◌, some, arith, sym,
  ◌∙◌, ap, append_assoc, append-nil, if◌then◌else◌,
}
use near_object_framework.NearObject.{DoubleEq, NearObject, NearObjectCapabilities}
use near_object_framework.Session.{
  Session, Event, on_ranging_stopped, on_session_ended, create, end_session, is_ranging_active,
  destroy, received,
}
use near_object_framework.Session.History.{ends, Reach, later}
use near_object_framework.Session.Queue.{
  Moves-trans, end_session-Moves, Reach-Moves, created_running,
}
use near_object_framework.TaskQueue
use near_object_framework.TaskQueue.Invariant.{exited_after_all}
use near_object_framework.TaskQueue.Stop.{stop_and_wait_runs_all}
use near_object_framework.TaskQueue.{System}

-- While the state says running, the worker has not returned.
running-ne-exited :
    {E : Type 0} {q r : System E}
    → TaskQueue.create true ≡ some q
    → TaskQueue.Reach q r
    → r.queue.state ≡ TaskQueue.State.running
    → r.worker ≢ TaskQueue.exited
running-ne-exited h reach open_queue returned =
    let pending = (exited_after_all h reach returned).0 in
    let impossible = rw open_queue at pending in cc

stop_and_wait_open :
    {E : Type 0} {q r : System E}
    → TaskQueue.create true ≡ some q
    → TaskQueue.Reach q r
    → r.queue.state ≡ TaskQueue.State.running
    → let u = TaskQueue.stop_and_wait_for_task_completion r in
      (u.worker ≡ TaskQueue.exited) × (u.ran ≡ r.posted)
stop_and_wait_open {r = r} h reach open_queue =
    let (done, same, all) = stop_and_wait_runs_all h reach in
    (
      done,
      elim all [
        | inl e ↦ e ∙ same
        | inr (returned, _) ↦ absurd (running-ne-exited h reach open_queue returned)
      ],
    )

module _ {D : Type 0} ⦃e : DoubleEq D⦄ where
  -- A client has received the events that were delivered before it went.
  received-take :
      (n : ℕ) (events sofar : List (Event D)) → received n events sofar ≡ sofar ++ take n events
  unfolding received
  received-take zero [] sofar = sym (append-nil sofar)
  received-take (suc n) [] sofar = sym (append-nil sofar)
  received-take zero (event ∷ events) sofar = received-take zero events sofar
  received-take (suc n) (event ∷ events) sofar =
      received-take n events (sofar ++ event ∷ []) ∙ append_assoc sofar (event ∷ []) (take n events)

  -- The events that the end of a session adds.
  abbrev last_events : Session D → List (Event D)
  last_events s =
      if is_ranging_active s
      then on_ranging_stopped ∷ on_session_ended ∷ []
      else on_session_ended ∷ []

  -- EndSession on a session whose queue runs returns and posts those events.
  end_session-posted :
      (s : Session D)
      → s.m_task_queue.queue.state ≡ TaskQueue.State.running
      → (t : Session D) × (end_session s ≡ (t, some tt))
        × (t.m_task_queue.posted ≡ s.m_task_queue.posted ++ last_events s)
        × (t.m_ranging_session ≡ none)
  unfolding end_session TaskQueue.post is_ranging_active
  end_session-posted s open_queue = (
    (end_session s).0,
    ground arith,
    ground (
      arith,
      append_assoc s.m_task_queue.posted (on_ranging_stopped ∷ []) (on_session_ended ∷ []),
    ),
    ground arith,
  )

  -- The queue after EndSession on a living session.
  ended_queue :
      (c : NearObjectCapabilities) (first : List (NearObject D)) {q : System (Event D)}
      {s : Session D}
      → TaskQueue.create true ≡ some q
      → Reach (create c first q) s
      → let t = (end_session s).0 in
        TaskQueue.Reach q t.m_task_queue
        × (t.m_task_queue.queue.state ≡ TaskQueue.State.running)
        × (t.m_task_queue.posted ≡ s.m_task_queue.posted ++ last_events s)
        × (t.m_ranging_session ≡ none)
  unfolding create
  ended_queue c first {q} {s} h r =
      let m = Reach-Moves r in
      let open_queue = m.same ∙ created_running h in
      let (t, done, posts, over) = end_session-posted s open_queue in
      let all = Moves-trans m (end_session-Moves s t done) in
      let is_t : (end_session s).0 ≡ t = ap (λ p. p.0) done in
      rw is_t (all.reach, all.same ∙ created_running h, posts, over)

  -- The destructor of a living session: it returns, ranging is over, and its queue has run every
  -- event that was ever posted, then OnRangingStopped if ranging was active, and OnSessionEnded
  -- last. A client that lets its callbacks go when n of them have run, or not before the end, has
  -- received the first n of these events, in this order, and no other.
  pub destroy_delivers_all :
      (c : NearObjectCapabilities) (first : List (NearObject D)) (n : ℕ) {q : System (Event D)}
      {s : Session D}
      → TaskQueue.create true ≡ some q
      → Reach (create c first q) s
      → let u = destroy s in
        let all =
          s.m_task_queue.posted
          ++ (if is_ranging_active s
              then on_ranging_stopped ∷ on_session_ended ∷ []
              else on_session_ended ∷ []) in
        (u.m_task_queue.worker ≡ TaskQueue.exited)
        × (is_ranging_active u ≡ false)
        × (u.m_task_queue.ran ≡ all)
        × (received n u.m_task_queue.ran [] ≡ take n all)
  unfolding destroy is_ranging_active
  destroy_delivers_all c first n {q} {s} h r =
      let (reach, open_queue, posts, over) = ended_queue c first h r in
      let (done, ran) = stop_and_wait_open h reach open_queue in
      (
        done,
        ground arith,
        ran ∙ posts,
        received-take n (destroy s).m_task_queue.ran []
            ∙ ap (λ events. take n events) (ran ∙ posts),
      )

  -- OnSessionEnded comes twice: after a call of EndSession on a living session, a client receives, as
  -- long as it is there, the events of that call, and at the destruction OnSessionEnded again.
  pub ended_twice :
      (c : NearObjectCapabilities) (first : List (NearObject D)) (n : ℕ) {q : System (Event D)}
      {s t : Session D}
      → TaskQueue.create true ≡ some q
      → Reach (create c first q) s
      → end_session s ≡ (t, some tt)
      → received n (destroy t).m_task_queue.ran []
        ≡ take n (
            (s.m_task_queue.posted
              ++ (if is_ranging_active s
                  then on_ranging_stopped ∷ on_session_ended ∷ []
                  else on_session_ended ∷ []))
            ++ on_session_ended ∷ [])
  unfolding is_ranging_active
  ended_twice c first n {q} {s} {t} h r ends_now =
      let (_, _, posts, over) = ended_queue c first h r in
      let is_t : (end_session s).0 ≡ t = ap (λ p. p.0) ends_now in
      let (_, _, _, all) = destroy_delivers_all c first n h (later r (ends ends_now)) in
      let before = rw is_t at posts in let idle = rw is_t at over in ground arith
