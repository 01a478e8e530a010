-- ===== src/Session/Whole.antt =====
-- lib/nearobject/NearObjectSession.cxx: EndSession has no mutex around its two parts, StopRanging and the
-- event. What holds as long as nothing comes between them, and what does not.
use near_object_framework.Common.{
  ◌≡◌, Bool, true, false, List, [], ◌∷◌, ◌++◌, some, arith, has_value, append_assoc, ◌∙◌, refl, sym,
  ap, not,
}
use near_object_framework.NearObject.{DoubleEq, NearObject, NearObjectCapabilities}
use near_object_framework.Session.{
  Session, Event, on_ranging_started, on_ranging_stopped, on_session_ended,
  on_session_membership_changed, on_near_object_properties_changed, running, >>=-eq-some,
  StartRangingSessionResult, create, invoke_event_callback, add_near_objects, remove_near_objects,
  start_ranging, stop_ranging, end_session, near_object_properties_changed, is_ranging_active,
  new_objects, stable_partition, is_named,
}
use near_object_framework.Session.History.{
  Step, adds, removes, starts, stops, ends, announces_end, changes, works, Reach, here, later,
  Reach-Inv, create-Inv,
}
use near_object_framework.Session.Queue.{Reach-Moves, create-running}
use near_object_framework.TaskQueue

module _ {D : Type 0} where
  abbrev is_end : Event D → Bool
  is_end on_ranging_started = false
  is_end on_ranging_stopped = false
  is_end on_session_ended = true
  is_end (on_near_object_properties_changed objects) = false
  is_end (on_session_membership_changed added removed) = false

  -- Whether OnSessionEnded is the last event.
  abbrev pub ended_last : List (Event D) → Bool
  ended_last [] = false
  ended_last (e ∷ []) = is_end e
  ended_last (e ∷ f ∷ es) = ended_last (f ∷ es)

  ended_last-snoc : (es : List (Event D)) (e : Event D) → ended_last (es ++ e ∷ []) ≡ is_end e
  ended_last-snoc [] e = ground arith
  ended_last-snoc (x ∷ []) e = ground arith
  ended_last-snoc (x ∷ y ∷ es) e = ended_last-snoc (y ∷ es) e

module _ {D : Type 0} ⦃e : DoubleEq D⦄ where
  -- No second half of EndSession by itself.
  abbrev pub WholeStep : {s t : Session D} → Step s t → Type 0
  WholeStep (adds objects h) = Unit {0}
  WholeStep (removes objects h) = Unit {0}
  WholeStep (starts h) = Unit {0}
  WholeStep (stops h) = Unit {0}
  WholeStep (ends h) = Unit {0}
  WholeStep (announces_end h) = ⊥
  WholeStep (changes object h) = Unit {0}
  WholeStep (works st posted state) = Unit {0}

  abbrev pub Whole : {s t : Session D} → Reach s t → Type 0
  Whole here = Unit {0}
  Whole (later r st) = Whole r × WholeStep st

  -- OnSessionEnded was not the last event, or ranging is not active.
  abbrev Quiet : Session D → Type 0
  Quiet s = ended_last s.m_task_queue.posted ≡ true → has_value s.m_ranging_session ≡ false

  adds-Quiet :
      (objects : List (NearObject D)) (s t : Session D)
      → Quiet s
      → add_near_objects objects s ≡ (t, some tt)
      → Quiet t
  unfolding add_near_objects TaskQueue.post
  adds-Quiet objects s t q h last = ground (
    arith,
    ended_last-snoc s.m_task_queue.posted
        (on_session_membership_changed (new_objects s.m_near_objects objects) []),
  )

  stops-Quiet :
      (s t : Session D) → stop_ranging s ≡ (t, some tt) → has_value t.m_ranging_session ≡ false
  unfolding stop_ranging TaskQueue.post
  stops-Quiet s t h = ground arith

  starts-Quiet :
      (s t : Session D) (r : StartRangingSessionResult)
      → Quiet s
      → start_ranging s ≡ (t, some r)
      → Quiet t
  unfolding start_ranging TaskQueue.post
  starts-Quiet s t r q h last =
      ground (arith, q, ended_last-snoc s.m_task_queue.posted on_ranging_started)

  removes-Quiet :
      (objects : List (NearObject D)) (s t : Session D)
      → Quiet s
      → remove_near_objects objects s ≡ (t, some tt)
      → Quiet t
  unfolding remove_near_objects TaskQueue.post
  removes-Quiet objects s t q h last =
      let removed = (stable_partition (λ o. not (is_named objects o)) s.m_near_objects).1 in
      ground
        (arith, ended_last-snoc s.m_task_queue.posted (on_session_membership_changed [] removed))

  changes-Quiet :
      (o : NearObject D) (s t : Session D)
      → Quiet s
      → near_object_properties_changed o s ≡ (t, some tt)
      → Quiet t
  unfolding near_object_properties_changed TaskQueue.post
  changes-Quiet o s t q h last =
      ground
        (arith, ended_last-snoc s.m_task_queue.posted (on_near_object_properties_changed (o ∷ [])))

  ends-Quiet :
      (s t : Session D) → end_session s ≡ (t, some tt) → has_value t.m_ranging_session ≡ false
  unfolding end_session invoke_event_callback TaskQueue.post
  ends-Quiet s t h =
      let (m, _, stopped, ended) =
        >>=-eq-some stop_ranging (λ _. invoke_event_callback on_session_ended) s h in
      ground (arith, stops-Quiet s m stopped)

  Step-Quiet : {s t : Session D} (st : Step s t) → WholeStep st → Quiet s → Quiet t
  Step-Quiet {s} {t} (adds objects h) w q = adds-Quiet objects s t q h
  Step-Quiet {s} {t} (removes objects h) w q = removes-Quiet objects s t q h
  Step-Quiet {s} {t} (starts h) w q = starts-Quiet s t _ q h
  Step-Quiet {s} {t} (stops h) w q = λ last. stops-Quiet s t h
  Step-Quiet {s} {t} (ends h) w q = λ last. ends-Quiet s t h
  Step-Quiet (announces_end h) w q = elim w [ ]
  Step-Quiet {s} {t} (changes object h) w q = changes-Quiet object s t q h
  Step-Quiet (works st same state) w q = λ last. q (ap ended_last (sym same) ∙ last)

  Reach-Quiet :
      (c : NearObjectCapabilities) (first : List (NearObject D)) {q : TaskQueue.System (Event D)}
      {s : Session D}
      → TaskQueue.create true ≡ some q
      → (r : Reach (create c first q) s) → Whole r
      → Quiet s
  unfolding create
  Reach-Quiet c first h here w = λ last. refl
  Reach-Quiet c first h (later r st) w = Step-Quiet st w.1 (Reach-Quiet c first h r w.0)

  -- In every state of a session in which nothing has come between the two parts of an EndSession:
  -- where OnSessionEnded is the last event that has been posted, ranging is not active.
  pub inactive_after_end :
      (c : NearObjectCapabilities) (first : List (NearObject D)) {q : TaskQueue.System (Event D)}
      {s : Session D}
      → TaskQueue.create true ≡ some q
      → (r : Reach (create c first q) s) → Whole r
      → ended_last s.m_task_queue.posted ≡ true
      → is_ranging_active s ≡ false
  unfolding is_ranging_active
  inactive_after_end c first h r w = Reach-Quiet c first h r w

  -- A StartRanging comes between the two parts of an EndSession on a living session that supports
  -- ranging: all calls succeed, OnSessionEnded is posted last, and ranging is active behind it.
  pub start_within_end :
      (c : NearObjectCapabilities) (first : List (NearObject D)) {q : TaskQueue.System (Event D)}
      {s : Session D}
      → TaskQueue.create true ≡ some q
      → Reach (create c first q) s
      → c.supports_ranging ≡ true
      → let (t, stopped) = stop_ranging s in
        let (u, started) = start_ranging t in
        let (v, announced) = invoke_event_callback on_session_ended u in
        (stopped ≡ some tt)
        × (started ≡ some (record { status = running }))
        × (announced ≡ some tt)
        × (v.m_task_queue.posted
            ≡ t.m_task_queue.posted ++ on_ranging_started ∷ on_session_ended ∷ [])
        × (is_ranging_active v ≡ true)
  unfolding stop_ranging start_ranging invoke_event_callback TaskQueue.post is_ranging_active
  start_within_end c first {q} {s} h r supported =
      let v = Reach-Inv (create-Inv c first h) r in
      let open_queue = (Reach-Moves r).same ∙ create-running c first h in
      ground (
        arith,
        v.constant,
        open_queue,
        append_assoc s.m_task_queue.posted (on_ranging_started ∷ []) (on_session_ended ∷ []),
        append_assoc (s.m_task_queue.posted ++ on_ranging_stopped ∷ []) (on_ranging_started ∷ [])
            (on_session_ended ∷ []),
      )
