-- ===== src/Session/Threads/Atomic.antt =====
-- Whatever threads are in the methods of a session, and however they interleave, the methods are atomic.
use near_object_framework.Common.{
  ◌≡◌, ◌⊎◌, inl, inr, true, false, List, some, subst, sym, ◌∙◌, arith,
}
use near_object_framework.NearObject.{DoubleEq, NearObject, NearObjectCapabilities}
use near_object_framework.Session.{Session, Event, create, get_near_objects, is_ranging_active}
use near_object_framework.Session.Events.{ranging_after, members_after}
use near_object_framework.Session.History
use near_object_framework.Session.History.{events_tell_members, events_tell_ranging}
use near_object_framework.Session.Queue.{create-running}
use near_object_framework.Session.Threads.{
  Threads, MembersGate, RangingGate, idle, Reach, here, later,
}
use near_object_framework.Session.Threads.Simulation.{Inv, atomic, Step-Simulates}
use near_object_framework.TaskQueue

module _ {D : Type 0} ⦃e : DoubleEq D⦄ where
  extend : {s t u : Session D} → History.Reach s t → (u ≡ t) ⊎ History.Step t u → History.Reach s u
  extend {s} r (inl same) = subst (λ x. History.Reach s x) (sym same) r
  extend r (inr st) = History.later r st

  pub Reach-Simulates :
      {s : Session D} {i : Threads D}
      → s.m_task_queue.queue.state ≡ TaskQueue.State.running
      → Reach (idle s) i
      → Inv i × History.Reach s (atomic i)
  Reach-Simulates open_queue here =
      (record { members = tt; ranging = tt; open_queue = open_queue }, History.here)
  Reach-Simulates open_queue (later r st) =
      let (v, before) = Reach-Simulates open_queue r in
      let step = Step-Simulates st v in (step.kept, extend before step.matched)

  module _ (c : NearObjectCapabilities) (first : List (NearObject D))
      {q : TaskQueue.System (Event D)} {i : Threads D} (h : TaskQueue.create true ≡ some q)
      (r : Reach (idle (create c first q)) i) where
    -- The methods of a session but EndSession are atomic, and EndSession is StopRanging and then the
    -- announcement of the end, each of which is: whatever threads call the public methods, and however
    -- these interleave, whenever no thread holds a mutex of the session, it is in a state that is
    -- reached when the methods and the two parts of EndSession are called one after another. Other
    -- calls may come between the two parts.
    pub methods_are_atomic :
        i.members_gate ≡ MembersGate.free
        → i.ranging_gate ≡ RangingGate.free
        → History.Reach (create c first q) i.session
    methods_are_atomic members_free ranging_free =
        subst (λ s. History.Reach (create c first q) s) (ground arith)
          (Reach-Simulates (create-running c first h) r).1

    -- Whatever threads are in the methods of a session, whenever no thread holds the mutex of the near
    -- objects: a client that began with the first objects and follows the membership events, dropping
    -- the removed pointers and appending the added objects, has exactly what GetNearObjects returns, in
    -- the same order.
    pub members_seen :
        i.members_gate ≡ MembersGate.free
        → members_after first i.session.m_task_queue.posted ≡ get_near_objects i.session
    members_seen is_free =
        events_tell_members c first h (Reach-Simulates (create-running c first h) r).1
        ∙ unfold get_near_objects in ground arith

    -- Whatever threads are in the public methods of a session, whenever no thread holds the mutex of the
    -- ranging state: OnRangingStarted and OnRangingStopped have been posted in turns, the former first,
    -- and ranging is active exactly if the former came last.
    pub ranging_seen :
        i.ranging_gate ≡ RangingGate.free
        → ranging_after false i.session.m_task_queue.posted ≡ some (is_ranging_active i.session)
    ranging_seen is_free =
        events_tell_ranging c first h (Reach-Simulates (create-running c first h) r).1
        ∙ unfold is_ranging_active in ground arith
