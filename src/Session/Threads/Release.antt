-- ===== src/Session/Threads/Release.antt =====
-- No thread stays in a method of a session: the holder of a mutex gives it back by its own steps.
use near_object_framework.Common.{◌≡◌, refl, true, List, some, arith, ◌∙◌}
use near_object_framework.NearObject.{DoubleEq, NearObject, NearObjectCapabilities}
use near_object_framework.Session.{Session, Event, create}
use near_object_framework.Session.History
use near_object_framework.Session.Threads.{
  Threads, MembersGate, RangingGate, start, stop, free, leaving, entered, changed, idle, Reach,
  here, later, members_go, ranging_go, members_goes_on, ranging_goes_on,
}
use near_object_framework.Session.Threads.Atomic.{methods_are_atomic}
use near_object_framework.TaskQueue

module _ {D : Type 0} ⦃e : DoubleEq D⦄ where
  -- The holder of each mutex has a step, and another.
  abbrev members_step : Threads D → Threads D
  members_step i = members_goes_on i.members_gate i

  abbrev ranging_step : Threads D → Threads D
  ranging_step i = ranging_goes_on i.ranging_gate i

  -- Each holder has three steps.
  unfoldable pub finish : Threads D → Threads D
  finish i =
      let j = members_step (members_step (members_step i)) in
      ranging_step (ranging_step (ranging_step j))

  Reach-trans : {i j k : Threads D} → Reach i j → Reach j k → Reach i k
  Reach-trans a here = a
  Reach-trans a (later b st) = later (Reach-trans a b) st

  finish-Reach : (i : Threads D) → Reach i (finish i)
  unfolding finish
  finish-Reach i =
      later
        (later (later (later (later (later here members_go) members_go) members_go) ranging_go)
          ranging_go)
        ranging_go

  members_done :
      (m : MembersGate D) (r : RangingGate) (s : Session D)
      → let i : Threads D = record { session = s; members_gate = m; ranging_gate = r } in
        (members_step (members_step (members_step i))).members_gate ≡ MembersGate.free
  unfolding members_goes_on
  members_done free r s = refl
  members_done leaving r s = refl
  members_done (entered call) r s = refl
  members_done (changed call before) r s = refl

  -- The holder of one mutex leaves the other alone.
  ranging_step-members :
      (i : Threads D) (r : RangingGate) → (ranging_goes_on r i).members_gate ≡ i.members_gate
  unfolding ranging_goes_on
  ranging_step-members i free = refl
  ranging_step-members i leaving = refl
  ranging_step-members i (entered start) = ground arith
  ranging_step-members i (entered stop) = ground arith
  ranging_step-members i (changed call before) = refl

  ranging_done :
      (i : Threads D) (r : RangingGate)
      → i.ranging_gate ≡ r
      → (ranging_step (ranging_step (ranging_step i))).ranging_gate ≡ RangingGate.free
  unfolding ranging_goes_on
  ranging_done i free h = ground arith
  ranging_done i leaving h = ground arith
  ranging_done i (entered start) h = ground arith
  ranging_done i (entered stop) h = ground arith
  ranging_done i (changed call before) h = ground arith

  finish-members : (i : Threads D) → (finish i).members_gate ≡ MembersGate.free
  unfolding finish
  finish-members i =
      let j = members_step (members_step (members_step i)) in
      let k = ranging_step j in
      ranging_step-members (ranging_step k) (ranging_step k).ranging_gate
      ∙ (ranging_step-members k k.ranging_gate
          ∙ (ranging_step-members j j.ranging_gate
              ∙ members_done i.members_gate i.ranging_gate i.session))

  finish-ranging : (i : Threads D) → (finish i).ranging_gate ≡ RangingGate.free
  unfolding finish
  finish-ranging i =
      let j = members_step (members_step (members_step i)) in ranging_done j j.ranging_gate refl

  -- No thread stays in a method of a session: from every state that its threads reach, the holder of
  -- each mutex gives it back within three steps of its own, and the session is then in a state that the
  -- methods reach when they are called one after another.
  pub holders_finish :
      (c : NearObjectCapabilities) (first : List (NearObject D)) {q : TaskQueue.System (Event D)}
      {i : Threads D}
      → TaskQueue.create true ≡ some q
      → Reach (idle (create c first q)) i
      → let j = finish i in
        Reach i j
        × (j.members_gate ≡ MembersGate.free)
        × (j.ranging_gate ≡ RangingGate.free)
        × History.Reach (create c first q) j.session
  holders_finish c first {i = i} h r = (
    finish-Reach i,
    finish-members i,
    finish-ranging i,
    methods_are_atomic c first h (Reach-trans r (finish-Reach i)) (finish-members i)
        (finish-ranging i),
  )
