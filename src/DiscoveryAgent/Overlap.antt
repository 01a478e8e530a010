-- ===== src/DiscoveryAgent/Overlap.antt =====
-- lib/nearobject/service/NearObjectDeviceControllerDiscoveryAgent.cxx: Start and Stop on several threads. The
-- exchange and the call of StartImpl or StopImpl behind it are two steps, and no lock covers both.
use near_object_framework.Common.{
  ℕ, zero, suc, ◌≡◌, refl, ◌+◌, Bool, false, List, [], ◌∷◌, ◌++◌, Option, none, some, arith,
  if◌then◌else◌,
}
use near_object_framework.DiscoveryAgent.{
  Agent, AgentImpl, start_exchange, stop_exchange, calls_start_impl, calls_stop_impl, is_started,
}
use near_object_framework.DiscoveryAgent.Transitions.{ImplCall, start_impl, stop_impl, recorder}

-- The agent, and the calls that threads are about to make of the derived class, since their exchange
-- has succeeded.
pub record Overlapping (S W : Type 0) : Type 0 where
  pub agent : Agent S W
  pub due : List ImplCall

-- What happens next: a thread makes the exchange of Start or of Stop, or the thread with the call of
-- this number makes it.
pub data CallStep : Type 0 where
  starts stops : (spurious : Bool) → CallStep
  calls_impl : ℕ → CallStep

-- The call with a number, and the others.
pub pick : ℕ → List ImplCall → Option (ImplCall × List ImplCall)
pick n [] = none
pick zero (c ∷ cs) = some (c, cs)
pick (suc n) (c ∷ cs) = elim (pick n cs) [ none ↦ none | some found ↦ some (found.0, c ∷ found.1) ]

module _ {S W : Type 0} (impl : AgentImpl S) where
  pub make_call : ImplCall → Agent S W → Agent S W
  make_call start_impl agent = calls_start_impl impl agent
  make_call stop_impl agent = calls_stop_impl impl agent

  pub made_call : Option (ImplCall × List ImplCall) → Overlapping S W → Overlapping S W
  unfolding make_call
  made_call none o = o
  made_call (some (c, others)) o = record { agent = make_call c o.agent; due = others }

  pub turn_of : CallStep → Overlapping S W → Overlapping S W
  unfolding made_call pick
  turn_of (starts spurious) o =
      let r = start_exchange spurious o.agent in
      record { agent = r.0; due = if r.1 then o.due ++ start_impl ∷ [] else o.due }
  turn_of (stops spurious) o =
      let r = stop_exchange spurious o.agent in
      record { agent = r.0; due = if r.1 then o.due ++ stop_impl ∷ [] else o.due }
  turn_of (calls_impl n) o = made_call (pick n o.due) o

  pub turns_of : List CallStep → Overlapping S W → Overlapping S W
  unfolding turn_of
  turns_of [] o = o
  turns_of (t ∷ ts) o = turns_of ts (turn_of t o)

abbrev pub none_due : {S W : Type 0} → Agent S W → Overlapping S W
none_due agent = record { agent = agent; due = [] }

-- How many of the calls are of StartImpl, and of StopImpl.
abbrev pub start_impls : List ImplCall → ℕ
start_impls [] = 0
start_impls (start_impl ∷ cs) = suc (start_impls cs)
start_impls (stop_impl ∷ cs) = start_impls cs

abbrev pub stop_impls : List ImplCall → ℕ
stop_impls [] = 0
stop_impls (start_impl ∷ cs) = stop_impls cs
stop_impls (stop_impl ∷ cs) = suc (stop_impls cs)

start_impls-append :
    (cs ds : List ImplCall) → start_impls (cs ++ ds) ≡ start_impls cs + start_impls ds
start_impls-append [] ds = omega arith
start_impls-append (start_impl ∷ cs) ds = omega (arith, start_impls-append cs ds)
start_impls-append (stop_impl ∷ cs) ds = start_impls-append cs ds

stop_impls-append : (cs ds : List ImplCall) → stop_impls (cs ++ ds) ≡ stop_impls cs + stop_impls ds
stop_impls-append [] ds = omega arith
stop_impls-append (start_impl ∷ cs) ds = stop_impls-append cs ds
stop_impls-append (stop_impl ∷ cs) ds = omega (arith, stop_impls-append cs ds)

-- The calls that have been picked and left are those that there were.
abbrev Picked : Option (ImplCall × List ImplCall) → List ImplCall → Type 0
Picked none cs = Unit {0}
Picked (some (c, others)) cs =
    (start_impls (c ∷ others) ≡ start_impls cs) × (stop_impls (c ∷ others) ≡ stop_impls cs)

pick-Picked : (n : ℕ) (cs : List ImplCall) → Picked (pick n cs) cs
unfolding pick
pick-Picked n [] = tt
pick-Picked zero (c ∷ cs) = (refl, refl)
pick-Picked (suc n) (c ∷ cs) = ground (arith, pick-Picked n cs)

module _ {W : Type 0} where
  -- As many calls of StartImpl as of StopImpl have been made or are due, and one more if the agent is
  -- started.
  abbrev Balanced : Overlapping (List ImplCall) W → Type 0
  Balanced o =
      start_impls o.agent.derived + start_impls o.due
      ≡ stop_impls o.agent.derived + stop_impls o.due + (if o.agent.m_started then 1 else 0)

  made_call-Balanced :
      (p : Option (ImplCall × List ImplCall)) (o : Overlapping (List ImplCall) W)
      → Picked p o.due
      → Balanced o
      → Balanced (made_call recorder p o)
  unfolding made_call make_call recorder
  made_call-Balanced none o picked h = h
  made_call-Balanced (some (start_impl, others)) o picked h = ground (
    arith,
    start_impls-append o.agent.derived (start_impl ∷ []),
    stop_impls-append o.agent.derived (start_impl ∷ []),
  )
  made_call-Balanced (some (stop_impl, others)) o picked h = ground (
    arith,
    start_impls-append o.agent.derived (stop_impl ∷ []),
    stop_impls-append o.agent.derived (stop_impl ∷ []),
  )

  turn_of-Balanced :
      (t : CallStep) (o : Overlapping (List ImplCall) W)
      → Balanced o
      → Balanced (turn_of recorder t o)
  unfolding turn_of
  turn_of-Balanced (starts spurious) o h =
      ground (
        arith,
        start_impls-append o.due (start_impl ∷ []),
        stop_impls-append o.due (start_impl ∷ []),
      )
  turn_of-Balanced (stops spurious) o h =
      ground
        (arith, start_impls-append o.due (stop_impl ∷ []), stop_impls-append o.due (stop_impl ∷ []))
  turn_of-Balanced (calls_impl n) o h = made_call-Balanced (pick n o.due) o (pick-Picked n o.due) h

  turns_of-Balanced :
      (ts : List CallStep) (o : Overlapping (List ImplCall) W)
      → Balanced o
      → Balanced (turns_of recorder ts o)
  unfolding turns_of
  turns_of-Balanced [] o h = h
  turns_of-Balanced (t ∷ ts) o h =
      turns_of-Balanced ts (turn_of recorder t o) (turn_of-Balanced t o h)

  -- Whatever threads call Start and Stop on an agent that is not started, and however their exchanges
  -- and the calls behind them interleave: as many calls of StartImpl as of StopImpl have been made or
  -- are due from threads whose exchange has succeeded, and one more of StartImpl if IsStarted says so.
  pub impl_calls_balance :
      (ts : List CallStep) (agent : Agent (List ImplCall) W)
      → agent.derived ≡ []
      → is_started agent ≡ false
      → let o = turns_of recorder ts (none_due agent) in
        start_impls o.agent.derived + start_impls o.due
        ≡ stop_impls o.agent.derived + stop_impls o.due + (if is_started o.agent then 1 else 0)
  unfolding is_started
  impl_calls_balance ts agent new off = turns_of-Balanced ts (none_due agent) (rw new (rw off refl))

module _ {S W : Type 0} where
  -- Stop overtakes Start: on an agent that is not started, a thread makes the exchange of Start,
  -- another one calls Stop, whose exchange does not fail spuriously, and only then the first calls
  -- StartImpl. The derived class, whatever it does, is stopped first and then started, while IsStarted
  -- says that the agent is not.
  pub stop_overtakes_start :
      (impl : AgentImpl S) (agent : Agent S W)
      → is_started agent ≡ false
      → let o =
          turns_of impl
            (starts false ∷ stops false ∷ calls_impl 1 ∷ calls_impl 0 ∷ [])
            (none_due agent) in
        (o.agent.derived ≡ impl.start_impl (impl.stop_impl agent.derived))
        × (o.due ≡ [])
        × (is_started o.agent ≡ false)
  unfolding is_started turns_of turn_of made_call make_call pick
  stop_overtakes_start impl agent off = ground arith
