-- ===== src/DiscoveryAgent/Transitions.antt =====
-- Start and Stop, called one after another, against what the derived class sees. Overlap has calls on
-- several threads.
use near_object_framework.Common.{
  ◌≡◌, refl, Bool, true, false, List, [], ◌∷◌, ◌++◌, Option, none, some, arith, ◌>>=◌,
}
use near_object_framework.DiscoveryAgent.{Agent, AgentImpl, ready, start, stop, is_started}

-- A call of Start or Stop, with the luck of its compare_exchange_weak.
pub data Call : Type 0 where
  starts stops : (spurious : Bool) → Call

pub data ImplCall : Type 0 where
  start_impl stop_impl : ImplCall

-- A derived class that keeps a record of its calls.
unfoldable pub recorder : AgentImpl (List ImplCall)
recorder = record {
  start_impl = λ log. log ++ start_impl ∷ [];
  stop_impl = λ log. log ++ stop_impl ∷ [];
  probe_async_impl = λ log. (log, ready []);
}

module _ {S W : Type 0} where
  unfoldable pub call : AgentImpl S → Call → Agent S W → Agent S W
  unfolding start stop
  call impl (starts spurious) agent = start impl spurious agent
  call impl (stops spurious) agent = stop impl spurious agent

  unfoldable pub calls : AgentImpl S → List Call → Agent S W → Agent S W
  calls impl [] agent = agent
  calls impl (c ∷ cs) agent = calls impl cs (call impl c agent)

-- Whether the class is started after calls of its own functions; `none` out of turn.
abbrev pub turn : Bool → ImplCall → Option Bool
turn false start_impl = some true
turn true start_impl = none
turn true stop_impl = some false
turn false stop_impl = none

pub turns : Bool → List ImplCall → Option Bool
turns on [] = some on
turns on (c ∷ cs) = turn on c >>= λ next. turns next cs

turns-append :
    (on : Bool) (cs : List ImplCall) (c : ImplCall)
    → turns on (cs ++ c ∷ []) ≡ (turns on cs >>= λ now. turn now c)
unfolding turns
turns-append true [] start_impl = refl
turns-append true [] stop_impl = refl
turns-append false [] start_impl = refl
turns-append false [] stop_impl = refl
turns-append true (start_impl ∷ cs) c = refl
turns-append true (stop_impl ∷ cs) c = turns-append false cs c
turns-append false (start_impl ∷ cs) c = turns-append true cs c
turns-append false (stop_impl ∷ cs) c = refl

module _ {W : Type 0} where
  call-turns :
      (on : Bool) (c : Call) (agent : Agent (List ImplCall) W)
      → turns on agent.derived ≡ some (is_started agent)
      → turns on (call recorder c agent).derived ≡ some (is_started (call recorder c agent))
  unfolding call recorder is_started
  call-turns on (starts spurious) agent h = ground (arith, turns-append on agent.derived start_impl)
  call-turns on (stops spurious) agent h = ground (arith, turns-append on agent.derived stop_impl)

  calls-turns :
      (on : Bool) (cs : List Call) (agent : Agent (List ImplCall) W)
      → turns on agent.derived ≡ some (is_started agent)
      → turns on (calls recorder cs agent).derived ≡ some (is_started (calls recorder cs agent))
  unfolding calls
  calls-turns on [] agent h = h
  calls-turns on (c ∷ cs) agent h =
      calls-turns on cs (call recorder c agent) (call-turns on c agent h)

  -- Whatever calls of Start and Stop are made, each after the one before has returned, and whatever
  -- exchanges fail spuriously: StartImpl and StopImpl are called in turns, from what the agent was, and
  -- IsStarted tells which came last.
  pub start_stop_in_turns :
      (cs : List Call) (agent : Agent (List ImplCall) W)
      → agent.derived ≡ []
      → turns (is_started agent) (calls recorder cs agent).derived
        ≡ some (is_started (calls recorder cs agent))
  start_stop_in_turns cs agent new =
      calls-turns (is_started agent) cs agent (rw new (unfold turns in refl))
