-- ===== src/DiscoveryAgent/Tests.antt =====
-- An agent whose derived class records its calls.
use near_object_framework.Common.{
  ◌≡◌, refl, ◌+◌, true, false, List, [], ◌∷◌, none, some, if◌then◌else◌,
}
use near_object_framework.DiscoveryAgent.Overlap.{
  CallStep, Overlapping, calls_impl, turns_of, none_due, start_impls, stop_impls,
  impl_calls_balance, stop_overtakes_start,
}
use near_object_framework.DiscoveryAgent.Overlap
use near_object_framework.DiscoveryAgent.{Agent, make_agent, is_started}
use near_object_framework.DiscoveryAgent.Transitions.{
  Call, starts, stops, ImplCall, start_impl, stop_impl, recorder, call, calls, turns,
  start_stop_in_turns,
}

fresh : Agent (List ImplCall) Unit
unfolding make_agent
fresh = make_agent 1 none []

-- The first exchange fails, and the second call of Stop comes too late.
abbrev some_calls : List Call
some_calls =
    starts true ∷ starts false ∷ starts false ∷ stops false ∷ stops false ∷ starts false ∷ []

fresh_new : fresh.derived ≡ []
unfolding fresh make_agent
fresh_new = refl

some_calls_run :
    (calls recorder some_calls fresh).derived ≡ start_impl ∷ stop_impl ∷ start_impl ∷ []
unfolding calls call recorder fresh make_agent
some_calls_run = refl

start_stop_in_turns_example :
    turns (is_started fresh) (calls recorder some_calls fresh).derived
    ≡ some (is_started (calls recorder some_calls fresh))
start_stop_in_turns_example = start_stop_in_turns some_calls fresh fresh_new

fresh_off : is_started fresh ≡ false
unfolding fresh make_agent is_started
fresh_off = refl

-- Two threads start, one stops, and StopImpl is called before StartImpl.
abbrev overlapping : List CallStep
overlapping =
    Overlap.starts false
    ∷ Overlap.starts false
    ∷ Overlap.stops false
    ∷ calls_impl 1
    ∷ Overlap.starts false
    ∷ calls_impl 0
    ∷ []

impl_calls_balance_example :
    let o = turns_of recorder overlapping (none_due fresh) in
    start_impls o.agent.derived + start_impls o.due
    ≡ stop_impls o.agent.derived + stop_impls o.due + (if is_started o.agent then 1 else 0)
impl_calls_balance_example = impl_calls_balance overlapping fresh fresh_new fresh_off

stop_overtakes_start_example :
    let o =
      turns_of recorder
        (Overlap.starts false ∷ Overlap.stops false ∷ calls_impl 1 ∷ calls_impl 0 ∷ [])
        (none_due fresh) in
    (o.agent.derived ≡ recorder.start_impl (recorder.stop_impl fresh.derived))
    × (o.due ≡ [])
    × (is_started o.agent ≡ false)
stop_overtakes_start_example = stop_overtakes_start recorder fresh fresh_off
