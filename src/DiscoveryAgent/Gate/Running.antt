-- ===== src/DiscoveryAgent/Gate/Running.antt =====
-- Only the registered callback runs, and none while another one is being registered.
use near_object_framework.Common.{
  ℕ, ◌≡◌, ◌+◌, List, [], ◌∷◌, ◌++◌, Option, some, Every, Every-append, arith, sym, ap, subst, ◌∙◌,
  ◌⊎◌, inl, inr,
}
use near_object_framework.DiscoveryAgent.{Agent, Callback, register_discovery_event_callback}
use near_object_framework.DiscoveryAgent.Gate.{
  Thread, to_tell, telling, calling, registering_within, told, to_register, registering, registered,
  done, Gate, shared_by, alone_by, shared, alone, go, go_between, Step, tells, registers,
  registers_within, goes_on, Reach, here, later,
}

module _ {W : Type 0} where
  pub shared-append : (ts us : List (Thread W)) → shared (ts ++ us) ≡ shared ts + shared us
  shared-append [] us = omega arith
  shared-append (t ∷ ts) us = omega (arith, shared-append ts us)

  pub alone-append : (ts us : List (Thread W)) → alone (ts ++ us) ≡ alone ts + alone us
  alone-append [] us = omega arith
  alone-append (t ∷ ts) us = omega (arith, alone-append ts us)

  -- A thread that is in a callback, or has registered one and not unlocked yet, agrees with what is
  -- registered.
  abbrev pub Agrees : Option (Callback W) → Thread W → Type 0
  Agrees c (to_tell presence device) = Unit {0}
  Agrees c (telling presence device) = Unit {0}
  Agrees c (calling f presence device) = c ≡ some f
  Agrees c (registering_within f presence device g) = c ≡ some f
  Agrees c told = Unit {0}
  Agrees c (to_register g) = Unit {0}
  Agrees c (registering g) = Unit {0}
  Agrees c (registered g) = c ≡ g
  Agrees c done = Unit {0}

  Agrees-without_lock :
      (c : Option (Callback W)) (t : Thread W) → shared_by t ≡ 0 → alone_by t ≡ 0 → Agrees c t
  Agrees-without_lock c (to_tell presence device) es ea = tt
  Agrees-without_lock c (telling presence device) es ea = tt
  Agrees-without_lock c (calling f presence device) es ea = absurd (omega arith)
  Agrees-without_lock c (registering_within f presence device g) es ea = absurd (omega arith)
  Agrees-without_lock c told es ea = tt
  Agrees-without_lock c (to_register g) es ea = tt
  Agrees-without_lock c (registering g) es ea = tt
  Agrees-without_lock c (registered g) es ea = absurd (omega arith)
  Agrees-without_lock c done es ea = tt

  Agrees-all :
      (c : Option (Callback W)) (ts : List (Thread W))
      → shared ts ≡ 0
      → alone ts ≡ 0
      → Every (Agrees c) ts
  Agrees-all c [] es ea = tt
  Agrees-all c (t ∷ ts) es ea = (
    Agrees-without_lock c t (omega arith) (omega arith),
    Agrees-all c ts (omega arith) (omega arith),
  )

  Every-middle :
      (P : Thread W → Type 0) (front back : List (Thread W)) (t : Thread W)
      → Every P (front ++ t ∷ back)
      → P t × ((u : Thread W) → P u → Every P (front ++ u ∷ back))
  Every-middle P [] back t h = (h.0, λ u p. (p, h.1))
  Every-middle P (x ∷ front) back t h =
      let (p, rest) = Every-middle P front back t h.1 in (p, λ u q. (h.0, rest u q))

  -- The mutex is not held at all, or shared, or by one thread alone.
  abbrev pub Excludes : List (Thread W) → Type 0
  Excludes ts = (alone ts ≡ 0) ⊎ ((alone ts ≡ 1) × (shared ts ≡ 0))

  -- The others of a list still agree, if the callback is the same or none of them has the lock.
  Agrees-replaced :
      (front back : List (Thread W)) (t u : Thread W) (c d : Option (Callback W))
      → Every (Agrees c) (front ++ t ∷ back)
      → Agrees d u
      → (d ≡ c) ⊎ ((shared front + shared back ≡ 0) × (alone front + alone back ≡ 0))
      → Every (Agrees d) (front ++ u ∷ back)
  Agrees-replaced front back t u c d all r (inl same) =
      (Every-middle (Agrees d) front back t
          (subst (λ x. Every (Agrees x) (front ++ t ∷ back)) (sym same) all)).1
        u r
  Agrees-replaced front back t u c d all r (inr (es, ea)) =
      Every-append front (u ∷ back) (Agrees d) (Agrees-all d front (omega arith) (omega arith))
        (r, Agrees-all d back (omega arith) (omega arith))

module _ {S W : Type 0} where
  pub record Inv (g : Gate S W) : Type 0 where
    pub agree : Every (Agrees g.agent.m_on_device_presence_changed) g.threads
    pub excludes : Excludes g.threads

  -- What a thread may become and make of the agent, where the others hold the mutex shared `s` times
  -- and alone `a` times.
  record Fits (g : Gate S W) (s a : ℕ) (t : Thread W) (agent : Agent S W) : Type 0 where
    agrees : Agrees agent.m_on_device_presence_changed t
    excludes : (alone_by t + a ≡ 0) ⊎ ((alone_by t + a ≡ 1) × (shared_by t + s ≡ 0))
    changes :
        (agent.m_on_device_presence_changed ≡ g.agent.m_on_device_presence_changed)
        ⊎ ((s ≡ 0) × (a ≡ 0))

  go-Fits :
      (g : Gate S W) (s a : ℕ) (t : Thread W)
      → Inv g
      → Agrees g.agent.m_on_device_presence_changed t
      → shared g.threads ≡ shared_by t + s
      → alone g.threads ≡ alone_by t + a
      → let (t', agent, world) = go g t in Fits g s a t' agent
  unfolding go register_discovery_event_callback
  go-Fits g s a (to_tell presence device) v r es ea = ground (arith, v.excludes)
  go-Fits g s a (telling presence device) v r es ea = ground (arith, v.excludes)
  go-Fits g s a (calling f presence device) v r es ea = ground (arith, v.excludes)
  go-Fits g s a (registering_within f presence device h) v r es ea = ground (arith, v.excludes)
  go-Fits g s a told v r es ea = ground (arith, v.excludes)
  go-Fits g s a (to_register h) v r es ea = ground (arith, v.excludes)
  go-Fits g s a (registering h) v r es ea = ground (arith, v.excludes)
  go-Fits g s a (registered h) v r es ea = ground (arith, v.excludes)
  go-Fits g s a done v r es ea = ground (arith, v.excludes)

  replaced-Inv :
      (front back : List (Thread W)) (t u : Thread W) (g : Gate S W) (agent : Agent S W) (world : W)
      → g.threads ≡ front ++ t ∷ back
      → Inv g
      → Fits g (shared front + shared back) (alone front + alone back) u agent
      → Inv (record { agent = agent; world = world; threads = front ++ u ∷ back })
  replaced-Inv front back t u g agent world e v fits = record {
    agree =
        Agrees-replaced front back t u g.agent.m_on_device_presence_changed
          agent.m_on_device_presence_changed
          (subst (Every (Agrees g.agent.m_on_device_presence_changed)) e v.agree) fits.agrees
          fits.changes;
    excludes =
        ground
          (arith, fits.excludes, shared-append front (u ∷ back), alone-append front (u ∷ back));
  }

  -- A thread agrees, and the others hold the mutex as often as all do without it.
  own_share :
      (front back : List (Thread W)) (t : Thread W) (g : Gate S W)
      → g.threads ≡ front ++ t ∷ back
      → Inv g
      → Agrees g.agent.m_on_device_presence_changed t
        × (shared g.threads ≡ shared_by t + (shared front + shared back))
        × (alone g.threads ≡ alone_by t + (alone front + alone back))
  own_share front back t g e v = (
    (Every-middle (Agrees g.agent.m_on_device_presence_changed) front back t
        (subst (Every (Agrees g.agent.m_on_device_presence_changed)) e v.agree)).0,
    ap shared e ∙ omega (arith, shared-append front (t ∷ back)),
    ap alone e ∙ omega (arith, alone-append front (t ∷ back)),
  )

  Step-Inv : {g h : Gate S W} → Step g h → Inv g → Inv h
  unfolding go_between
  Step-Inv (tells presence device) v = record {
    agree = (tt, v.agree);
    excludes = ground (arith, v.excludes);
  }
  Step-Inv (registers f) v = record { agree = (tt, v.agree); excludes = ground (arith, v.excludes) }
  Step-Inv {g} (registers_within front back f presence device h e) v =
      let (agrees, es, ea) = own_share front back (calling f presence device) g e v in
      replaced-Inv front back (calling f presence device) (registering_within f presence device h) g
        g.agent g.world e v (ground (arith, agrees, es, ea, v.excludes))
  Step-Inv {g} (goes_on front back t e) v =
      let (agrees, es, ea) = own_share front back t g e v in
      let (u, agent, world) = go g t in
      replaced-Inv front back t u g agent world e v
        (go-Fits g (shared front + shared back) (alone front + alone back) t v agrees es ea)

  pub Reach-Inv : {g h : Gate S W} → Inv g → Reach g h → Inv h
  Reach-Inv v here = v
  Reach-Inv v (later r st) = Step-Inv st (Reach-Inv v r)
