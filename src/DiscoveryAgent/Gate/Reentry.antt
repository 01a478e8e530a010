-- ===== src/DiscoveryAgent/Gate/Reentry.antt =====
-- A callback that registers another one on its own agent: the thread holds the mutex shared, and
-- waits for it to be free.
use near_object_framework.Common.{
  ◌≡◌, refl, List, [], ◌∷◌, ◌++◌, Option, some, arith, sym, ap, subst, ◌⊎◌, inl, inr, ◌∙◌,
}
use near_object_framework.Controller.{NearObjectDeviceController}
use near_object_framework.DiscoveryAgent.{Agent, Callback, NearObjectDevicePresence}
use near_object_framework.DiscoveryAgent.Gate.{
  Thread, calling, registering_within, Gate, go, go_between, Step, tells, registers,
  registers_within, goes_on, Reach, here, later, idle, alone,
}
use near_object_framework.DiscoveryAgent.Gate.Registered.{
  Among, shared_by-Among, only_registered_runs,
}

module _ {W : Type 0} where
  Among-middle :
      (w t : Thread W) (front back : List (Thread W))
      → Among w (front ++ t ∷ back)
      → (t ≡ w) ⊎ ((u : Thread W) → Among w (front ++ u ∷ back))
  Among-middle w t [] back (inl same) = inl same
  Among-middle w t [] back (inr m) = inr (λ u. inr m)
  Among-middle w t (x ∷ front) back (inl same) = inr (λ u. inl same)
  Among-middle w t (x ∷ front) back (inr m) = elim (Among-middle w t front back m) [
    | inl same ↦ inl same
    | inr rest ↦ inr (λ u. inr (rest u))
  ]

  Among-put : (w : Thread W) (front back : List (Thread W)) → Among w (front ++ w ∷ back)
  Among-put w [] back = inl refl
  Among-put w (x ∷ front) back = inr (Among-put w front back)

module _ {S W : Type 0} (f : Callback W) (presence : NearObjectDevicePresence)
    (device : NearObjectDeviceController) (h : Option (Callback W)) where
  go-waits :
      (g : Gate S W)
      → Among (registering_within f presence device h) g.threads
      → (go g (registering_within f presence device h)).0 ≡ registering_within f presence device h
  unfolding go
  go-waits g m =
      ground (arith, shared_by-Among (registering_within f presence device h) g.threads m)

  Step-waits :
      {g k : Gate S W}
      → Step g k
      → Among (registering_within f presence device h) g.threads
      → Among (registering_within f presence device h) k.threads
  unfolding go_between
  Step-waits (tells presence device) m = inr m
  Step-waits (registers f) m = inr m
  Step-waits (registers_within front back f' presence' device' h' e) m =
      elim (Among-middle (registering_within f presence device h) (calling f' presence' device')
        front back (subst (Among (registering_within f presence device h)) e m)) [
          | inl same ↦ absurd (ground arith)
          | inr rest ↦ rest (registering_within f' presence' device' h')
        ]
  Step-waits {g} (goes_on front back t e) m =
      elim (Among-middle (registering_within f presence device h) t front back
        (subst (Among (registering_within f presence device h)) e m)) [
          | inl same ↦
              subst (λ u. Among (registering_within f presence device h) (front ++ u ∷ back))
                (sym (ap (λ u. (go g u).0) same ∙ go-waits g m))
                (Among-put (registering_within f presence device h) front back)
          | inr rest ↦ rest (go g t).0
        ]

  Reach-waits :
      {g k : Gate S W}
      → Reach g k
      → Among (registering_within f presence device h) g.threads
      → Among (registering_within f presence device h) k.threads
  Reach-waits here m = m
  Reach-waits (later r st) m = Step-waits st (Reach-waits r m)

  Reach-join : {g k l : Gate S W} → Reach g k → Reach k l → Reach g l
  Reach-join r here = r
  Reach-join r (later q st) = later (Reach-join r q) st

  -- A callback that registers another one on its own agent, whose mutex waits until it is free: the
  -- callback never comes to an end. Whatever steps follow, its thread waits still, the callback stays
  -- registered, and no thread gets the lock of RegisterDiscoveryEventCallback.
  pub register_within_waits :
      (agent : Agent S W) (world : W) {g k : Gate S W}
      → Reach (idle agent world) g
      → Among (registering_within f presence device h) g.threads
      → Reach g k
      → Among (registering_within f presence device h) k.threads
        × (k.agent.m_on_device_presence_changed ≡ some f)
        × (alone k.threads ≡ 0)
  register_within_waits agent world r m q =
      let still = Reach-waits q m in
      let (registered, unlocked) =
        only_registered_runs agent world (registering_within f presence device h) f (Reach-join r q)
          still refl in
      (still, registered, unlocked)
