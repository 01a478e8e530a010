-- ===== src/DiscoveryAgent/Gate/Registered.antt =====
-- What the threads of an agent run, and what is registered meanwhile.
use near_object_framework.Common.{
  ◌≡◌, refl, ◌≤◌, List, [], ◌∷◌, Option, some, Every, arith, ap, subst, ◌⊎◌, inl, inr,
}
use near_object_framework.DiscoveryAgent.{Agent, Callback}
use near_object_framework.DiscoveryAgent.Gate.{
  Thread, registered, Gate, runs, shared_by, alone_by, shared, alone, Reach, idle,
}
use near_object_framework.DiscoveryAgent.Gate.Running.{Agrees, Inv, Reach-Inv}

module _ {W : Type 0} where
  -- One of the threads is this one.
  abbrev pub Among : Thread W → List (Thread W) → Type 0
  Among w [] = ⊥
  Among w (t ∷ ts) = (t ≡ w) ⊎ Among w ts

  Every-Among :
      (P : Thread W → Type 0) (w : Thread W) (ts : List (Thread W)) → Every P ts → Among w ts → P w
  Every-Among P w [] h m = elim m [ ]
  Every-Among P w (t ∷ ts) h (inl same) = subst P same h.0
  Every-Among P w (t ∷ ts) h (inr m) = Every-Among P w ts h.1 m

  pub shared_by-Among : (w : Thread W) (ts : List (Thread W)) → Among w ts → shared_by w ≤ shared ts
  shared_by-Among w [] m = elim m [ ]
  shared_by-Among w (t ∷ ts) (inl same) = omega (arith, ap shared_by same)
  shared_by-Among w (t ∷ ts) (inr m) = omega (arith, shared_by-Among w ts m)

  alone_by-Among : (w : Thread W) (ts : List (Thread W)) → Among w ts → alone_by w ≤ alone ts
  alone_by-Among w [] m = elim m [ ]
  alone_by-Among w (t ∷ ts) (inl same) = omega (arith, ap alone_by same)
  alone_by-Among w (t ∷ ts) (inr m) = omega (arith, alone_by-Among w ts m)

  shared_by-runs : (t : Thread W) (f : Callback W) → runs t ≡ some f → shared_by t ≡ 1
  shared_by-runs t f e = ground arith

  Agrees-runs :
      (c : Option (Callback W)) (t : Thread W) (f : Callback W)
      → runs t ≡ some f
      → Agrees c t
      → c ≡ some f
  Agrees-runs c t f e r = ground arith

module _ {S W : Type 0} where
  idle-Inv : (agent : Agent S W) (world : W) → Inv (idle agent world)
  idle-Inv agent world = record { agree = tt; excludes = inl refl }

  -- Whatever threads tell presence changes and register callbacks on an agent that was idle, and however
  -- they interleave: a callback that a thread is in is the one that is registered, and no thread has
  -- the lock to register another.
  pub only_registered_runs :
      (agent : Agent S W) (world : W) (t : Thread W) (f : Callback W) {g : Gate S W}
      → Reach (idle agent world) g
      → Among t g.threads
      → runs t ≡ some f
      → (g.agent.m_on_device_presence_changed ≡ some f) × (alone g.threads ≡ 0)
  only_registered_runs agent world t f {g} r m e =
      let v = Reach-Inv (idle-Inv agent world) r in
      (
        Agrees-runs g.agent.m_on_device_presence_changed t f e
            (Every-Among (Agrees g.agent.m_on_device_presence_changed) t g.threads v.agree m),
        ground (arith, v.excludes, shared_by-Among t g.threads m, shared_by-runs t f e),
      )

  -- Whatever threads tell presence changes and register callbacks on an agent that was idle: when
  -- RegisterDiscoveryEventCallback is about to give its lock back, the callback that it was called with
  -- is registered, and no thread is in a callback, an earlier one included, or anywhere else behind the
  -- lock of DevicePresenceChanged.
  pub registered_alone :
      (agent : Agent S W) (world : W) (h : Option (Callback W)) {g : Gate S W}
      → Reach (idle agent world) g
      → Among (registered h) g.threads
      → (g.agent.m_on_device_presence_changed ≡ h) × (shared g.threads ≡ 0)
  registered_alone agent world h {g} r m =
      let v = Reach-Inv (idle-Inv agent world) r in
      (
        Every-Among (Agrees g.agent.m_on_device_presence_changed) (registered h) g.threads v.agree
            m,
        ground (arith, v.excludes, alone_by-Among (registered h) g.threads m),
      )
