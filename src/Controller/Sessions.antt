-- ===== src/Controller/Sessions.antt =====
-- The sessions that a controller keeps track of.
use near_object_framework.Common.{
  ℕ, ◌≡◌, refl, List, [], ◌∷◌, ◌++◌, Option, none, some, append_assoc, append-nil, ◌∙◌, sym,
}
use near_object_framework.Controller.{
  NearObjectDeviceController, StartSessionResult, StartSessionImpl, start_session, start_sessions,
  track, id,
}

abbrev returned : Option ℕ → List ℕ → List ℕ
returned none rest = rest
returned (some session) rest = session ∷ rest

-- The sessions in a list of results, in order.
abbrev pub started : List StartSessionResult → List ℕ
started [] = []
started (r ∷ rs) = returned r.session (started rs)

track-returned :
    (session : Option ℕ) (c : NearObjectDeviceController) (rest : List ℕ)
    → (track session c).m_sessions ++ rest ≡ c.m_sessions ++ returned session rest
track-returned none c rest = refl
track-returned (some session) c rest = append_assoc c.m_sessions (session ∷ []) rest

id-track : (session : Option ℕ) (c : NearObjectDeviceController) → id (track session c) ≡ id c
id-track none c = refl
id-track (some session) c = refl

module _ {Profile Callbacks : Type 0} where
  -- Whatever the derived class does: after any calls of StartSession the controller tracks, behind
  -- the sessions that it had, exactly those that the calls returned, in order, and its id is as
  -- before.
  pub sessions_tracked :
      (impl : StartSessionImpl Profile Callbacks) (calls : List (Profile × Callbacks))
      (c : NearObjectDeviceController)
      → let r = start_sessions impl calls c in
        (r.0.m_sessions ≡ c.m_sessions ++ started r.1) × (id r.0 ≡ id c)
  unfolding start_sessions start_session
  sessions_tracked impl [] c = (sym (append-nil c.m_sessions), refl)
  sessions_tracked impl ((p, k) ∷ calls) c =
      let result = (impl.start_session_impl p k).session in
      let (tracked, same) = sessions_tracked impl calls (track result c) in
      let rest = started (start_sessions impl calls (track result c)).1 in
      (tracked ∙ track-returned result c rest, same ∙ id-track result c)
