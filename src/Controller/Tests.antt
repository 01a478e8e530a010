-- ===== src/Controller/Tests.antt =====
-- A controller whose derived class starts every other session, and a UWB controller.
use near_object_framework.Common.{
  ℕ, ◌≡◌, refl, Bool, true, false, List, [], ◌∷◌, none, some, if◌then◌else◌,
}
use near_object_framework.Controller.{
  StartSessionImpl, start_session, start_sessions, make_controller, make_uwb_controller,
  uwb_start_session,
}

-- The profile says whether a session can be started, and the callbacks give its address.
abbrev picky : StartSessionImpl Bool ℕ
picky = record { start_session_impl = λ p k. record { session = if p then some k else none } }

abbrev calls : List (Bool × ℕ)
calls = (true, 8) ∷ (false, 9) ∷ (true, 10) ∷ []

picky_runs : (start_sessions picky calls (make_controller 1 2)).0.m_sessions ≡ 8 ∷ 10 ∷ []
unfolding start_sessions start_session make_controller
picky_runs = refl

uwb_runs : (start_sessions uwb_start_session calls (make_uwb_controller 1)).0.m_sessions ≡ []
unfolding start_sessions start_session uwb_start_session make_uwb_controller
uwb_runs = refl
