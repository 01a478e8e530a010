-- ===== src/Session/Events.antt =====
-- What a client makes of the events that it receives, by itself.
use near_object_framework.Common.{
  ◌≡◌, refl, Bool, true, false, not, List, [], ◌∷◌, ◌++◌, Option, none, some, copy_if, ◌>>=◌,
}
use near_object_framework.NearObject.{NearObject}
use near_object_framework.Session.{
  Event, on_session_ended, on_ranging_started, on_ranging_stopped,
  on_near_object_properties_changed, on_session_membership_changed, is_named,
}

some-bind : (n : Option Bool) → (n >>= λ b. some b) ≡ n
some-bind none = refl
some-bind (some b) = refl

module _ {D : Type 0} where
  -- Whether ranging is active after one event; `none` if it starts twice or stops while not active.
  abbrev pub ranging_step : Bool → Event D → Option Bool
  ranging_step true on_ranging_started = none
  ranging_step false on_ranging_started = some true
  ranging_step true on_ranging_stopped = some false
  ranging_step false on_ranging_stopped = none
  ranging_step active on_session_ended = some active
  ranging_step active (on_near_object_properties_changed os) = some active
  ranging_step active (on_session_membership_changed added removed) = some active

  unfoldable pub ranging_after : Bool → List (Event D) → Option Bool
  ranging_after active [] = some active
  ranging_after active (e ∷ es) = ranging_step active e >>= λ next. ranging_after next es

  -- The members after one event: without the removed pointers, then with the added objects.
  abbrev pub members_step : List (NearObject D) → Event D → List (NearObject D)
  members_step ms (on_session_membership_changed added removed) =
      copy_if (λ o. not (is_named removed o)) ms ++ added
  members_step ms on_session_ended = ms
  members_step ms on_ranging_started = ms
  members_step ms on_ranging_stopped = ms
  members_step ms (on_near_object_properties_changed os) = ms

  unfoldable pub members_after : List (NearObject D) → List (Event D) → List (NearObject D)
  members_after ms [] = ms
  members_after ms (e ∷ es) = members_after (members_step ms e) es

  -- One event at the end, carried past a first event that leaves `n`.
  ranging_after-carried :
      (es : List (Event D)) (e : Event D)
      → ((b : Bool)
          → ranging_after b (es ++ e ∷ []) ≡ (ranging_after b es >>= λ c. ranging_step c e))
      → (n : Option Bool)
      → (n >>= λ b. ranging_after b (es ++ e ∷ []))
        ≡ ((n >>= λ b. ranging_after b es) >>= λ c. ranging_step c e)
  ranging_after-carried es e ih none = refl
  ranging_after-carried es e ih (some b) = ih b

  pub ranging_after-append :
      (a : Bool) (es : List (Event D)) (e : Event D)
      → ranging_after a (es ++ e ∷ []) ≡ (ranging_after a es >>= λ b. ranging_step b e)
  unfolding ranging_after
  ranging_after-append a [] e = some-bind (ranging_step a e)
  ranging_after-append a (x ∷ es) e =
      ranging_after-carried es e (λ b. ranging_after-append b es e) (ranging_step a x)

  pub members_after-append :
      (ms : List (NearObject D)) (es : List (Event D)) (e : Event D)
      → members_after ms (es ++ e ∷ []) ≡ members_step (members_after ms es) e
  unfolding members_after
  members_after-append ms [] e = refl
  members_after-append ms (x ∷ es) e = members_after-append (members_step ms x) es e
