-- ===== src/Profile/Equality.antt =====
-- What the comparison of profiles compares.
use near_object_framework.Common.{
  ◌≡◌, ◌≢◌, Bool-cases, inl, inr, ◌↔◌, refl, true, Option, none, some, arith,
}
use near_object_framework.Profile.{
  NearObjectConnectionScope, NearObjectProfileSecurity, NearObjectProfile, is_same, profile_eq,
  profile_ne, scope_eq, security_eq, security_is_same,
}

scope_eq_sound : (a b : NearObjectConnectionScope) → scope_eq a b ≡ true → a ≡ b
unfolding scope_eq
scope_eq_sound a b h = ground arith

scope_eq_self : (a : NearObjectConnectionScope) → scope_eq a a ≡ true
unfolding scope_eq
scope_eq_self a = ground arith

security_eq_sound : (a b : Option NearObjectProfileSecurity) → security_eq a b ≡ true → a ≡ b
unfolding security_eq security_is_same
security_eq_sound none none h = refl
security_eq_sound none (some y) h = absurd (ground arith)
security_eq_sound (some x) none h = absurd (ground arith)
security_eq_sound (some x) (some y) h = refl

security_eq_self : (a : Option NearObjectProfileSecurity) → security_eq a a ≡ true
unfolding security_eq security_is_same
security_eq_self none = refl
security_eq_self (some x) = refl

-- Two profiles are the same for the program if and only if they are equal.
pub is_same_iff : (a b : NearObjectProfile) → (is_same a b ≡ true) ↔ (a ≡ b)
unfolding is_same
is_same_iff a b = (
  (λ h.
      let scopes = scope_eq_sound a.m_scope b.m_scope (ground arith) in
      let securities = security_eq_sound a.m_security b.m_security (ground arith) in
      ground (arith, scopes, securities)),
  (λ e. rw e (ground (arith, scope_eq_self b.m_scope, security_eq_self b.m_security))),
)

-- Profiles differ for operator!= if and only if they are different.
pub profile_ne_iff : (a b : NearObjectProfile) → (profile_ne a b ≡ true) ↔ (a ≢ b)
unfolding profile_ne profile_eq
profile_ne_iff a b = elim (Bool-cases (is_same a b)) [
  | inl same ↦
      let equal = (is_same_iff a b).0 same in
      ((λ h. absurd (ground arith)), (λ differ. absurd (differ equal)))
  | inr other ↦ ((λ h e. ground (arith, is_same_iff a b)), (λ differ. rw other))
]
