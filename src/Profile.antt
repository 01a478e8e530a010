-- ===== src/Profile.antt =====
-- lib/nearobject: NearObjectProfile.{hxx,cxx} and NearObjectProfileSecurity.{hxx,cxx}.
pub mod Equality
mod Tests
use near_object_framework.Common.{Bool, true, false, not, ◌&&◌, Option, none, some}

-- NearObjectConnectionScope.
pub data NearObjectConnectionScope : Type 0 where
  unicast multicast unknown : NearObjectConnectionScope

-- NearObjectProfileSecurity, which has no members yet.
pub record NearObjectProfileSecurity : Type 0 where

-- NearObjectProfile.
pub record NearObjectProfile : Type 0 where
  pub m_scope : NearObjectConnectionScope
  pub m_security : Option NearObjectProfileSecurity

-- The default constructor.
pub default_profile : NearObjectProfile
default_profile = record { m_scope = unicast; m_security = none }

-- NearObjectProfile::NearObjectProfile, without security and with it.
pub make_profile : NearObjectConnectionScope → Option NearObjectProfileSecurity → NearObjectProfile
make_profile scope security = record { m_scope = scope; m_security = security }

scope_eq : NearObjectConnectionScope → NearObjectConnectionScope → Bool
scope_eq unicast unicast = true
scope_eq multicast multicast = true
scope_eq unknown unknown = true
scope_eq unicast multicast = false
scope_eq unicast unknown = false
scope_eq multicast unicast = false
scope_eq multicast unknown = false
scope_eq unknown unicast = false
scope_eq unknown multicast = false

-- NearObjectProfileSecurity::IsSame and operator==.
pub security_is_same : NearObjectProfileSecurity → NearObjectProfileSecurity → Bool
security_is_same a b = true

-- == of two std::optional.
security_eq : Option NearObjectProfileSecurity → Option NearObjectProfileSecurity → Bool
unfolding security_is_same
security_eq none none = true
security_eq none (some b) = false
security_eq (some a) none = false
security_eq (some a) (some b) = security_is_same a b

-- NearObjectProfile::IsSame and operator==.
pub is_same : NearObjectProfile → NearObjectProfile → Bool
unfolding scope_eq security_eq
is_same a b = scope_eq a.m_scope b.m_scope && security_eq a.m_security b.m_security

-- NearObjectProfile::GetScope and NearObjectProfile::GetSecurity.
pub get_scope : NearObjectProfile → NearObjectConnectionScope
get_scope p = p.m_scope

pub get_security : NearObjectProfile → Option NearObjectProfileSecurity
get_security p = p.m_security

-- The operators on profiles.
pub profile_eq : NearObjectProfile → NearObjectProfile → Bool
unfolding is_same
profile_eq lhs rhs = is_same lhs rhs

pub profile_ne : NearObjectProfile → NearObjectProfile → Bool
unfolding profile_eq
profile_ne lhs rhs = not (profile_eq lhs rhs)

-- operator!= of NearObjectProfileSecurity.
pub security_ne : NearObjectProfileSecurity → NearObjectProfileSecurity → Bool
unfolding security_is_same
security_ne lhs rhs = not (security_is_same lhs rhs)
