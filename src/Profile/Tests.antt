-- ===== src/Profile/Tests.antt =====
-- Two profiles that differ in their security.
use near_object_framework.Common.{◌≡◌, refl, true, false, none, some}
use near_object_framework.Profile.{
  unicast, is_same, scope_eq, security_eq, security_is_same, default_profile, make_profile,
}

differ_runs :
    (is_same default_profile (make_profile unicast none) ≡ true)
    × (is_same default_profile (make_profile unicast (some (record {}))) ≡ false)
unfolding is_same scope_eq security_eq security_is_same default_profile make_profile
differ_runs = (refl, refl)
