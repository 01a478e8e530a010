-- ===== src/Persister/Tests.antt =====
-- The persister on a concrete JSON library.
use near_object_framework.Common.{◌≡◌, refl, false, [], none, some}
use near_object_framework.Profile.{unicast, multicast, NearObjectProfile}
use near_object_framework.Persister.{
  failed_to_open_file, read_persisted_profiles, persist_profile, persist_read, parsed_profiles,
  profiles_from_json, profile_from_json,
}
use near_object_framework.Persister.RoundTrip.{Holds}
use near_object_framework.Persister.Values.{end, item, values, working}

abbrev secured : NearObjectProfile
secured = record { m_scope = multicast; m_security = some (record {}) }

abbrev plain : NearObjectProfile
plain = record { m_scope = unicast; m_security = none }

unreadable_runs :
    persist_profile values (record working { opens = false }) plain (some end)
    ≡ (some end, some failed_to_open_file)
unfolding persist_profile persist_read read_persisted_profiles
unreadable_runs = refl

garbled_runs :
    persist_profile values working plain (some (item end end)) ≡ (some (item end end), none)
unfolding persist_profile persist_read read_persisted_profiles parsed_profiles profiles_from_json
    profile_from_json
garbled_runs = refl

none-Holds : Holds values none []
unfolding Holds read_persisted_profiles
none-Holds = refl
