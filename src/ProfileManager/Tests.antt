-- ===== src/ProfileManager/Tests.antt =====
-- A manager with a file on a concrete JSON library.
use near_object_framework.Common.{◌≡◌, refl, true, List, [], ◌∷◌, ◌++◌, Option, none, some, map}
use near_object_framework.Profile.{unicast, multicast, NearObjectProfile}
use near_object_framework.Persister.{succeeded, Json, Streams}
use near_object_framework.Persister.RoundTrip.{Holds}
use near_object_framework.Persister.Values.{Value, braces, values, values-JsonLaws, working}
use near_object_framework.Persister
use near_object_framework.ProfileManager.{
  filesystem, add_profile, persistent, ephemeral, NearObjectProfileManager, get_all_profiles,
  read_persisted_profiles_of,
}
use near_object_framework.ProfileManager.Profiles.{
  Addition, add_profiles, persistents, persistent_profiles_survive,
}
use near_object_framework.ProfileManager.FailedWrite.{failed_write_blocks}

abbrev pub secured : NearObjectProfile
secured = record { m_scope = multicast; m_security = some (record {}) }

abbrev pub plain : NearObjectProfile
plain = record { m_scope = unicast; m_security = none }

abbrev pub new_manager : NearObjectProfileManager (Option Value)
new_manager = record { m_profiles = []; m_persister = none }

abbrev additions : List (Addition (Streams Value))
additions =
    (working, secured, persistent) ∷ (working, plain, ephemeral) ∷ (working, plain, persistent) ∷ []

abbrev filled : NearObjectProfileManager (Option Value)
filled = add_profiles (filesystem values) additions new_manager

pub none-Holds : Holds values none []
unfolding Holds Persister.read_persisted_profiles
none-Holds = refl

persistent_profiles_survive_example :
    (get_all_profiles filled ≡ get_all_profiles new_manager ++ map (λ a. a.1) additions)
    × (read_persisted_profiles_of
          (filesystem values)
          working
          (record { m_profiles = []; m_persister = filled.m_persister })
        ≡ some (succeeded, [] ++ persistents additions))
persistent_profiles_survive_example =
    persistent_profiles_survive values additions new_manager
      (record { m_profiles = []; m_persister = filled.m_persister }) [] working values-JsonLaws
      ((refl, refl), ((refl, refl), ((refl, refl), tt))) none-Holds refl refl

abbrev plain_twice : NearObjectProfileManager (Option Value)
plain_twice = record { m_profiles = plain ∷ secured ∷ plain ∷ []; m_persister = none }

-- The library whose parser does not take an empty object, which stands for a text cut short.
abbrev parse_strictly : Value → Option Value
parse_strictly braces = none
parse_strictly v = some v

abbrev strict : Json Value Value
strict = record values { parse = parse_strictly }

abbrev cut_short : Streams Value
cut_short = record { opens = true; write_fails = true; leaves = some braces }

nothing_strict : Holds strict none []
unfolding Holds Persister.read_persisted_profiles
nothing_strict = refl

abbrev blocked : NearObjectProfileManager (Option Value)
blocked = (add_profile (filesystem strict) cut_short secured persistent new_manager).0

failed_write_blocks_example :
    ((add_profile (filesystem strict) cut_short secured persistent new_manager).1 ≡ some tt)
    × ((add_profiles (filesystem strict) additions blocked).m_persister ≡ some braces)
    × (read_persisted_profiles_of
          (filesystem strict)
          working
          (add_profiles (filesystem strict) additions blocked)
        ≡ none)
    × ((add_profile
          (filesystem strict)
          working
          plain
          persistent
          (add_profiles (filesystem strict) additions blocked)).1
        ≡ none)
failed_write_blocks_example =
    failed_write_blocks strict cut_short working secured plain braces additions new_manager []
      nothing_strict refl refl refl refl refl
