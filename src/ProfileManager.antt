-- ===== src/ProfileManager.antt =====
-- lib/nearobject/service: NearObjectProfileManager.{hxx,cxx}. What a persister keeps is a type, and its
-- virtual functions a record; `none` for a result is an exception.
mod Profiles
mod FailedWrite
pub mod Additions
pub mod Tests
use near_object_framework.Common.{
  ◌≡◌, Bool, true, false, List, [], ◌∷◌, ◌++◌, Option, none, some, copy_if,
}
use near_object_framework.Profile.{NearObjectProfile, is_same}
use near_object_framework.Persister.{
  PersistResult, Json, Streams, persist_profile, read_persisted_profiles,
}

-- NearObjectProfilePersister, over what can happen to a call.
pub record Persister (S Luck : Type 0) : Type 0 where
  pub persist : Luck → NearObjectProfile → S → S × Option PersistResult
  pub read_persisted : Luck → S → Option (PersistResult × List NearObjectProfile)

-- The persister with files.
unfoldable pub filesystem : {J Text : Type 0} → Json J Text → Persister (Option Text) (Streams Text)
unfolding persist_profile read_persisted_profiles
filesystem json = record {
  persist = persist_profile json;
  read_persisted = λ streams file. read_persisted_profiles json streams.opens file;
}

-- NearObjectProfileManager::ProfileLifetime.
pub data ProfileLifetime : Type 0 where
  persistent ephemeral : ProfileLifetime

-- NearObjectProfileManager.
pub record NearObjectProfileManager (S : Type 0) : Type 0 where
  pub m_profiles : List NearObjectProfile
  pub m_persister : S

module _ {S : Type 0} where
  -- NearObjectProfileManager::NearObjectProfileManager: it throws for a null pointer.
  unfoldable pub make_profile_manager : Option S → Option (NearObjectProfileManager S)
  make_profile_manager none = none
  make_profile_manager (some persister) = some (record { m_profiles = []; m_persister = persister })

  -- NearObjectProfileManager::FindMatchingProfiles.
  pub find_matching_profiles :
      NearObjectProfile → NearObjectProfileManager S → List NearObjectProfile
  find_matching_profiles wanted m = copy_if (λ p. is_same p wanted) m.m_profiles

  -- NearObjectProfileManager::GetAllProfiles.
  pub get_all_profiles : NearObjectProfileManager S → List NearObjectProfile
  get_all_profiles m = m.m_profiles

-- What remains of a call whose result is not used.
abbrev pub ignored : Option PersistResult → Option (Unit {0})
ignored none = none
ignored (some result) = some tt

module _ {S Luck : Type 0} where
  -- NearObjectProfileManager::PersistProfile.
  pub persist_profile_of :
      Persister S Luck
      → Luck
      → NearObjectProfile
      → NearObjectProfileManager S
      → NearObjectProfileManager S × Option PersistResult
  persist_profile_of persister luck profile m =
      let r = persister.persist luck profile m.m_persister in (record m { m_persister = r.0 }, r.1)

  -- NearObjectProfileManager::AddProfile.
  pub add_profile :
      Persister S Luck
      → Luck
      → NearObjectProfile
      → ProfileLifetime
      → NearObjectProfileManager S
      → NearObjectProfileManager S × Option (Unit {0})
  unfolding persist_profile_of
  add_profile persister luck profile persistent m =
      let kept = record m { m_profiles = m.m_profiles ++ profile ∷ [] } in
      let (after, result) = persist_profile_of persister luck profile kept in
      (after, ignored result)
  add_profile persister luck profile ephemeral m =
      (record m { m_profiles = m.m_profiles ++ profile ∷ [] }, some tt)

  -- NearObjectProfileManager::ReadPersistedProfiles.
  pub read_persisted_profiles_of :
      Persister S Luck
      → Luck
      → NearObjectProfileManager S
      → Option (PersistResult × List NearObjectProfile)
  read_persisted_profiles_of persister luck m = persister.read_persisted luck m.m_persister
