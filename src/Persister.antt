-- ===== src/Persister.antt =====
-- lib/nearobject/persist: NearObjectProfilePersisterFilesystem.cxx and NearObjectProfileJsonSerializer.cxx,
-- with PersistResult of lib/shared/jsonify/include/jsonify.hxx and the serializer of std::optional
-- beside it. The JSON library is a parameter, and `none` an exception that it throws. A file is its
-- text, `none` if there is no such file.
pub mod RoundTrip
pub mod Values
mod Tests
use near_object_framework.Common.{
  Bool, true, false, List, [], ◌∷◌, ◌++◌, Option, none, some, if◌then◌else◌, ◌>>=◌, map,
}
use near_object_framework.Profile.{
  NearObjectConnectionScope, NearObjectProfileSecurity, NearObjectProfile,
}

-- persist::PersistResult.
pub data PersistResult : Type 0 where
  succeeded failed failed_to_open_file failed_to_parse_file unknown_error : PersistResult

-- The keys "Scope" and "Security".
pub data Key : Type 0 where
  scope_key security_key : Key

-- What the code calls of nlohmann::json: J is the type of its values, and Text that of a file.
pub record Json (J Text : Type 0) : Type 0 where
  pub null : J
  pub is_null : J → Bool
  pub braces : J
  pub object : List (Key × J) → J
  pub at : J → Key → Option J
  pub from_scope : NearObjectConnectionScope → J
  pub get_scope : J → Option NearObjectConnectionScope
  pub array : List J → J
  pub elements : J → Option (List J)
  pub empty : J → Bool
  pub dump : J → Text
  pub parse : Text → Option J

-- How the streams of a call fare: whether the file can be opened for reading, whether the stream
-- that wrote it failed, and what is in the file then.
pub record Streams (Text : Type 0) : Type 0 where
  pub opens : Bool
  pub write_fails : Bool
  pub leaves : Option Text

-- What the constructor asks of the file system: whether a directory is there, whether it can be
-- created, and the operators on paths.
pub record Directories (P : Type 0) : Type 0 where
  pub exists : P → Bool
  pub create_directories : P → Bool
  pub append_profiles : P → P
  pub parent_path : P → P

-- NearObjectProfilePersisterFilesystem::NearObjectProfilePersisterFilesystem: the path of the file,
-- `none` if the constructor throws.
unfoldable pub make_persister : {P : Type 0} → Directories P → P → Option P
make_persister fs location =
    let path = fs.append_profiles location in
    if fs.exists (fs.parent_path path)
    then some path
    else if fs.create_directories (fs.parent_path path)
    then some path
    else none

-- The default constructor, with the path of the directory for temporary files.
pub make_default_persister : {P : Type 0} → Directories P → P → Option P
unfolding make_persister
make_default_persister fs temp_directory_path = make_persister fs temp_directory_path

-- NearObjectProfilePersisterFilesystem::GetPersistenceFilepath.
pub get_persistence_filepath : {P : Type 0} → P → P
get_persistence_filepath path = path

module _ {J Text : Type 0} (json : Json J Text) where
  -- to_json and from_json of NearObjectProfileSecurity.
  pub security_to_json : NearObjectProfileSecurity → J
  security_to_json security = json.braces

  pub security_from_json : J → NearObjectProfileSecurity
  security_from_json j = record {}

  -- adl_serializer of std::optional: to_json and from_json.
  pub optional_to_json : Option NearObjectProfileSecurity → J
  unfolding security_to_json
  optional_to_json none = json.null
  optional_to_json (some security) = security_to_json security

  pub optional_from_json : J → Option NearObjectProfileSecurity
  unfolding security_from_json
  optional_from_json j = if json.is_null j then none else some (security_from_json j)

  -- to_json and from_json of NearObjectProfile.
  pub profile_to_json : NearObjectProfile → J
  unfolding optional_to_json
  profile_to_json p =
      json.object (
        (scope_key, json.from_scope p.m_scope) ∷ (security_key, optional_to_json p.m_security) ∷ [])

  pub profile_from_json : J → Option NearObjectProfile
  unfolding optional_from_json
  profile_from_json j = do
    s ← json.at j scope_key
    scope ← json.get_scope s
    security ← json.at j security_key
    some (record { m_scope = scope; m_security = optional_from_json security })

  -- get of a vector of profiles.
  pub profiles_from_json : List J → Option (List NearObjectProfile)
  unfolding profile_from_json
  profiles_from_json [] = some []
  profiles_from_json (j ∷ js) = do
    p ← profile_from_json j
    ps ← profiles_from_json js
    some (p ∷ ps)

  pub parsed_profiles : J → Option (PersistResult × List NearObjectProfile)
  unfolding profiles_from_json
  parsed_profiles j =
      if json.empty j
      then some (succeeded, [])
      else (json.elements j >>= λ js. profiles_from_json js >>= λ ps. some (succeeded, ps))

  -- NearObjectProfilePersisterFilesystem::ReadPersistedProfiles.
  unfoldable pub read_persisted_profiles :
      Bool → Option Text → Option (PersistResult × List NearObjectProfile)
  unfolding parsed_profiles
  read_persisted_profiles opens none = some (succeeded, [])
  read_persisted_profiles opens (some text) =
      if opens then (json.parse text >>= λ j. parsed_profiles j) else some (failed_to_open_file, [])

  -- The profiles written to the file, and what the file is then.
  unfoldable pub write_profiles :
      Streams Text → List NearObjectProfile → Option Text × Option PersistResult
  unfolding profile_to_json
  write_profiles streams profiles =
      if streams.write_fails
      then (streams.leaves, some failed)
      else (some (json.dump (json.array (map profile_to_json profiles))), some succeeded)

  -- What PersistProfile does when it has read the file.
  unfoldable pub persist_read :
      Streams Text
      → NearObjectProfile
      → Option Text
      → Option (PersistResult × List NearObjectProfile)
      → Option Text × Option PersistResult
  unfolding write_profiles
  persist_read streams profile file none = (file, none)
  persist_read streams profile file (some (succeeded, profiles)) =
      write_profiles streams (profiles ++ profile ∷ [])
  persist_read streams profile file (some (failed, profiles)) = (file, some failed)
  persist_read streams profile file (some (failed_to_open_file, profiles)) =
      (file, some failed_to_open_file)
  persist_read streams profile file (some (failed_to_parse_file, profiles)) =
      (file, some failed_to_parse_file)
  persist_read streams profile file (some (unknown_error, profiles)) = (file, some unknown_error)

  -- NearObjectProfilePersisterFilesystem::PersistProfile: the file and the result, `none` if the
  -- JSON library throws.
  unfoldable pub persist_profile :
      Streams Text → NearObjectProfile → Option Text → Option Text × Option PersistResult
  unfolding persist_read
  persist_profile streams profile file =
      persist_read streams profile file (read_persisted_profiles streams.opens file)
