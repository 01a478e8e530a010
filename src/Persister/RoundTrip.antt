-- ===== src/Persister/RoundTrip.antt =====
-- What is read from the file after profiles have been written to it.
use near_object_framework.Common.{
  ◌≡◌, refl, true, false, List, [], ◌∷◌, ◌++◌, Option, none, some, map, is_empty,
}
use near_object_framework.Profile.{
  NearObjectConnectionScope, NearObjectProfileSecurity, NearObjectProfile,
}
use near_object_framework.Persister.{
  succeeded, scope_key, security_key, Json, Streams, profile_to_json, profile_from_json,
  profiles_from_json, optional_to_json, optional_from_json, security_to_json, security_from_json,
  parsed_profiles, read_persisted_profiles, write_profiles, persist_read, persist_profile,
}

-- What the documentation of the JSON library says of the calls.
pub record JsonLaws {J Text : Type 0} (json : Json J Text) : Type 0 where
  pub at_scope :
      (a b : J) → json.at (json.object ((scope_key, a) ∷ (security_key, b) ∷ [])) scope_key ≡ some a
  pub at_security :
      (a b : J)
      → json.at (json.object ((scope_key, a) ∷ (security_key, b) ∷ [])) security_key ≡ some b
  pub get_from_scope : (s : NearObjectConnectionScope) → json.get_scope (json.from_scope s) ≡ some s
  pub null_is_null : json.is_null json.null ≡ true
  pub braces_not_null : json.is_null json.braces ≡ false
  pub elements_array : (js : List J) → json.elements (json.array js) ≡ some js
  pub empty_array : (js : List J) → json.empty (json.array js) ≡ is_empty js
  pub parse_dump : (j : J) → json.parse (json.dump j) ≡ some j

module _ {J Text : Type 0} (json : Json J Text) where
  optional_round_trip :
      JsonLaws json
      → (o : Option NearObjectProfileSecurity)
      → optional_from_json json (optional_to_json json o) ≡ o
  unfolding optional_from_json optional_to_json security_to_json security_from_json
  optional_round_trip laws none = rw laws.null_is_null
  optional_round_trip laws (some s) = rw laws.braces_not_null

  profile_round_trip :
      JsonLaws json
      → (p : NearObjectProfile) → profile_from_json json (profile_to_json json p) ≡ some p
  unfolding profile_from_json profile_to_json
  profile_round_trip laws p =
      let a = json.from_scope p.m_scope in
      let b = optional_to_json json p.m_security in
      rw (laws.at_scope a b) (
        rw (laws.get_from_scope p.m_scope)
          (rw (laws.at_security a b) (rw (optional_round_trip laws p.m_security))))

  profiles_round_trip :
      JsonLaws json
      → (ps : List NearObjectProfile)
      → profiles_from_json json (map (profile_to_json json) ps) ≡ some ps
  unfolding profiles_from_json
  profiles_round_trip laws [] = refl
  profiles_round_trip laws (p ∷ ps) =
      rw (profile_round_trip laws p) (rw (profiles_round_trip laws ps))

  -- The file holds these profiles.
  unfoldable pub Holds : Option Text → List NearObjectProfile → Type 0
  Holds file ps = read_persisted_profiles json true file ≡ some (succeeded, ps)

  pub written :
      JsonLaws json
      → (ps : List NearObjectProfile)
      → Holds (some (json.dump (json.array (map (profile_to_json json) ps)))) ps
  unfolding Holds read_persisted_profiles parsed_profiles
  written laws [] = rw (laws.parse_dump (json.array [])) (rw (laws.empty_array []))
  written laws (p ∷ ps) =
      let js = map (profile_to_json json) (p ∷ ps) in
      rw (laws.parse_dump (json.array js)) (
        rw (laws.empty_array js) (
          rw (laws.elements_array js)
            (rw (profile_round_trip laws p) (rw (profiles_round_trip laws ps)))))

  -- Where the JSON library keeps its documentation: when the file holds some profiles, or there is
  -- none yet and so no profile, and the streams do not fail, PersistProfile succeeds, and the file
  -- then holds these profiles with the new one behind them, its scope and security as they were.
  pub persist_round_trip :
      (file : Option Text) (ps : List NearObjectProfile) (p : NearObjectProfile)
      (streams : Streams Text)
      → JsonLaws json
      → Holds file ps
      → streams.opens ≡ true
      → streams.write_fails ≡ false
      → let r = persist_profile json streams p file in
        (r.1 ≡ some succeeded) × Holds r.0 (ps ++ p ∷ [])
  unfolding Holds persist_profile persist_read write_profiles
  persist_round_trip file ps p streams laws holds opens writes =
      rw opens (rw holds (rw writes (refl, written laws (ps ++ p ∷ []))))
