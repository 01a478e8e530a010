-- ===== src/ProfileManager/Additions/Race.antt =====
-- Two threads that add profiles at once.
use near_object_framework.Common.{
  ◌≡◌, refl, true, false, List, [], ◌∷◌, ◌++◌, Option, none, some, append_assoc, map,
}
use near_object_framework.Profile.{NearObjectProfile}
use near_object_framework.Persister.{
  succeeded, Json, Streams, read_persisted_profiles, write_profiles, profile_to_json,
}
use near_object_framework.Persister.RoundTrip.{JsonLaws, Holds, written}
use near_object_framework.ProfileManager.{persistent, NearObjectProfileManager, get_all_profiles}
use near_object_framework.ProfileManager.Additions.{
  done, Files, Additions, adds, goes_on, write_on, write_at, open_on, advance, advance_all,
}

-- No thread is in AddProfile.
abbrev pub idle : {Text : Type 0} → NearObjectProfileManager (Option Text) → Additions Text
idle m = record { manager = m; writers = [] }

module _ {J Text : Type 0} (json : Json J Text) (files : Files Text) where
  -- A thread that adds a persistent profile reads the file when another one has opened it to write and
  -- has not written it yet, where the JSON library does not parse an empty file: the other one succeeds,
  -- and the file holds its profile behind those from before; but the first leaves AddProfile by the
  -- exception of the parser, although the manager has its profile, which is not in the file.
  pub torn_read :
      (first : List NearObjectProfile) (p q : NearObjectProfile) (streams : Streams Text)
      (m : NearObjectProfileManager (Option Text))
      → JsonLaws json
      → ((text : Text) → files.over text files.empty ≡ text)
      → json.parse files.empty ≡ none
      → streams.opens ≡ true
      → streams.write_fails ≡ false
      → Holds json m.m_persister first
      → let b =
          advance_all json files
            (adds p persistent
              ∷ goes_on 0 streams
              ∷ goes_on 0 streams
              ∷ adds q persistent
              ∷ goes_on 1 streams
              ∷ goes_on 0 streams
              ∷ goes_on 1 streams
              ∷ [])
            (idle m) in
        (get_all_profiles b.manager ≡ get_all_profiles m ++ (p ∷ q ∷ []))
        × (b.writers ≡ done (some succeeded) ∷ done none ∷ [])
        × Holds json b.manager.m_persister (first ++ p ∷ [])
  unfolding get_all_profiles advance_all advance write_at write_on open_on write_profiles
      read_persisted_profiles
  torn_read first p q streams m laws over unparsed opens writes holds =
      let seen : read_persisted_profiles json streams.opens m.m_persister
          ≡ some (succeeded, first) =
        unfold Holds in rw opens holds in
      rw seen (
        rw writes (
          rw opens (
            rw unparsed (
              rw (over (json.dump (json.array (map (profile_to_json json) (first ++ p ∷ []))))) (
                append_assoc m.m_profiles (p ∷ []) (q ∷ []),
                refl,
                written json laws (first ++ p ∷ []),
              )))))
