-- ===== src/ProfileManager/FailedWrite.antt =====
-- A write that fails, and what follows from it.
use near_object_framework.Common.{
  ◌≡◌, ◌∙◌, ap, Bool-cases, inl, inr, true, List, [], ◌∷◌, Option, none, some, arith, if◌then◌else◌,
}
use near_object_framework.Profile.{NearObjectProfile}
use near_object_framework.Persister
use near_object_framework.Persister.{
  Json, Streams, succeeded, failed, failed_to_open_file, persist_profile,
}
use near_object_framework.Persister.RoundTrip.{Holds}
use near_object_framework.ProfileManager.{
  filesystem, ProfileLifetime, persistent, ephemeral, NearObjectProfileManager, add_profile,
  persist_profile_of, read_persisted_profiles_of, ignored,
}
use near_object_framework.ProfileManager.Profiles.{Addition, add_profiles}

module _ {J Text : Type 0} where
  -- PersistProfile on a file that the JSON library does not parse.
  persist_garbled :
      (json : Json J Text) (streams : Streams Text) (p : NearObjectProfile) (text : Text)
      → json.parse text ≡ none
      → persist_profile json streams p (some text)
        ≡ (if streams.opens then (some text, none) else (some text, some failed_to_open_file))
  unfolding persist_profile Persister.persist_read Persister.read_persisted_profiles
  persist_garbled json streams p text garbled = ground arith

  add_profile_garbled :
      (json : Json J Text) (streams : Streams Text) (p : NearObjectProfile)
      (lifetime : ProfileLifetime) (text : Text) (m : NearObjectProfileManager (Option Text))
      → json.parse text ≡ none
      → m.m_persister ≡ some text
      → (add_profile (filesystem json) streams p lifetime m).0.m_persister ≡ some text
  unfolding add_profile persist_profile_of filesystem
  add_profile_garbled json streams p persistent text m garbled holds =
      ap (λ file. (persist_profile json streams p file).0) holds
      ∙ (ap (λ r. r.0) (persist_garbled json streams p text garbled)
          ∙ elim (Bool-cases streams.opens) [ inl open_now ↦ rw open_now | inr closed ↦ rw closed ])
  add_profile_garbled json streams p ephemeral text m garbled holds = holds

  add_profiles_garbled :
      (json : Json J Text) (adds : List (Addition (Streams Text))) (text : Text)
      (m : NearObjectProfileManager (Option Text))
      → json.parse text ≡ none
      → m.m_persister ≡ some text
      → (add_profiles (filesystem json) adds m).m_persister ≡ some text
  unfolding add_profiles
  add_profiles_garbled json [] text m garbled holds = holds
  add_profiles_garbled json ((streams, p, lifetime) ∷ adds) text m garbled holds =
      add_profiles_garbled json adds text (add_profile (filesystem json) streams p lifetime m).0
        garbled (add_profile_garbled json streams p lifetime text m garbled holds)

  persist_fails :
      (json : Json J Text) (streams : Streams Text) (p : NearObjectProfile) (text : Text)
      (file : Option Text) (ps : List NearObjectProfile)
      → Holds json file ps
      → streams.opens ≡ true
      → streams.write_fails ≡ true
      → streams.leaves ≡ some text
      → persist_profile json streams p file ≡ (some text, some failed)
  unfolding Holds persist_profile Persister.persist_read Persister.write_profiles
  persist_fails json streams p text file ps holds opens fails leaves =
      rw opens (rw holds (rw fails (rw leaves)))

  -- A persistent profile is added to a manager whose file holds some profiles, and the write fails
  -- and leaves a text that does not parse. AddProfile returns without an exception; and after any
  -- further additions the file has that text still, ReadPersistedProfiles throws, and so does
  -- AddProfile for a persistent profile, whenever the file can be opened.
  pub failed_write_blocks :
      (json : Json J Text) (streams now : Streams Text) (p q : NearObjectProfile) (text : Text)
      (adds : List (Addition (Streams Text))) (m : NearObjectProfileManager (Option Text))
      (ps : List NearObjectProfile)
      → Holds json m.m_persister ps
      → streams.opens ≡ true
      → streams.write_fails ≡ true
      → streams.leaves ≡ some text
      → json.parse text ≡ none
      → now.opens ≡ true
      → let (first, result) = add_profile (filesystem json) streams p persistent m in
        let later = add_profiles (filesystem json) adds first in
        (result ≡ some tt)
        × (later.m_persister ≡ some text)
        × (read_persisted_profiles_of (filesystem json) now later ≡ none)
        × ((add_profile (filesystem json) now q persistent later).1 ≡ none)
  unfolding read_persisted_profiles_of add_profile persist_profile_of filesystem
      Persister.read_persisted_profiles
  failed_write_blocks json streams now p q text adds m ps holds opens fails leaves garbled works =
      let written = persist_fails json streams p text m.m_persister ps holds opens fails leaves in
      let later =
        add_profiles_garbled json adds text (add_profile (filesystem json) streams p persistent m).0
          garbled (ap (λ r. r.0) written) in
      (
        ap (λ r. ignored r.1) written,
        later,
        rw later (rw works (rw garbled)),
        ap (λ file. ignored (persist_profile json now q file).1) later
            ∙ (ap (λ r. ignored r.1) (persist_garbled json now q text garbled) ∙ rw works),
      )
