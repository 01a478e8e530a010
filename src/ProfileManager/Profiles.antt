-- ===== src/ProfileManager/Profiles.antt =====
-- The profiles of a manager in memory and in its file.
use near_object_framework.Common.{
  ◌≡◌, refl, sym, ap, ◌∙◌, true, false, List, [], ◌∷◌, ◌++◌, Option, some, copy_if, Every,
  append_assoc, append-nil, arith, map, subst, ◌≢◌, Bool-cases, inl, inr,
}
use near_object_framework.Profile.{NearObjectProfile, is_same}
use near_object_framework.Profile.Equality.{is_same_iff}
use near_object_framework.Persister.{succeeded, Json, Streams}
use near_object_framework.Persister.RoundTrip.{JsonLaws, Holds, persist_round_trip}
use near_object_framework.ProfileManager.{
  Persister, filesystem, ProfileLifetime, persistent, ephemeral, NearObjectProfileManager,
  find_matching_profiles, get_all_profiles, add_profile, persist_profile_of,
  read_persisted_profiles_of,
}

abbrev pub Addition : Type 0 → Type 0
Addition Luck = Luck × NearObjectProfile × ProfileLifetime

module _ {S Luck : Type 0} where
  -- Calls of AddProfile one after another, and on after exceptions.
  unfoldable pub add_profiles :
      Persister S Luck
      → List (Addition Luck)
      → NearObjectProfileManager S
      → NearObjectProfileManager S
  unfolding add_profile
  add_profiles persister [] m = m
  add_profiles persister ((luck, profile, lifetime) ∷ rest) m =
      add_profiles persister rest (add_profile persister luck profile lifetime m).0

  profiles-add_profile :
      (persister : Persister S Luck) (luck : Luck) (p : NearObjectProfile)
      (lifetime : ProfileLifetime) (m : NearObjectProfileManager S)
      → (add_profile persister luck p lifetime m).0.m_profiles ≡ m.m_profiles ++ p ∷ []
  unfolding add_profile persist_profile_of
  profiles-add_profile persister luck p persistent m = refl
  profiles-add_profile persister luck p ephemeral m = refl

  -- Whatever the persister does, exceptions included, GetAllProfiles gives all profiles that have
  -- been added, in order, behind those that were there.
  pub get_all_profiles-add_profiles :
      (persister : Persister S Luck) (adds : List (Addition Luck)) (m : NearObjectProfileManager S)
      → get_all_profiles (add_profiles persister adds m) ≡ get_all_profiles m ++ map (λ a. a.1) adds
  unfolding add_profiles get_all_profiles
  get_all_profiles-add_profiles persister [] m = sym (append-nil m.m_profiles)
  get_all_profiles-add_profiles persister ((luck, p, lifetime) ∷ adds) m =
      get_all_profiles-add_profiles persister adds (add_profile persister luck p lifetime m).0
      ∙ ap (λ l. l ++ map (λ a. a.1) adds) (profiles-add_profile persister luck p lifetime m)
      ∙ append_assoc m.m_profiles (p ∷ []) (map (λ a. a.1) adds)

-- The profiles that are to be kept.
abbrev pub persistents : {Luck : Type 0} → List (Addition Luck) → List NearObjectProfile
persistents [] = []
persistents ((luck, p, persistent) ∷ adds) = p ∷ persistents adds
persistents ((luck, p, ephemeral) ∷ adds) = persistents adds

-- The streams of a call do not fail.
abbrev pub Works : {Text : Type 0} → Addition (Streams Text) → Type 0
Works (streams, p, lifetime) = (streams.opens ≡ true) × (streams.write_fails ≡ false)

module _ {J Text : Type 0} where
  file-add_profiles :
      (json : Json J Text) (adds : List (Addition (Streams Text)))
      (m : NearObjectProfileManager (Option Text)) (ps : List NearObjectProfile)
      → JsonLaws json
      → Every Works adds
      → Holds json m.m_persister ps
      → Holds json (add_profiles (filesystem json) adds m).m_persister (ps ++ persistents adds)
  unfolding add_profiles add_profile persist_profile_of filesystem
  file-add_profiles json [] m ps laws works holds =
      subst (Holds json m.m_persister) (sym (append-nil ps)) holds
  file-add_profiles json ((luck, p, ephemeral) ∷ adds) m ps laws works holds =
      let kept = record m { m_profiles = m.m_profiles ++ p ∷ [] } in
      file-add_profiles json adds kept ps laws works.1 holds
  file-add_profiles json ((luck, p, persistent) ∷ adds) m ps laws works holds =
      let (opens, writes) = works.0 in
      let written = persist_round_trip json m.m_persister ps p luck laws holds opens writes in
      let next = (add_profile (filesystem json) luck p persistent m).0 in
      subst (Holds json (add_profiles (filesystem json) adds next).m_persister)
        (append_assoc ps (p ∷ []) (persistents adds))
        (file-add_profiles json adds next (ps ++ p ∷ []) laws works.1 written.1)

  -- Where the JSON library keeps its documentation and the streams do not fail: after any profiles
  -- have been added, GetAllProfiles gives those that were there and all that have been added, in
  -- order; and another manager on the same file reads back those that the file held and behind
  -- them those that were added as persistent, in order, and not the ephemeral ones.
  pub persistent_profiles_survive :
      (json : Json J Text) (adds : List (Addition (Streams Text)))
      (m other : NearObjectProfileManager (Option Text)) (ps : List NearObjectProfile)
      (streams : Streams Text)
      → JsonLaws json
      → Every Works adds
      → Holds json m.m_persister ps
      → other.m_persister ≡ (add_profiles (filesystem json) adds m).m_persister
      → streams.opens ≡ true
      → (get_all_profiles (add_profiles (filesystem json) adds m)
          ≡ get_all_profiles m ++ map (λ a. a.1) adds)
        × (read_persisted_profiles_of (filesystem json) streams other
            ≡ some (succeeded, ps ++ persistents adds))
  unfolding read_persisted_profiles_of filesystem Holds
  persistent_profiles_survive json adds m other ps streams laws works holds same opens = (
    get_all_profiles-add_profiles (filesystem json) adds m,
    rw same (rw opens (file-add_profiles json adds m ps laws works holds)),
  )

-- What is kept of a list when nothing but the profiles equal to one is kept.
pub data Matches (wanted : NearObjectProfile)
    : List NearObjectProfile → List NearObjectProfile → Type 0 where
  none_left : Matches wanted [] []
  hit :
      {ps found : List NearObjectProfile}
      → Matches wanted ps found
      → Matches wanted (wanted ∷ ps) (wanted ∷ found)
  miss :
      {ps found : List NearObjectProfile} (p : NearObjectProfile)
      → p ≢ wanted
      → Matches wanted ps found
      → Matches wanted (p ∷ ps) found

copy_if-Matches :
    (wanted : NearObjectProfile) (ps : List NearObjectProfile)
    → Matches wanted ps (copy_if (λ p. is_same p wanted) ps)
copy_if-Matches wanted [] = none_left
copy_if-Matches wanted (p ∷ ps) = elim (Bool-cases (is_same p wanted)) [
  | inl same ↦ rw same (
      subst (λ q. Matches wanted (q ∷ ps) (q ∷ copy_if (λ p. is_same p wanted) ps))
        (sym ((is_same_iff p wanted).0 same)) (hit (copy_if-Matches wanted ps)))
  | inr other ↦
      let differs : p ≢ wanted = λ e. ground (arith, is_same_iff p wanted) in
      rw other (miss p differs (copy_if-Matches wanted ps))
]

module _ {S : Type 0} where
  -- FindMatchingProfiles gives the profiles of the manager that equal the one that it is given, in
  -- scope and security, as often as they occur, and no other.
  pub find_matching_profiles-Matches :
      (wanted : NearObjectProfile) (m : NearObjectProfileManager S)
      → Matches wanted (get_all_profiles m) (find_matching_profiles wanted m)
  unfolding find_matching_profiles get_all_profiles
  find_matching_profiles-Matches wanted m = copy_if-Matches wanted m.m_profiles
