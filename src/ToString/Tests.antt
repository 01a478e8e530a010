-- ===== src/ToString/Tests.antt =====
-- The texts of concrete values.
use near_object_framework.Common.{ℕ, ◌≡◌, refl, ◌≢◌, [], ◌∷◌, ◌++◌, none, map, arith, Every}
use near_object_framework.Profile.{
  NearObjectConnectionScope, unicast, multicast, unknown, NearObjectProfile,
}
use near_object_framework.ToString.{
  Characters, characters, empty_value, insert, insert_optional, insert_items, to_string,
  profile_to_string, security_HasToString,
}
use near_object_framework.ToString.Texts.{join, entry, to_string-join}

abbrev scope_name : NearObjectConnectionScope → Characters
scope_name unicast = characters "Unicast"
scope_name multicast = characters "Multicast"
scope_name unknown = characters "Unknown"

abbrev plain : NearObjectProfile
plain = record { m_scope = unicast; m_security = none }

plain_text : profile_to_string scope_name plain ≡ characters "Scope: Unicast, Security: (empty)"
unfolding profile_to_string insert_optional insert empty_value
plain_text = refl

abbrev stars : ℕ → Characters
stars n = n ∷ []

two_items :
    to_string stars (b'1' ∷ b'2' ∷ []) (characters "Peer") (characters "(none)")
    ≡ characters "Peer: 1, Peer: 2"
unfolding to_string insert_items
two_items = refl

to_string-join_example :
    (to_string stars (b'1' ∷ b'2' ∷ []) (characters "Peer") (characters "(none)")
      ≡ join (map (entry stars (characters "Peer")) (b'1' ∷ b'2' ∷ [])))
    × (to_string stars [] (characters "Peer") (characters "(none)")
        ≡ characters "Peer" ++ (characters ": " ++ characters "(none)"))
to_string-join_example =
    to_string-join stars b'1' (b'2' ∷ []) (characters "Peer") (characters "(none)")

names_differ : (a b : NearObjectConnectionScope) → scope_name a ≡ scope_name b → a ≡ b
names_differ unicast unicast e = refl
names_differ unicast multicast e = absurd (ground arith)
names_differ unicast unknown e = absurd (ground arith)
names_differ multicast unicast e = absurd (ground arith)
names_differ multicast multicast e = refl
names_differ multicast unknown e = absurd (ground arith)
names_differ unknown unicast e = absurd (ground arith)
names_differ unknown multicast e = absurd (ground arith)
names_differ unknown unknown e = refl

names_plain : (a : NearObjectConnectionScope) → Every (λ c. c ≢ b',') (scope_name a)
names_plain unicast = ground arith
names_plain multicast = ground arith
names_plain unknown = ground arith
