-- ===== src/ProfileManager/Additions/Tests.antt =====
-- Two threads that add profiles at once, on a JSON library whose parser does not take an empty text, and
-- files where a text on top of another one leaves neither.
use near_object_framework.Common.{◌≡◌, refl, [], ◌∷◌, ◌++◌, Option, true, false, none, some}
use near_object_framework.Persister.{succeeded, Json, Streams, read_persisted_profiles}
use near_object_framework.Persister.RoundTrip.{JsonLaws, Holds}
use near_object_framework.Persister.Values.{Value, values, values-JsonLaws}
use near_object_framework.ProfileManager.{persistent, NearObjectProfileManager, get_all_profiles}
use near_object_framework.ProfileManager.Additions.{Files, adds, goes_on, advance_all, done}
use near_object_framework.ProfileManager.Additions.Race.{idle, torn_read}
use near_object_framework.ProfileManager.Tests.{secured, plain}

-- A text is a value, or torn.
abbrev Torn : Type 0
Torn = Option Value

abbrev texts : Json Value Torn
texts = record {
  null = values.null;
  is_null = values.is_null;
  braces = values.braces;
  object = values.object;
  at = values.at;
  from_scope = values.from_scope;
  get_scope = values.get_scope;
  array = values.array;
  elements = values.elements;
  empty = values.empty;
  dump = some;
  parse = λ t. t;
}

texts-JsonLaws : JsonLaws texts
texts-JsonLaws = record {
  at_scope = values-JsonLaws.at_scope;
  at_security = values-JsonLaws.at_security;
  get_from_scope = values-JsonLaws.get_from_scope;
  null_is_null = values-JsonLaws.null_is_null;
  braces_not_null = values-JsonLaws.braces_not_null;
  elements_array = values-JsonLaws.elements_array;
  empty_array = values-JsonLaws.empty_array;
  parse_dump = λ j. refl;
}

abbrev on_old : Torn → Torn → Torn
on_old new none = new
on_old new (some old) = none

abbrev torn_files : Files Torn
torn_files = record { empty = none; over = on_old }

abbrev fine : Streams Torn
fine = record { opens = true; write_fails = false; leaves = none }

abbrev nobody : NearObjectProfileManager (Option Torn)
nobody = record { m_profiles = []; m_persister = none }

nobody-Holds : Holds texts none []
unfolding Holds read_persisted_profiles
nobody-Holds = refl

torn_read_example :
    let b =
      advance_all texts torn_files
        (adds secured persistent
          ∷ goes_on 0 fine
          ∷ goes_on 0 fine
          ∷ adds plain persistent
          ∷ goes_on 1 fine
          ∷ goes_on 0 fine
          ∷ goes_on 1 fine
          ∷ [])
        (idle nobody) in
    (get_all_profiles b.manager ≡ get_all_profiles nobody ++ (secured ∷ plain ∷ []))
    × (b.writers ≡ done (some succeeded) ∷ done none ∷ [])
    × Holds texts b.manager.m_persister ([] ++ secured ∷ [])
torn_read_example =
    torn_read texts torn_files [] secured plain fine nobody texts-JsonLaws (λ t. refl) refl refl
      refl nobody-Holds
