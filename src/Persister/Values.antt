-- ===== src/Persister/Values.antt =====
-- A JSON library whose text is the value itself, as a library for the examples.
use near_object_framework.Common.{
  ◌≡◌, refl, Bool, true, false, List, [], ◌∷◌, Option, none, some, ◌>>=◌, is_empty,
}
use near_object_framework.Profile.{NearObjectConnectionScope}
use near_object_framework.Persister.{Key, scope_key, security_key, Json, Streams}
use near_object_framework.Persister.RoundTrip.{JsonLaws}

pub data Value : Type 0 where
  nothing braces end : Value
  scope : NearObjectConnectionScope → Value
  members : Value → Value → Value
  item : Value → Value → Value

abbrev is_nothing : Value → Bool
is_nothing nothing = true
is_nothing braces = false
is_nothing end = false
is_nothing (scope s) = false
is_nothing (members a b) = false
is_nothing (item a b) = false

abbrev is_empty_value : Value → Bool
is_empty_value nothing = true
is_empty_value braces = true
is_empty_value end = true
is_empty_value (scope s) = false
is_empty_value (members a b) = false
is_empty_value (item a b) = false

abbrev make_object : List (Key × Value) → Value
make_object ((scope_key, a) ∷ (security_key, b) ∷ []) = members a b
make_object _ = braces

abbrev member : Value → Key → Option Value
member (members a b) scope_key = some a
member (members a b) security_key = some b
member _ _ = none

abbrev as_scope : Value → Option NearObjectConnectionScope
as_scope (scope s) = some s
as_scope _ = none

abbrev make_array : List Value → Value
make_array [] = end
make_array (v ∷ vs) = item v (make_array vs)

abbrev items : Value → Option (List Value)
items end = some []
items (item v rest) = items rest >>= λ vs. some (v ∷ vs)
items _ = none

abbrev pub values : Json Value Value
values = record {
  null = nothing;
  is_null = is_nothing;
  braces = braces;
  object = make_object;
  at = member;
  from_scope = scope;
  get_scope = as_scope;
  array = make_array;
  elements = items;
  empty = is_empty_value;
  dump = λ v. v;
  parse = some;
}

items-make_array : (vs : List Value) → items (make_array vs) ≡ some vs
items-make_array [] = refl
items-make_array (v ∷ vs) = rw (items-make_array vs)

is_empty_value-make_array : (vs : List Value) → is_empty_value (make_array vs) ≡ is_empty vs
is_empty_value-make_array [] = refl
is_empty_value-make_array (v ∷ vs) = refl

pub values-JsonLaws : JsonLaws values
values-JsonLaws = record {
  at_scope = λ a b. refl;
  at_security = λ a b. refl;
  get_from_scope = λ s. refl;
  null_is_null = refl;
  braces_not_null = refl;
  elements_array = items-make_array;
  empty_array = is_empty_value-make_array;
  parse_dump = λ j. refl;
}

abbrev pub working : Streams Value
working = record { opens = true; write_fails = false; leaves = none }
