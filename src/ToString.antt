-- ===== src/ToString.antt =====
-- lib/shared/notstd/include/notstd/tostring.hxx, and the ToString functions of lib/nearobject:
-- NearObjectProfile.cxx and NearObjectProfileSecurity.cxx. A std::string and what a std::ostream has been
-- given are lists of characters. magic_enum::enum_name is a parameter.
mod Texts
mod Tests
use Prim.Native.Char.{code}
use Prim.Native.String.{String}
use near_object_framework.Common.{ℕ, List, [], ◌∷◌, ◌++◌, Option, none, some}
use near_object_framework.Profile.{
  NearObjectConnectionScope, NearObjectProfile, NearObjectProfileSecurity,
}

abbrev pub Characters : Type 0
Characters = List ℕ

-- The characters of a literal.
abbrev pub characters : String → Characters
characters String.[] = []
characters (String.◌∷◌ c s) = code c ∷ characters s

-- A class with a member ToString.
pub record HasToString (A : Type 0) : Type 0 where
  pub to_text : A → Characters

-- detail::empty_value_provider.
pub empty_value : Characters
empty_value = characters "(empty)"

module _ {A : Type 0} ⦃h : HasToString A⦄ where
  -- operator<< of a class with a member ToString: the stream afterwards.
  pub insert : Characters → A → Characters
  insert stream ref = stream ++ h.to_text ref

  -- operator<< of an optional value of such a class.
  pub insert_optional : Characters → Option A → Characters
  unfolding insert empty_value
  insert_optional stream none = stream ++ empty_value
  insert_optional stream (some value) = insert stream value

module _ {A : Type 0} (show : A → Characters) where
  -- The loop of containers::to_string over the items behind the first.
  pub insert_items : Characters → List A → Characters → Characters
  insert_items item_name [] output = output
  insert_items item_name (item ∷ items) output =
      insert_items item_name items
        ((((output ++ characters ", ") ++ item_name) ++ characters ": ") ++ show item)

  -- containers::to_string, where an item is inserted by what `show` gives.
  pub to_string : List A → Characters → Characters → Characters
  unfolding insert_items
  to_string [] item_name empty_name = (item_name ++ characters ": ") ++ empty_name
  to_string (item ∷ items) item_name empty_name =
      insert_items item_name items ((item_name ++ characters ": ") ++ show item)

-- NearObjectProfileSecurity::ToString.
instance security_HasToString : HasToString NearObjectProfileSecurity
security_HasToString = record { to_text = λ security. [] }

-- NearObjectProfile::ToString.
pub profile_to_string : (NearObjectConnectionScope → Characters) → NearObjectProfile → Characters
unfolding insert_optional security_HasToString
profile_to_string enum_name profile =
    insert_optional
      ((characters "Scope: " ++ enum_name profile.m_scope) ++ characters ", Security: ")
      profile.m_security
