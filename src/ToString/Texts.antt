-- ===== src/ToString/Texts.antt =====
-- The texts that come out.
use near_object_framework.Common.{
  ◌≡◌, refl, sym, ap, ◌∙◌, ◌≢◌, List, [], ◌∷◌, ◌++◌, Option, none, some, map, append_assoc, arith,
  Every,
}
use near_object_framework.Profile.{
  NearObjectConnectionScope, NearObjectProfile, NearObjectProfileSecurity,
}
use near_object_framework.ToString.{
  Characters, characters, empty_value, insert, insert_optional, insert_items, to_string,
  profile_to_string, security_HasToString,
}

-- The texts one after another with commas between them.
abbrev pub join : List Characters → Characters
join [] = []
join (t ∷ []) = t
join (t ∷ u ∷ ts) = t ++ (characters ", " ++ join (u ∷ ts))

one_entry :
    (o n t : Characters)
    → (((o ++ characters ", ") ++ n) ++ characters ": ") ++ t
      ≡ (o ++ characters ", ") ++ ((n ++ characters ": ") ++ t)
one_entry o n t = simp append_assoc

module _ {A : Type 0} (show : A → Characters) where
  -- What is written for an item.
  abbrev pub entry : Characters → A → Characters
  entry item_name item = (item_name ++ characters ": ") ++ show item

  insert_items-join :
      (item_name : Characters) (items : List A) (first : A) (output : Characters)
      → insert_items show item_name items (output ++ entry item_name first)
        ≡ output ++ join (map (entry item_name) (first ∷ items))
  unfolding insert_items
  insert_items-join item_name [] first output = refl
  insert_items-join item_name (item ∷ items) first output =
      let written = output ++ entry item_name first in
      ap (λ o. insert_items show item_name items o) (one_entry written item_name (show item))
      ∙ insert_items-join item_name items item (written ++ characters ", ")
      ∙ ap (λ o. o ++ join (map (entry item_name) (item ∷ items)))
          (append_assoc output (entry item_name first) (characters ", "))
      ∙ append_assoc output (entry item_name first ++ characters ", ")
          (join (map (entry item_name) (item ∷ items)))
      ∙ ap (λ o. output ++ o)
          (append_assoc (entry item_name first) (characters ", ")
            (join (map (entry item_name) (item ∷ items))))

  -- The text of a container is what is written for its items, in order and with commas between them, or
  -- the name with the text for nothing, if there is no item.
  pub to_string-join :
      (first : A) (items : List A) (item_name empty_name : Characters)
      → (to_string show (first ∷ items) item_name empty_name
          ≡ join (map (entry item_name) (first ∷ items)))
        × (to_string show [] item_name empty_name ≡ item_name ++ (characters ": " ++ empty_name))
  unfolding to_string
  to_string-join first items item_name empty_name = (
    insert_items-join item_name items first [],
    append_assoc item_name (characters ": ") empty_name,
  )

-- Texts without a comma in front of a comma.
before_comma :
    (s t r u : Characters)
    → Every (λ c. c ≢ b',') s
    → Every (λ c. c ≢ b',') t
    → s ++ b',' ∷ r ≡ t ++ b',' ∷ u
    → (s ≡ t) × (r ≡ u)
before_comma [] [] r u hs ht e = ground arith
before_comma [] (c ∷ t) r u hs ht e = absurd (ground arith)
before_comma (c ∷ s) [] r u hs ht e = absurd (ground arith)
before_comma (c ∷ s) (d ∷ t) r u hs ht e = ground (arith, before_comma s t r u)

security_text : Option NearObjectProfileSecurity → Characters
security_text none = characters "(empty)"
security_text (some security) = []

text_of :
    (enum_name : NearObjectConnectionScope → Characters) (p : NearObjectProfile)
    → profile_to_string enum_name p
      ≡ characters "Scope: "
        ++ (enum_name p.m_scope ++ b',' ∷ (characters " Security: " ++ security_text p.m_security))
unfolding profile_to_string insert_optional insert security_HasToString empty_value security_text
text_of enum_name p = with_security p.m_scope p.m_security
  where
    with_security :
        (scope : NearObjectConnectionScope) (security : Option NearObjectProfileSecurity)
        → profile_to_string enum_name (record { m_scope = scope; m_security = security })
          ≡ characters "Scope: "
            ++ (enum_name scope ++ b',' ∷ (characters " Security: " ++ security_text security))
    with_security scope none =
        ap (λ t. characters "Scope: " ++ t)
          (append_assoc (enum_name scope) (characters ", Security: ") (characters "(empty)"))
    with_security scope (some security) =
        ap (λ t. characters "Scope: " ++ t)
          (append_assoc (enum_name scope) (characters ", Security: ") [])

same_security :
    (a b : Option NearObjectProfileSecurity)
    → characters " Security: " ++ security_text a ≡ characters " Security: " ++ security_text b
    → a ≡ b
unfolding security_text
same_security none none e = refl
same_security none (some b) e = absurd (ground arith)
same_security (some a) none e = absurd (ground arith)
same_security (some a) (some b) e = refl

-- Where the names of the scopes are different and have no comma: two profiles with one text are equal.
pub profile_to_string_injective :
    (enum_name : NearObjectConnectionScope → Characters) (p q : NearObjectProfile)
    → ((a b : NearObjectConnectionScope) → enum_name a ≡ enum_name b → a ≡ b)
    → ((a : NearObjectConnectionScope) → Every (λ c. c ≢ b',') (enum_name a))
    → profile_to_string enum_name p ≡ profile_to_string enum_name q
    → p ≡ q
profile_to_string_injective enum_name p q differ plain e =
    let whole = sym (text_of enum_name p) ∙ (e ∙ text_of enum_name q) in
    let parts =
      before_comma (enum_name p.m_scope) (enum_name q.m_scope)
        (characters " Security: " ++ security_text p.m_security)
        (characters " Security: " ++ security_text q.m_security) (plain p.m_scope) (plain q.m_scope)
        (ground (arith, whole)) in
    let scopes = differ p.m_scope q.m_scope parts.0 in
    let securities = same_security p.m_security q.m_security parts.1 in ground arith
