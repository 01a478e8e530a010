-- ===== src/DeviceEnumerator/Names.antt =====
-- The names that the loop takes from a buffer, against the list that a caller writes.
use near_object_framework.Common.{
  ℕ, zero, suc, subst, some-injective, ◌≡◌, ◌≢◌, ◌↔◌, refl, false, List, [], ◌∷◌, ◌++◌, none, some,
  ◌==◌, length, drop, is_empty, ◌<◌, Every, arith, append_assoc, ap, sym, ◌∙◌, length-append, ◌⊎◌,
  inl, inr,
}
use near_object_framework.DeviceEnumerator.{Name, c_string, split_names, buffer_names}

-- A list of names, each with a NUL behind it, and an empty name at the end.
abbrev pub encode : List Name → List ℕ
encode [] = 0 ∷ []
encode (name ∷ names) = name ++ 0 ∷ encode names

-- A name that such a list can hold: not empty, and without NUL.
pub record IsName (name : Name) : Type 0 where
  pub filled : is_empty name ≡ false
  pub no_nul : Every (λ c. c ≢ 0) name

nonzero : (c : ℕ) → (suc c == 0) ≡ false
nonzero c = ground arith

c_string-append :
    (name rest : List ℕ) → Every (λ c. c ≢ 0) name → c_string (name ++ 0 ∷ rest) ≡ some name
c_string-append [] rest h = refl
c_string-append (c ∷ name) rest h = ground (arith, c_string-append name rest h.1)

-- The front of a buffer is a name with its NUL.
abbrev Cut : List ℕ → Name → Type 0
Cut buffer name =
    (c_string buffer ≡ some name)
    × (buffer ≡ name ++ 0 ∷ drop (suc (length name)) buffer)
    × Every (λ c. c ≢ 0) name

c_string-cases : (buffer : List ℕ) → (c_string buffer ≡ none) ⊎ ((name : Name) × Cut buffer name)
c_string-cases [] = inl refl
c_string-cases (zero ∷ cs) = inr ([], (refl, refl, tt))
c_string-cases (suc c ∷ cs) = elim (c_string-cases cs) [
  | inl stuck ↦ inl (rw (nonzero c) (rw stuck))
  | inr (name, (found, cut, no_nul)) ↦ inr (
    suc c ∷ name,
    (rw (nonzero c) (rw found), ap (λ l. suc c ∷ l) cut, ((λ e. omega arith), no_nul)),
  )
]

-- The front of a buffer is a list of names.
abbrev pub Listed : List ℕ → List Name → Type 0
Listed buffer names = ((rest : List ℕ) × (buffer ≡ encode names ++ rest)) × Every IsName names

split_names-cases :
    (fuel : ℕ) (buffer : List ℕ)
    → (split_names fuel buffer ≡ none)
      ⊎ ((names : List Name) × (split_names fuel buffer ≡ some names) × Listed buffer names)
unfolding split_names
split_names-cases fuel [] = inl refl
split_names-cases zero (c ∷ cs) = inl refl
split_names-cases (suc fuel) (zero ∷ cs) = inr ([], refl, ((cs, refl), tt))
split_names-cases (suc fuel) (suc c ∷ cs) = elim (c_string-cases cs) [
  | inl stuck ↦ inl (rw (nonzero c) (rw stuck))
  | inr (name, (found, cut, no_nul)) ↦ elim (split_names-cases fuel (drop (suc (length name)) cs)) [
    | inl stuck ↦ inl (rw (nonzero c) (rw found (rw stuck)))
    | inr (names, rest_found, ((rest, split), names_good)) ↦ inr (
      (suc c ∷ name) ∷ names,
      rw (nonzero c) (rw found (rw rest_found)),
      (
        (
          rest,
          ap (λ l. suc c ∷ l)
              (cut
                ∙ (ap (λ l. name ++ 0 ∷ l) split
                    ∙ sym (append_assoc name (0 ∷ encode names) rest))),
        ),
        (record { filled = refl; no_nul = ((λ e. omega arith), no_nul) }, names_good),
      ),
    )
  ]
]

drop_name : (name rest : List ℕ) → drop (suc (length name)) (name ++ 0 ∷ rest) ≡ rest
drop_name [] rest = refl
drop_name (c ∷ name) rest = drop_name name rest

split_names-encode :
    (fuel : ℕ) (names : List Name) (rest : List ℕ)
    → length names < fuel
    → Every IsName names
    → split_names fuel (encode names ++ rest) ≡ some names
unfolding split_names
split_names-encode zero names rest enough h = absurd (omega arith)
split_names-encode (suc fuel) [] rest enough h = refl
split_names-encode (suc fuel) ([] ∷ names) rest enough h = absurd (ground (arith, h.0.filled))
split_names-encode (suc fuel) ((zero ∷ name) ∷ names) rest enough h = absurd (h.0.no_nul.0 refl)
split_names-encode (suc fuel) ((suc c ∷ name) ∷ names) rest enough h =
    let tail = encode names ++ rest in
    rw (append_assoc name (0 ∷ encode names) rest) (
      rw (nonzero c) (
        rw (c_string-append name tail h.0.no_nul.1)
          (rw (drop_name name tail) (rw (split_names-encode fuel names rest (omega arith) h.1)))))

length-encode : (names : List Name) → length names < length (encode names)
length-encode [] = omega arith
length-encode (name ∷ names) =
    omega (arith, length-encode names, length-append name (0 ∷ encode names))

encoded_names :
    (buffer : List ℕ) (names : List Name) (rest : List ℕ)
    → buffer ≡ encode names ++ rest
    → Every IsName names
    → buffer_names buffer ≡ some names
unfolding buffer_names
encoded_names buffer names rest e good =
    let long = length-append (encode names) rest in
    let enough : length names < length (encode names ++ rest) =
      omega (arith, long, length-encode names) in
    rw e (split_names-encode (length (encode names ++ rest)) names rest enough good)

-- The loop over the buffer, whatever stands in it, stops inside the buffer with these names if and
-- only if the buffer starts with these names, each not empty, free of NUL and with a NUL behind it,
-- and an empty name after them.
pub buffer_names_iff :
    (buffer : List ℕ) (names : List Name) → (buffer_names buffer ≡ some names) ↔ Listed buffer names
unfolding buffer_names
buffer_names_iff buffer names = (
  (λ found. elim (split_names-cases (length buffer) buffer) [
    | inl stuck ↦ absurd (ground arith)
    | inr (others, others_found, listed) ↦
        subst (Listed buffer) (some-injective others names (sym others_found ∙ found)) listed
  ]),
  (λ listed. encoded_names buffer names listed.0.0 listed.0.1 listed.1),
)
