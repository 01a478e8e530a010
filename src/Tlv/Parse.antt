-- ===== src/Tlv/Parse.antt =====
-- TlvSimple::Parse against the two SIMPLE-TLV length forms.
use near_object_framework.Common.{
  ℕ, ◌+◌, ◌-◌, ◌*◌, ◌<◌, ◌≡◌, refl, ◌↔◌, ◌⊎◌, inl, inr, List, [], ◌∷◌, Option, some, arith, length,
  drop-append, Bool-cases, ◌==◌, ==_iff, sym, ◌∙◌, none,
}
use near_object_framework.Common.Bytes.{AreBytes, bit_or_bytes}
use near_object_framework.Tlv.{
  TlvSimple, succeeded, failed, make_tlv_simple, refused, Outcome, parse_value, parse,
}

-- The encodings of a tag and a value: a length byte below 255, or 255 and two length bytes.
abbrev pub Encodes : ℕ → List ℕ → List ℕ → Type 0
Encodes tag value buffer =
    ((length value < 255) × (buffer ≡ tag ∷ length value ∷ value))
    ⊎ ((high : ℕ) × (low : ℕ) × (length value ≡ high * 256 + low)
        × (buffer ≡ tag ∷ 255 ∷ high ∷ low ∷ value))

abbrev pub made : ℕ → List ℕ → Option Outcome
made tag value = some (succeeded, some (some (make_tlv_simple tag value)))

-- The value of the one byte form is what follows two bytes.
parse_value_short : (tag a b : ℕ) (v : List ℕ) → parse_value tag (length v) (a ∷ b ∷ v) ≡ made tag v
unfolding parse_value
parse_value_short tag a b v =
    ground (arith, drop-append (a ∷ b ∷ []) v (length (a ∷ b ∷ v) - length v))

parse_value_long :
    (tag a b c d : ℕ) (v : List ℕ) → parse_value tag (length v) (a ∷ b ∷ c ∷ d ∷ v) ≡ made tag v
unfolding parse_value
parse_value_long tag a b c d v =
    ground (arith, drop-append (a ∷ b ∷ c ∷ d ∷ []) v (length (a ∷ b ∷ c ∷ d ∷ v) - length v))

parse-short :
    (p : Option TlvSimple) (tag : ℕ) (v : List ℕ)
    → length v < 255
    → parse (some p) (tag ∷ length v ∷ v) ≡ made tag v
unfolding parse
parse-short p tag v h = ground (arith, parse_value_short tag tag (length v) v)

parse-long :
    (p : Option TlvSimple) (tag high low : ℕ) (v : List ℕ)
    → high < 256
    → low < 256
    → length v ≡ high * 256 + low
    → parse (some p) (tag ∷ 255 ∷ high ∷ low ∷ v) ≡ made tag v
unfolding parse
parse-long p tag high low v h l e =
    ground (arith, parse_value_long tag tag 255 high low v, bit_or_bytes high low)

Encodes-parse :
    (p : Option TlvSimple) (tag : ℕ) (v buffer : List ℕ)
    → AreBytes buffer
    → Encodes tag v buffer
    → parse (some p) buffer ≡ made tag v
Encodes-parse p tag v buffer b (inl (short, e)) = rw e (parse-short p tag v short)
Encodes-parse p tag v buffer b (inr (high, low, long, e)) =
    let bytes : AreBytes (tag ∷ 255 ∷ high ∷ low ∷ v) = rw e at b in
    rw e (parse-long p tag high low v bytes.1.1.0 bytes.1.1.1.0 long)

-- What a buffer must be for the parser to take it, and that it is refused otherwise.
abbrev Answers : List ℕ → Option Outcome → Type 0
Answers buffer r =
    (r ≡ refused) ⊎ ((tag : ℕ) × (v : List ℕ) × Encodes tag v buffer × (r ≡ made tag v))

-- The one byte form is taken exactly if the size fits.
parse_short-Answers :
    (p : Option TlvSimple) (a b : ℕ) (w : List ℕ)
    → b < 255
    → Answers (a ∷ b ∷ w) (parse (some p) (a ∷ b ∷ w))
unfolding parse
parse_short-Answers p a b w h = elim (Bool-cases (length w == b)) [
  | inl fits ↦
      let e : length w ≡ b = (==_iff _ b).0 fits in
      inr (a, w, inl (omega arith, rw e), rw (← e) (parse-short p a w (omega arith)))
  | inr off ↦ inl (ground arith)
]

parse_long-Answers :
    (p : Option TlvSimple) (a : ℕ) (w : List ℕ)
    → AreBytes w
    → Answers (a ∷ 255 ∷ w) (parse (some p) (a ∷ 255 ∷ w))
unfolding parse
parse_long-Answers p a [] h = inl refl
parse_long-Answers p a (c ∷ []) h = inl refl
parse_long-Answers p a (c ∷ d ∷ v) h = elim (Bool-cases (length v == c * 256 + d)) [
  | inl fits ↦
      let e : length v ≡ c * 256 + d = (==_iff _ (c * 256 + d)).0 fits in
      inr (a, v, inr (c, d, e, refl), parse-long p a c d v h.0 h.1.0 e)
  | inr off ↦ inl (ground (arith, bit_or_bytes c d h.0 h.1.0))
]

parse-Answers :
    (p : Option TlvSimple) (buffer : List ℕ)
    → AreBytes buffer
    → Answers buffer (parse (some p) buffer)
unfolding parse
parse-Answers p [] h = inl refl
parse-Answers p (a ∷ []) h = inl refl
parse-Answers p (a ∷ b ∷ w) h = elim (Bool-cases (b == 255)) [
  | inl long ↦ let e : b ≡ 255 = (==_iff b 255).0 long in rw e (parse_long-Answers p a w h.1.1)
  | inr short ↦ parse_short-Answers p a b w (ground arith)
]

-- The parser succeeds on exactly the two encodings of a tag and a value, with that tag and value.
pub parse_succeeds_iff :
    (p : Option TlvSimple) (buffer : List ℕ) (tag : ℕ) (value : List ℕ)
    → AreBytes buffer
    → (parse (some p) buffer ≡ made tag value) ↔ Encodes tag value buffer
unfolding make_tlv_simple
parse_succeeds_iff p buffer tag value h = (back, Encodes-parse p tag value buffer h)
  where
    back : parse (some p) buffer ≡ made tag value → Encodes tag value buffer
    back e = elim (parse-Answers p buffer h) [
      | inl no_parse ↦ cc
      | inr (t, v, coded, e') ↦
          let same : made t v ≡ made tag value = sym e' ∙ e in
          let tags : t ≡ tag = cc in let values : v ≡ value = cc in rw (← tags, ← values) coded
    ]

-- With no pointer to write to the parser fails and writes nothing; with one it never reads outside
-- the span, and either fails and leaves a null pointer there, or succeeds with a value.
pub parse_returns :
    (p : Option TlvSimple) (buffer : List ℕ)
    → AreBytes buffer
    → (parse none buffer ≡ some (failed, none))
      × ((parse (some p) buffer ≡ some (failed, some none))
          ⊎ ((t : TlvSimple) × (parse (some p) buffer ≡ some (succeeded, some (some t)))))
unfolding parse
parse_returns p buffer h = (
  refl,
  elim (parse-Answers p buffer h) [
    | inl e ↦ inl e
    | inr (t, v, _, e) ↦ inr (make_tlv_simple t v, e)
  ],
)
