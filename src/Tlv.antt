-- ===== src/Tlv.antt =====
-- lib/shared/tlv: Tlv.hxx, TlvSimple.hxx and TlvSimple.cxx. A byte is a number below 256, and a
-- span is the list of the bytes it views.
mod Parse
mod Tests
use Prim.Native.Nat.{bit_or}
use near_object_framework.Common.{
  ℕ, ◌+◌, ◌-◌, ◌*◌, ◌%◌, List, [], ◌∷◌, Option, none, some, ltb, ◌==◌, if◌then◌else◌, length,
  get_elem?, drop, ◌>>=◌,
}

-- Tlv::ParseResult.
pub data ParseResult : Type 0 where
  succeeded failed tlv_not_found unknown_error : ParseResult

-- Tlv: two views, which a derived class points at its own storage.
pub record Tlv : Type 0 where
  pub tag : List ℕ
  pub value : List ℕ

-- TlvSimple, with the base class as its first field.
pub record TlvSimple : Type 0 where
  pub base : Tlv
  pub open base use *
  pub m_tag : List ℕ
  pub m_value : List ℕ

abbrev pub one_byte_length_minimum_size : ℕ
one_byte_length_minimum_size = 2

abbrev pub three_byte_length_minimum_size : ℕ
three_byte_length_minimum_size = 4

abbrev pub three_byte_length_indicator_value : ℕ
three_byte_length_indicator_value = 0xff

-- TlvSimple::TlvSimple: both views cover the members.
pub make_tlv_simple : ℕ → List ℕ → TlvSimple
make_tlv_simple tag value = record {
  base = record { tag = tag ∷ []; value = value };
  m_tag = tag ∷ [];
  m_value = value;
}

-- std::span::last: more bytes than there are is undefined, `none`.
pub last : List ℕ → ℕ → Option (List ℕ)
last data_span n =
    if ltb (length data_span) n then none else some (drop (length data_span - n) data_span)

-- What Parse returns, and what it leaves in `*tlvOutput` where there is a pointer to write to.
abbrev pub Outcome : Type 0
Outcome = ParseResult × Option (Option TlvSimple)

-- The common end of both length forms: the length has been checked against the size.
pub parse_value : ℕ → ℕ → List ℕ → Option Outcome
unfolding last make_tlv_simple
parse_value tag n data_span = do
  value ← last data_span n
  some (succeeded, some (some (make_tlv_simple tag value)))

abbrev refused : Option Outcome
refused = some (failed, some none)

-- The three byte form. `length` is a uint16_t: the shift drops what leaves the low sixteen bits.
pub parse_three_byte : ℕ → List ℕ → Option Outcome
unfolding parse_value
parse_three_byte tag data_span = do
  high ← get_elem? data_span 2
  low ← get_elem? data_span 3
  let n = bit_or (high * 256 % 65536) low
  if length data_span == three_byte_length_minimum_size + n
      then parse_value tag n data_span
      else refused

pub parse_length : ℕ → ℕ → List ℕ → Option Outcome
unfolding parse_three_byte
parse_length tag first data_span =
    if first == three_byte_length_indicator_value
    then if ltb (length data_span) three_byte_length_minimum_size
      then refused
      else parse_three_byte tag data_span
    else if length data_span == one_byte_length_minimum_size + first
    then parse_value tag first data_span
    else refused

pub parse_header : List ℕ → Option Outcome
unfolding parse_length
parse_header data_span = do
  tag ← get_elem? data_span 0
  first ← get_elem? data_span 1
  parse_length tag first data_span

-- TlvSimple::Parse. The pointer argument is `none` for a null pointer, else what it points at.
-- The outer result is `none` for a read outside the span.
pub parse : Option (Option TlvSimple) → List ℕ → Option Outcome
unfolding parse_header
parse none data_span = some (failed, none)
parse (some old) data_span =
    if ltb (length data_span) one_byte_length_minimum_size then refused else parse_header data_span
