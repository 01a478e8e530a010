-- ===== src/Apdu.antt =====
-- lib/smartcard: Apdu.{hxx,cxx}, the ApduCommand. A std::byte is a number, and a std::span the offset
-- of its first byte in the payload and its size.
mod Layout
mod Tests
use near_object_framework.Common.{
  ℕ, zero, suc, ◌+◌, ◌<◌, Bool, true, false, List, [], ◌∷◌, ◌++◌, Option, none, some, length, drop,
  get_elem?, ltb, if◌then◌else◌, ◌>>=◌,
}

pub record Span : Type 0 where
  pub offset : ℕ
  pub size : ℕ

-- ApduCommand.
pub record ApduCommand : Type 0 where
  pub m_data_view : Span
  pub m_payload_view : Span
  pub m_payload : List ℕ

-- std::vector::resize of an empty vector: so many zero bytes.
abbrev pub zeros : ℕ → List ℕ
zeros zero = []
zeros (suc n) = 0 ∷ zeros n

-- std::vector::operator[] on the left of an assignment, at an index that is there.
abbrev pub set_at : ℕ → ℕ → List ℕ → List ℕ
set_at i x [] = []
set_at zero x (y ∷ ys) = x ∷ ys
set_at (suc i) x (y ∷ ys) = y ∷ set_at i x ys

-- std::vector::insert before an index.
abbrev pub insert : ℕ → List ℕ → List ℕ → List ℕ
insert zero xs ys = xs ++ ys
insert (suc i) xs [] = xs
insert (suc i) xs (y ∷ ys) = y ∷ insert i xs ys

-- ApduCommand::ApduCommand; the one without data passes none.
pub make_apdu_command : ℕ → ℕ → ℕ → ℕ → List ℕ → ApduCommand
make_apdu_command cla ins p1 p2 bytes =
    let resized = zeros (4 + length bytes) in
    let header = set_at 3 p2 (set_at 2 p1 (set_at 1 ins (set_at 0 cla resized))) in
    let payload = insert 4 bytes header in
    record {
      m_data_view = record { offset = 4; size = length bytes };
      m_payload_view = record { offset = 1; size = length payload };
      m_payload = payload;
    }

-- ApduCommand::Cla, Ins, P1 and P2.
pub cla : ApduCommand → Option ℕ
cla c = get_elem? c.m_payload 0

pub ins : ApduCommand → Option ℕ
ins c = get_elem? c.m_payload 1

pub p1 : ApduCommand → Option ℕ
p1 c = get_elem? c.m_payload 2

pub p2 : ApduCommand → Option ℕ
p2 c = get_elem? c.m_payload 3

abbrev pub take : ℕ → List ℕ → Option (List ℕ)
take zero xs = some []
take (suc n) [] = none
take (suc n) (x ∷ xs) = take n xs >>= λ taken. some (x ∷ taken)

-- The bytes that a reader of the span gets; `none` if it reads outside the payload.
pub read : Span → List ℕ → Option (List ℕ)
read span payload = take span.size (drop span.offset payload)

-- ApduCommand::Data and ApduCommand::Payload.
pub data_of : ApduCommand → Option (List ℕ)
unfolding read
data_of c = read c.m_data_view c.m_payload

pub payload_of : ApduCommand → Option (List ℕ)
unfolding read
payload_of c = read c.m_payload_view c.m_payload

-- ApduCommand::FromVector and ApduResponse::FromVector: the logic_error "not implemented", for any kind
-- of result.
pub command_from_vector : List ℕ → Option ApduCommand
command_from_vector buffer = none

pub response_from_vector : {R : Type 0} → List ℕ → Option R
response_from_vector buffer = none
