-- ===== src/Apdu/Layout.antt =====
-- Where the bytes of a command are, and what its views show.
use near_object_framework.Common.{
  ℕ, zero, suc, ◌+◌, ◌<◌, ◌≡◌, refl, ap, List, [], ◌∷◌, ◌++◌, none, some, length, arith,
}
use near_object_framework.Apdu.{
  ApduCommand, zeros, make_apdu_command, cla, ins, p1, p2, take, read, data_of, payload_of,
}

take-append : (xs ys : List ℕ) → take (length xs) (xs ++ ys) ≡ some xs
take-append [] ys = refl
take-append (x ∷ xs) ys = rw (take-append xs ys)

take_past : (n : ℕ) (xs : List ℕ) → length xs < n → take n xs ≡ none
take_past zero xs h = absurd (omega arith)
take_past (suc n) [] h = refl
take_past (suc n) (x ∷ xs) h = rw (take_past n xs (omega arith))

length-zeros : (n : ℕ) → length (zeros n) ≡ n
length-zeros zero = refl
length-zeros (suc n) = omega (arith, length-zeros n)

four_more : (n : ℕ) → zeros (4 + n) ≡ 0 ∷ 0 ∷ 0 ∷ 0 ∷ zeros n
four_more n = ap zeros four
  where
    four : 4 + n ≡ suc (suc (suc (suc n)))
    four = omega arith

-- A command with this payload.
abbrev command : List ℕ → List ℕ → ApduCommand
command bytes payload = record {
  m_data_view = record { offset = 4; size = length bytes };
  m_payload_view = record { offset = 1; size = length payload };
  m_payload = payload;
}

made :
    (class instruction first second : ℕ) (bytes : List ℕ)
    → make_apdu_command class instruction first second bytes
      ≡ command bytes (class ∷ instruction ∷ first ∷ second ∷ (bytes ++ zeros (length bytes)))
unfolding make_apdu_command
made class instruction first second bytes = rw (four_more (length bytes))

-- For any header and data, a command has the four bytes of its header and Data shows the data that
-- it was made of; but behind the data the payload has as many zero bytes again, and a reader of all
-- that Payload shows reads outside the payload.
pub make_apdu_command_lem :
    (class instruction first second : ℕ) (bytes : List ℕ)
    → let c = make_apdu_command class instruction first second bytes in
      (cla c ≡ some class)
      × (ins c ≡ some instruction)
      × (p1 c ≡ some first)
      × (p2 c ≡ some second)
      × (data_of c ≡ some bytes)
      × (c.m_payload ≡ class ∷ instruction ∷ first ∷ second ∷ (bytes ++ zeros (length bytes)))
      × (payload_of c ≡ none)
unfolding cla ins p1 p2 data_of payload_of read
make_apdu_command_lem class instruction first second bytes =
    let rest = bytes ++ zeros (length bytes) in
    let outside =
      take_past (length (class ∷ instruction ∷ first ∷ second ∷ rest))
        (instruction ∷ first ∷ second ∷ rest) (omega arith) in
    rw (made class instruction first second bytes)
      (refl, refl, refl, refl, take-append bytes (zeros (length bytes)), refl, outside)
