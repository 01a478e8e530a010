-- ===== src/Tlv/Tests.antt =====
-- Runs of the SIMPLE-TLV parser, and its theorems at concrete buffers.
use near_object_framework.Common.{ℕ, ◌≡◌, refl, ◌↔◌, ◌⊎◌, List, [], ◌∷◌, none, some, arith}
use near_object_framework.Common.Bytes.{AreBytes}
use near_object_framework.Tlv.{TlvSimple, succeeded, failed, make_tlv_simple, parse, refused}
use near_object_framework.Tlv.Parse.{made, Encodes, parse_succeeds_iff, parse_returns}

abbrev short_buffer : List ℕ
short_buffer = 0x5f ∷ 2 ∷ 7 ∷ 8 ∷ []

short_runs : parse (some none) short_buffer ≡ made 0x5f (7 ∷ 8 ∷ [])
unfolding parse make_tlv_simple
short_runs = refl

long_runs : parse (some none) (0x5f ∷ 0xff ∷ 0 ∷ 1 ∷ 9 ∷ []) ≡ made 0x5f (9 ∷ [])
unfolding parse make_tlv_simple
long_runs = refl

truncated_runs : parse (some none) (0x5f ∷ 0xff ∷ 0 ∷ []) ≡ refused
unfolding parse
truncated_runs = refl

parse_succeeds_iff_example :
    (parse (some none) short_buffer ≡ made 0x5f (7 ∷ 8 ∷ []))
    ↔ Encodes 0x5f (7 ∷ 8 ∷ []) short_buffer
parse_succeeds_iff_example = parse_succeeds_iff none short_buffer 0x5f (7 ∷ 8 ∷ []) (omega arith)

-- A length byte that promises more than there is.
abbrev cut_short : List ℕ
cut_short = 0x5f ∷ 9 ∷ 7 ∷ []

cut_short-AreBytes : AreBytes cut_short
cut_short-AreBytes = ground arith

parse_returns_example :
    (parse none cut_short ≡ some (failed, none))
    × ((parse (some none) cut_short ≡ some (failed, some none))
        ⊎ ((t : TlvSimple) × (parse (some none) cut_short ≡ some (succeeded, some (some t)))))
parse_returns_example = parse_returns none cut_short cut_short-AreBytes
