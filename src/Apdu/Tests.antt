-- ===== src/Apdu/Tests.antt =====
-- A SELECT command with two bytes of data, and one without data.
use near_object_framework.Common.{◌≡◌, refl, [], ◌∷◌, ◌++◌, none, some}
use near_object_framework.Apdu.{
  ApduCommand, zeros, make_apdu_command, cla, ins, p1, p2, data_of, payload_of, read,
}
use near_object_framework.Apdu.Layout.{make_apdu_command_lem}

select : ApduCommand
unfolding make_apdu_command
select = make_apdu_command 0 164 4 0 (17 ∷ 34 ∷ [])

select_runs : select.m_payload ≡ 0 ∷ 164 ∷ 4 ∷ 0 ∷ 17 ∷ 34 ∷ 0 ∷ 0 ∷ []
unfolding select make_apdu_command
select_runs = refl

bare_runs : payload_of (make_apdu_command 0 164 4 0 []) ≡ none
unfolding payload_of read make_apdu_command
bare_runs = refl

make_apdu_command_lem_example :
    let c = make_apdu_command 0 164 4 0 (17 ∷ 34 ∷ []) in
    (cla c ≡ some 0)
    × (ins c ≡ some 164)
    × (p1 c ≡ some 4)
    × (p2 c ≡ some 0)
    × (data_of c ≡ some (17 ∷ 34 ∷ []))
    × (c.m_payload ≡ 0 ∷ 164 ∷ 4 ∷ 0 ∷ ((17 ∷ 34 ∷ []) ++ zeros 2))
    × (payload_of c ≡ none)
make_apdu_command_lem_example = make_apdu_command_lem 0 164 4 0 (17 ∷ 34 ∷ [])
