-- ===== src/Smartcard/Tests.antt =====
-- A card run on concrete calls.
use near_object_framework.Common.{ℕ, ◌≡◌, refl, false, [], ◌∷◌, none, some, List}
use near_object_framework.Apdu.{ApduCommand, make_apdu_command}
use near_object_framework.Smartcard.{
  Call, transmits, completes, create, serve, ready, waiting, windows_smartcard, transmit,
  transmit_impl,
}
use near_object_framework.Smartcard.Transmission.{responses_in_order, card, answers, under_way}

abbrev select : ApduCommand
select = make_apdu_command 0 164 4 0 (160 ∷ 0 ∷ [])

-- A completion with nothing pending, two transmissions of which the second is refused, a completion, and
-- a transmission that is still under way.
abbrev calls : List (Call ℕ)
calls =
    completes 1
    ∷ transmits select 100
    ∷ transmits select 100
    ∷ completes 2
    ∷ completes 3
    ∷ transmits select 100
    ∷ []

calls_served :
    serve calls create
    ≡ some (record { m_pending_tx_response_promise = some 1; futures = ready 2 ∷ waiting ∷ [] })
unfolding serve
calls_served = refl

responses_in_order_example :
    serve calls create ≡ some (card (answers false calls) (under_way false calls))
responses_in_order_example = responses_in_order calls

not_implemented : transmit windows_smartcard select 7 100 (create {R = ℕ}) ≡ none
unfolding transmit windows_smartcard transmit_impl
not_implemented = refl
