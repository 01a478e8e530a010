-- ===== src/Smartcard/Transmission.antt =====
-- The futures of asynchronous transmissions: which response reaches which of them, and what is left when
-- the card is destroyed.
use near_object_framework.Common.{
  ℕ, zero, suc, ◌≡◌, refl, Bool, true, false, List, [], ◌∷◌, ◌++◌, Option, none, some, length, map,
  ap, ◌∙◌, sym, append_assoc, append-nil, ◌>>=◌,
}
use near_object_framework.Apdu.{ApduCommand}
use near_object_framework.Smartcard.{
  Smartcard, Future, waiting, broken, ready, Call, transmits, completes, set_value, abandon, change,
  transmit_async_impl, complete_pending_transmission, create, destroy, serve, Variant,
  transmit_async,
}

module _ {R : Type 0} where
  -- The responses that count, by the calls alone: a response that comes while no transmission is under
  -- way is dropped, and so is a transmission that is asked for while one is.
  pub answers : Bool → List (Call R) → List R
  answers busy [] = []
  answers busy (transmits command timeout ∷ calls) = answers true calls
  answers true (completes r ∷ calls) = r ∷ answers false calls
  answers false (completes r ∷ calls) = answers false calls

  -- Whether a transmission is under way after the calls.
  pub under_way : Bool → List (Call R) → Bool
  under_way busy [] = busy
  under_way busy (transmits command timeout ∷ calls) = under_way true calls
  under_way busy (completes r ∷ calls) = under_way false calls

  -- The shared state of the transmission that is under way.
  abbrev pub last : Bool → Future R → List (Future R)
  last true f = f ∷ []
  last false f = []

  -- The card whose answered futures have these responses.
  pub card : List R → Bool → Smartcard R
  card rs true = record {
    m_pending_tx_response_promise = some (length rs);
    futures = map ready rs ++ waiting ∷ [];
  }
  card rs false = record { m_pending_tx_response_promise = none; futures = map ready rs }

  length-ready : (rs : List R) → length (map (λ r. ready r) rs) ≡ length rs
  length-ready [] = refl
  length-ready (r ∷ rs) = ap suc (length-ready rs)

  -- A change of the last shared state.
  change_last :
      (f : Future R → Option (Future R)) (y : Future R) (rs : List R)
      → f waiting ≡ some y
      → change f (length rs) (map ready rs ++ waiting ∷ []) ≡ some (map ready rs ++ y ∷ [])
  change_last f y [] e = rw e
  change_last f y (r ∷ rs) e = rw (change_last f y rs e)

  snoc_ready :
      (rs : List R) (r : R) → map (λ x. ready x) rs ++ ready r ∷ [] ≡ map ready (rs ++ r ∷ [])
  snoc_ready [] r = refl
  snoc_ready (x ∷ rs) r = ap (λ fs. ready x ∷ fs) (snoc_ready rs r)

  -- The calls from a card in that form.
  serve-card :
      (calls : List (Call R)) (rs : List R) (busy : Bool)
      → serve calls (card rs busy) ≡ some (card (rs ++ answers busy calls) (under_way busy calls))
  unfolding serve card answers under_way transmit_async_impl complete_pending_transmission
  serve-card [] rs busy = ap (λ xs. some (card xs busy)) (sym (append-nil rs))
  serve-card (transmits c t ∷ calls) rs true = serve-card calls rs true
  serve-card (transmits c t ∷ calls) rs false = rw (length-ready rs) (serve-card calls rs true)
  serve-card (completes r ∷ calls) rs true = rw (change_last (set_value r) (ready r) rs refl) (
      rw (snoc_ready rs r) (
        serve-card calls (rs ++ r ∷ []) false
        ∙ ap (λ xs. some (card xs (under_way false calls)))
            (append_assoc rs (r ∷ []) (answers false calls))))
  serve-card (completes r ∷ calls) rs false = serve-card calls rs false

  -- Any calls of TransmitAsyncImpl and CompletePendingTransmission on a new card: none of them throws,
  -- and the futures that were handed out have, in the order of the transmissions, the responses of the
  -- completions that found a transmission under way; at most the last one is still waiting, and it is
  -- the future of the pending promise. Both functions are private, and TransmitAsync, which is to call
  -- the former, does not.
  pub responses_in_order :
      (calls : List (Call R))
      → serve calls create ≡ some (card (answers false calls) (under_way false calls))
  unfolding card
  responses_in_order calls = serve-card calls [] false

  destroy-card :
      (rs : List R) (busy : Bool) → destroy (card rs busy) ≡ some (map ready rs ++ last busy broken)
  unfolding destroy card
  destroy-card rs true = change_last (λ f. some (abandon f)) broken rs refl
  destroy-card rs false = ap some (sym (append-nil (map ready rs)))

  -- Any calls on a new card, and then its destruction: no future is left waiting. Each has its response,
  -- and the one whose transmission was still under way has a broken promise.
  pub none_left_waiting :
      (calls : List (Call R))
      → (serve calls create >>= destroy)
        ≡ some (map ready (answers false calls) ++ last (under_way false calls) broken)
  none_left_waiting calls =
      ap (λ s. s >>= destroy) (responses_in_order calls)
      ∙ destroy-card (answers false calls) (under_way false calls)

-- TransmitAsync does not return, whatever the variant: no amount of fuel lets it reach a result.
pub transmit_async_never_returns {ℓ κ} :
    {R : Type ℓ} {S : Type κ} (fuel : ℕ) (v : Variant R S) (c : ApduCommand) (timeout : ℕ) (s : S)
    → transmit_async fuel v c timeout s ≡ none
unfolding transmit_async
transmit_async_never_returns zero v c timeout s = refl
transmit_async_never_returns (suc fuel) v c timeout s =
    transmit_async_never_returns fuel v c timeout s
