-- ===== src/Smartcard.antt =====
-- lib/smartcard: Smartcard.{hxx,cxx}, the base class, and windows/devices/smartcard: Smartcard.{hxx,cxx},
-- its Windows variant. A std::promise and its std::future share a state, which is known by its number in
-- the order in which the futures were handed out. `none` is an exception.
mod Transmission
mod Tests
use near_object_framework.Common.{
  ℕ, zero, suc, ◌+◌, Bool, true, false, List, [], ◌∷◌, ◌++◌, Option, none, some, length, map,
  if◌then◌else◌, has_value, ◌>>=◌,
}
use near_object_framework.Apdu.{ApduCommand}

-- The shared state of a promise and its future: no value yet, a response, or the promise was destroyed
-- before it had one.
pub data Future {ℓ} (R : Type ℓ) : Type ℓ where
  waiting broken : Future R
  ready : R → Future R

-- Smartcard::TransmitAsyncRequest.
pub record TransmitAsyncRequest : Type 0 where
  pub submitted : Bool
  pub response : Option ℕ

-- The Windows Smartcard: the pending promise, and the shared states of the futures handed out so far.
pub record Smartcard {ℓ} (R : Type ℓ) : Type ℓ where
  pub m_pending_tx_response_promise : Option ℕ
  pub futures : List (Future R)

-- The calls of the two private functions that deal with the pending promise. In the code so far nothing
-- calls them: TransmitAsync, which is to call TransmitAsyncImpl, calls itself.
pub data Call {ℓ} (R : Type ℓ) : Type ℓ where
  transmits : ApduCommand → ℕ → Call R
  completes : R → Call R

module _ {ℓ} {R : Type ℓ} where
  -- std::promise::set_value, which throws when the shared state is satisfied already.
  abbrev pub set_value : R → Future R → Option (Future R)
  set_value r waiting = some (ready r)
  set_value r broken = none
  set_value r (ready old) = none

  -- What becomes of the shared state when its promise is destroyed.
  abbrev pub abandon : Future R → Future R
  abandon waiting = broken
  abandon broken = broken
  abandon (ready r) = ready r

  -- A change to the shared state with the given number, which may throw.
  abbrev pub change :
      (Future R → Option (Future R)) → ℕ → List (Future R) → Option (List (Future R))
  change f i [] = none
  change f zero (x ∷ xs) = f x >>= λ y. some (y ∷ xs)
  change f (suc i) (x ∷ xs) = change f i xs >>= λ ys. some (x ∷ ys)

  -- Smartcard::TransmitAsyncImpl, with the card's members afterwards.
  pub transmit_async_impl : ApduCommand → ℕ → Smartcard R → TransmitAsyncRequest × Smartcard R
  transmit_async_impl command timeout s =
      if has_value s.m_pending_tx_response_promise
      then (record { submitted = false; response = none }, s)
      else (
        record { submitted = true; response = some (length s.futures) },
        record {
          m_pending_tx_response_promise = some (length s.futures);
          futures = s.futures ++ waiting ∷ [];
        },
      )

  -- Smartcard::CompletePendingTransmission.
  pub complete_pending_transmission : R → Smartcard R → Option (Smartcard R)
  complete_pending_transmission response s = elim s.m_pending_tx_response_promise [
    | none ↦ some s
    | some i ↦ change (set_value response) i s.futures >>= λ futures.
        some (record { m_pending_tx_response_promise = none; futures = futures })
  ]

  -- Smartcard::TransmitImpl on Windows: the logic_error "not implemented".
  pub transmit_impl : ApduCommand → R → ℕ → Smartcard R → Option (R × Smartcard R)
  transmit_impl command response timeout s = none

  -- A new card.
  abbrev pub create : Smartcard R
  create = record { m_pending_tx_response_promise = none; futures = [] }

  -- The card's implicit destructor: the promise that is still there is destroyed.
  pub destroy : Smartcard R → Option (List (Future R))
  destroy s = elim s.m_pending_tx_response_promise [
    | none ↦ some s.futures
    | some i ↦ change (λ f. some (abandon f)) i s.futures
  ]

  -- The calls, one after another as the mutex orders them.
  unfoldable pub serve : List (Call R) → Smartcard R → Option (Smartcard R)
  unfolding transmit_async_impl complete_pending_transmission
  serve [] s = some s
  serve (transmits command timeout ∷ calls) s =
      let (request, u) = transmit_async_impl command timeout s in serve calls u
  serve (completes r ∷ calls) s = complete_pending_transmission r s >>= serve calls

-- The virtual functions of smartcard::Smartcard over a variant's members.
pub record Variant {ℓ κ} (R : Type ℓ) (S : Type κ) : Type (ℓ ⊔ κ) where
  pub transmit_virtual : ApduCommand → R → ℕ → S → Option (R × S)
  pub transmit_async_virtual : ApduCommand → ℕ → S → TransmitAsyncRequest × S

module _ {ℓ κ} {R : Type ℓ} {S : Type κ} where
  -- smartcard::Smartcard::Transmit.
  pub transmit : Variant R S → ApduCommand → R → ℕ → S → Option (R × S)
  transmit v command response timeout s = v.transmit_virtual command response timeout s

  -- smartcard::Smartcard::TransmitAsync, which calls itself: `none` when the fuel is spent.
  pub transmit_async : ℕ → Variant R S → ApduCommand → ℕ → S → Option (TransmitAsyncRequest × S)
  transmit_async zero v command timeout s = none
  transmit_async (suc fuel) v command timeout s = transmit_async fuel v command timeout s

-- The Windows variant.
pub windows_smartcard {ℓ} : {R : Type ℓ} → Variant R (Smartcard R)
windows_smartcard = record {
  transmit_virtual = transmit_impl;
  transmit_async_virtual = transmit_async_impl;
}

-- The bodies of TransmitImpl and TransmitAsyncImpl in the base class.
pub base_transmit_impl {ℓ} : {R : Type ℓ} → ApduCommand → R → ℕ → Option R
base_transmit_impl command response timeout = some response

pub base_transmit_async_impl : ApduCommand → ℕ → TransmitAsyncRequest
base_transmit_async_impl command timeout = record { submitted = false; response = none }
