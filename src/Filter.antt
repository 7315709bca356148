-- ===== src/Filter.antt =====
-- `WalletFilter` (src/indexer/block_processor.rs): which addresses the indexer follows. The hash
-- sets are lists that are only asked for membership and emptiness.
use hayate.Prelude.{
  Bool, true, false, Option, none, some, List, [], ◌∷◌, ◌&&◌, ◌||◌, not, if◌then◌else◌,
}
use hayate.Prelude.Text.{Bytes, text_eq}
use hayate.Chain.{Address, shelley, byron, stake, ShelleyPaymentPart, ShelleyDelegationPart}
use hayate.Externals.{Externals}

-- `HashSet::contains` and `HashSet::insert`
unfoldable pub contains : List Bytes → Bytes → Bool
contains [] a = false
contains (x ∷ xs) a = text_eq x a || contains xs a

unfoldable pub insert_new : Bytes → List Bytes → List Bytes
insert_new a xs = if contains xs a then xs else a ∷ xs

abbrev pub is_empty {ℓ} : {A : Type ℓ} → List A → Bool
is_empty [] = true
is_empty (_ ∷ _) = false

pub record WalletFilter : Type 0 where
  pub tracked_payment_keys : List Bytes
  pub tracked_stake_keys : List Bytes
  pub tracked_addresses : List Bytes

abbrev pub new : WalletFilter
new = record { tracked_payment_keys = []; tracked_stake_keys = []; tracked_addresses = [] }

unfoldable pub add_payment_key_hash : Bytes → WalletFilter → WalletFilter
add_payment_key_hash key_hash f = record f {
  tracked_payment_keys = insert_new key_hash f.tracked_payment_keys;
}

unfoldable pub add_stake_credential : Bytes → WalletFilter → WalletFilter
add_stake_credential stake_cred f = record f {
  tracked_stake_keys = insert_new stake_cred f.tracked_stake_keys;
}

unfoldable pub add_address : Bytes → WalletFilter → WalletFilter
add_address address_bytes f = record f {
  tracked_addresses = insert_new address_bytes f.tracked_addresses;
}

unfoldable pub is_our_payment_key : Bytes → WalletFilter → Bool
is_our_payment_key key_hash f = contains f.tracked_payment_keys key_hash

unfoldable pub is_our_stake_key : Bytes → WalletFilter → Bool
is_our_stake_key stake_cred f = contains f.tracked_stake_keys stake_cred

-- The `match address.delegation()`.
delegation_accepted : ShelleyDelegationPart → WalletFilter → Bool
delegation_accepted ShelleyDelegationPart.null f = true
delegation_accepted (ShelleyDelegationPart.key stake_hash) f =
    is_empty f.tracked_stake_keys || is_our_stake_key stake_hash f
delegation_accepted (ShelleyDelegationPart.script _) f = true
delegation_accepted (ShelleyDelegationPart.pointer _) f = true

-- A parsed address, once no exact match was found and some key is tracked.
keys_accept : Option Address → WalletFilter → Bool
keys_accept none f = false
keys_accept (some byron) f = false
keys_accept (some stake) f = false
keys_accept (some (shelley (ShelleyPaymentPart.script _) _)) f = false
keys_accept (some (shelley (ShelleyPaymentPart.key payment_hash) delegation)) f =
    if not (is_our_payment_key payment_hash f) then false else delegation_accepted delegation f

module _ ⦃X : Externals⦄ where
  open X use {parse_address}

  unfoldable pub is_our_address : Bytes → WalletFilter → Bool
  unfolding keys_accept delegation_accepted
  is_our_address address_bytes f =
      if contains f.tracked_addresses address_bytes
      then true
      else if is_empty f.tracked_payment_keys && is_empty f.tracked_stake_keys
      then true
      else keys_accept (parse_address address_bytes) f
