-- ===== src/Rewards.antt =====
-- Withdrawals, delegations and reward balances of stake keys (src/rewards.rs, RewardsTracker). The
-- records are stored by `bincode`, a parameter. Sums wrap around at 64 bits, as release builds do.
pub mod Snapshots
pub mod Withdrawals
pub mod Delegations
use hayate.Prelude.{
  ℕ, ◌+◌, ◌-◌, ◌%◌, ◌≡◌, Option, none, some, List, [], ◌∷◌, ◌++◌, and_then, ltb, ◌==◌,
  if◌then◌else◌,
}
use hayate.Prelude.Text.{Bytes, Text, codes}
use hayate.Prelude.Utf8.{from_utf8}
use hayate.Prelude.Decimal.{show, parse_u64, u64_limit}
use hayate.Result.{Result, ok, err, ⊤, Exec, pure, lift, map_ok, within, ◌>>=◌, ◌>>◌}
use hayate.Externals.{Externals}
use hayate.Storage.State.{RewardsTracker}
use hayate.Storage.Snapshots.{reward_snapshots, withdrawals, delegations}
use hayate.Storage.Tips.{match_option}

pub record RewardSnapshot : Type 0 where
  pub epoch : ℕ
  pub balance : ℕ
  pub pool_id : Option Bytes

pub record Withdrawal : Type 0 where
  pub epoch : ℕ
  pub slot : ℕ
  pub amount : ℕ
  pub tx_hash : Bytes

-- `bincode::serialize` and `bincode::deserialize` of both records
pub record Bincode : Type 0 where
  pub serialize_withdrawal : Withdrawal → Result Bytes
  pub deserialize_withdrawal : Bytes → Result Withdrawal
  pub serialize_snapshot : RewardSnapshot → Result Bytes
  pub deserialize_snapshot : Bytes → Result RewardSnapshot

-- What is written is read back.
pub record Decodes (B : Bincode) : Type 0 where
  pub written_withdrawal : Withdrawal → Bytes
  pub serialize_withdrawal_lem :
      (w : Withdrawal) → B.serialize_withdrawal w ≡ ok (written_withdrawal w)
  pub deserialize_withdrawal-written :
      (w : Withdrawal) → B.deserialize_withdrawal (written_withdrawal w) ≡ ok w
  pub written_snapshot : RewardSnapshot → Bytes
  pub serialize_snapshot_lem :
      (s : RewardSnapshot) → B.serialize_snapshot s ≡ ok (written_snapshot s)
  pub deserialize_snapshot-written :
      (s : RewardSnapshot) → B.deserialize_snapshot (written_snapshot s) ≡ ok s

-- One more byte in front of the fields.
add_byte : ℕ → List Bytes → List Bytes
add_byte c [] = []
add_byte c (f ∷ fs) = if c == b':' then [] ∷ f ∷ fs else (c ∷ f) ∷ fs

-- The fields of a byte string between colons: `split(|&b| b == b':')`.
unfoldable pub split_colons : Bytes → List Bytes
unfolding add_byte
split_colons [] = [] ∷ []
split_colons (c ∷ s) = add_byte c (split_colons s)

-- `Iterator::nth(2)`
abbrev pub third : List Bytes → Option Bytes
third (a ∷ b ∷ c ∷ _) = some c
third _ = none

-- The slot in a key `delegation:stake_key:slot`.
unfoldable pub slot_in_key : Bytes → Option ℕ
unfolding split_colons
slot_in_key key = and_then (and_then (third (split_colons key)) from_utf8) parse_u64

-- One more entry, against the latest so far.
abbrev pub later : Option ℕ → Bytes → Option (ℕ × Bytes) → Option (ℕ × Bytes)
later none pool_id latest = latest
later (some slot) pool_id none = some (slot, pool_id)
later (some slot) pool_id (some (s, p)) = if ltb s slot then some (slot, pool_id) else some (s, p)

-- The loop of `get_current_delegation`.
latest_delegation : Option (ℕ × Bytes) → List (Bytes × Bytes) → Option (ℕ × Bytes)
latest_delegation latest [] = latest
latest_delegation latest ((key, value) ∷ rest) =
    latest_delegation (later (slot_in_key key) value latest) rest

module _ ⦃B : Bincode⦄ where
  open B use {deserialize_withdrawal}

  add_amount : Result Withdrawal → (ℕ → Result ℕ) → ℕ → Result ℕ
  add_amount (ok w) rest total = rest ((total + w.amount) % u64_limit)
  add_amount (err e) rest total = err e

  -- The loop over the entries of a scan.
  unfoldable pub sum_amounts : List (Bytes × Bytes) → ℕ → Result ℕ
  unfolding add_amount
  sum_amounts [] total = ok total
  sum_amounts ((key, value) ∷ rest) total =
      add_amount (deserialize_withdrawal value) (sum_amounts rest) total

module _ ⦃X : Externals⦄ ⦃B : Bincode⦄ where
  open X use {get, insert, scan_prefix, hex_encode}
  open B use {serialize_withdrawal, serialize_snapshot, deserialize_snapshot}

  -- `format!("withdrawal:{}:{}", hex, epoch)`
  abbrev pub epoch_prefix : Bytes → ℕ → Text
  epoch_prefix stake_key epoch =
      codes "withdrawal:" ++ (hex_encode stake_key ++ (codes ":" ++ show epoch))

  abbrev pub withdrawal_key : Bytes → ℕ → ℕ → Text
  withdrawal_key stake_key epoch slot =
      codes "withdrawal:"
      ++ (hex_encode stake_key ++ (codes ":" ++ (show epoch ++ (codes ":" ++ show slot))))

  abbrev pub delegation_key : Bytes → ℕ → Text
  delegation_key stake_key slot =
      codes "delegation:" ++ (hex_encode stake_key ++ (codes ":" ++ show slot))

  abbrev pub snapshot_key : Bytes → ℕ → Text
  snapshot_key stake_key epoch =
      codes "snapshot:" ++ (hex_encode stake_key ++ (codes ":" ++ show epoch))

  unfoldable pub record_withdrawal : Bytes → ℕ → ℕ → ℕ → Bytes → Exec RewardsTracker ⊤
  record_withdrawal stake_key epoch slot amount tx_hash = do
    v ← lift (
        serialize_withdrawal
          (record { epoch = epoch; slot = slot; amount = amount; tx_hash = tx_hash }))
    within withdrawals (λ t. insert t (withdrawal_key stake_key epoch slot) v)

  unfoldable pub record_delegation : Bytes → Bytes → ℕ → Exec RewardsTracker ⊤
  record_delegation stake_key pool_id slot =
      within delegations (λ t. insert t (delegation_key stake_key slot) pool_id)

  unfoldable pub snapshot_rewards : Bytes → ℕ → ℕ → Option Bytes → Exec RewardsTracker ⊤
  snapshot_rewards stake_key epoch balance pool_id = do
    v ← lift (serialize_snapshot (record { epoch = epoch; balance = balance; pool_id = pool_id }))
    within reward_snapshots (λ t. insert t (snapshot_key stake_key epoch) v)

  abbrev pub decode_snapshot : Option Bytes → Result (Option RewardSnapshot)
  decode_snapshot none = ok none
  decode_snapshot (some v) = map_ok (λ s. some s) (deserialize_snapshot v)

  unfoldable pub get_snapshot : Bytes → ℕ → Exec RewardsTracker (Option RewardSnapshot)
  get_snapshot stake_key epoch r =
      if ltb epoch r.indexing_start_epoch
      then (ok none, r)
      else (do
        found ← λ r. (get r.snapshots (snapshot_key stake_key epoch), r)
        lift (decode_snapshot found))
          r

  unfoldable pub get_epoch_withdrawals : Bytes → ℕ → Exec RewardsTracker ℕ
  get_epoch_withdrawals stake_key epoch r =
      (sum_amounts (scan_prefix r.withdrawals (epoch_prefix stake_key epoch)) 0, r)

  unfoldable pub get_lifetime_rewards : Bytes → ℕ → Exec RewardsTracker ℕ
  get_lifetime_rewards stake_key current_balance r = (
    map_ok (λ total. (current_balance + total) % u64_limit)
        (sum_amounts (scan_prefix r.withdrawals (codes "withdrawal:" ++ hex_encode stake_key)) 0),
    r,
  )

  unfoldable pub calculate_epoch_reward : Bytes → ℕ → Exec RewardsTracker (Option ℕ)
  calculate_epoch_reward stake_key epoch = do
    current ← get_snapshot stake_key epoch
    match_option current (pure none) λ snapshot_current. do
      prev ← get_snapshot stake_key (epoch - 1)
      match_option prev (pure (some snapshot_current.balance)) λ snapshot_prev. do
        withdrawn ← get_epoch_withdrawals stake_key epoch
        pure (some ((snapshot_current.balance + withdrawn) % u64_limit - snapshot_prev.balance))

  abbrev pub pool_of : Option (ℕ × Bytes) → Option Bytes
  pool_of none = none
  pool_of (some (_, pool_id)) = some pool_id

  unfoldable pub get_current_delegation : Bytes → Exec RewardsTracker (Option Bytes)
  unfolding latest_delegation
  get_current_delegation stake_key r = (
    ok (
        pool_of (
          latest_delegation none
            (scan_prefix r.delegations (codes "delegation:" ++ hex_encode stake_key)))),
    r,
  )
