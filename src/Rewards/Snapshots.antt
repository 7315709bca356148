-- ===== src/Rewards/Snapshots.antt =====
-- Reward balances by epoch: what is recorded is read back, and the reward of an epoch.
use hayate.Prelude.{
  ℕ, suc, ◌+◌, ◌-◌, ◌%◌, ◌≤◌, ◌≡◌, ◌≢◌, ap, sym, ◌∙◌, Bool, true, false, ◌&&◌, Option, none, some,
  ltb, ◌==◌, if◌then◌else◌, Bool-cases, inl, inr, arith, All-imp,
}
use hayate.Prelude.Text.{Bytes, text_eq, text_eq_refl, text_eq_sound}
use hayate.Prelude.Decimal.{show, u64_limit}
use hayate.Prelude.Decimal.Laws.{show-injective}
use hayate.Result.{ok, Returns}
use hayate.Externals.{Externals, Reliable, IsHexDigit}
use hayate.Storage.State.{RewardsTracker}
use hayate.Processor.Ledger.{HasNoColon}
use hayate.Processor.Ledger.Preserved.{entry_key_injective}
use hayate.Rewards.{
  RewardSnapshot, Bincode, Decodes, snapshot_key, snapshot_rewards, get_snapshot,
  get_epoch_withdrawals, calculate_epoch_reward,
}

hex_digit_no_colon : (c : ℕ) → IsHexDigit c → c ≢ b':'
hex_digit_no_colon c (inl (lo, hi)) = λ e. absurd (omega (arith, e))
hex_digit_no_colon c (inr (lo, hi)) = λ e. absurd (omega (arith, e))

module _ ⦃X : Externals⦄ (R : Reliable X) where
  pub hex_encode-injective : (a b : Bytes) → X.hex_encode a ≡ X.hex_encode b → a ≡ b
  hex_encode-injective a b e =
      let same : some a ≡ some b =
        sym (R.hex_decode-encode a) ∙ ap X.hex_decode e ∙ R.hex_decode-encode b in
      cc

  pub hex_encode-HasNoColon : (a : Bytes) → HasNoColon (X.hex_encode a)
  hex_encode-HasNoColon a =
      All-imp IsHexDigit _ (X.hex_encode a) hex_digit_no_colon (R.All-hex_encode a)

both_left : (p q : Bool) → (p && q) ≡ true → p ≡ true
both_left p q h = ground arith

both_right : (p q : Bool) → (p && q) ≡ true → q ≡ true
both_right p q h = ground arith

module _ ⦃X : Externals⦄ ⦃B : Bincode⦄ (R : Reliable X) (D : Decodes B) where
  snapshot_key-injective :
      (a b : Bytes) (m n : ℕ) → snapshot_key a m ≡ snapshot_key b n → (a ≡ b) × (m ≡ n)
  snapshot_key-injective a b m n e =
      let (h, s) =
        entry_key_injective (X.hex_encode a) (X.hex_encode b) (show m) (show n)
          (hex_encode-HasNoColon R a) (hex_encode-HasNoColon R b) (cc) in
      (hex_encode-injective R a b h, show-injective m n s)

  keys_differ :
      (a b : Bytes) (m n : ℕ)
      → a ≡ b
      → m ≡ n
      → text_eq (snapshot_key a m) (snapshot_key b n) ≡ false
      → ⊥
  keys_differ a b m n e f h =
      let same : text_eq (snapshot_key a m) (snapshot_key b n) ≡ true =
        rw (e, f) (text_eq_refl (snapshot_key b n)) in
      cc

  text_eq-snapshot_key :
      (a b : Bytes) (m n : ℕ)
      → text_eq (snapshot_key a m) (snapshot_key b n) ≡ (text_eq a b && m == n)
  text_eq-snapshot_key a b m n = elim (Bool-cases (text_eq (snapshot_key a m) (snapshot_key b n))) [
    | inl same ↦
        (let (e, f) = snapshot_key-injective a b m n (text_eq_sound _ _ same) in
          let left : text_eq a b ≡ true = rw e (text_eq_refl b) in
          let right : (m == n) ≡ true = ground arith in rw (same, left, right))
    | inr differ ↦ elim (Bool-cases (text_eq a b && m == n)) [
      | inl both ↦
          (let e : a ≡ b = text_eq_sound a b (both_left _ _ both) in
            let f : m ≡ n = ground (arith, both_right (text_eq a b) (m == n) both) in
            absurd (keys_differ a b m n e f differ))
      | inr no_both ↦ rw (differ, no_both)
    ]
  ]

  -- A balance is recorded with success, and read back for its stake key and its epoch, unless that is
  -- before the first epoch that is indexed; every other balance is read as before.
  pub get_snapshot-snapshot_rewards :
      (stake_key j : Bytes) (epoch e balance : ℕ) (pool_id : Option Bytes) (r : RewardsTracker)
      → let (done, r') = snapshot_rewards stake_key epoch balance pool_id r in
        (done ≡ ok tt)
        × ((get_snapshot j e r').0 ≡ (
            if text_eq stake_key j && epoch == e
            then (if ltb e r.indexing_start_epoch
                then ok none
                else ok (some (record { epoch = epoch; balance = balance; pool_id = pool_id })))
            else (get_snapshot j e r).0))
  unfolding snapshot_rewards get_snapshot
  get_snapshot-snapshot_rewards stake_key j epoch e balance pool_id r =
      let snap : RewardSnapshot = record { epoch = epoch; balance = balance; pool_id = pool_id } in
      let key_test = text_eq-snapshot_key stake_key j epoch e in
      (
        rw (D.serialize_snapshot_lem snap, R.insert_succeeds),
        elim (Bool-cases (ltb e r.indexing_start_epoch)) [
          | inl early ↦ elim (Bool-cases (text_eq stake_key j && epoch == e)) [
            | inl both ↦ rw (D.serialize_snapshot_lem snap, both, early)
            | inr no_both ↦ rw (D.serialize_snapshot_lem snap, no_both, early)
          ]
          | inr late ↦ elim (Bool-cases (text_eq stake_key j && epoch == e)) [
            | inl both ↦ rw (
              D.serialize_snapshot_lem snap,
              late,
              R.get_lem,
              R.find-insert,
              key_test,
              both,
              D.deserialize_snapshot-written,
            )
            | inr no_both ↦ rw (
              D.serialize_snapshot_lem snap,
              late,
              R.get_lem,
              R.find-insert,
              key_test,
              no_both,
              R.get_lem,
            )
          ]
        ],
      )

  get_snapshot-Returns :
      (k : Bytes) (e : ℕ) (o : Option RewardSnapshot) (r : RewardsTracker)
      → (get_snapshot k e r).0 ≡ ok o
      → Returns (get_snapshot k e) r o r
  unfolding get_snapshot
  get_snapshot-Returns k e o r h = elim (Bool-cases (ltb e r.indexing_start_epoch)) [
    | inl early ↦ (let h' = rw early at h in rw early (ap (λ x. (x, r)) h'))
    | inr late ↦ (let h' = rw (late, R.get_lem) at h in rw (late, R.get_lem) (ap (λ x. (x, r)) h'))
  ]

  get_epoch_withdrawals-Returns :
      (k : Bytes) (e n : ℕ) (r : RewardsTracker)
      → (get_epoch_withdrawals k e r).0 ≡ ok n
      → Returns (get_epoch_withdrawals k e) r n r
  unfolding get_epoch_withdrawals
  get_epoch_withdrawals-Returns k e n r h = ap (λ x. (x, r)) h

  calculate_epoch_reward-known :
      (k : Bytes) (e withdrawn : ℕ) (now prev : RewardSnapshot) (r : RewardsTracker)
      → Returns (get_snapshot k (suc e)) r (some now) r
      → Returns (get_snapshot k e) r (some prev) r
      → Returns (get_epoch_withdrawals k (suc e)) r withdrawn r
      → (calculate_epoch_reward k (suc e) r).0
        ≡ ok (some ((now.balance + withdrawn) % u64_limit - prev.balance))
  unfolding calculate_epoch_reward
  calculate_epoch_reward-known k e withdrawn now prev r h g w =
      let below : suc e - 1 ≡ e = omega arith in rw (h, below, g, w)

  module _ (k : Bytes) (e balance : ℕ) (p : Option Bytes) (r : RewardsTracker) where
    abbrev added : RewardsTracker
    added = (snapshot_rewards k e balance p r).1

    start_kept : added.indexing_start_epoch ≡ r.indexing_start_epoch
    unfolding snapshot_rewards
    start_kept =
        rw (D.serialize_snapshot_lem (record { epoch = e; balance = balance; pool_id = p }))

    sum_kept :
        (j : Bytes) (n : ℕ) → (get_epoch_withdrawals j n added).0 ≡ (get_epoch_withdrawals j n r).0
    unfolding snapshot_rewards get_epoch_withdrawals
    sum_kept j n =
        rw (D.serialize_snapshot_lem (record { epoch = e; balance = balance; pool_id = p }))

    get_snapshot-same :
        r.indexing_start_epoch ≤ e
        → (get_snapshot k e added).0
          ≡ ok (some (record { epoch = e; balance = balance; pool_id = p }))
    get_snapshot-same h =
        let itself : (e == e) ≡ true = ground arith in
        let late : ltb e r.indexing_start_epoch ≡ false = ground arith in
        (get_snapshot-snapshot_rewards k k e e balance p r).1 ∙ rw (text_eq_refl k, itself, late)

    get_snapshot-other :
        (n : ℕ) → (e == n) ≡ false → (get_snapshot k n added).0 ≡ (get_snapshot k n r).0
    get_snapshot-other n h =
        (get_snapshot-snapshot_rewards k k e n balance p r).1 ∙ rw (text_eq_refl k, h)

  -- The balances of an epoch and of the next one are recorded, the first not before the first epoch
  -- that is indexed, and get_epoch_withdrawals succeeds for the later epoch. The reward of the later
  -- epoch is then its balance and the sum that get_epoch_withdrawals returns for it, modulo 2 ^ 64,
  -- less the earlier balance, and 0 where that is more.
  pub calculate_epoch_reward-snapshot_rewards :
      (stake_key : Bytes) (epoch before after withdrawn : ℕ) (p q : Option Bytes)
      (r : RewardsTracker)
      → r.indexing_start_epoch ≤ epoch
      → (get_epoch_withdrawals stake_key (suc epoch) r).0 ≡ ok withdrawn
      → let r' = (snapshot_rewards stake_key epoch before p r).1 in
        let r'' = (snapshot_rewards stake_key (suc epoch) after q r').1 in
        (calculate_epoch_reward stake_key (suc epoch) r'').0
        ≡ ok (some ((after + withdrawn) % u64_limit - before))
  calculate_epoch_reward-snapshot_rewards stake_key epoch before after withdrawn p q r start sum =
      let r' = (snapshot_rewards stake_key epoch before p r).1 in
      let r'' = (snapshot_rewards stake_key (suc epoch) after q r').1 in
      calculate_epoch_reward-known stake_key epoch withdrawn
        (record { epoch = suc epoch; balance = after; pool_id = q })
        (record { epoch = epoch; balance = before; pool_id = p }) r''
        (get_snapshot-Returns stake_key (suc epoch) _ r'' (
          get_snapshot-same stake_key (suc epoch) after q r'
            (omega (arith, start, start_kept stake_key epoch before p r))))
        (get_snapshot-Returns stake_key epoch _ r'' (
          get_snapshot-other stake_key (suc epoch) after q r' epoch (ground arith)
          ∙ get_snapshot-same stake_key epoch before p r start))
        (get_epoch_withdrawals-Returns stake_key (suc epoch) withdrawn r'' (
          sum_kept stake_key (suc epoch) after q r' stake_key (suc epoch)
          ∙ sum_kept stake_key epoch before p r stake_key (suc epoch)
          ∙ sum))
