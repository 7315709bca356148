-- ===== src/Tests/Rewards.antt =====
-- The theorems on the rewards of stake keys and of pools.
use hayate.Prelude.{
  ◌++◌, All, ℕ, ◌+◌, ◌-◌, ◌%◌, ◌≡◌, ◌≤◌, refl, none, some, [], ◌∷◌, ltb, ◌==◌, ◌&&◌, if◌then◌else◌,
  arith,
}
use hayate.Prelude.Text.{codes, Bytes, text_eq}
use hayate.Prelude.Decimal.{u64_limit, show}
use hayate.Result.{ok, map_ok}
use hayate.Storage.State.{RewardsTracker}
use hayate.Rewards.{
  delegation_key, record_withdrawal, record_delegation, get_epoch_withdrawals, get_lifetime_rewards,
  snapshot_rewards, get_snapshot, calculate_epoch_reward, get_current_delegation, slot_in_key,
  sum_amounts,
}
use hayate.Rewards.Withdrawals.{record_withdrawal-adds, record_withdrawal-adds_to_earlier}
use hayate.Rewards.Snapshots.{
  get_snapshot-snapshot_rewards, calculate_epoch_reward-snapshot_rewards,
}
use hayate.Rewards.Delegations.{AtOrBefore, get_current_delegation-IsLatest}
use hayate.Sample.{scans}
use hayate.Sample.Records.{coder, decodes}
use hayate.Tests.{X, R, block}

abbrev tracker : RewardsTracker ⦃X = X⦄
tracker = record { snapshots = []; withdrawals = []; delegations = []; indexing_start_epoch = 4 }

record_withdrawal-adds_example :
    let (r, after) = record_withdrawal ⦃X = X⦄ ⦃B = coder⦄ (1 ∷ []) 5 70 9 [] tracker in
    (r ≡ ok tt)
    × ((get_epoch_withdrawals ⦃X = X⦄ ⦃B = coder⦄ (1 ∷ []) 5 after).0
        ≡ map_ok
            (λ s. (s + 9) % u64_limit)
            (get_epoch_withdrawals ⦃X = X⦄ ⦃B = coder⦄ (1 ∷ []) 5 tracker).0)
    × ((balance : ℕ)
        → (get_lifetime_rewards ⦃X = X⦄ ⦃B = coder⦄ (1 ∷ []) balance after).0
          ≡ map_ok
              (λ s. (s + 9) % u64_limit)
              (get_lifetime_rewards ⦃X = X⦄ ⦃B = coder⦄ (1 ∷ []) balance tracker).0)
record_withdrawal-adds_example =
    record_withdrawal-adds ⦃X = X⦄ ⦃B = coder⦄ R (scans (some block)) decodes (1 ∷ []) 5 70 9 []
      tracker refl

record_withdrawal-adds_to_earlier_example :
    (get_epoch_withdrawals ⦃X = X⦄ ⦃B = coder⦄
      (1 ∷ [])
      5
      (record_withdrawal ⦃X = X⦄ ⦃B = coder⦄ (1 ∷ []) 52 700 9 [] tracker).1).0
    ≡ map_ok
        (λ s. (s + 9) % u64_limit)
        (get_epoch_withdrawals ⦃X = X⦄ ⦃B = coder⦄ (1 ∷ []) 5 tracker).0
record_withdrawal-adds_to_earlier_example =
    record_withdrawal-adds_to_earlier ⦃X = X⦄ ⦃B = coder⦄ R (scans (some block)) decodes (1 ∷ []) 5
      2 700 9 [] tracker refl (omega arith) (omega arith)

get_snapshot-snapshot_rewards_example :
    let (done, r') = snapshot_rewards ⦃X = X⦄ ⦃B = coder⦄ (1 ∷ []) 5 100 (some (2 ∷ [])) tracker in
    (done ≡ ok tt)
    × ((get_snapshot ⦃X = X⦄ ⦃B = coder⦄ (1 ∷ []) 5 r').0 ≡ (
        if text_eq (1 ∷ []) (1 ∷ []) && 5 == 5
        then (if ltb 5 4
            then ok none
            else ok (some (record { epoch = 5; balance = 100; pool_id = some (2 ∷ []) })))
        else (get_snapshot ⦃X = X⦄ ⦃B = coder⦄ (1 ∷ []) 5 tracker).0))
get_snapshot-snapshot_rewards_example =
    get_snapshot-snapshot_rewards ⦃X = X⦄ ⦃B = coder⦄ R decodes (1 ∷ []) (1 ∷ []) 5 5 100
      (some (2 ∷ [])) tracker

no_withdrawals : (get_epoch_withdrawals ⦃X = X⦄ ⦃B = coder⦄ (1 ∷ []) 6 tracker).0 ≡ ok 0
unfolding get_epoch_withdrawals sum_amounts
no_withdrawals = refl

calculate_epoch_reward-snapshot_rewards_example :
    let r' = (snapshot_rewards ⦃X = X⦄ ⦃B = coder⦄ (1 ∷ []) 5 100 none tracker).1 in
    let r'' = (snapshot_rewards ⦃X = X⦄ ⦃B = coder⦄ (1 ∷ []) 6 130 none r').1 in
    (calculate_epoch_reward ⦃X = X⦄ ⦃B = coder⦄ (1 ∷ []) 6 r'').0
    ≡ ok (some ((130 + 0) % u64_limit - 100))
calculate_epoch_reward-snapshot_rewards_example =
    calculate_epoch_reward-snapshot_rewards ⦃X = X⦄ ⦃B = coder⦄ R decodes (1 ∷ []) 5 100 130 0 none
      none tracker (omega arith) no_withdrawals

-- Two delegations, the later one recorded first.
abbrev delegated : RewardsTracker ⦃X = X⦄
delegated =
    (record_delegation ⦃X = X⦄ ⦃B = coder⦄ (1 ∷ []) (7 ∷ []) 50
      (record_delegation ⦃X = X⦄ ⦃B = coder⦄ (1 ∷ []) (8 ∷ []) 600 tracker).1).1

delegated-find :
    R.find delegated.delegations (delegation_key ⦃X = X⦄ ⦃B = coder⦄ (1 ∷ []) 50) ≡ some (7 ∷ [])
unfolding record_delegation text_eq show
delegated-find = refl

get_current_delegation-IsLatest_example :
    (p key : Bytes) × (s : ℕ) × (get_current_delegation ⦃X = X⦄ ⦃B = coder⦄ (1 ∷ []) delegated
      ≡ (ok (some p), delegated))
    × (R.find delegated.delegations key ≡ some p)
    × ((rest : Bytes) × (key ≡ (codes "delegation:" ++ X.hex_encode (1 ∷ [])) ++ rest))
    × (slot_in_key key ≡ some s)
    × (50 ≤ s)
    × All
        (λ e. AtOrBefore s (slot_in_key e.0))
        (X.scan_prefix delegated.delegations (codes "delegation:" ++ X.hex_encode (1 ∷ [])))
get_current_delegation-IsLatest_example =
    get_current_delegation-IsLatest ⦃X = X⦄ ⦃B = coder⦄ R (1 ∷ []) (7 ∷ []) 50 delegated
      (omega arith) delegated-find
