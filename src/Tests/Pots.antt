-- ===== src/Tests/Pots.antt =====
-- The theorems on the pots of an epoch and the rewards of a pool.
use hayate.Prelude.{ℕ, ◌+◌, ◌*◌, ◌/◌, ◌≡◌, ◌≤◌, refl, none, some, [], ◌∷◌, inl, arith}
use hayate.RewardsCalculation.{
  ProtocolParams, PoolInfo, update_epoch_accounts, calculate_saturation_threshold,
  calculate_effective_pool_stake, calculate_effective_pledge, calculate_pool_performance,
  calculate_gross_pool_reward, calculate_pool_rewards,
}
use hayate.RewardsCalculation.Pots.{capped, update_epoch_accounts-conserves}
use hayate.RewardsCalculation.Stakes.{
  share, expected_blocks, effective_shares, gross_reward-performance, calculate_pool_rewards-zero,
}
use hayate.Sample.Records.{pairs, exact, Stands}

abbrev params : ProtocolParams ⦃Q = pairs⦄
params = record {
  monetary_expansion_rate = (3, 1000);
  treasury_rate = (1, 5);
  stake_influence = (3, 10);
  decentralization = (0, 1);
  optimal_pools = 150;
  min_pool_cost = 340000000;
}

update_epoch_accounts-conserves_example :
    let acc = update_epoch_accounts ⦃Q = pairs⦄ 1000 8000000 params (4, 5) 20 in
    (acc.distribution ≡ 8000000 * 3 * (capped 4 5).0 / (1000 * (capped 4 5).1))
    × (acc.treasury_cut ≡ (acc.distribution + 20) * 1 / 5)
    × (acc.treasury_cut + acc.pool_pot ≡ acc.distribution + 20)
    × (acc.distribution ≤ 8000000)
    × (acc.new_treasury ≡ 1000 + acc.treasury_cut)
    × (acc.new_treasury + acc.new_reserves ≡ 1000 + 8000000 + 20)
update_epoch_accounts-conserves_example =
    update_epoch_accounts-conserves ⦃Q = pairs⦄ exact 1000 8000000 20 params (4, 5) 3 1000 4 5 1 5
      (refl, omega arith) (refl, omega arith) (refl, omega arith) (omega arith) (omega arith)
      (omega arith) (omega arith) (omega arith) (omega arith) (omega arith) (omega arith)
      (omega arith) (omega arith)

effective_shares_example :
    (z s p : ℕ × ℕ) × (calculate_saturation_threshold ⦃Q = pairs⦄ 150 ≡ some z)
    × (calculate_effective_pool_stake ⦃Q = pairs⦄ 90 9000 z ≡ some s)
    × (calculate_effective_pledge ⦃Q = pairs⦄ 10 9000 z ≡ some p)
    × Stands s (share 150 90 9000).0 (share 150 90 9000).1
    × Stands p (share 150 10 9000).0 (share 150 10 9000).1
effective_shares_example =
    effective_shares ⦃Q = pairs⦄ exact 150 90 10 9000 (omega arith) (omega arith) (omega arith)
      (omega arith) (omega arith) (omega arith)

gross_reward-performance_example :
    (perf : ℕ × ℕ) × (calculate_pool_performance ⦃Q = pairs⦄ 3 90 9000 400 ≡ some perf)
    × (calculate_gross_pool_reward ⦃Q = pairs⦄ 1000 perf ≡ 1000 * 3 / expected_blocks 400 90 9000)
gross_reward-performance_example =
    gross_reward-performance ⦃Q = pairs⦄ exact 1000 3 90 9000 400 (omega arith) (omega arith)
      (omega arith) (omega arith) (omega arith) (omega arith) (omega arith) (omega arith)

abbrev pool : PoolInfo ⦃Q = pairs⦄
pool = record {
  pool_id = 1 ∷ [];
  pledge = 10;
  stake = 90;
  fixed_cost = 340000000;
  margin = (1, 20);
  blocks_produced = 3;
}

calculate_pool_rewards-zero_example :
    calculate_pool_rewards ⦃Q = pairs⦄ pool 1000 0 400 params ≡ none
calculate_pool_rewards-zero_example =
    calculate_pool_rewards-zero ⦃Q = pairs⦄ exact pool 1000 400 0 params (inl refl)
