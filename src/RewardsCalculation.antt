-- ===== src/RewardsCalculation.antt =====
-- The pots of an epoch and the rewards of a pool (src/rewards_calculation.rs). `Ratio<i64>` of the
-- crate num-rational is a parameter, with the panics of `new` and of a division by zero as none.
-- Sums of 64-bit numbers wrap around, as release builds do.
pub mod Pots
pub mod Stakes
use hayate.Prelude.{
  ℕ, ◌+◌, ◌-◌, ◌*◌, ◌/◌, ◌%◌, ◌<◌, ◌≡◌, Bool, Option, none, some, and_then, ltb, if◌then◌else◌,
}
use hayate.Prelude.Text.{Bytes}
use hayate.Prelude.Decimal.{u64_limit}
use hayate.Prelude.Int.{ℤ, pos, negsuc, i64_limit, as_u64, as_i64}

pub record Rationals : Type 1 where
  pub Ratio : Type 0
  -- `Ratio::new`, `Ratio::from_integer` and `Ratio::to_integer`, which truncates
  pub new_ratio : ℤ → ℤ → Option Ratio
  pub from_integer : ℤ → Ratio
  pub to_integer : Ratio → ℤ
  pub gt : Ratio → Ratio → Bool
  pub mul : Ratio → Ratio → Ratio
  pub sub : Ratio → Ratio → Ratio
  pub div : Ratio → Ratio → Option Ratio

-- Ratios that are not negative stand for fractions, and are computed with exactly while the products
-- of the numerators and of the denominators fit into 63 bits.
pub record Exact (Q : Rationals) : Type 1 where
  pub IsFraction : Q.Ratio → ℕ → ℕ → Type 0
  pub positive : (r : Q.Ratio) (n d : ℕ) → IsFraction r n d → 0 < d
  pub from_integer_lem : (n : ℕ) → n < i64_limit → IsFraction (Q.from_integer (pos n)) n 1
  pub new_ratio_lem :
      (n d : ℕ)
      → n < i64_limit
      → d < i64_limit
      → 0 < d
      → (r : Q.Ratio) × (Q.new_ratio (pos n) (pos d) ≡ some r) × IsFraction r n d
  pub new_ratio-zero : (n : ℤ) → Q.new_ratio n (pos 0) ≡ none
  pub mul_lem :
      (r s : Q.Ratio) (n d m e : ℕ)
      → IsFraction r n d
      → IsFraction s m e
      → n * m < i64_limit
      → d * e < i64_limit
      → IsFraction (Q.mul r s) (n * m) (d * e)
  pub gt_lem :
      (r s : Q.Ratio) (n d m e : ℕ)
      → IsFraction r n d
      → IsFraction s m e
      → Q.gt r s ≡ ltb (m * d) (n * e)
  pub to_integer_lem : (r : Q.Ratio) (n d : ℕ) → IsFraction r n d → Q.to_integer r ≡ pos (n / d)

module _ ⦃Q : Rationals⦄ where
  open Q use {Ratio, new_ratio, from_integer, to_integer, gt, mul, sub, div}

  pub record ProtocolParams : Type 0 where
    pub monetary_expansion_rate : Ratio
    pub treasury_rate : Ratio
    pub stake_influence : Ratio
    pub decentralization : Ratio
    pub optimal_pools : ℕ
    pub min_pool_cost : ℕ

  abbrev pub one_ratio : Ratio
  one_ratio = from_integer (pos 1)

  unfoldable pub calculate_monetary_expansion : ℕ → Ratio → Ratio → ℕ
  calculate_monetary_expansion reserves rho eta =
      let performance = if gt eta one_ratio then one_ratio else eta in
      as_u64 (to_integer (mul (mul (from_integer (as_i64 reserves)) rho) performance))

  unfoldable pub calculate_treasury_cut : ℕ → Ratio → ℕ
  calculate_treasury_cut rewards_pot tau =
      as_u64 (to_integer (mul (from_integer (as_i64 rewards_pot)) tau))

  -- The tuple that `update_epoch_accounts` returns.
  pub record EpochAccounts : Type 0 where
    pub new_treasury : ℕ
    pub new_reserves : ℕ
    pub distribution : ℕ
    pub treasury_cut : ℕ
    pub pool_pot : ℕ

  unfoldable pub update_epoch_accounts : ℕ → ℕ → ProtocolParams → Ratio → ℕ → EpochAccounts
  update_epoch_accounts current_treasury current_reserves params performance_eta fees =
      let distribution =
        calculate_monetary_expansion current_reserves params.monetary_expansion_rate
          performance_eta in
      let rewards_pot = (distribution + fees) % u64_limit in
      let treasury_cut = calculate_treasury_cut rewards_pot params.treasury_rate in
      record {
        new_treasury = (current_treasury + treasury_cut) % u64_limit;
        new_reserves =
            ((current_reserves + fees) % u64_limit + u64_limit - treasury_cut) % u64_limit;
        distribution = distribution;
        treasury_cut = treasury_cut;
        pool_pot = (rewards_pot + u64_limit - treasury_cut) % u64_limit;
      }

  pub record PoolInfo : Type 0 where
    pub pool_id : Bytes
    pub pledge : ℕ
    pub stake : ℕ
    pub fixed_cost : ℕ
    pub margin : Ratio
    pub blocks_produced : ℕ

  unfoldable pub calculate_saturation_threshold : ℕ → Option Ratio
  calculate_saturation_threshold optimal_pools = new_ratio (pos 1) (as_i64 optimal_pools)

  abbrev pub cap_at : Ratio → Ratio → Ratio
  cap_at saturation_threshold fraction =
      if gt fraction saturation_threshold then saturation_threshold else fraction

  unfoldable pub calculate_effective_pool_stake : ℕ → ℕ → Ratio → Option Ratio
  calculate_effective_pool_stake pool_stake total_active_stake saturation_threshold =
      and_then (new_ratio (as_i64 pool_stake) (as_i64 total_active_stake))
        λ fraction. some (cap_at saturation_threshold fraction)

  unfoldable pub calculate_effective_pledge : ℕ → ℕ → Ratio → Option Ratio
  calculate_effective_pledge pledge total_active_stake saturation_threshold =
      and_then (new_ratio (as_i64 pledge) (as_i64 total_active_stake))
        λ fraction. some (cap_at saturation_threshold fraction)

  unfoldable pub calculate_optimal_reward_factor : Ratio → Ratio → Ratio → Ratio → Option Ratio
  calculate_optimal_reward_factor effective_stake effective_pledge z stake_influence =
      let numerator = sub effective_stake (mul effective_pledge (sub z effective_stake)) in
      and_then (div numerator z)
        λ bracket_term. some (mul (mul effective_stake stake_influence) bracket_term)

  unfoldable pub calculate_optimal_pool_reward : ℕ → Ratio → ℕ
  calculate_optimal_pool_reward pool_rewards_pot reward_factor =
      as_u64 (to_integer (mul (from_integer (as_i64 pool_rewards_pot)) reward_factor))

  -- `n.max(1)`
  abbrev pub at_least_one : ℤ → ℤ
  at_least_one (pos n) = if ltb 0 n then pos n else pos 1
  at_least_one (negsuc n) = pos 1

  unfoldable pub calculate_pool_performance : ℕ → ℕ → ℕ → ℕ → Option Ratio
  calculate_pool_performance blocks_produced pool_stake total_active_stake total_epoch_blocks =
      and_then (new_ratio (as_i64 pool_stake) (as_i64 total_active_stake)) λ stake_fraction.
        let expected = mul (from_integer (as_i64 total_epoch_blocks)) stake_fraction in
        new_ratio (as_i64 blocks_produced) (at_least_one (to_integer expected))

  unfoldable pub calculate_gross_pool_reward : ℕ → Ratio → ℕ
  calculate_gross_pool_reward optimal_reward performance =
      as_u64 (to_integer (mul (from_integer (as_i64 optimal_reward)) performance))

  -- The tuple that `calculate_pool_rewards` returns.
  pub record PoolRewards : Type 0 where
    pub optimal_reward : ℕ
    pub gross_reward : ℕ
    pub effective_stake : Ratio
    pub effective_pledge : Ratio
    pub performance : Ratio

  unfoldable pub calculate_pool_rewards : PoolInfo → ℕ → ℕ → ℕ → ProtocolParams → Option PoolRewards
  calculate_pool_rewards pool pool_rewards_pot total_active_stake total_epoch_blocks params =
      and_then (calculate_saturation_threshold params.optimal_pools) λ z.
        and_then (calculate_effective_pool_stake pool.stake total_active_stake z) λ stake.
          and_then (calculate_effective_pledge pool.pledge total_active_stake z) λ pledge.
            and_then (calculate_optimal_reward_factor stake pledge z params.stake_influence)
              λ factor.
                let optimal = calculate_optimal_pool_reward pool_rewards_pot factor in
                and_then
                  (calculate_pool_performance pool.blocks_produced pool.stake total_active_stake
                    total_epoch_blocks)
                  λ performance. some (record {
                    optimal_reward = optimal;
                    gross_reward = calculate_gross_pool_reward optimal performance;
                    effective_stake = stake;
                    effective_pledge = pledge;
                    performance = performance;
                  })
