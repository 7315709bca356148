-- ===== src/RewardsCalculation/Stakes.antt =====
-- The shares and the gross reward of a pool over exact fractions.
use hayate.Prelude.{
  ℕ, ◌*◌, ◌/◌, ◌<◌, ◌≤◌, ◌≡◌, ap, ◌∙◌, ◌⊎◌, some, none, ltb, if◌then◌else◌, Bool-cases,
  Option-cases, inl, inr, arith,
}
use hayate.Prelude.Int.{pos, i64_limit, as_u64, as_i64, as_i64-pos}
use hayate.RewardsCalculation.{
  Rationals, Exact, cap_at, at_least_one, PoolInfo, ProtocolParams, calculate_saturation_threshold,
  calculate_effective_pool_stake, calculate_effective_pledge, calculate_pool_performance,
  calculate_gross_pool_reward, calculate_pool_rewards,
}
use hayate.RewardsCalculation.Pots.{part-le}

-- The share `stake / total`, or `1 / k` if it is more.
abbrev pub share : ℕ → ℕ → ℕ → ℕ × ℕ
share k stake total = if ltb (1 * total) (stake * k) then (1, k) else (stake, total)

-- The blocks that a pool is expected to make, at least one.
abbrev pub expected_blocks : ℕ → ℕ → ℕ → ℕ
expected_blocks blocks stake total =
    let n = blocks * stake / (1 * total) in if ltb 0 n then n else 1

expected_pos : (blocks stake total : ℕ) → 0 < expected_blocks blocks stake total
expected_pos blocks stake total = ground arith

expected-le :
    (blocks stake total limit : ℕ)
    → blocks < limit
    → 1 < limit
    → stake ≤ total
    → expected_blocks blocks stake total < limit
expected-le blocks stake total limit h k l =
    let part : blocks * stake / (1 * total) ≤ blocks =
      part-le blocks stake (1 * total) (omega arith) in
    ground arith

module _ ⦃Q : Rationals⦄ (E : Exact Q) where
  open E use {IsFraction}

  cap_at-IsFraction :
      (z r : Q.Ratio) (k stake total : ℕ)
      → IsFraction z 1 k
      → IsFraction r stake total
      → IsFraction (cap_at z r) (share k stake total).0 (share k stake total).1
  cap_at-IsFraction z r k stake total hz hr =
      let test = E.gt_lem r z stake total 1 k hr hz in
      elim (Bool-cases (ltb (1 * total) (stake * k))) [
        | inl more ↦ rw (test, more) hz
        | inr less ↦ rw (test, less) hr
      ]

  -- For at least one optimal pool, and some active stake, all numbers below 2 ^ 63: the effective
  -- stake and the effective pledge of a pool are its shares of the active stake, each at most one
  -- over the number of optimal pools.
  pub effective_shares :
      (k stake pledge total : ℕ)
      → 0 < k
      → 0 < total
      → k < i64_limit
      → stake < i64_limit
      → pledge < i64_limit
      → total < i64_limit
      → (z s p : Q.Ratio) × (calculate_saturation_threshold k ≡ some z)
        × (calculate_effective_pool_stake stake total z ≡ some s)
        × (calculate_effective_pledge pledge total z ≡ some p)
        × IsFraction s (share k stake total).0 (share k stake total).1
        × IsFraction p (share k pledge total).0 (share k pledge total).1
  unfolding calculate_saturation_threshold calculate_effective_pool_stake calculate_effective_pledge
  effective_shares k stake pledge total hk ht bk bs bp bt =
      let (z, ez, hz) = E.new_ratio_lem 1 k (omega arith) bk hk in
      let (r, er, hr) = E.new_ratio_lem stake total bs bt ht in
      let (q, eq, hq) = E.new_ratio_lem pledge total bp bt ht in
      (
        z,
        cap_at z r,
        cap_at z q,
        rw (calculate_saturation_threshold, as_i64-pos k bk) ez,
        rw (calculate_effective_pool_stake, as_i64-pos stake bs, as_i64-pos total bt, er),
        rw (calculate_effective_pledge, as_i64-pos pledge bp, as_i64-pos total bt, eq),
        cap_at-IsFraction z r k stake total hz hr,
        cap_at-IsFraction z q k pledge total hz hq,
      )

  at_least_one_lem : (n : ℕ) → at_least_one (pos n) ≡ pos (if ltb 0 n then n else 1)
  at_least_one_lem n = elim (Bool-cases (ltb 0 n)) [ inl e ↦ rw e | inr e ↦ rw e ]

  -- For some active stake and a pool with at most that, where the numbers and the products fit into
  -- 63 bits: the performance of the pool is computed, and its gross reward is the optimal reward by
  -- its blocks over those expected of it, at least one, rounded down.
  pub gross_reward-performance :
      (optimal blocks stake total epoch_blocks : ℕ)
      → 0 < total
      → stake ≤ total
      → total < i64_limit
      → blocks < i64_limit
      → optimal < i64_limit
      → epoch_blocks < i64_limit
      → epoch_blocks * stake < i64_limit
      → optimal * blocks < i64_limit
      → (perf : Q.Ratio) × (calculate_pool_performance blocks stake total epoch_blocks ≡ some perf)
        × (calculate_gross_pool_reward optimal perf
            ≡ optimal * blocks / expected_blocks epoch_blocks stake total)
  unfolding calculate_pool_performance calculate_gross_pool_reward
  gross_reward-performance optimal blocks stake total epoch_blocks ht hs bt bb bo be hm hn =
      let (f, ef, hf) = E.new_ratio_lem stake total (omega arith) bt ht in
      let one_t : 1 * total ≡ total = omega arith in
      let x = Q.mul (Q.from_integer (pos epoch_blocks)) f in
      let hx =
        E.mul_lem _ f epoch_blocks 1 stake total (E.from_integer_lem epoch_blocks be) hf hm
          (omega arith) in
      let e = expected_blocks epoch_blocks stake total in
      let bound : e < i64_limit =
        expected-le epoch_blocks stake total i64_limit be (omega arith) hs in
      let positive : 0 < e = expected_pos epoch_blocks stake total in
      let (perf, ep, hp) = E.new_ratio_lem blocks e bb bound positive in
      let one_e : 1 * e ≡ e = omega arith in
      let hg =
        E.mul_lem _ perf optimal 1 blocks e (E.from_integer_lem optimal bo) hp hn
          (rw one_e bound) in
      (
        perf,
        rw
            (
              as_i64-pos stake (omega arith),
              as_i64-pos total bt,
              ef,
              as_i64-pos epoch_blocks be,
              E.to_integer_lem x _ _ hx,
              as_i64-pos blocks bb,
              at_least_one_lem,
            )
            ep,
        rw (as_i64-pos optimal bo) (ap as_u64 (E.to_integer_lem _ _ _ hg) ∙ rw one_e),
      )

  no_stake :
      (stake total : ℕ) (z : Q.Ratio)
      → total ≡ 0
      → calculate_effective_pool_stake stake total z ≡ none
  unfolding calculate_effective_pool_stake
  no_stake stake total z h = rw (h, E.new_ratio-zero (as_i64 stake))

  no_threshold : (k : ℕ) → k ≡ 0 → calculate_saturation_threshold k ≡ none
  unfolding calculate_saturation_threshold
  no_threshold k h = rw (h, E.new_ratio-zero (pos 1))

  -- Without active stake, or without optimal pools, the rewards of a pool are not computed: a
  -- denominator is 0, and the program panics.
  pub calculate_pool_rewards-zero :
      (pool : PoolInfo) (pot blocks total : ℕ) (params : ProtocolParams)
      → (total ≡ 0) ⊎ (params.optimal_pools ≡ 0)
      → calculate_pool_rewards pool pot total blocks params ≡ none
  unfolding calculate_pool_rewards
  calculate_pool_rewards-zero pool pot blocks total params (inl h) =
      elim (Option-cases (calculate_saturation_threshold params.optimal_pools)) [
        | inl gone ↦ rw gone
        | inr (z, there) ↦ rw (there, no_stake pool.stake total z h)
      ]
  calculate_pool_rewards-zero pool pot blocks total params (inr h) =
      rw (no_threshold params.optimal_pools h)
