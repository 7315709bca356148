-- ===== src/RewardsCalculation/Pots.antt =====
-- The pots of an epoch over exact fractions.
use hayate.Prelude.{
  ℕ, ◌+◌, ◌-◌, ◌*◌, ◌/◌, ◌%◌, ◌<◌, ◌≤◌, ◌≡◌, ap, ◌∙◌, ltb, if◌then◌else◌, Bool-cases, inl, inr,
  arith,
}
use hayate.Prelude.Decimal.{u64_limit}
use hayate.Prelude.Int.{pos, i64_limit, as_u64, as_i64-pos}
use hayate.RewardsCalculation.{
  Rationals, Exact, one_ratio, ProtocolParams, calculate_monetary_expansion, calculate_treasury_cut,
  update_epoch_accounts,
}
use native.Mathlib.Nat.{div-le_of_le-mul, mul-le-mul}

-- The fraction `a / b`, or 1 if it is more.
abbrev pub capped : ℕ → ℕ → ℕ × ℕ
capped a b = if ltb b a then (1, 1) else (a, b)

capped-le : (a b : ℕ) → (capped a b).0 ≤ (capped a b).1
capped-le a b = elim (Bool-cases (ltb b a)) [
  | inl more ↦ rw more (omega arith)
  | inr less ↦ rw less (ground arith)
]

module _ ⦃Q : Rationals⦄ (E : Exact Q) where
  open E use {IsFraction}

  -- The cap of the performance.
  capped-IsFraction :
      (eta : Q.Ratio) (a b : ℕ)
      → IsFraction eta a b
      → IsFraction (if Q.gt eta one_ratio then one_ratio else eta) (capped a b).0 (capped a b).1
  capped-IsFraction eta a b h =
      let one = E.from_integer_lem 1 (omega arith) in
      let test : Q.gt eta one_ratio ≡ ltb b a =
        E.gt_lem eta one_ratio a b 1 1 h one ∙ ground arith in
      elim (Bool-cases (ltb b a)) [ inl more ↦ rw (test, more) one | inr less ↦ rw (test, less) h ]

  module _ (reserves : ℕ) (rho eta : Q.Ratio) (p q a b : ℕ) where
    calculate_monetary_expansion_lem :
        IsFraction rho p q
        → IsFraction eta a b
        → reserves < i64_limit
        → reserves * p < i64_limit
        → q < i64_limit
        → reserves * p * (capped a b).0 < i64_limit
        → q * (capped a b).1 < i64_limit
        → calculate_monetary_expansion reserves rho eta
          ≡ (reserves * p * (capped a b).0) / (q * (capped a b).1)
    unfolding calculate_monetary_expansion
    calculate_monetary_expansion_lem r e hr hrp hq hn hd =
        let whole = E.from_integer_lem reserves hr in
        let one_q : 1 * q ≡ q = omega arith in
        let first =
          E.mul_lem (Q.from_integer (pos reserves)) rho reserves 1 p q whole r hrp (omega arith) in
        let second =
          E.mul_lem (Q.mul (Q.from_integer (pos reserves)) rho) _ (reserves * p) (1 * q) _ _ first
            (capped-IsFraction eta a b e) hn (rw one_q hd) in
        rw (as_i64-pos reserves hr) (ap as_u64 (E.to_integer_lem _ _ _ second) ∙ rw one_q)

  calculate_treasury_cut_lem :
      (pot : ℕ) (tau : Q.Ratio) (t u : ℕ)
      → IsFraction tau t u
      → pot < i64_limit
      → pot * t < i64_limit
      → u < i64_limit
      → calculate_treasury_cut pot tau ≡ pot * t / u
  unfolding calculate_treasury_cut
  calculate_treasury_cut_lem pot tau t u h hp hn hd =
      let one_u : 1 * u ≡ u = omega arith in
      let product =
        E.mul_lem (Q.from_integer (pos pot)) tau pot 1 t u (E.from_integer_lem pot hp) h hn
          (omega arith) in
      rw (as_i64-pos pot hp) (ap as_u64 (E.to_integer_lem _ _ _ product) ∙ rw one_u)

-- A part of a number by a fraction of at most 1 is at most the number.
pub part-le : (n x y : ℕ) → x ≤ y → n * x / y ≤ n
part-le n x y h =
    div-le_of_le-mul y (
      let e : y * n ≡ n * y = grind arith in rw e (mul-le-mul (let r : n ≤ n = omega arith in r) h))

parts-le : (n p q c e : ℕ) → p ≤ q → c ≤ e → n * p * c / (q * e) ≤ n
parts-le n p q c e h k =
    let g : n * p * c ≡ n * (p * c) = grind arith in
    rw g (part-le n (p * c) (q * e) (mul-le-mul h k))

cut_fits :
    (d reserves fees t : ℕ)
    → d ≤ reserves
    → (reserves + fees) * t < i64_limit
    → (d + fees) * t < i64_limit
cut_fits d reserves fees t h k =
    let m : (d + fees) * t ≤ (reserves + fees) * t =
      mul-le-mul (let r : d + fees ≤ reserves + fees = omega arith in r)
        (let r : t ≤ t = omega arith in r) in
    omega (arith, m)

-- The sums of an epoch, once the distribution and the treasury cut are known.
sums :
    (treasury reserves fees distribution cut : ℕ)
    → distribution ≤ reserves
    → cut ≤ distribution + fees
    → treasury + reserves + fees < u64_limit
    → let pot = (distribution + fees) % u64_limit in
      (cut + (pot + u64_limit - cut) % u64_limit ≡ distribution + fees)
      × ((treasury + cut) % u64_limit ≡ treasury + cut)
      × ((treasury + cut) % u64_limit
            + ((reserves + fees) % u64_limit + u64_limit - cut) % u64_limit
          ≡ treasury + reserves + fees)
sums treasury reserves fees distribution cut h k l = (omega arith, omega arith, omega arith)

module _ ⦃Q : Rationals⦄ (E : Exact Q) where
  -- The distribution is the part of the reserves by the rate of expansion and the performance, the
  -- latter capped at 1, and the treasury cut is the part of the distribution and the fees by the
  -- treasury rate, both rounded down, where both rates are at most 1 and the products fit into 63
  -- bits. Distribution and fees are split into the treasury cut and the pot of the pools; what the
  -- treasury gains is the treasury cut; and if treasury, reserves and fees together fit into 64
  -- bits, treasury and reserves gain the fees together.
  pub update_epoch_accounts-conserves :
      (treasury reserves fees : ℕ) (params : ProtocolParams) (eta : Q.Ratio) (p q a b t u : ℕ)
      → E.IsFraction params.monetary_expansion_rate p q
      → E.IsFraction eta a b
      → E.IsFraction params.treasury_rate t u
      → p ≤ q
      → t ≤ u
      → treasury + reserves + fees < u64_limit
      → reserves + fees < i64_limit
      → reserves * p < i64_limit
      → q < i64_limit
      → reserves * p * (capped a b).0 < i64_limit
      → q * (capped a b).1 < i64_limit
      → (reserves + fees) * t < i64_limit
      → u < i64_limit
      → let acc = update_epoch_accounts treasury reserves params eta fees in
        (acc.distribution ≡ reserves * p * (capped a b).0 / (q * (capped a b).1))
        × (acc.treasury_cut ≡ (acc.distribution + fees) * t / u)
        × (acc.treasury_cut + acc.pool_pot ≡ acc.distribution + fees)
        × (acc.distribution ≤ reserves)
        × (acc.new_treasury ≡ treasury + acc.treasury_cut)
        × (acc.new_treasury + acc.new_reserves ≡ treasury + reserves + fees)
  unfolding update_epoch_accounts
  update_epoch_accounts-conserves treasury reserves fees params eta p q a b t u r e tau pq tu h hr
        hrp hq hn hd ht hu =
      let N = reserves * p * (capped a b).0 in
      let d = calculate_monetary_expansion reserves params.monetary_expansion_rate eta in
      let is_d : d ≡ N / (q * (capped a b).1) =
        calculate_monetary_expansion_lem E reserves params.monetary_expansion_rate eta p q a b r e
          (omega arith) hrp hq hn hd in
      let small : d ≤ reserves =
        omega
          (arith, is_d, parts-le reserves p q (capped a b).0 (capped a b).1 pq (capped-le a b)) in
      let c = calculate_treasury_cut ((d + fees) % u64_limit) params.treasury_rate in
      let no_wrap : (d + fees) % u64_limit ≡ d + fees = omega arith in
      let is_c : c ≡ (d + fees) * t / u = rw no_wrap (
        calculate_treasury_cut_lem E (d + fees) params.treasury_rate t u tau (omega arith)
          (cut_fits d reserves fees t small ht) hu) in
      let below : c ≤ d + fees = omega (arith, is_c, part-le (d + fees) t u tu) in
      let (split, gain, total) = sums treasury reserves fees d c small below h in
      (is_d, is_c, split, small, gain, total)
