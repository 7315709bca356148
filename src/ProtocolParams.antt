-- ===== src/ProtocolParams.antt =====
-- The parameters of the protocol that fees and outputs depend on (src/protocol_params.rs).
use hayate.Prelude.{ℕ, ◌+◌, ◌-◌, ◌*◌, Option, none, some, ltb, if◌then◌else◌}
use hayate.Prelude.Decimal.{u64_limit}

-- The fields that the fee and the least value of an output are computed from.
pub record ProtocolParameters : Type 0 where
  pub min_fee_a : ℕ
  pub min_fee_b : ℕ
  pub utxo_cost_per_byte : ℕ
  pub min_utxo_lovelace : Option ℕ

saturate : ℕ → ℕ
saturate n = if ltb n u64_limit then n else u64_limit - 1

-- `Ord::max`
abbrev pub max : ℕ → ℕ → ℕ
max a b = if ltb a b then b else a

unfoldable pub calculate_min_fee : ProtocolParameters → ℕ → ℕ
unfolding saturate
calculate_min_fee p tx_size_bytes = saturate (saturate (p.min_fee_a * tx_size_bytes) + p.min_fee_b)

unfoldable pub calculate_min_utxo : ProtocolParameters → ℕ → ℕ
unfolding saturate
calculate_min_utxo p output_size_bytes =
    let by_size = saturate (p.utxo_cost_per_byte * output_size_bytes) in
    elim p.min_utxo_lovelace [ some min_utxo ↦ max min_utxo by_size | none ↦ by_size ]
