-- ===== src/Sample/Records.antt =====
-- Records as lists of their numbers, and ratios as pairs, for examples. They satisfy the laws of
-- `Decodes` and `Exact`.
use hayate.Prelude.{
  ℕ, zero, suc, ◌-◌, ◌*◌, ◌/◌, ◌<◌, ◌≡◌, refl, Option, none, some, [], ◌∷◌, ltb, ◌==◌,
  if◌then◌else◌, arith,
}
use hayate.Prelude.Text.{Bytes}
use hayate.Prelude.Int.{ℤ, pos, negsuc}
use hayate.Result.{Result, ok, err, storage_not_available}
use hayate.Rewards.{Withdrawal, RewardSnapshot, Bincode, Decodes}
use hayate.RewardsCalculation.{Rationals, Exact}

abbrev pub read_withdrawal : Bytes → Result Withdrawal
read_withdrawal (e ∷ s ∷ a ∷ h) = ok (record { epoch = e; slot = s; amount = a; tx_hash = h })
read_withdrawal _ = err storage_not_available

abbrev pub write_pool : Option Bytes → Bytes
write_pool none = []
write_pool (some p) = 1 ∷ p

abbrev pub read_pool : Bytes → Option Bytes
read_pool [] = none
read_pool (_ ∷ p) = some p

abbrev pub read_snapshot : Bytes → Result RewardSnapshot
read_snapshot (e ∷ b ∷ p) = ok (record { epoch = e; balance = b; pool_id = read_pool p })
read_snapshot _ = err storage_not_available

abbrev pub write_withdrawal : Withdrawal → Bytes
write_withdrawal w = w.epoch ∷ w.slot ∷ w.amount ∷ w.tx_hash

abbrev pub write_snapshot : RewardSnapshot → Bytes
write_snapshot s = s.epoch ∷ s.balance ∷ write_pool s.pool_id

abbrev pub coder : Bincode
coder = record {
  serialize_withdrawal = λ w. ok (write_withdrawal w);
  deserialize_withdrawal = read_withdrawal;
  serialize_snapshot = λ s. ok (write_snapshot s);
  deserialize_snapshot = read_snapshot;
}

read_pool-write_pool : (p : Option Bytes) → read_pool (write_pool p) ≡ p
read_pool-write_pool none = refl
read_pool-write_pool (some p) = refl

pub read_snapshot-write_snapshot : (s : RewardSnapshot) → read_snapshot (write_snapshot s) ≡ ok s
read_snapshot-write_snapshot s = rw (read_pool-write_pool s.pool_id)

abbrev pub decodes : Decodes coder
decodes = record {
  written_withdrawal = write_withdrawal;
  serialize_withdrawal_lem = λ w. refl;
  deserialize_withdrawal-written = λ w. refl;
  written_snapshot = write_snapshot;
  serialize_snapshot_lem = λ s. refl;
  deserialize_snapshot-written = read_snapshot-write_snapshot;
}

abbrev pub make_ratio : ℤ → ℤ → Option (ℕ × ℕ)
make_ratio (pos n) (pos (suc d)) = some (n, suc d)
make_ratio _ _ = none

abbrev pub whole : ℤ → ℕ × ℕ
whole (pos n) = (n, 1)
whole (negsuc n) = (0, 1)

abbrev pub pairs : Rationals
pairs = record {
  Ratio = ℕ × ℕ;
  new_ratio = make_ratio;
  from_integer = whole;
  to_integer = λ r. pos (r.0 / r.1);
  gt = λ r s. ltb (s.0 * r.1) (r.0 * s.1);
  mul = λ r s. (r.0 * s.0, r.1 * s.1);
  sub = λ r s. (r.0 * s.1 - s.0 * r.1, r.1 * s.1);
  div = λ r s. if s.0 == 0 then none else some (r.0 * s.1, r.1 * s.0);
}

abbrev pub Stands : ℕ × ℕ → ℕ → ℕ → Type 0
Stands r n d = (r ≡ (n, d)) × (0 < d)

pub make_ratio_lem :
    (n d : ℕ) → 0 < d → (r : ℕ × ℕ) × (make_ratio (pos n) (pos d) ≡ some r) × Stands r n d
make_ratio_lem n zero h = elim h [ ]
make_ratio_lem n (suc d) h = ((n, suc d), refl, (refl, h))

pub make_ratio-zero : (n : ℤ) → make_ratio n (pos 0) ≡ none
make_ratio-zero (pos n) = refl
make_ratio-zero (negsuc n) = refl

pub product_pos : (d e : ℕ) → 0 < d → 0 < e → 0 < d * e
product_pos d e h k = grind arith

abbrev pub exact : Exact pairs
exact = record {
  IsFraction = Stands;
  positive = λ r n d h. h.1;
  from_integer_lem = λ n h. (refl, omega arith);
  new_ratio_lem = λ n d _ _ h. make_ratio_lem n d h;
  new_ratio-zero = make_ratio-zero;
  mul_lem = λ r s n d m e h k _ _. (rw (h.0, k.0), product_pos d e h.1 k.1);
  gt_lem = λ r s n d m e h k. rw (h.0, k.0);
  to_integer_lem = λ r n d h. rw h.0;
}
