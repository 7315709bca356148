-- ===== src/Rewards/Withdrawals.antt =====
-- What a recorded withdrawal does to the sums of an epoch and of the lifetime.
use hayate.Prelude.{
  ℕ, ◌+◌, ◌*◌, ◌%◌, ◌<◌, ◌≡◌, refl, ap, sym, ◌∙◌, none, List, [], ◌∷◌, ◌++◌, arith,
}
use hayate.Prelude.Text.{Bytes, Text, codes}
use hayate.Prelude.Decimal.{show, u64_limit}
use hayate.Prelude.Decimal.Laws.{show-digit}
use hayate.Result.{Result, ok, err, map_ok}
use hayate.Externals.{Externals, Reliable}
use hayate.Storage.State.{RewardsTracker}
use hayate.Rewards.{
  Withdrawal, Bincode, Decodes, epoch_prefix, withdrawal_key, add_amount, sum_amounts,
  record_withdrawal, get_epoch_withdrawals, get_lifetime_rewards,
}
use mathlib.Core.List.{append_assoc, append-nil}

-- An entry under a new key comes to a scan of its prefix, and the others stay in their order.
pub record Scans (X : Externals) (R : Reliable X) : Type 0 where
  pub scan-insert :
      (t : X.Tree) (p r k v : Bytes)
      → R.find t k ≡ none
      → k ≡ p ++ r
      → (xs ys : List (Bytes × Bytes)) × (X.scan_prefix t p ≡ xs ++ ys)
        × (X.scan_prefix (X.insert t k v).1 p ≡ xs ++ (k, v) ∷ ys)

abbrev add_wrapped : ℕ → Result ℕ → Result ℕ
add_wrapped a = map_ok (λ s. (s + a) % u64_limit)

add_balance :
    (balance a : ℕ) (r : Result ℕ)
    → map_ok (λ total. (balance + total) % u64_limit) (add_wrapped a r)
      ≡ add_wrapped a (map_ok (λ total. (balance + total) % u64_limit) r)
add_balance balance a (ok s) = ap (λ x. ok x) (omega arith)
add_balance balance a (err e) = refl

module _ ⦃B : Bincode⦄ (D : Decodes B) where
  add_amount_wrapped :
      (w : Result Withdrawal) (rest : ℕ → Result ℕ) (n a : ℕ)
      → ((m : ℕ) → rest ((m + a) % u64_limit) ≡ add_wrapped a (rest m))
      → add_amount w rest ((n + a) % u64_limit) ≡ add_wrapped a (add_amount w rest n)
  unfolding add_amount
  add_amount_wrapped (ok w) rest n a h =
      let e : ((n + a) % u64_limit + w.amount) % u64_limit
          ≡ ((n + w.amount) % u64_limit + a) % u64_limit =
        omega arith in
      rw e (h ((n + w.amount) % u64_limit))
  add_amount_wrapped (err e) rest n a h = refl

  -- The start of the sum comes out of it.
  sum_amounts_wrapped :
      (l : List (Bytes × Bytes)) (n a : ℕ)
      → sum_amounts l ((n + a) % u64_limit) ≡ add_wrapped a (sum_amounts l n)
  unfolding sum_amounts
  sum_amounts_wrapped [] n a = refl
  sum_amounts_wrapped ((k, v) ∷ l) n a =
      add_amount_wrapped (B.deserialize_withdrawal v) (sum_amounts l) n a
        (λ m. sum_amounts_wrapped l m a)

  add_amount_cong :
      (w : Result Withdrawal) (f g : ℕ → Result ℕ) (n a : ℕ)
      → ((m : ℕ) → f m ≡ add_wrapped a (g m))
      → add_amount w f n ≡ add_wrapped a (add_amount w g n)
  unfolding add_amount
  add_amount_cong (ok w) f g n a h = h ((n + w.amount) % u64_limit)
  add_amount_cong (err e) f g n a h = refl

  -- One more withdrawal anywhere in the scan adds its amount.
  sum_amounts-insert :
      (xs ys : List (Bytes × Bytes)) (k : Bytes) (w : Withdrawal) (n : ℕ)
      → sum_amounts (xs ++ (k, D.written_withdrawal w) ∷ ys) n
        ≡ add_wrapped w.amount (sum_amounts (xs ++ ys) n)
  unfolding sum_amounts
  sum_amounts-insert [] ys k w n =
      add_amount_read (sum_amounts ys) n ∙ sum_amounts_wrapped ys n w.amount
    where
      add_amount_read :
          (rest : ℕ → Result ℕ) (n : ℕ)
          → add_amount (B.deserialize_withdrawal (D.written_withdrawal w)) rest n
            ≡ rest ((n + w.amount) % u64_limit)
      add_amount_read rest n = rw (D.deserialize_withdrawal-written w, add_amount)
  sum_amounts-insert ((j, v) ∷ xs) ys k w n =
      add_amount_cong (B.deserialize_withdrawal v) _ (sum_amounts (xs ++ ys)) n w.amount
        (λ m. sum_amounts-insert xs ys k w m)

module _ ⦃X : Externals⦄ ⦃B : Bincode⦄ (R : Reliable X) (S : Scans X R) (D : Decodes B) where
  module _ (stake_key : Bytes) (epoch slot amount : ℕ) (tx_hash : Bytes) (r : RewardsTracker)
      (fresh : R.find r.withdrawals (withdrawal_key stake_key epoch slot) ≡ none) where
    abbrev after : RewardsTracker
    after = (record_withdrawal stake_key epoch slot amount tx_hash r).1

    abbrev recorded : Withdrawal
    recorded = record { epoch = epoch; slot = slot; amount = amount; tx_hash = tx_hash }

    -- The sum over a prefix of the key of the withdrawal.
    sum-record_withdrawal :
        (p rest : Bytes)
        → withdrawal_key stake_key epoch slot ≡ p ++ rest
        → sum_amounts (X.scan_prefix after.withdrawals p) 0
          ≡ add_wrapped amount (sum_amounts (X.scan_prefix r.withdrawals p) 0)
    unfolding record_withdrawal
    sum-record_withdrawal p rest e =
        let k = withdrawal_key stake_key epoch slot in
        let (xs, ys, before, now) =
          S.scan-insert r.withdrawals p rest k (D.written_withdrawal recorded) fresh e in
        rw (D.serialize_withdrawal_lem recorded, now, before)
          (sum_amounts-insert D xs ys k recorded 0)

    epoch_sum :
        (e : ℕ) (rest : Text)
        → show epoch ≡ show e ++ rest
        → (get_epoch_withdrawals stake_key e after).0
          ≡ add_wrapped amount (get_epoch_withdrawals stake_key e r).0
    unfolding get_epoch_withdrawals
    epoch_sum e rest h =
        sum-record_withdrawal (epoch_prefix stake_key e) (rest ++ (codes ":" ++ show slot))
          (simp (h, append_assoc))

    -- A withdrawal whose key is new is recorded with success, and its amount is added to the sum of
    -- its epoch and to the lifetime rewards, both modulo 2 ^ 64.
    pub record_withdrawal-adds :
        ((record_withdrawal stake_key epoch slot amount tx_hash r).0 ≡ ok tt)
        × ((get_epoch_withdrawals stake_key epoch after).0
            ≡ map_ok (λ s. (s + amount) % u64_limit) (get_epoch_withdrawals stake_key epoch r).0)
        × ((balance : ℕ)
            → (get_lifetime_rewards stake_key balance after).0
              ≡ map_ok (λ s. (s + amount) % u64_limit) (get_lifetime_rewards stake_key balance r).0)
    unfolding record_withdrawal get_lifetime_rewards
    record_withdrawal-adds = (
      rw (D.serialize_withdrawal_lem recorded, R.insert_succeeds),
      epoch_sum epoch [] (sym (append-nil (show epoch))),
      λ balance.
          ap (map_ok (λ total. (balance + total) % u64_limit)) (
            sum-record_withdrawal (codes "withdrawal:" ++ X.hex_encode stake_key)
              (codes ":" ++ (show epoch ++ (codes ":" ++ show slot))) (simp (append_assoc)))
          ∙ add_balance balance amount _,
    )

  -- A withdrawal of the epoch `epoch * 10 + digit`, which is not before epoch 10, is added to the sum
  -- of the epoch `epoch` too, where its key is new: the prefix of an epoch has no colon behind it.
  pub record_withdrawal-adds_to_earlier :
      (stake_key : Bytes) (epoch digit slot amount : ℕ) (tx_hash : Bytes) (r : RewardsTracker)
      → R.find r.withdrawals (withdrawal_key stake_key (epoch * 10 + digit) slot) ≡ none
      → 0 < epoch
      → digit < 10
      → (get_epoch_withdrawals stake_key epoch
          (record_withdrawal stake_key (epoch * 10 + digit) slot amount tx_hash r).1).0
        ≡ map_ok (λ s. (s + amount) % u64_limit) (get_epoch_withdrawals stake_key epoch r).0
  record_withdrawal-adds_to_earlier stake_key epoch digit slot amount tx_hash r fresh he hd =
      epoch_sum stake_key (epoch * 10 + digit) slot amount tx_hash r fresh epoch ((48 + digit) ∷ [])
        (show-digit epoch digit he hd)
