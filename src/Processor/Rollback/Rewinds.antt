-- ===== src/Processor/Rollback/Rewinds.antt =====
-- What `rollback_to` leaves behind, on every outcome.
use hayate.Prelude.{
  ℕ, ◌+◌, ◌-◌, ◌<◌, ◌≡◌, refl, ap, ◌⊎◌, inl, inr, true, false, some, List, [], ◌∷◌, ◌++◌, length,
  ltb, leb, ◌==◌, if◌then◌else◌, Bool-cases, arith,
}
use hayate.Result.{Error, Result, ok, err, Returns, continue}
use hayate.Externals.{Externals}
use hayate.Manager.{StorageManager}
use hayate.Handle
use hayate.Storage.State.{ChainTip}
use hayate.Processor.State.{RollbackInfo, BlockProcessor}
use hayate.Processor.Block.{store_wallet_tips}
use hayate.Processor.Rollback.{
  rollback_block, rollback_buffered, pop_blocks, rewind_tips, rollback_to,
}

Result-cases : {A : Type 0} (r : Result A) → ((a : A) × (r ≡ ok a)) ⊎ ((e : Error) × (r ≡ err e))
Result-cases (ok a) = inl (a, refl)
Result-cases (err e) = inr (e, refl)

-- The blocks of a buffer, newest first, from the first one on that is not after the target.
pub kept : ℕ → List RollbackInfo → List RollbackInfo
kept target [] = []
kept target (info ∷ rest) =
    let more = kept target rest in if ltb target info.slot then more else info ∷ rest

-- What is left of a buffer is its end.
abbrev pub IsEnd : List RollbackInfo → List RollbackInfo → Type 0
IsEnd buffer after = (front : List RollbackInfo) × (buffer ≡ front ++ after)

IsEnd-cons :
    (info : RollbackInfo) (buffer after : List RollbackInfo)
    → IsEnd buffer after
    → IsEnd (info ∷ buffer) after
IsEnd-cons info buffer after (front, e) = (info ∷ front, ap (λ l. info ∷ l) e)

kept-IsEnd : (target : ℕ) (buffer : List RollbackInfo) → IsEnd buffer (kept target buffer)
unfolding kept
kept-IsEnd target [] = ([], refl)
kept-IsEnd target (info ∷ rest) = elim (Bool-cases (ltb target info.slot)) [
  | inl later ↦ rw later (IsEnd-cons info rest _ (kept-IsEnd target rest))
  | inr before ↦ rw before ([], refl)
]

module _ ⦃X : Externals⦄ (target : ℕ) where
  -- The loop ends with the blocks that are kept and has counted the others, or fails in one of them.
  abbrev Popped : ℕ → List RollbackInfo → Result ℕ × List RollbackInfo × StorageManager → Type 0
  Popped count buffer (ok n, after, m) =
      (after ≡ kept target buffer) × (n + length after ≡ count + length buffer)
  Popped count buffer (err e, after, m) = IsEnd buffer after

  Popped-later :
      (count : ℕ) (info : RollbackInfo) (rest : List RollbackInfo)
      (out : Result ℕ × List RollbackInfo × StorageManager)
      → ltb target info.slot ≡ true
      → Popped (count + 1) rest out
      → Popped count (info ∷ rest) out
  unfolding kept
  Popped-later count info rest (ok n, after, m) later (e, sum) = (rw later e, omega (arith, sum))
  Popped-later count info rest (err e, after, m) later h = IsEnd-cons info rest after h

  rollback_buffered-Popped :
      (buffer : List RollbackInfo) (count : ℕ) (m : StorageManager)
      → Popped count buffer (rollback_buffered target count buffer m)
  unfolding rollback_buffered kept
  rollback_buffered-Popped [] count m = (refl, refl)
  rollback_buffered-Popped (info ∷ rest) count m = elim (Bool-cases (leb info.slot target)) [
    | inl before ↦
        (let e : ltb target info.slot ≡ false = ground arith in rw (before, e) (refl, refl))
    | inr after ↦
        (let later : ltb target info.slot ≡ true = ground arith in
          elim (Result-cases (rollback_block info m).0) [
            | inl (a, done) ↦
                rw (after, done)
                  (Popped-later count info rest _ later
                    (rollback_buffered-Popped rest (count + 1) (rollback_block info m).1))
            | inr (e, failed) ↦ rw (after, failed) (info ∷ [], refl)
          ])
  ]

  module _ (stored : ℕ) (p : BlockProcessor) where
    -- What is reported: how many blocks were taken off the buffer, or, where that is none, by how many
    -- slots the stored tip goes back.
    abbrev pub reported : ℕ
    reported =
        let popped = length p.rollback_buffer - length (kept target p.rollback_buffer) in
        if popped == 0 then stored - target else popped

    abbrev pub Rewinds : Result ℕ × BlockProcessor → Type 0
    Rewinds (ok n, p') =
        (n ≡ reported)
        × (p'.current_slot ≡ target)
        × (p'.rollback_buffer ≡ kept target p.rollback_buffer)
    Rewinds (err e, p') =
        (p'.current_slot ≡ p.current_slot) × IsEnd p.rollback_buffer p'.rollback_buffer

    rewind_tips-Rewinds :
        (n : ℕ) (m : StorageManager)
        → target < stored
        → n + length (kept target p.rollback_buffer) ≡ length p.rollback_buffer
        → Rewinds (
            rewind_tips target stored n
              (record p { rollback_buffer = kept target p.rollback_buffer; storage = m }))
    unfolding rewind_tips
    rewind_tips-Rewinds n m past sum =
        let tail = kept-IsEnd target p.rollback_buffer in
        let m' = (Handle.store_chain_tip target [] 0 m).1 in
        let e : ltb target stored ≡ true = ground arith in
        let popped : length p.rollback_buffer - length (kept target p.rollback_buffer) ≡ n =
          omega (arith, sum) in
        elim (Result-cases (Handle.store_chain_tip target [] 0 m).0) [
          | inr (_, failed) ↦ rw failed (refl, tail)
          | inl (_, done) ↦ elim (Result-cases (store_wallet_tips p.wallet_ids target [] 0 m').0) [
            | inr (_, failed) ↦ rw (done, failed) (refl, tail)
            | inl (_, too) ↦ rw (done, too) (rw (e, popped) (ground arith), refl, refl)
          ]
        ]

    after_pop-Rewinds :
        (out : Result ℕ × List RollbackInfo × StorageManager)
        → target < stored
        → Popped 0 p.rollback_buffer out
        → Rewinds (
            continue out.0
              (rewind_tips target stored)
              (record p { rollback_buffer = out.1; storage = out.2 }))
    after_pop-Rewinds (ok n, after, m) past (e, sum) =
        rw e (rewind_tips-Rewinds n m past (omega (arith, sum, ap length e)))
    after_pop-Rewinds (err e, after, m) past h = (refl, h)

  -- Where the stored tip is past the target, a rollback that succeeds sets the current slot to the
  -- target and leaves the blocks of its buffer from the first one on that is not after the target.
  -- It reports how many blocks it took off the buffer, or, where that is none, by how many slots
  -- the stored tip goes back. One that fails leaves the current slot and an end of the buffer.
  pub rollback_to-Rewinds :
      (tip : ChainTip) (p : BlockProcessor)
      → Returns Handle.get_chain_tip p.storage (some tip) p.storage
      → target < tip.slot
      → Rewinds tip.slot p (rollback_to target p)
  unfolding rollback_to pop_blocks
  rollback_to-Rewinds tip p stored past =
      let e : leb tip.slot target ≡ false = ground arith in
      rw (stored, e)
        (after_pop-Rewinds tip.slot p (rollback_buffered target 0 p.rollback_buffer p.storage) past
          (rollback_buffered-Popped p.rollback_buffer 0 p.storage))
