-- ===== src/BlockWalker/Laws.antt =====
-- Where the walk ends, from what the storage holds for each block.
use hayate.Prelude.{
  ℕ, zero, suc, ◌<◌, ◌≡◌, ap, refl, ◌⊎◌, inl, inr, Option, none, some, [], Option-cases, ◌==◌,
  false, arith,
}
use hayate.Prelude.Text.{Bytes}
use hayate.Result.{Result, ok, err, block_not_found, target_not_found}
use hayate.Externals.{Externals}
use hayate.Storage.State.{BlockMetadata}
use hayate.Manager.{StorageManager}
use hayate.Handle.{get_block_metadata}
use hayate.BlockWalker.{Point, round_at, arrive, walk, walk_from, walk_back_n_blocks}

-- `g` is the n-th ancestor of `h` by the previous hashes of the metadata.
pub data Ancestor (stored : Bytes → Option BlockMetadata) : ℕ → Bytes → Bytes → Type 0 where
  here : (h : Bytes) → Ancestor stored 0 h h
  back :
      (n slot timestamp : ℕ) (h p g : Bytes)
      → stored h ≡ some (slot, timestamp, some p)
      → Ancestor stored n p g
      → Ancestor stored (suc n) h g

suc-is_zero : (n : ℕ) → (suc n == 0) ≡ false
suc-is_zero n = ground arith

module _ ⦃X : Externals⦄ (stored : Bytes → Option BlockMetadata) where
  open X use {hex_encode}

  -- The walk over `n` blocks stops at the `k`-th ancestor `g`: the target itself, a target that is
  -- not stored, the first block of the chain, or a block before the target that is not stored.
  abbrev pub Stops : ℕ → ℕ → Bytes → Result (ℕ × Bytes) → Type 0
  Stops n k g r =
      (k ≡ n)
        × ((slot timestamp : ℕ) × (p : Option Bytes) × (stored g ≡ some (slot, timestamp, p))
            × (r ≡ ok (slot, g)))
      ⊎ (k ≡ n) × (stored g ≡ none) × (r ≡ err (target_not_found (hex_encode g)))
      ⊎ (k < n)
        × ((slot timestamp : ℕ) × (stored g ≡ some (slot, timestamp, none)))
        × (r ≡ ok (0, []))
      ⊎ (k < n) × (stored g ≡ none) × (r ≡ err (block_not_found (hex_encode g)))

  -- What a walk from `h` returns, and that it leaves the manager as it is.
  abbrev pub Walks : ℕ → Bytes → StorageManager → Result (ℕ × Bytes) × StorageManager → Type 0
  Walks n h m out = (k : ℕ) × (g : Bytes) × Ancestor stored k h g × Stops n k g out.0 × (out.1 ≡ m)

  module _ (m : StorageManager)
      (read : (h : Bytes) → get_block_metadata h m ≡ (ok (stored h), m)) where
    Walks-further :
        (n slot timestamp : ℕ) (h p : Bytes) (out : Result (ℕ × Bytes) × StorageManager)
        → stored h ≡ some (slot, timestamp, some p)
        → Walks n p m out
        → Walks (suc n) h m out
    Walks-further n slot timestamp h p out e (k, g, a, stops, same) = (
      suc k,
      g,
      Ancestor.back k slot timestamp h p g e a,
      elim stops [
        | inl (q, rest) ↦ inl (ap suc q, rest)
        | inr (inl (q, u, v)) ↦ inr (inl (ap suc q, u, v))
        | inr (inr (inl (q, u, v))) ↦ inr (inr (inl (omega arith, u, v)))
        | inr (inr (inr (q, u, v))) ↦ inr (inr (inr (omega arith, u, v)))
      ],
      same,
    )

    -- A walk of one block whose metadata names the previous block.
    walk-Walks_last :
        (n slot timestamp : ℕ) (h p : Bytes)
        → stored h ≡ some (slot, timestamp, some p)
        → Walks 1 h m (walk n 1 h m)
    unfolding walk round_at arrive
    walk-Walks_last n slot timestamp h p e = elim (Option-cases (stored p)) [
      | inl gone ↦ (
        1,
        p,
        Ancestor.back 0 slot timestamp h p p e (Ancestor.here p),
        inr (inl (refl, gone, rw (read h, e, read p, gone))),
        rw (read h, e, read p, gone),
      )
      | inr ((s, t, q), there) ↦ (
        1,
        p,
        Ancestor.back 0 slot timestamp h p p e (Ancestor.here p),
        inl (refl, (s, t, q, there, rw (read h, e, read p, there))),
        rw (read h, e, read p, there),
      )
    ]

    -- The round at a block whose metadata names the previous block goes on there.
    walk-suc :
        (n left slot timestamp : ℕ) (h p : Bytes)
        → stored h ≡ some (slot, timestamp, some p)
        → walk n (suc (suc left)) h m ≡ walk n (suc left) p m
    unfolding walk round_at
    walk-suc n left slot timestamp h p e = rw (read h, e, suc-is_zero left)

    -- The round at a block that is not stored, or that is the first of the chain.
    walk-none :
        (n left : ℕ) (h : Bytes)
        → stored h ≡ none
        → walk n (suc left) h m ≡ (err (block_not_found (hex_encode h)), m)
    unfolding walk round_at
    walk-none n left h e = rw (read h, e)

    walk-first :
        (n left slot timestamp : ℕ) (h : Bytes)
        → stored h ≡ some (slot, timestamp, none)
        → walk n (suc left) h m ≡ (ok (0, []), m)
    unfolding walk round_at
    walk-first n left slot timestamp h e = rw (read h, e)

    walk-Walks :
        (n left : ℕ) (h : Bytes) (o : Option BlockMetadata)
        → stored h ≡ o
        → Walks (suc left) h m (walk n (suc left) h m)
    walk-Walks n left h none e =
        rw (walk-none n left h e)
          (0, h, Ancestor.here h, inr (inr (inr (omega arith, e, refl))), refl)
    walk-Walks n left h (some (slot, timestamp, none)) e =
        rw (walk-first n left slot timestamp h e)
          (0, h, Ancestor.here h, inr (inr (inl (omega arith, (slot, timestamp, e), refl))), refl)
    walk-Walks n zero h (some (slot, timestamp, some p)) e = walk-Walks_last n slot timestamp h p e
    walk-Walks n (suc left) h (some (slot, timestamp, some p)) e =
        rw (walk-suc n left slot timestamp h p e)
          (Walks-further (suc left) slot timestamp h p _ e (walk-Walks n left p (stored p) refl))

    walk_back_n_blocks-walk :
        (n slot : ℕ) (h : Bytes)
        → walk_back_n_blocks (ok tt) (ok (Point.specific slot h)) (suc n) m
          ≡ walk (suc n) (suc n) h m
    unfolding walk_back_n_blocks walk_from
    walk_back_n_blocks-walk n slot h = rw (suc-is_zero n)

    -- Where the node can be reached, its tip is the block `h`, the manager answers for every block
    -- with the metadata that it holds, and at least one block is asked for: the walk leaves the
    -- manager as it is and ends at an ancestor of `h`. It returns the slot and the hash of the
    -- n-th ancestor if that is stored. Otherwise it returns the origin if a nearer ancestor, or `h`
    -- itself, has no previous hash, or fails with the hash of the first ancestor that is not stored.
    pub walk_back_n_blocks-Walks :
        (n slot : ℕ) (h : Bytes)
        → 0 < n
        → Walks n h m (walk_back_n_blocks (ok tt) (ok (Point.specific slot h)) n m)
    walk_back_n_blocks-Walks zero slot h positive = elim positive [ ]
    walk_back_n_blocks-Walks (suc n) slot h positive =
        rw (walk_back_n_blocks-walk n slot h) (walk-Walks (suc n) n h (stored h) refl)
