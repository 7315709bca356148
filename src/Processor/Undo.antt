-- ===== src/Processor/Undo.antt =====
-- What a rollback does to a map from keys to data: the keys of a list are removed, or the data of a
-- list comes back. `Progress` says that the work on a block can be undone in this way.
pub mod Steps
pub mod Forward
pub mod Restorable
pub mod Back
pub mod RoundTrip
pub mod Blocks
use hayate.Prelude.{
  ℕ, ◌+◌, ◌<◌, ◌≡◌, refl, sym, ap, ◌∙◌, Bool, true, false, Option, none, some, List, [], ◌∷◌, ◌++◌,
  arith, All, if◌then◌else◌, Bool-cases, inl, inr, ◌||◌,
}
use hayate.Prelude.Text.{Bytes, Text, text_eq}
use hayate.Externals.{Externals, Reliable}
use hayate.Storage.State.{NetworkStorage}
use hayate.Processor.State.{RollbackInfo, u64_mod}
use hayate.Processor.Ledger.{count, owner, worth, HasNoColon, IsConsistent, Parses}
use hayate.Processor.Transaction.Effects.{SameBlocks}

abbrev pub Entries : Type 0
Entries = Text → Option Bytes

abbrev pub change : Text → Option Bytes → Entries → Entries
change k o u j = if text_eq k j then o else u j

abbrev pub removed : List Text → Entries → Entries
removed [] u = u
removed (k ∷ ks) u = removed ks (change k none u)

abbrev pub restored : List (Text × Bytes × Bytes) → Entries → Entries
restored [] u = u
restored ((k, d, _) ∷ rest) u = restored rest (change k (some d) u)

abbrev pub listed : Text → List Text → Bool
listed j [] = false
listed j (k ∷ ks) = text_eq k j || listed j ks

pub listed-cons : (j k : Text) (ks : List Text) → listed j ks ≡ true → listed j (k ∷ ks) ≡ true
listed-cons j k ks h = ground arith

-- No key stands twice.
abbrev pub Distinct : List Text → Type 0
Distinct [] = Unit
Distinct (k ∷ ks) = (listed k ks ≡ false) × Distinct ks

pub Distinct-append : (ks js : List Text) → Distinct (ks ++ js) → Distinct js
Distinct-append [] js d = d
Distinct-append (k ∷ ks) js d = Distinct-append ks js d.1

pub removed-append_one :
    (ks : List Text) (k : Text) (u : Entries) (j : Text)
    → removed (ks ++ k ∷ []) u j ≡ change k none (removed ks u) j
removed-append_one [] k u j = refl
removed-append_one (x ∷ ks) k u j = removed-append_one ks k (change x none u) j

pub restored-append_one :
    (l : List (Text × Bytes × Bytes)) (k : Text) (d e : Bytes) (u : Entries) (j : Text)
    → restored (l ++ (k, d, e) ∷ []) u j ≡ change k (some d) (restored l u) j
restored-append_one [] k d e u j = refl
restored-append_one ((x, y, _) ∷ l) k d e u j = restored-append_one l k d e (change x (some y) u) j

-- Both look at one key at a time.
pub removed-at :
    (ks : List Text) (u v : Entries) (j : Text) → u j ≡ v j → removed ks u j ≡ removed ks v j
removed-at [] u v j h = h
removed-at (k ∷ ks) u v j h =
    removed-at ks (change k none u) (change k none v) j
      (ap (λ o. if text_eq k j then none else o) h)

pub restored-at :
    (l : List (Text × Bytes × Bytes)) (u v : Entries) (j : Text)
    → u j ≡ v j
    → restored l u j ≡ restored l v j
restored-at [] u v j h = h
restored-at ((k, d, _) ∷ l) u v j h =
    restored-at l (change k (some d) u) (change k (some d) v) j
      (ap (λ o. if text_eq k j then some d else o) h)

pub restored-none :
    (l : List (Text × Bytes × Bytes)) (u : Entries) (j : Text) → restored l u j ≡ none → u j ≡ none
restored-none [] u j h = h
restored-none ((k, d, _) ∷ l) u j h =
    let e = restored-none l (change k (some d) u) j h in ground arith

-- Where nothing comes back, the data that stands there stays.
pub restored-free :
    (l : List (Text × Bytes × Bytes)) (u v : Entries) (j : Text)
    → restored l u j ≡ none
    → restored l v j ≡ v j
restored-free [] u v j h = refl
restored-free ((k, d, _) ∷ l) u v j h = elim (Bool-cases (text_eq k j)) [
  | inl same ↦
      (let e = restored-none l (change k (some d) u) j h in absurd (let f = rw same at e in cc))
  | inr differ ↦ restored-free l (change k (some d) u) (change k (some d) v) j h ∙ rw differ
]

module _ ⦃X : Externals⦄ where
  -- The data of what a block has spent is JSON.
  abbrev pub AllParse : List (Text × Bytes × Bytes) → Type 0
  AllParse = All (λ (e : Text × Bytes × Bytes). Parses e.1 × Parses e.2)

  -- What comes back to an address.
  abbrev pub returned : Text → List (Text × Bytes × Bytes) → ℕ
  returned a [] = 0
  returned a ((_, d, _) ∷ rest) = worth a (some d) + returned a rest

  -- The data of a list can come back, one after another: each key is listed, and holds nothing.
  abbrev pub Restorable : List Text → Entries → List (Text × Bytes × Bytes) → Type 0
  Restorable ks u [] = Unit
  Restorable ks u ((k, d, _) ∷ rest) =
      ((u k ≡ none) × (count k ks ≡ 1) × ((b : Text) → owner d ≡ some b → HasNoColon b))
      × Restorable ks (change k (some d) u) rest

  -- A key that the block may still create: it is new to the storage and to the block.
  pub record IsFree (R : Reliable X) (ks : List Text) (s0 s : NetworkStorage) (info : RollbackInfo)
      (j : Text) : Type 0 where
    pub before : R.find s0.utxo_tree j ≡ none
    pub unspent_before : R.find s0.spent_utxo_index j ≡ none
    pub once : count j ks ≡ 1
    pub absent : R.find s.utxo_tree j ≡ none
    pub never_spent : restored info.utxos_spent (R.find s.utxo_tree) j ≡ none

  -- The storage `s` and the rollback information `info`, in the middle of a block that found the
  -- storage `s0`, where the keys `pending` may still be created with `coins` in all.
  pub record Progress (R : Reliable X) (ks : List Text) (s0 : NetworkStorage) (i0 : RollbackInfo)
      (pending : List Text) (coins : ℕ) (s : NetworkStorage) (info : RollbackInfo) : Type 0 where
    pub consistent : IsConsistent R ks s
    pub same : SameBlocks s0 s
    pub undo :
        (j : Text)
        → removed info.utxos_created (restored info.utxos_spent (R.find s.utxo_tree)) j
          ≡ R.find s0.utxo_tree j
    pub undo_spent :
        (j : Text)
        → removed info.spent_utxos_recorded (R.find s.spent_utxo_index) j
          ≡ R.find s0.spent_utxo_index j
    pub present :
        (j : Text) (d : Bytes)
        → R.find s.utxo_tree j ≡ some d
        → restored info.utxos_spent (R.find s.utxo_tree) j ≡ some d
    pub unspent :
        (j : Text) (d : Bytes) → R.find s.utxo_tree j ≡ some d → R.find s0.spent_utxo_index j ≡ none
    pub free : (j : Text) → listed j pending ≡ true → IsFree R ks s0 s info j
    pub room :
        (b : Text) → R.total s.balance_tree b + (returned b info.utxos_spent + coins) < u64_mod
    pub restorable : Restorable ks (R.find s.utxo_tree) info.utxos_spent
    pub parse : AllParse info.utxos_spent
    pub at_slot : info.slot ≡ i0.slot
    pub at_hash : info.block_hash ≡ i0.block_hash
    pub at_time : info.timestamp ≡ i0.timestamp
