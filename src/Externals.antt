-- ===== src/Externals.antt =====
-- What the program takes from other crates: `cardano_lsm` (the trees), `serde_json`, `hex`, and
-- pallas (blocks, addresses, hashes). Each is a parameter of the model. `Reliable` states what the
-- program relies on where nothing fails: a tree is a map from keys to values.
use hayate.Prelude.{ℕ, ◌≡◌, ◌↔◌, Bool, Option, none, some, List, ◌++◌, ◌≤◌, ◌⊎◌, All, if◌then◌else◌}
use hayate.Prelude.Text.{Bytes, Text, text_eq}
use hayate.Result.{Result, ok, ⊤}
use hayate.Json.{Json, str_field, u64_field}
use hayate.Chain.{MultiEraBlock, Address}
use mathlib.Core.List.{Mem}

pub record Externals : Type 1 where
  -- `LsmTree`
  pub Tree : Type 0
  pub get : Tree → Bytes → Result (Option Bytes)
  pub insert : Tree → Bytes → Bytes → Result ⊤ × Tree
  pub delete : Tree → Bytes → Result ⊤ × Tree
  pub scan_prefix : Tree → Bytes → List (Bytes × Bytes)
  pub save_snapshot : Tree → Text → Text → Result ⊤ × Tree
  -- `MonoidalLsmTree<u64>`
  pub MonoidalTree : Type 0
  pub get_monoid : MonoidalTree → Bytes → Result ℕ
  pub insert_monoid : MonoidalTree → Bytes → ℕ → Result ⊤ × MonoidalTree
  -- `serde_json::to_vec` and `serde_json::from_slice`
  pub to_vec : Json → Result Bytes
  pub from_slice : Bytes → Result Json
  -- `hex::encode` and `hex::decode`
  pub hex_encode : Bytes → Text
  pub hex_decode : Text → Option Bytes
  -- `MultiEraBlock::decode`, `Address::from_bytes`, and Blake2b-256
  pub decode_block : Bytes → Option MultiEraBlock
  pub parse_address : Bytes → Option Address
  pub blake2b_256 : Bytes → Bytes
  -- `SnapshotManager::cleanup_old_snapshots` on the directory of a tree: true when it succeeds
  pub cleanup_directory : Text → ℕ → Bool

-- The characters of `hex::encode`: `0` to `9` and `a` to `f`.
abbrev pub IsHexDigit : ℕ → Type 0
IsHexDigit c = (48 ≤ c) × (c ≤ 57) ⊎ (97 ≤ c) × (c ≤ 102)

pub record Reliable (X : Externals) : Type 0 where
  -- a tree is a map, and its operations succeed
  pub find : X.Tree → Bytes → Option Bytes
  pub get_lem : (t : X.Tree) (k : Bytes) → X.get t k ≡ ok (find t k)
  pub insert_succeeds : (t : X.Tree) (k v : Bytes) → (X.insert t k v).0 ≡ ok tt
  pub find-insert :
      (t : X.Tree) (k v j : Bytes)
      → find (X.insert t k v).1 j ≡ (if text_eq k j then some v else find t j)
  pub delete_succeeds : (t : X.Tree) (k : Bytes) → (X.delete t k).0 ≡ ok tt
  pub find-delete :
      (t : X.Tree) (k j : Bytes)
      → find (X.delete t k).1 j ≡ (if text_eq k j then none else find t j)
  pub mem-scan_prefix :
      (t : X.Tree) (p k v : Bytes)
      → Mem (k, v) (X.scan_prefix t p) ↔ ((find t k ≡ some v) × ((r : Bytes) × (k ≡ p ++ r)))
  pub save_succeeds : (t : X.Tree) (n l : Text) → (X.save_snapshot t n l).0 ≡ ok tt
  pub find-save_snapshot :
      (t : X.Tree) (n l : Text) (k : Bytes) → find (X.save_snapshot t n l).1 k ≡ find t k
  -- a monoidal tree holds a number for each key
  pub total : X.MonoidalTree → Bytes → ℕ
  pub get_monoid_lem : (t : X.MonoidalTree) (k : Bytes) → X.get_monoid t k ≡ ok (total t k)
  pub insert_monoid_succeeds :
      (t : X.MonoidalTree) (k : Bytes) (n : ℕ) → (X.insert_monoid t k n).0 ≡ ok tt
  pub total-insert :
      (t : X.MonoidalTree) (k : Bytes) (n : ℕ) (j : Bytes)
      → total (X.insert_monoid t k n).1 j ≡ (if text_eq k j then n else total t j)
  -- a JSON value is written, and read back with the same text and number fields
  pub written : Json → Bytes
  pub reread : Json → Json
  pub to_vec_lem : (j : Json) → X.to_vec j ≡ ok (written j)
  pub from_slice-written : (j : Json) → X.from_slice (written j) ≡ ok (reread j)
  pub str_field-reread : (k : Text) (j : Json) → str_field k (reread j) ≡ str_field k j
  pub u64_field-reread : (k : Text) (j : Json) → u64_field k (reread j) ≡ u64_field k j
  -- hexadecimal is read back
  pub hex_decode-encode : (b : Bytes) → X.hex_decode (X.hex_encode b) ≡ some b
  pub All-hex_encode : (b : Bytes) → All IsHexDigit (X.hex_encode b)
