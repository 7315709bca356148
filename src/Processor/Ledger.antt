-- ===== src/Processor/Ledger.antt =====
-- The abstract view of the UTxO storage: a finite map from UTxO keys to data, what it holds for each
-- address, and when the balances and the address index agree with it.
pub mod Preserved
pub mod Queries
use hayate.Prelude.{
  ap, ◌-◌, ℕ, zero, suc, ◌+◌, ◌*◌, ◌≡◌, ◌≢◌, refl, Bool, true, false, Option, none, some, List, [],
  ◌∷◌, ◌++◌, All, arith, if◌then◌else◌, Bool-cases, inl, inr, unwrap_or,
}
use hayate.Prelude.Text.{Bytes, Text, text_eq, text_eq_iff, text_eq_sound}
use hayate.Json.{Json}
use hayate.Result.{ok}
use hayate.Externals.{Externals, Reliable}
use hayate.Storage.State.{NetworkStorage}
use hayate.Storage.Indexes.{entry_key, marker}
use hayate.Processor.Entry.{address_in, amount_in}

-- How often a key stands in a list.
abbrev pub count : Text → List Text → ℕ
count k [] = 0
count k (j ∷ ks) = (if text_eq k j then 1 else 0) + count k ks

-- An address that can be told from what follows it in an index entry.
abbrev pub HasNoColon : Text → Type 0
HasNoColon = All (λ c. c ≢ b':')

module _ ⦃X : Externals⦄ where
  open X use {from_slice}

  -- The address that stored data belongs to.
  abbrev pub owner : Bytes → Option Text
  owner d = address_in (from_slice d)

  abbrev pub worth_to : Text → Option Text → Option ℕ → ℕ
  worth_to a none n = 0
  worth_to a (some b) n = if text_eq b a then unwrap_or n 0 else 0

  -- What a UTxO, if there is one, is worth to an address.
  abbrev pub worth : Text → Option Bytes → ℕ
  worth a none = 0
  worth a (some d) = worth_to a (owner d) (amount_in (from_slice d))

  abbrev pub owned_by : Text → Option Text → Bool
  owned_by a none = false
  owned_by a (some b) = text_eq b a

  abbrev pub owns : Text → Option Bytes → Bool
  owns a none = false
  owns a (some d) = owned_by a (owner d)

  -- The sum of an address over the UTxOs of the keys of a list.
  abbrev pub held : Text → List Text → (Text → Option Bytes) → ℕ
  held a [] u = 0
  held a (k ∷ ks) u = worth a (u k) + held a ks u

  -- A change at one key changes the sum by the difference of its worth.
  pub held-update :
      (a k : Text) (o : Option Bytes) (ks : List Text) (u v : Text → Option Bytes)
      → ((j : Text) → v j ≡ (if text_eq k j then o else u j))
      → held a ks v + count k ks * worth a (u k) ≡ held a ks u + count k ks * worth a o
  held-update a k o [] u v h = omega arith
  held-update a k o (j ∷ ks) u v h = elim (Bool-cases (text_eq k j)) [
    | inl same ↦ rw same (
        omega (
          arith,
          held-update a k o ks u v h,
          ap (worth a) (let e : v j ≡ o = rw (h j, same) in e),
          ap (λ i. worth a (u i)) (text_eq_sound k j same),
        ))
    | inr differ ↦ rw differ (
        omega (
          arith,
          held-update a k o ks u v h,
          ap (worth a) (let e : v j ≡ u j = rw (h j, differ) in e),
        ))
  ]

  pub held-update_once :
      (a k : Text) (o : Option Bytes) (ks : List Text) (u v : Text → Option Bytes)
      → count k ks ≡ 1
      → ((j : Text) → v j ≡ (if text_eq k j then o else u j))
      → held a ks v + worth a (u k) ≡ held a ks u + worth a o
  held-update_once a k o ks u v once h =
      let e = held-update a k o ks u v h in omega (arith, rw once at e)

  -- Stored data that is JSON.
  abbrev pub Parses : Bytes → Type 0
  Parses d = (j : Json) × (from_slice d ≡ ok j)

  -- The balances and the address index agree with the UTxOs, whose keys are among `ks`.
  pub record IsConsistent (R : Reliable X) (ks : List Text) (s : NetworkStorage) : Type 0 where
    pub listed : (k : Text) (d : Bytes) → R.find s.utxo_tree k ≡ some d → count k ks ≡ 1
    pub clean :
        (k : Text) (d : Bytes) (b : Text)
        → R.find s.utxo_tree k ≡ some d
        → owner d ≡ some b
        → HasNoColon b
    pub readable : (k : Text) (d : Bytes) → R.find s.utxo_tree k ≡ some d → Parses d
    pub balanced : (a : Text) → R.total s.balance_tree a ≡ held a ks (R.find s.utxo_tree)
    pub indexed :
        (a k : Text)
        → HasNoColon a
        → R.find s.address_utxo_index (entry_key a k)
          ≡ (if owns a (R.find s.utxo_tree k) then some marker else none)

  abbrev pub is_entry_of : Option Text → Text → Text → Bool
  is_entry_of none k e = false
  is_entry_of (some b) k e = text_eq (entry_key b k) e

  -- The data `d` has come under the key `k`.
  pub record Adds (R : Reliable X) (k : Text) (d : Bytes) (s s' : NetworkStorage) : Type 0 where
    pub utxos :
        (j : Text) → R.find s'.utxo_tree j ≡ (if text_eq k j then some d else R.find s.utxo_tree j)
    pub balances :
        (a : Text) → R.total s'.balance_tree a ≡ R.total s.balance_tree a + worth a (some d)
    pub index :
        (e : Text)
        → R.find s'.address_utxo_index e
          ≡ (if is_entry_of (owner d) k e then some marker else R.find s.address_utxo_index e)

  -- The data `d` has gone from under the key `k`.
  pub record Drops (R : Reliable X) (k : Text) (d : Bytes) (s s' : NetworkStorage) : Type 0 where
    pub utxos :
        (j : Text) → R.find s'.utxo_tree j ≡ (if text_eq k j then none else R.find s.utxo_tree j)
    pub balances :
        (a : Text) → R.total s'.balance_tree a ≡ R.total s.balance_tree a - worth a (some d)
    pub index :
        (e : Text)
        → R.find s'.address_utxo_index e
          ≡ (if is_entry_of (owner d) k e then none else R.find s.address_utxo_index e)
