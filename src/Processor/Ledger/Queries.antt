-- ===== src/Processor/Ledger/Queries.antt =====
-- What the queries of the storage handle answer on a consistent storage.
use hayate.Prelude.{
  ◌≡◌, refl, sym, ap, ◌∙◌, ◌↔◌, Bool, true, none, some, List, is_some, if◌then◌else◌, arith,
}
use hayate.Prelude.Text.{Bytes, Text}
use hayate.Prelude.Utf8.{IsAscii}
use hayate.Result.{Returns}
use hayate.Externals.{Externals, Reliable}
use hayate.Storage.State.{NetworkStorage}
use hayate.Storage.Indexes.{entry_key, owner_prefix, members, marker, get_utxos_for_address}
use hayate.Storage.Indexes.Laws.{mem-members}
use hayate.Manager.{new, serve, execute, send}
use hayate.Handle
use hayate.Processor.Ledger.{HasNoColon, owns, held, IsConsistent}
use mathlib.Core.List.{Mem}

marked : (b : Bool) → (is_some {A = Bytes} (if b then some marker else none) ≡ true) ↔ (b ≡ true)
marked b = ground arith

module _ ⦃X : Externals⦄ (R : Reliable X) (ks : List Text) (s : NetworkStorage) where
  -- On a storage where the balances and the address index agree with the UTxOs, the balance of an
  -- address is the sum of the amounts of its UTxOs, and the query for the UTxOs of an address
  -- without a colon succeeds, changes nothing, and lists a key, both of ASCII characters, exactly
  -- where the storage has a UTxO of that address under the key.
  pub get_utxos_for_address-IsConsistent :
      (a : Text)
      → IsConsistent R ks s
      → HasNoColon a
      → Returns (Handle.get_balance a) (new s) (held a ks (R.find s.utxo_tree)) (new s)
        × ((l : List Text) × Returns (Handle.get_utxos_for_address a) (new s) l (new s)
            × ((k : Text)
                → IsAscii (entry_key a k)
                → Mem k l ↔ (owns a (R.find s.utxo_tree k) ≡ true)))
  unfolding Handle.get_utxos_for_address get_utxos_for_address send execute serve new
  get_utxos_for_address-IsConsistent a p clean = (
    rw (← p.balanced a) (Handle.Laws.get_balance-new R s a),
    (
      members (owner_prefix a) (X.scan_prefix s.address_utxo_index (owner_prefix a)),
      refl,
      λ k ascii.
          let there = mem-members R s.address_utxo_index a k ascii in
          let e = p.indexed a k clean in
          (
            λ m. (marked (owns a (R.find s.utxo_tree k))).0 (ap is_some (sym e) ∙ there.0 m),
            λ o. there.1 (ap is_some e ∙ (marked (owns a (R.find s.utxo_tree k))).1 o),
          ),
    ),
  )
