-- ===== src/Storage/Tips/Laws.antt =====
-- The tips and the block metadata of `NetworkStorage` are read back as they were stored, and the
-- least wallet tip is the least.
use hayate.Prelude.{
  ℕ, ◌≤◌, ◌≡◌, refl, sym, ◌∙◌, Option, none, some, List, [], ◌∷◌, arith, if◌then◌else◌, ltb, All,
  Bool-cases, Option-cases, inl, inr,
}
use hayate.Prelude.Text.{Bytes, Text, text_eq, text_eq_refl, codes}
use hayate.Result.{ok, Returns}
use hayate.Externals.{Externals, Reliable}
use mathlib.Core.List.Memᴰ as Memᴰ
use mathlib.Core.List.{Memᴰ, Mem, mem-cons_self, mem-cons_of_mem}
use mathlib.Core.Logic.{∥∥₁_map}
use hayate.Storage.State.{ChainTip, NetworkStorage}
use hayate.Storage.Tips.{
  tip_data, current_tip, wallet_tip_key, store_tip, get_tip, store_chain_tip, get_chain_tip,
  store_wallet_tip, get_wallet_tip, lower_tip, min_tip_from, get_min_wallet_tip,
  store_block_metadata, get_block_metadata, delete_block_metadata,
}

-- A tip as it is read.
abbrev pub tip : ℕ → Bytes → ℕ → ChainTip
tip slot hash timestamp = record { height = 0; slot = slot; hash = hash; timestamp = timestamp }

-- A member of a list stays one when an element comes second.
mem-cons_second : {v x y : Text} {l : List Text} → Mem v (x ∷ l) → Mem v (x ∷ y ∷ l)
mem-cons_second {v} {x} {y} {l} h =
    ∥∥₁_map {B = Memᴰ v (x ∷ y ∷ l)} h
      λ d. elim (Memᴰ.cases_cons d) [ inl e ↦ Memᴰ.head e | inr m ↦ Memᴰ.tail (Memᴰ.tail m) ]

module _ ⦃X : Externals⦄ (R : Reliable X) where
  module _ (key : Text) (slot : ℕ) (hash : Bytes) (timestamp : ℕ) (s : NetworkStorage) where
    -- The storage with a tip.
    abbrev with_tip : NetworkStorage
    with_tip = record s {
      chain_tip_tree = (X.insert s.chain_tip_tree key (R.written (tip_data slot hash timestamp))).1;
    }

    store_tip_lem : store_tip key slot hash timestamp s ≡ (ok tt, with_tip)
    unfolding store_tip
    store_tip_lem = rw (R.to_vec_lem, R.insert_succeeds)

    get_tip-with_tip :
        (j : Text)
        → (get_tip j with_tip).0
          ≡ (if text_eq key j then ok (some (tip slot hash timestamp)) else (get_tip j s).0)
    unfolding get_tip text_eq
    get_tip-with_tip j = elim (Bool-cases (text_eq key j)) [
      | inl same ↦
          (rw (
            R.get_lem,
            R.find-insert,
            same,
            R.from_slice-written,
            R.str_field-reread,
            R.u64_field-reread (codes "slot"),
            R.u64_field-reread (codes "timestamp"),
            R.hex_decode-encode,
          ))
      | inr differ ↦ rw (R.get_lem, R.find-insert, differ, R.get_lem)
    ]

  module _ (slot : ℕ) (hash : Bytes) (timestamp : ℕ) (s : NetworkStorage) where
    -- Storing the chain tip succeeds; the chain tip is then read back with the slot, the hash and
    -- the timestamp that were stored, and the tip of every wallet is read as before.
    pub get_tips-store_chain_tip :
        let (r, s') = store_chain_tip slot hash timestamp s in
        (r ≡ ok tt)
        × ((get_chain_tip s').0 ≡ ok (some (tip slot hash timestamp)))
        × ((w : Text) → (get_wallet_tip w s').0 ≡ (get_wallet_tip w s).0)
    unfolding store_chain_tip get_chain_tip get_wallet_tip text_eq
    get_tips-store_chain_tip = rw (store_tip_lem current_tip slot hash timestamp s) (
      refl,
      get_tip-with_tip current_tip slot hash timestamp s current_tip,
      λ w. get_tip-with_tip current_tip slot hash timestamp s (wallet_tip_key w),
    )

    -- Storing the tip of a wallet succeeds; the tip is then read back for that wallet, and the tip
    -- of every other wallet and the chain tip are read as before.
    pub get_tips-store_wallet_tip :
        (wallet : Text)
        → let (r, s') = store_wallet_tip wallet slot hash timestamp s in
          (r ≡ ok tt)
          × ((w : Text)
              → (get_wallet_tip w s').0 ≡ (
                  if text_eq wallet w
                  then ok (some (tip slot hash timestamp))
                  else (get_wallet_tip w s).0))
          × ((get_chain_tip s').0 ≡ (get_chain_tip s).0)
    unfolding store_wallet_tip get_chain_tip get_wallet_tip text_eq
    get_tips-store_wallet_tip wallet =
        rw (store_tip_lem (wallet_tip_key wallet) slot hash timestamp s) (
          refl,
          λ w. get_tip-with_tip (wallet_tip_key wallet) slot hash timestamp s (wallet_tip_key w),
          get_tip-with_tip (wallet_tip_key wallet) slot hash timestamp s current_tip,
        )

  get_block_metadata-stored :
      (h : Bytes) (slot timestamp : ℕ) (p : Option Bytes) (s : NetworkStorage) (j : Bytes)
      → (get_block_metadata j (store_block_metadata h slot timestamp p s).1).0
        ≡ (if text_eq h j then ok (some (slot, timestamp, p)) else (get_block_metadata j s).0)
  unfolding store_block_metadata get_block_metadata text_eq
  get_block_metadata-stored h slot timestamp none s j = elim (Bool-cases (text_eq h j)) [
    | inl same ↦
        (rw (
          R.to_vec_lem,
          R.get_lem,
          R.find-insert,
          same,
          R.from_slice-written,
          R.str_field-reread,
          R.u64_field-reread (codes "slot"),
          R.u64_field-reread (codes "timestamp"),
        ))
    | inr differ ↦ rw (R.to_vec_lem, R.get_lem, R.find-insert, differ, R.get_lem)
  ]
  get_block_metadata-stored h slot timestamp (some b) s j = elim (Bool-cases (text_eq h j)) [
    | inl same ↦
        (rw (
          R.to_vec_lem,
          R.get_lem,
          R.find-insert,
          same,
          R.from_slice-written,
          R.str_field-reread,
          R.u64_field-reread (codes "slot"),
          R.u64_field-reread (codes "timestamp"),
          R.hex_decode-encode,
        ))
    | inr differ ↦ rw (R.to_vec_lem, R.get_lem, R.find-insert, differ, R.get_lem)
  ]

  -- Block metadata is read back for the hash that it was stored under, also without a previous
  -- hash, and for other hashes as before; after a deletion there is none.
  pub get_block_metadata-store_block_metadata :
      (h : Bytes) (slot timestamp : ℕ) (prev_hash : Option Bytes) (s : NetworkStorage)
      → let (r, s') = store_block_metadata h slot timestamp prev_hash s in
        (r ≡ ok tt)
        × ((j : Bytes)
            → (get_block_metadata j s').0 ≡ (
                if text_eq h j
                then ok (some (slot, timestamp, prev_hash))
                else (get_block_metadata j s).0))
        × ((get_block_metadata h (delete_block_metadata h s').1).0 ≡ ok none)
  unfolding store_block_metadata get_block_metadata delete_block_metadata text_eq
  get_block_metadata-store_block_metadata h slot timestamp prev_hash s = (
    rw (R.to_vec_lem, R.insert_succeeds),
    get_block_metadata-stored h slot timestamp prev_hash s,
    rw (R.to_vec_lem, R.get_lem, R.find-delete, text_eq_refl h),
  )

module _ ⦃X : Externals⦄ (s : NetworkStorage) (tips : Text → Option ChainTip) where
  -- `m` is the least of the tips of some wallets: none where a wallet has no tip, else a tip of one
  -- of them at or below those of all.
  abbrev pub IsLeast : Option ChainTip → List Text → Type 0
  IsLeast none ws = (w : Text) × Mem w ws × (tips w ≡ none)
  IsLeast (some t) ws =
      All (λ (w : Text). (u : ChainTip) × (tips w ≡ some u) × (t.slot ≤ u.slot)) ws
      × ((w : Text) × Mem w ws × (tips w ≡ some t))

  -- The loop, from the least tip of the wallets before, `done` among them.
  min_tip_from-IsLeast :
      ((w : Text) → Returns (get_wallet_tip w) s (tips w) s)
      → (ws : List Text) (least : ChainTip) (done : Text) → tips done ≡ some least
      → (m : Option ChainTip) × Returns (min_tip_from (some least) ws) s m s × IsLeast m (done ∷ ws)
  unfolding min_tip_from lower_tip
  min_tip_from-IsLeast h [] least done e =
      (some least, refl, (((least, e, omega arith), tt), (done, mem-cons_self, e)))
  min_tip_from-IsLeast h (w ∷ ws) least done e = elim (Option-cases (tips w)) [
    | inl missing ↦ (none, rw (h w, missing), (w, mem-cons_of_mem done mem-cons_self, missing))
    | inr (t, has) ↦ elim (Bool-cases (ltb t.slot least.slot)) [
      | inl below ↦
          (let (m, r, q) = min_tip_from-IsLeast h ws t w has in
            (m, rw (h w, has, below) r, widen m ws w done t least has e (ground arith) q))
      | inr above ↦
          (let (m, r, q) = min_tip_from-IsLeast h ws least done e in
            (m, rw (h w, has, above) r, insert m ws w done t least has e (ground arith) q))
    ]
  ]
    where
      -- The least of `w ∷ ws`, where `done` has a greater tip.
      widen :
          (m : Option ChainTip) (ws : List Text) (w done : Text) (t least : ChainTip)
          → tips w ≡ some t
          → tips done ≡ some least
          → t.slot ≤ least.slot
          → IsLeast m (w ∷ ws)
          → IsLeast m (done ∷ w ∷ ws)
      widen none ws w done t least has e le (v, at, gone) = (v, mem-cons_of_mem done at, gone)
      widen (some x) ws w done t least has e le (((u, f, below), all), (v, at, here)) =
          let g : u ≡ t = (let k = sym f ∙ has in cc) in
          let i : u.slot ≤ least.slot = rw g le in
          (
            ((least, e, omega (arith, i, below)), ((u, f, below), all)),
            (v, mem-cons_of_mem done at, here),
          )

      -- The least of `done ∷ ws`, where `w` has a greater tip.
      insert :
          (m : Option ChainTip) (ws : List Text) (w done : Text) (t least : ChainTip)
          → tips w ≡ some t
          → tips done ≡ some least
          → least.slot ≤ t.slot
          → IsLeast m (done ∷ ws)
          → IsLeast m (done ∷ w ∷ ws)
      insert none ws w done t least has e le (v, at, gone) = (v, mem-cons_second at, gone)
      insert (some x) ws w done t least has e le (((u, f, below), all), (v, at, here)) =
          let g : u ≡ least = (let k = sym f ∙ e in cc) in
          let i : u.slot ≤ t.slot = rw g le in
          (((u, f, below), ((t, has, omega (arith, i, below)), all)), (v, mem-cons_second at, here))

  -- Where the tip of every wallet can be read, `get_min_wallet_tip` on at least one wallet succeeds
  -- without changing the storage: it returns none if one of the wallets has no tip, and otherwise
  -- the tip of one of them whose slot is at or below the slot of each.
  pub get_min_wallet_tip-IsLeast :
      ((w : Text) → Returns (get_wallet_tip w) s (tips w) s)
      → (w : Text) (ws : List Text)
      → (m : Option ChainTip) × Returns (get_min_wallet_tip (w ∷ ws)) s m s × IsLeast m (w ∷ ws)
  unfolding get_min_wallet_tip min_tip_from lower_tip
  get_min_wallet_tip-IsLeast h w ws = elim (Option-cases (tips w)) [
    | inl missing ↦ (none, rw (h w, missing), (w, mem-cons_self, missing))
    | inr (t, has) ↦ (let (m, r, q) = min_tip_from-IsLeast h ws t w has in (m, rw (h w, has) r, q))
  ]
