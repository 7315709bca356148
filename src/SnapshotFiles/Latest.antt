-- ===== src/SnapshotFiles/Latest.antt =====
-- The latest snapshot of a directory.
use hayate.Prelude.{
  ℕ, ◌<◌, ◌≤◌, ◌≡◌, refl, subst, sym, ◌∙◌, Bool, true, false, ◌&&◌, Option, none, some, List, [],
  ◌∷◌, All, All-imp, All-and, Bool-cases, inl, inr, arith,
}
use hayate.Prelude.Text.{Text}
use hayate.Prelude.Decimal.{u64_limit}
use hayate.Prelude.Sorting.{sort, last, text_leb}
use hayate.Prelude.Sorting.Laws.{
  sort-All, All-sort, sort-IsSorted, sort-nil, last-greatest, All-last, last-none, text_leb_total,
  text_leb_trans, text_leb_refl,
}
use mathlib.Core.List.{Mem, mem-cons_self, mem-cons_of_mem}
use hayate.Result.{ok}
use hayate.FileSystem.{FileSystem, Readable}
use hayate.Storage.Snapshots.{snapshot_name}
use hayate.SnapshotTimer.{SnapshotManager}
use hayate.SnapshotFiles.{snapshots_dir, find_latest_snapshot}
use hayate.SnapshotFiles.Laws.{
  leb→le, text_leb-snapshot_name, is_snapshot, snapshots_in, collect-readable, IsCanonical,
}

-- The latest snapshot among the entries of a directory: none where no entry is one, else an entry
-- whose slot is at or after that of each.
abbrev pub IsLatest : List (Text × Bool) → Option Text → Type 0
IsLatest l none = All (λ e. is_snapshot e ≡ false) l
IsLatest l (some name) =
    (slot : ℕ) × (name ≡ snapshot_name slot)
    × Mem (name, true) l
    × All (λ e. is_snapshot e ≡ true → (k : ℕ) × (e.0 ≡ snapshot_name k) × (k ≤ slot)) l

module _ (P : Text → Type 0) where
  -- A property of the snapshots is one of every entry that is a snapshot.
  All-snapshots_in :
      (l : List (Text × Bool)) → All (λ e. is_snapshot e ≡ true → P e.0) l → All P (snapshots_in l)
  All-snapshots_in [] h = tt
  All-snapshots_in ((n, b) ∷ l) (p, h) = elim (Bool-cases (is_snapshot (n, b))) [
    | inl yea ↦ rw yea (p yea, All-snapshots_in l h)
    | inr nay ↦ rw nay (All-snapshots_in l h)
  ]

  snapshots_in-All :
      (l : List (Text × Bool)) → All P (snapshots_in l) → All (λ e. is_snapshot e ≡ true → P e.0) l
  snapshots_in-All [] h = tt
  snapshots_in-All ((n, b) ∷ l) h = elim (Bool-cases (is_snapshot (n, b))) [
    | inl yea ↦ let h' = rw yea at h in ((λ _. h'.0), snapshots_in-All l h'.1)
    | inr nay ↦ let h' = rw nay at h in ((λ yea. (cc)), snapshots_in-All l h')
  ]

snapshots_in-nil :
    (l : List (Text × Bool)) → snapshots_in l ≡ [] → All (λ e. is_snapshot e ≡ false) l
snapshots_in-nil [] h = tt
snapshots_in-nil ((n, b) ∷ l) h = elim (Bool-cases (is_snapshot (n, b))) [
  | inl yea ↦ (cc (rw yea at h))
  | inr nay ↦ (nay, snapshots_in-nil l (rw nay at h))
]

true_left : (a b : Bool) → (a && b) ≡ true → a ≡ true
true_left a b h = ground arith

snapshots_in-Mem : (l : List (Text × Bool)) → All (λ n. Mem (n, true) l) (snapshots_in l)
snapshots_in-Mem [] = tt
snapshots_in-Mem ((n, b) ∷ l) =
    let rest : All (λ m. Mem (m, true) ((n, b) ∷ l)) (snapshots_in l) =
      All-imp (λ m. Mem (m, true) l) _ (snapshots_in l) (λ m h. mem-cons_of_mem (n, b) h)
        (snapshots_in-Mem l) in
    elim (Bool-cases (is_snapshot (n, b))) [
      | inl yea ↦
          rw yea
            (subst (λ (c : Bool). Mem (n, c) ((n, b) ∷ l)) (true_left b _ yea) mem-cons_self, rest)
      | inr nay ↦ rw nay rest
    ]

slot-le :
    (x name : Text) (slot : ℕ)
    → (k : ℕ) × (x ≡ snapshot_name k) × (k < u64_limit)
    → name ≡ snapshot_name slot
    → slot < u64_limit
    → text_leb x name ≡ true
    → (k : ℕ) × (x ≡ snapshot_name k) × (k ≤ slot)
slot-le x name slot (k, ex, hk) en hs h =
    (k, ex, leb→le k slot (sym (text_leb-snapshot_name k slot hk hs) ∙ rw (← ex, ← en) h))

-- The last of the sorted snapshots is the latest.
last-IsLatest :
    (l : List (Text × Bool)) (o : Option Text)
    → All IsCanonical l
    → last (sort text_leb (snapshots_in l)) ≡ o
    → IsLatest l o
last-IsLatest l none canonical e =
    snapshots_in-nil l
      (sort-nil text_leb (snapshots_in l) (last-none (sort text_leb (snapshots_in l)) e))
last-IsLatest l (some name) canonical e =
    let P : Text → Type 0 = λ n. (slot : ℕ) × (n ≡ snapshot_name slot) × (slot < u64_limit) in
    let sorted = sort text_leb (snapshots_in l) in
    let named : All P (snapshots_in l) = All-snapshots_in P l canonical in
    let (slot, is_name, fits) =
      All-last P sorted name e (sort-All text_leb P (snapshots_in l) named) in
    let below : All (λ x. text_leb x name ≡ true) (snapshots_in l) =
      All-sort text_leb _ (snapshots_in l) (
        last-greatest text_leb text_leb_total text_leb_trans sorted name
          (sort-IsSorted text_leb text_leb_total text_leb_trans (snapshots_in l)) e
          text_leb_refl) in
    (
      slot,
      is_name,
      All-last _ sorted name e (sort-All text_leb _ (snapshots_in l) (snapshots_in-Mem l)),
      snapshots_in-All (λ n. (k : ℕ) × (n ≡ snapshot_name k) × (k ≤ slot)) l
          (All-imp (λ x. P x × (text_leb x name ≡ true)) _ (snapshots_in l)
            (λ x (named_x, h). slot-le x name slot named_x is_name fits h)
            (All-and P _ (snapshots_in l) named below)),
    )

module _ ⦃F : FileSystem⦄ (R : Readable F) (m : SnapshotManager) (tree_path : Text)
    (d : F.Disk) where
  -- Where the directory of the snapshots is there, and each of its directories whose name shows a
  -- slot has the name of the snapshot of that slot: the latest snapshot is found, and the disk is
  -- left as it is.
  pub find_latest_snapshot-IsLatest :
      F.path_exists (snapshots_dir tree_path) d ≡ true
      → All IsCanonical (R.entries (snapshots_dir tree_path) d)
      → (o : Option Text) × (find_latest_snapshot tree_path d ≡ (ok o, d))
        × IsLatest (R.entries (snapshots_dir tree_path) d) o
  unfolding find_latest_snapshot
  find_latest_snapshot-IsLatest there canonical =
      let l = R.entries (snapshots_dir tree_path) d in
      (
        last (sort text_leb (snapshots_in l)),
        rw (there, R.read_dir_lem _ d there, collect-readable l),
        last-IsLatest l _ canonical refl,
      )
