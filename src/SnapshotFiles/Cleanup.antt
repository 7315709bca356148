-- ===== src/SnapshotFiles/Cleanup.antt =====
-- The removal of old snapshots.
use hayate.Prelude.{
  ℕ, zero, suc, ◌-◌, ◌≡◌, refl, ap, sym, ◌∙◌, Bool, true, false, not, Option, List, [], ◌∷◌, All,
  leb, length, Bool-cases, inl, inr, min, unwrap_or, arith,
}
use hayate.Prelude.Text.{Text, text_eq, text_eq_refl, text_eq_sound}
use hayate.Prelude.Sorting.{sort, take, drop, filter, text_leb}
use hayate.Prelude.Sorting.Laws.{
  Pairwise, sort-Pairwise, length-sort, length-drop, filter-sort, text_leb_total, text_leb_trans,
}
use hayate.Result.{ok}
use hayate.FileSystem.{FileSystem, Readable, without, join}
use hayate.SnapshotTimer.{SnapshotManager}
use hayate.SnapshotFiles.{snapshots_dir, delete_all, delete_oldest, cleanup_old_snapshots}
use hayate.SnapshotFiles.Laws.{leb→le, is_snapshot, snapshots_in, collect-readable}

-- Names that are all different.
abbrev pub Distinct : List Text → Type 0
Distinct = Pairwise (λ x y. text_eq x y ≡ false)

names_without : Text → List Text → List Text
names_without n = filter (λ m. not (text_eq n m))

-- The names that are none of some others.
pub removed : List Text → List Text → List Text
removed [] xs = xs
removed (n ∷ ns) xs = removed ns (names_without n xs)

snapshots_in-without :
    (n : Text) (l : List (Text × Bool))
    → snapshots_in (without n l) ≡ names_without n (snapshots_in l)
unfolding names_without
snapshots_in-without n [] = refl
snapshots_in-without n ((m, b) ∷ l) = elim (Bool-cases (text_eq n m)) [
  | inl same ↦ elim (Bool-cases (is_snapshot (m, b))) [
    | inl yea ↦ rw (same, yea, same) (snapshots_in-without n l)
    | inr nay ↦ rw (same, nay) (snapshots_in-without n l)
  ]
  | inr differ ↦ elim (Bool-cases (is_snapshot (m, b))) [
    | inl yea ↦ rw (differ, yea, differ) (ap (λ x. m ∷ x) (snapshots_in-without n l))
    | inr nay ↦ rw (differ, nay) (snapshots_in-without n l)
  ]
]

sort-removed : (ns xs : List Text) → sort text_leb (removed ns xs) ≡ removed ns (sort text_leb xs)
unfolding removed names_without
sort-removed [] xs = refl
sort-removed (n ∷ ns) xs =
    sort-removed ns (names_without n xs)
    ∙ ap (removed ns) (sym (filter-sort text_leb text_leb_total text_leb_trans _ xs))

names_without_self :
    (x : Text) (xs : List Text) → All (λ y. text_eq x y ≡ false) xs → names_without x xs ≡ xs
unfolding names_without
names_without_self x [] h = refl
names_without_self x (y ∷ ys) (e, h) = rw e (ap (λ z. y ∷ z) (names_without_self x ys h))

drop_head :
    (x : Text) (xs : List Text) → All (λ y. text_eq x y ≡ false) xs → names_without x (x ∷ xs) ≡ xs
unfolding names_without
drop_head x xs fresh = rw (text_eq_refl x) (names_without_self x xs fresh)

removed-take : (k : ℕ) (xs : List Text) → Distinct xs → removed (take k xs) xs ≡ drop k xs
unfolding removed
removed-take zero xs h = refl
removed-take (suc k) [] h = refl
removed-take (suc k) (x ∷ xs) (fresh, h) =
    ap (removed (take k xs)) (drop_head x xs fresh) ∙ removed-take k xs h

pub text_eq_sym : (s t : Text) → text_eq s t ≡ false → text_eq t s ≡ false
text_eq_sym s t h = elim (Bool-cases (text_eq t s)) [
  | inl e ↦
      let same : text_eq s s ≡ false = rw (text_eq_sound t s e) at h in (cc (same, text_eq_refl s))
  | inr f ↦ f
]

sort-Distinct : (xs : List Text) → Distinct xs → Distinct (sort text_leb xs)
sort-Distinct xs h = sort-Pairwise text_leb _ text_eq_sym xs h

names_without-swap :
    (n m : Text) (xs : List Text)
    → names_without n (names_without m xs) ≡ names_without m (names_without n xs)
unfolding names_without
names_without-swap n m [] = refl
names_without-swap n m (x ∷ xs) = elim (Bool-cases (text_eq n x)) [
  | inl here ↦ elim (Bool-cases (text_eq m x)) [
    | inl too ↦ rw (here, too) (names_without-swap n m xs)
    | inr other ↦ rw (here, other, here) (names_without-swap n m xs)
  ]
  | inr away ↦ elim (Bool-cases (text_eq m x)) [
    | inl here ↦ rw (away, here) (names_without-swap n m xs)
    | inr other ↦ rw (away, other, away) (ap (λ l. x ∷ l) (names_without-swap n m xs))
  ]
]

names_without-removed :
    (n : Text) (ns xs : List Text)
    → removed ns (names_without n xs) ≡ names_without n (removed ns xs)
unfolding removed
names_without-removed n [] xs = refl
names_without-removed n (m ∷ ns) xs =
    ap (removed ns) (names_without-swap m n xs) ∙ names_without-removed n ns (names_without m xs)

module _ ⦃F : FileSystem⦄ (R : Readable F) where
  -- Each removal of the loop succeeds.
  unfoldable pub Removes : Text → List Text → F.Disk → Type 0
  Removes dir [] d = Unit
  Removes dir (n ∷ ns) d =
      ((F.remove_dir_all (join dir n) d).0 ≡ ok tt)
      × Removes dir ns (F.remove_dir_all (join dir n) d).1

  snapshots_in-delete_all :
      (dir : Text) (ns : List Text) (d : F.Disk)
      → Removes dir ns d
      → snapshots_in (R.entries dir (delete_all dir ns d))
        ≡ removed ns (snapshots_in (R.entries dir d))
  unfolding delete_all removed Removes
  snapshots_in-delete_all dir [] d h = refl
  snapshots_in-delete_all dir (n ∷ ns) d (h, hs) =
      snapshots_in-delete_all dir ns (F.remove_dir_all (join dir n) d).1 hs
      ∙ ap (removed ns) (
          ap snapshots_in (R.entries-remove_dir_all dir n d h)
          ∙ snapshots_in-without n (R.entries dir d))

  -- Whether the removals succeed or fail, the other snapshots stay.
  removed-delete_all :
      (dir : Text) (ns : List Text) (d : F.Disk)
      → removed ns (snapshots_in (R.entries dir (delete_all dir ns d)))
        ≡ removed ns (snapshots_in (R.entries dir d))
  unfolding delete_all removed
  removed-delete_all dir [] d = refl
  removed-delete_all dir (n ∷ ns) d =
      let d' = (F.remove_dir_all (join dir n) d).1 in
      names_without-removed n ns (snapshots_in (R.entries dir (delete_all dir ns d')))
      ∙ ap (names_without n) (removed-delete_all dir ns d')
      ∙ sym (names_without-removed n ns (snapshots_in (R.entries dir d')))
      ∙ ap (removed ns) (
          sym (snapshots_in-without n (R.entries dir d'))
          ∙ ap snapshots_in (R.others-remove_dir_all dir n d)
          ∙ snapshots_in-without n (R.entries dir d))

  module _ (m : SnapshotManager) (tree_path : Text) (keep_latest : Option ℕ) (d : F.Disk) where
    abbrev dir : Text
    dir = snapshots_dir tree_path

    abbrev before : List Text
    before = snapshots_in (R.entries dir d)

    cleanup_old_snapshots-run :
        F.path_exists dir d ≡ true
        → cleanup_old_snapshots m tree_path keep_latest d
          ≡ delete_oldest (unwrap_or keep_latest m.max_snapshots) dir before d
    unfolding cleanup_old_snapshots
    cleanup_old_snapshots-run there =
        rw (there, R.read_dir_lem _ d there, collect-readable (R.entries dir d))

    abbrev oldest : ℕ → List Text
    oldest keep = take (length before - keep) (sort text_leb before)

    sort-delete_oldest :
        (keep : ℕ)
        → Distinct before
        → Removes dir (oldest keep) d
        → sort text_leb (snapshots_in (R.entries dir (delete_oldest keep dir before d).1))
          ≡ drop (length before - keep) (sort text_leb before)
    unfolding delete_oldest
    sort-delete_oldest keep distinct succeed = elim (Bool-cases (leb (length before) keep)) [
      | inl few ↦
          (let zero_left : length before - keep ≡ 0 = omega (arith, leb→le _ _ few) in
            rw (few, zero_left))
      | inr many ↦ rw many (
          ap (sort text_leb) (snapshots_in-delete_all dir (oldest keep) d succeed)
          ∙ sort-removed (oldest keep) before
          ∙ removed-take (length before - keep) (sort text_leb before)
              (sort-Distinct before distinct))
    ]

    -- Without the oldest, the newest are left, also where removals fail.
    removed-delete_oldest :
        (keep : ℕ)
        → Distinct before
        → removed
            (oldest keep)
            (sort text_leb (snapshots_in (R.entries dir (delete_oldest keep dir before d).1)))
          ≡ drop (length before - keep) (sort text_leb before)
    unfolding delete_oldest
    removed-delete_oldest keep distinct =
        let newest =
          removed-take (length before - keep) (sort text_leb before)
            (sort-Distinct before distinct) in
        elim (Bool-cases (leb (length before) keep)) [
          | inl few ↦ rw few newest
          | inr many ↦ rw many (
              sym (sort-removed (oldest keep) _)
              ∙ ap (sort text_leb) (removed-delete_all dir (oldest keep) d)
              ∙ sort-removed (oldest keep) before
              ∙ newest)
        ]

    delete_oldest-ok : (keep : ℕ) → (delete_oldest keep dir before d).0 ≡ ok tt
    unfolding delete_oldest
    delete_oldest-ok keep = ground arith

    -- Where the directory of the snapshots is there and its snapshots have different names, the
    -- removal of old ones succeeds, also where directories cannot be removed. Of the sorted
    -- snapshots the last ones stay, as many as are to be kept, or all if there are fewer; beside
    -- them only older ones may be left.
    pub cleanup_old_snapshots-keeps_newest :
        F.path_exists (snapshots_dir tree_path) d ≡ true
        → Distinct (snapshots_in (R.entries (snapshots_dir tree_path) d))
        → let keep = unwrap_or keep_latest m.max_snapshots in
          let before = snapshots_in (R.entries (snapshots_dir tree_path) d) in
          let (r, d') = cleanup_old_snapshots m tree_path keep_latest d in
          let after = snapshots_in (R.entries (snapshots_dir tree_path) d') in
          (r ≡ ok tt)
          × (removed (take (length before - keep) (sort text_leb before)) (sort text_leb after)
              ≡ drop (length before - keep) (sort text_leb before))
    cleanup_old_snapshots-keeps_newest there distinct =
        let keep = unwrap_or keep_latest m.max_snapshots in
        rw (cleanup_old_snapshots-run there)
          (delete_oldest-ok keep, removed-delete_oldest keep distinct)

    -- Where the directory of the snapshots is there, its snapshots have different names, and each of
    -- the oldest can be removed, as many as there are more than to be kept, the removal leaves the
    -- newest, as many as are to be kept, or all if there are fewer, and no other.
    pub cleanup_old_snapshots-leaves_newest :
        F.path_exists (snapshots_dir tree_path) d ≡ true
        → Distinct (snapshots_in (R.entries (snapshots_dir tree_path) d))
        → Removes
            (snapshots_dir tree_path)
            (take
              (length (snapshots_in (R.entries (snapshots_dir tree_path) d))
                - unwrap_or keep_latest m.max_snapshots)
              (sort text_leb (snapshots_in (R.entries (snapshots_dir tree_path) d))))
            d
        → let keep = unwrap_or keep_latest m.max_snapshots in
          let before = snapshots_in (R.entries (snapshots_dir tree_path) d) in
          let d' = (cleanup_old_snapshots m tree_path keep_latest d).1 in
          let after = snapshots_in (R.entries (snapshots_dir tree_path) d') in
          (sort text_leb after ≡ drop (length before - keep) (sort text_leb before))
          × (length after ≡ min keep (length before))
    cleanup_old_snapshots-leaves_newest there distinct succeed =
        let keep = unwrap_or keep_latest m.max_snapshots in
        let newest = sort-delete_oldest keep distinct succeed in
        rw (cleanup_old_snapshots-run there) (
          newest,
          omega (
            arith,
            ap length newest,
            length-sort text_leb (snapshots_in (R.entries dir (delete_oldest keep dir before d).1)),
            length-drop (length before - keep) (sort text_leb before),
            length-sort text_leb before,
          ),
        )
