-- ===== src/Storage/Open/Laws.antt =====
-- Which snapshot a tree is restored from.
use hayate.Prelude.{
  ◌≡◌, ◌≢◌, ◌⊎◌, refl, ap, sym, ◌∙◌, subst, true, false, none, some, List, [], ◌∷◌, All, All-imp,
  All-and, Option-cases, inl, inr,
}
use hayate.Prelude.Text.{Text, codes, text_eq, text_eq_refl}
use hayate.Prelude.Sorting.{sort, reverse, text_leb}
use hayate.Prelude.Sorting.Laws.{
  IsDescending, sort-All, All-sort, sort-IsSorted, sort-Pairwise, reverse-IsDescending, reverse-All,
  All-reverse, reverse-Pairwise, text_leb_total, text_leb_trans, text_leb_refl,
}
use mathlib.Core.Logic.Or
use mathlib.Core.List.{
  Mem, Mem-prop, not-mem-nil, eq-or-mem_of_mem-cons, mem-cons_self, mem-cons_of_mem,
}
use hayate.Result.{Result, ok}
use hayate.Externals.{Externals}
use hayate.FileSystem.{FileSystem, TreeFiles, Sound, join}
use hayate.SnapshotFiles.Cleanup.{Distinct, text_eq_sym}
use hayate.Storage.Open.{try_snapshot, try_snapshots, open_lsm_tree_with_snapshot}

All-self : (xs : List Text) → All (λ x. Mem x xs) xs
All-self [] = tt
All-self (x ∷ xs) =
    (mem-cons_self, All-imp (λ y. Mem y xs) _ xs (λ y h. mem-cons_of_mem x h) (All-self xs))

-- A member of a list whose elements are members of another.
Mem-All : (ns xs : List Text) (x : Text) → Mem x xs → All (λ n. Mem n ns) xs → Mem x ns
Mem-All ns [] x m h = absurd (not-mem-nil m)
Mem-All ns (y ∷ ys) x m (p, h) =
    Or.elim Mem-prop (eq-or-mem_of_mem-cons m) (λ e. subst (λ (z : Text). Mem z ns) (sym e) p)
      (λ m'. Mem-All ns ys x m' h)

module _ ⦃X : Externals⦄ ⦃F : FileSystem⦄ ⦃L : TreeFiles X F⦄ (S : Sound X F L) (path : Text) where
  try_snapshot-sound :
      (name : Text) (d : F.Disk) (t : X.Tree)
      → S.sound path name d ≡ some t
      → try_snapshot path name d ≡ (ok (some t), d)
  unfolding try_snapshot
  try_snapshot-sound name d t h =
      let (s, loads, valid, opens) = S.opens path name d t h in rw (loads, valid, opens)

  -- A snapshot that is not sound is passed by, and the others are as sound as before.
  try_snapshot-unsound :
      (name : Text) (d : F.Disk)
      → S.sound path name d ≡ none
      → (d' : F.Disk) × (try_snapshot path name d ≡ (ok none, d'))
        × ((other : Text) → name ≢ other → S.sound path other d' ≡ S.sound path other d)
  unfolding try_snapshot
  try_snapshot-unsound name d h = elim (S.fails path name d h) [
    | inl (e, no_load) ↦ (
      (F.remove_dir_all (join (join path (codes "snapshots")) name) d).1,
      rw no_load,
      λ other differ. S.sound-remove_dir_all path name other d differ,
    )
    | inr (s, loads, inl (e, invalid)) ↦ (
      (L.delete_snapshot s d).1,
      rw (loads, invalid),
      λ other differ. S.sound-delete_snapshot path name other s d loads differ,
    )
    | inr (s, loads, inr (e, valid, no_open)) ↦ (
      (L.delete_snapshot s d).1,
      rw (loads, valid, no_open),
      λ other differ. S.sound-delete_snapshot path name other s d loads differ,
    )
  ]

  -- What is opened, from the snapshots `names` that were sound on the disk `d`: the tree of one that
  -- is sound, where each later one is not; or a tree without a snapshot, where none is sound.
  abbrev pub Restores : List Text → F.Disk → Result X.Tree × F.Disk → Type 0
  Restores names d out =
      ((name : Text) × (t : X.Tree) × Mem name names
        × (S.sound path name d ≡ some t)
        × All (λ m. (text_leb m name ≡ true) ⊎ (S.sound path m d ≡ none)) names
        × (out.0 ≡ ok t))
      ⊎ All (λ m. S.sound path m d ≡ none) names × ((d' : F.Disk) × (out ≡ L.open_tree path d'))

  Restores-cons :
      (x : Text) (l : List Text) (d : F.Disk) (out : Result X.Tree × F.Disk)
      → S.sound path x d ≡ none
      → Restores l d out
      → Restores (x ∷ l) d out
  Restores-cons x l d out e (inl (name, t, m, sound, newest, opened)) =
      inl (name, t, mem-cons_of_mem x m, sound, (inr e, newest), opened)
  Restores-cons x l d out e (inr (unsound, rest)) = inr ((e, unsound), rest)

  try_snapshots-go :
      (name : Text) (l : List Text) (d d' : F.Disk)
      → try_snapshot path name d ≡ (ok none, d')
      → try_snapshots path (name ∷ l) d ≡ try_snapshots path l d'
  unfolding try_snapshots
  try_snapshots-go name l d d' h = rw h

  try_snapshots-stop :
      (name : Text) (l : List Text) (d : F.Disk) (t : X.Tree)
      → try_snapshot path name d ≡ (ok (some t), d)
      → try_snapshots path (name ∷ l) d ≡ (ok t, d)
  unfolding try_snapshots
  try_snapshots-stop name l d t h = rw h

  distinct-ne : (x y : Text) → text_eq x y ≡ false → x ≢ y
  distinct-ne x y e same = cc (ap (λ z. text_eq x z) same, text_eq_refl x)

  -- The loop, on a disk where the snapshots that are left are as sound as on `d`.
  try_snapshots-Restores :
      (l : List Text) (d d1 : F.Disk)
      → IsDescending text_leb l
      → Distinct l
      → All (λ m. S.sound path m d1 ≡ S.sound path m d) l
      → Restores l d (try_snapshots path l d1)
  unfolding try_snapshots
  try_snapshots-Restores [] d d1 desc distinct same = inr (tt, (d1, refl))
  try_snapshots-Restores (x ∷ l) d d1 (below, desc) (fresh, distinct) (e, same) =
      elim (Option-cases (S.sound path x d1)) [
        | inl unsound ↦
            (let (d2, passed, kept) = try_snapshot-unsound x d1 unsound in
              rw (try_snapshots-go x l d1 d2 passed) (
                Restores-cons x l d _ (sym e ∙ unsound) (
                  try_snapshots-Restores l d d2 desc distinct (
                    All-imp (λ m. (text_eq x m ≡ false) × (S.sound path m d1 ≡ S.sound path m d)) _
                      l (λ m (differ, f). kept m (distinct-ne x m differ) ∙ f)
                      (All-and (λ m. text_eq x m ≡ false) _ l fresh same)))))
        | inr (t, is_sound) ↦
            rw (try_snapshots-stop x l d1 t (try_snapshot-sound x d1 t is_sound)) (
              inl (
                x,
                t,
                mem-cons_self,
                sym e ∙ is_sound,
                (inl (text_leb_refl x), All-imp _ _ l (λ m h. inl h) below),
                refl,
              ))
      ]

  -- The same for the names in another order.
  Restores-order :
      (names : List Text) (d : F.Disk) (out : Result X.Tree × F.Disk)
      → Restores (reverse (sort text_leb names)) d out
      → Restores names d out
  Restores-order names d out (inl (name, t, m, sound, newest, opened)) = inl (
    name,
    t,
    Mem-All names (reverse (sort text_leb names)) name m
        (reverse-All _ (sort text_leb names) (sort-All text_leb _ names (All-self names))),
    sound,
    All-sort text_leb _ names (All-reverse _ (sort text_leb names) newest),
    opened,
  )
  Restores-order names d out (inr (unsound, rest)) =
      inr (All-sort text_leb _ names (All-reverse _ (sort text_leb names) unsound), rest)

  All-refl : (l : List Text) (d : F.Disk) → All (λ m. S.sound path m d ≡ S.sound path m d) l
  All-refl [] d = tt
  All-refl (x ∷ l) d = (refl, All-refl l d)

  -- Where the tree opens and its snapshots, of different names, are listed: the tree is restored from
  -- a sound snapshot that no later sound one is listed beside. If none is sound, the tree is opened
  -- without a snapshot.
  pub open_lsm_tree_with_snapshot-Restores :
      (names : List Text) (temp : X.Tree) (d0 d : F.Disk)
      → L.open_tree path d0 ≡ (ok temp, d)
      → L.list_snapshots temp d ≡ (ok names, d)
      → Distinct names
      → Restores names d (open_lsm_tree_with_snapshot path d0)
  unfolding open_lsm_tree_with_snapshot
  open_lsm_tree_with_snapshot-Restores names temp d0 d opened listed distinct =
      rw (opened, listed)
        (Restores-order names d _ (
          try_snapshots-Restores (reverse (sort text_leb names)) d d
            (reverse-IsDescending text_leb (sort text_leb names)
              (sort-IsSorted text_leb text_leb_total text_leb_trans names))
            (reverse-Pairwise _ (sort text_leb names) text_eq_sym
              (sort-Pairwise text_leb _ text_eq_sym names distinct))
            (All-refl (reverse (sort text_leb names)) d)))
