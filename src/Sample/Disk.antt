-- ===== src/Sample/Disk.antt =====
-- A disk as a list of the snapshots on it: each with its path, and the tree that it holds if it is
-- sound. It satisfies the laws of `Readable` and `Sound`.
use hayate.Prelude.{
  ◌≡◌, ◌≢◌, inl, inr, refl, ap, sym, ◌∙◌, Bool, true, not, Option, none, some, List, [], ◌∷◌, ◌++◌,
  Bool-cases, if◌then◌else◌, arith,
}
use hayate.Prelude.Text.{Text, codes, text_eq, text_eq_sound, text_eq_refl}
use hayate.Prelude.Sorting.{filter}
use hayate.Result.{Error, storage_not_available, Result, ok, err, ⊤}
use hayate.Externals.{Externals}
use hayate.FileSystem.{FileSystem, TreeFiles, Readable, Sound, join, readable, without}

-- A directory, a name in it, and the tree.
abbrev pub Disk : Type 0 → Type 0
Disk T = List (Text × Text × Option T)

text_eq_cancel : (p s t : Text) → text_eq (p ++ s) (p ++ t) ≡ text_eq s t
unfolding text_eq
text_eq_cancel [] s t = refl
text_eq_cancel (c ∷ p) s t = ground (arith, text_eq_cancel p s t)

text_eq-join : (dir m n : Text) → text_eq (join dir m) (join dir n) ≡ text_eq m n
unfolding text_eq
text_eq-join dir m n = text_eq_cancel dir (b'/' ∷ m) (b'/' ∷ n) ∙ ground arith

pub join-injective : (dir m n : Text) → m ≢ n → join dir m ≢ join dir n
join-injective dir m n h e =
    h (text_eq_sound m n (sym (text_eq-join dir m n) ∙ rw e (text_eq_refl (join dir n))))

module _ {T : Type 0} where
  abbrev pub entries : Text → Disk T → List (Text × Bool)
  entries dir [] = []
  entries dir ((at, name, t) ∷ d) =
      let more = entries dir d in if text_eq dir at then (name, true) ∷ more else more

  abbrev pub remove : Text → Disk T → Disk T
  remove path = filter (λ e. not (text_eq path (join e.0 e.1)))

  abbrev pub sound_at : Text → Disk T → Option T
  sound_at path [] = none
  sound_at path ((at, name, t) ∷ d) =
      let more = sound_at path d in if text_eq (join at name) path then t else more

  pub entries-remove :
      (dir name : Text) (d : Disk T)
      → entries dir (remove (join dir name) d) ≡ without name (entries dir d)
  entries-remove dir name [] = refl
  entries-remove dir name ((at, n, t) ∷ d) = elim (Bool-cases (text_eq dir at)) [
    | inl here ↦
        (let e : text_eq (join dir name) (join at n) ≡ text_eq name n =
            rw (← text_eq_sound dir at here) (text_eq-join dir name n) in
          elim (Bool-cases (text_eq name n)) [
            | inl same ↦ rw (e, same, here, same) (entries-remove dir name d)
            | inr differ ↦
                rw (e, differ, here, differ) (ap (λ l. (n, true) ∷ l) (entries-remove dir name d))
          ])
    | inr away ↦ elim (Bool-cases (text_eq (join dir name) (join at n))) [
      | inl same ↦ rw (same, away) (entries-remove dir name d)
      | inr differ ↦ rw (differ, away) (entries-remove dir name d)
    ]
  ]

  pub sound_at-remove :
      (path other : Text) (d : Disk T)
      → path ≢ other
      → sound_at other (remove path d) ≡ sound_at other d
  sound_at-remove path other [] h = refl
  sound_at-remove path other ((at, n, t) ∷ d) h = elim (Bool-cases (text_eq path (join at n))) [
    | inl same ↦ elim (Bool-cases (text_eq (join at n) other)) [
      | inl too ↦ absurd (h (text_eq_sound path _ same ∙ text_eq_sound _ other too))
      | inr no_other ↦ rw (same, no_other) (sound_at-remove path other d h)
    ]
    | inr differ ↦ elim (Bool-cases (text_eq (join at n) other)) [
      | inl too ↦ rw (differ, too)
      | inr no_other ↦ rw (differ, no_other) (sound_at-remove path other d h)
    ]
  ]

pub without_twice :
    (name : Text) (l : List (Text × Bool)) → without name (without name l) ≡ without name l
without_twice name [] = refl
without_twice name ((m, b) ∷ l) = elim (Bool-cases (text_eq name m)) [
  | inl same ↦ rw same (without_twice name l)
  | inr differ ↦ rw (differ, differ) (ap (λ x. (m, b) ∷ x) (without_twice name l))
]

abbrev pub files : Type 0 → FileSystem
files T = record {
  Disk = Disk T;
  path_exists = λ _ _. true;
  is_file = λ _ _. true;
  read_dir = λ dir d. (ok (readable (entries dir d)), d);
  remove_dir_all = λ path d. (ok tt, remove path d);
  create_dir_all = λ _ d. (ok tt, d);
  hard_link = λ _ _ d. (ok tt, d);
}

abbrev pub files_readable : (T : Type 0) → Readable (files T)
files_readable T = record {
  entries = entries;
  read_dir_lem = λ dir d e. refl;
  entries-remove_dir_all = λ dir name d _. entries-remove dir name d;
  others-remove_dir_all = λ dir name d.
      ap (without name) (entries-remove dir name d) ∙ without_twice name (entries dir d);
}

abbrev pub unsound : Error
unsound = storage_not_available

abbrev pub opened : {T : Type 0} → Option T → Result T
opened none = err unsound
opened (some t) = ok t

abbrev pub checked : {T : Type 0} → Option T → Result ⊤
checked none = err unsound
checked (some t) = ok tt

-- A tree that is opened without a snapshot is `start`, and lists the snapshots `names`.
module _ (X : Externals) (start : X.Tree) (names : List Text) (monoidal : X.MonoidalTree) where
  abbrev pub snapshot_path : Text → Text → Text
  snapshot_path path name = join (join path (codes "snapshots")) name

  abbrev pub trees : TreeFiles X (files X.Tree)
  trees = record {
    open_tree = λ _ d. (ok start, d);
    list_snapshots = λ _ d. (ok names, d);
    open_snapshot = λ path name d. (opened (sound_at (snapshot_path path name) d), d);
    Snapshot = Text;
    load = λ path name d. (ok (snapshot_path path name), d);
    validate = λ s d. (checked (sound_at s d), d);
    delete_snapshot = λ s d. (ok tt, remove s d);
    open_monoidal = λ _ d. (ok monoidal, d);
  }

  pub loaded :
      (path name other s : Text) (d : Disk X.Tree)
      → trees.load path name d ≡ (ok s, d)
      → name ≢ other
      → sound_at (snapshot_path path other) (remove s d) ≡ sound_at (snapshot_path path other) d
  loaded path name other s d e h =
      let same : snapshot_path path name ≡ s = cc in
      rw (← same) (
        sound_at-remove (snapshot_path path name) (snapshot_path path other) d
          (join-injective _ name other h))

  abbrev pub trees_sound : Sound X (files X.Tree) trees
  trees_sound = record {
    sound = λ path name d. sound_at (snapshot_path path name) d;
    opens = λ path name d t h. (snapshot_path path name, refl, rw h, rw h);
    fails = λ path name d h. inr (snapshot_path path name, refl, inl (unsound, rw h));
    sound-remove_dir_all = λ path name other d h.
        sound_at-remove (snapshot_path path name) (snapshot_path path other) d
          (join-injective _ name other h);
    sound-delete_snapshot = λ path name other s d e h. loaded path name other s d e h;
  }
