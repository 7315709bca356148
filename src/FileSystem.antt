-- ===== src/FileSystem.antt =====
-- What the program takes from the file system and from `cardano_lsm` where it opens, restores and
-- removes trees on a disk. Each call may change the disk and may fail.
use hayate.Prelude.{◌≡◌, ◌≢◌, ◌⊎◌, none, Bool, true, List, ◌∷◌, ◌++◌, some, map, Option, not}
use hayate.Prelude.Text.{Text, Bytes, codes, text_eq}
use hayate.Prelude.Sorting.{filter}
use hayate.Result.{Error, Result, ok, err, Exec, ⊤}
use hayate.Externals.{Externals}

-- `std::fs::DirEntry`: the bytes of its name, and whether it is a directory.
pub record DirEntry : Type 0 where
  pub file_name : Bytes
  pub file_type : Result Bool

-- `Path::join`
abbrev pub join : Text → Text → Text
join path name = path ++ (b'/' ∷ name)

pub record FileSystem : Type 1 where
  pub Disk : Type 0
  -- `Path::exists`, `Path::is_file` and `std::fs`
  pub path_exists : Text → Disk → Bool
  pub is_file : Text → Disk → Bool
  pub read_dir : Text → Exec Disk (List (Result DirEntry))
  pub remove_dir_all : Text → Exec Disk ⊤
  pub create_dir_all : Text → Exec Disk ⊤
  pub hard_link : Text → Text → Exec Disk ⊤

-- The calls of `cardano_lsm` that read and write a disk.
pub record TreeFiles (X : Externals) (F : FileSystem) : Type 1 where
  -- `LsmTree::open`, `LsmTree::list_snapshots` and `LsmTree::open_snapshot`
  pub open_tree : Text → Exec F.Disk X.Tree
  pub list_snapshots : X.Tree → Exec F.Disk (List Text)
  pub open_snapshot : Text → Text → Exec F.Disk X.Tree
  -- `PersistentSnapshot::load`, `validate` and `delete`
  pub Snapshot : Type 0
  pub load : Text → Text → Exec F.Disk Snapshot
  pub validate : Snapshot → Exec F.Disk ⊤
  pub delete_snapshot : Snapshot → Exec F.Disk ⊤
  -- `MonoidalLsmTree::open`
  pub open_monoidal : Text → Exec F.Disk X.MonoidalTree

-- The entries of a directory without one name.
abbrev pub without : Text → List (Text × Bool) → List (Text × Bool)
without name = filter (λ e. not (text_eq name e.0))

-- Entries that can be read.
abbrev pub readable : List (Text × Bool) → List (Result DirEntry)
readable = map λ e. ok (record { file_name = e.0; file_type = ok e.1 })

-- A directory is a list of names, which `read_dir` returns. A `remove_dir_all` that succeeds takes one
-- name from it; one that fails may leave the name, and changes no other.
pub record Readable (F : FileSystem) : Type 0 where
  pub entries : Text → F.Disk → List (Text × Bool)
  pub read_dir_lem :
      (dir : Text) (d : F.Disk)
      → F.path_exists dir d ≡ true
      → F.read_dir dir d ≡ (ok (readable (entries dir d)), d)
  pub entries-remove_dir_all :
      (dir name : Text) (d : F.Disk)
      → (F.remove_dir_all (join dir name) d).0 ≡ ok tt
      → entries dir (F.remove_dir_all (join dir name) d).1 ≡ without name (entries dir d)
  pub others-remove_dir_all :
      (dir name : Text) (d : F.Disk)
      → without name (entries dir (F.remove_dir_all (join dir name) d).1)
        ≡ without name (entries dir d)

-- Whether a snapshot of a tree is sound, and the tree that it opens to. A sound one loads, validates
-- and opens; another fails in one of these. Removing a snapshot leaves the others as they are.
pub record Sound (X : Externals) (F : FileSystem) (L : TreeFiles X F) : Type 0 where
  pub sound : Text → Text → F.Disk → Option X.Tree
  pub opens :
      (path name : Text) (d : F.Disk) (t : X.Tree)
      → sound path name d ≡ some t
      → (s : L.Snapshot) × (L.load path name d ≡ (ok s, d))
        × (L.validate s d ≡ (ok tt, d))
        × (L.open_snapshot path name d ≡ (ok t, d))
  pub fails :
      (path name : Text) (d : F.Disk)
      → sound path name d ≡ none
      → ((e : Error) × (L.load path name d ≡ (err e, d)))
        ⊎ ((s : L.Snapshot) × (L.load path name d ≡ (ok s, d))
            × (((e : Error) × (L.validate s d ≡ (err e, d)))
                ⊎ ((e : Error) × (L.validate s d ≡ (ok tt, d))
                    × (L.open_snapshot path name d ≡ (err e, d)))))
  pub sound-remove_dir_all :
      (path name other : Text) (d : F.Disk)
      → name ≢ other
      → sound path other (F.remove_dir_all (join (join path (codes "snapshots")) name) d).1
        ≡ sound path other d
  pub sound-delete_snapshot :
      (path name other : Text) (s : L.Snapshot) (d : F.Disk)
      → L.load path name d ≡ (ok s, d)
      → name ≢ other
      → sound path other (L.delete_snapshot s d).1 ≡ sound path other d
