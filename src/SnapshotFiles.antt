-- ===== src/SnapshotFiles.antt =====
-- The snapshots of a tree on the disk: their names, the latest one, the removal of old ones and the
-- restore by hard links (src/snapshot_manager.rs, SnapshotManager).
pub mod Laws
pub mod Latest
pub mod Cleanup
use hayate.Prelude.{
  ℕ, ◌-◌, Bool, true, false, Option, none, some, List, [], ◌∷◌, ◌||◌, and_then, is_some, unwrap_or,
  leb, length, if◌then◌else◌,
}
use hayate.Prelude.Text.{Text, Bytes, codes, strip_prefix, text_eq}
use hayate.Prelude.Decimal.{parse_u64}
use hayate.Prelude.Utf8.{from_utf8}
use hayate.Prelude.Sorting.{sort, last, take, text_leb}
use hayate.Result.{
  Result, ok, err, missing_snapshot, invalid_snapshot_name, ⊤, Exec, pure, raise, lift, ◌>>=◌, ◌>>◌,
  when,
}
use hayate.FileSystem.{FileSystem, DirEntry, join}
use hayate.SnapshotTimer.{SnapshotManager}

unfoldable pub parse_snapshot_slot : Text → Option ℕ
parse_snapshot_slot name = and_then (strip_prefix (codes "slot-") name) parse_u64

-- A directory whose name is that of a snapshot is collected.
abbrev pub add_snapshot : Bool → Option Text → List Text → List Text
add_snapshot false name names = names
add_snapshot true none names = names
add_snapshot true (some n) names = if is_some (parse_snapshot_slot n) then n ∷ names else names

abbrev pub collect_entry : DirEntry → Result Bool → Result (List Text) → Result (List Text)
collect_entry entry (err e) rest = err e
collect_entry entry (ok is_dir) (err e) = err e
collect_entry entry (ok is_dir) (ok names) =
    ok (add_snapshot is_dir (from_utf8 entry.file_name) names)

-- The loop over the entries, which the first error ends.
unfoldable pub collect : List (Result DirEntry) → Result (List Text)
collect [] = ok []
collect (err e ∷ rest) = err e
collect (ok entry ∷ rest) = collect_entry entry entry.file_type (collect rest)

abbrev pub snapshots_dir : Text → Text
snapshots_dir tree_path = join tree_path (codes "snapshots")

module _ ⦃F : FileSystem⦄ where
  open F use {Disk, path_exists, is_file, read_dir, remove_dir_all, create_dir_all, hard_link}

  -- The names of the snapshots, in the order of the directory.
  abbrev pub read_snapshots : Text → Exec Disk (List Text)
  read_snapshots dir = do entries ← read_dir dir; lift (collect entries)

  unfoldable pub find_latest_snapshot : Text → Exec Disk (Option Text)
  find_latest_snapshot tree_path d =
      let dir = snapshots_dir tree_path in
      if path_exists dir d
      then (do snapshots ← read_snapshots dir; pure (last (sort text_leb snapshots))) d
      else (ok none, d)

  -- A failure to delete is logged, and the loop goes on.
  unfoldable pub delete_all : Text → List Text → Disk → Disk
  delete_all dir [] d = d
  delete_all dir (name ∷ rest) d = delete_all dir rest (remove_dir_all (join dir name) d).1

  delete_oldest : ℕ → Text → List Text → Exec Disk ⊤
  delete_oldest keep dir snapshots d =
      if leb (length snapshots) keep
      then (ok tt, d)
      else (ok tt, delete_all dir (take (length snapshots - keep) (sort text_leb snapshots)) d)

  unfoldable pub cleanup_old_snapshots : SnapshotManager → Text → Option ℕ → Exec Disk ⊤
  unfolding delete_oldest
  cleanup_old_snapshots m tree_path keep_latest d =
      let keep = unwrap_or keep_latest m.max_snapshots in
      let dir = snapshots_dir tree_path in
      if path_exists dir d
      then (do snapshots ← read_snapshots dir; delete_oldest keep dir snapshots) d
      else (ok tt, d)

  is_metadata : Bytes → Bool
  is_metadata n = text_eq n (codes "metadata") || text_eq n (codes "metadata.checksum")

  link_file : Text → Text → Exec Disk ⊤
  link_file src_path dst_path d = when (is_file src_path d) (hard_link src_path dst_path) d

  link_entry : Text → Text → Result DirEntry → Exec Disk ⊤
  link_entry from_dir to_dir (err e) d = (err e, d)
  link_entry from_dir to_dir (ok entry) d =
      if is_metadata entry.file_name
      then (ok tt, d)
      else link_file (join from_dir entry.file_name) (join to_dir entry.file_name) d

  link_all : Text → Text → List (Result DirEntry) → Exec Disk ⊤
  link_all from_dir to_dir [] = pure tt
  link_all from_dir to_dir (entry ∷ rest) = do
    link_entry from_dir to_dir entry
    link_all from_dir to_dir rest

  -- The active directory is cleared, and the files of the snapshot are linked into it.
  restore_files : Text → Text → ℕ → Exec Disk ⊤
  restore_files snapshot_dir active_dir slot = do
    λ d. when (path_exists active_dir d) (remove_dir_all active_dir) d
    create_dir_all active_dir
    entries ← read_dir snapshot_dir
    link_all snapshot_dir active_dir entries

  restore_slot : Text → Text → Text → Option ℕ → Exec Disk ℕ
  restore_slot snapshot_dir active_dir name none = raise (invalid_snapshot_name name)
  restore_slot snapshot_dir active_dir name (some slot) = do
    restore_files snapshot_dir active_dir slot
    pure slot

  unfoldable pub restore_snapshot : Text → Text → Exec Disk ℕ
  unfolding restore_slot restore_files link_all link_entry link_file is_metadata
  restore_snapshot tree_path name d =
      let snapshot_dir = join (snapshots_dir tree_path) name in
      if path_exists snapshot_dir d
      then restore_slot snapshot_dir (join tree_path (codes "active")) name
          (parse_snapshot_slot name) d
      else (err (missing_snapshot name), d)
