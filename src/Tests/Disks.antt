-- ===== src/Tests/Disks.antt =====
-- The theorems on networks, the snapshots on a disk, and opening a tree.
use hayate.Prelude.{List, ◌≡◌, refl, ◌-◌, Option, none, some, [], ◌∷◌, All, min, length, leb, arith}
use hayate.Prelude.Text.{Text, codes, text_eq, strip_prefix}
use hayate.Prelude.Decimal.{parse_u64, parse_digits, show_padded}
use hayate.Prelude.Utf8.{from_utf8}
use hayate.Prelude.Sorting.{sort, drop, take, text_leb}
use hayate.Result.{ok}
use hayate.Network.{Network, as_str, to_lowercase, parse}
use hayate.Network.Laws.{IsNamed, parse-as_str}
use hayate.Storage.Snapshots.{snapshot_name}
use hayate.Storage.Open.{open_lsm_tree_with_snapshot}
use hayate.Storage.Open.Laws.{Restores, open_lsm_tree_with_snapshot-Restores}
use hayate.SnapshotTimer.{new}
use hayate.SnapshotFiles.{
  parse_snapshot_slot, snapshots_dir, find_latest_snapshot, cleanup_old_snapshots,
}
use hayate.SnapshotFiles.Laws.{
  snapshots_in, IsCanonical, parse_snapshot_slot-snapshot_name, text_leb-snapshot_name,
}
use hayate.SnapshotFiles.Latest.{IsLatest, find_latest_snapshot-IsLatest}
use hayate.SnapshotFiles.Cleanup.{
  Distinct, Removes, removed, cleanup_old_snapshots-keeps_newest,
  cleanup_old_snapshots-leaves_newest,
}
use hayate.Sample.Disk.{Disk, entries, files, files_readable, trees, trees_sound}
use hayate.Tests.{X}

devnet-IsNamed : IsNamed (Network.custom (codes "devnet"))
unfolding text_eq to_lowercase
devnet-IsNamed = (refl, refl, refl, refl, refl)

parse-as_str_example :
    parse (as_str (Network.custom (codes "devnet"))) ≡ some (Network.custom (codes "devnet"))
parse-as_str_example = parse-as_str (Network.custom (codes "devnet")) devnet-IsNamed

parse_snapshot_slot-snapshot_name_example : parse_snapshot_slot (snapshot_name 12345) ≡ some 12345
parse_snapshot_slot-snapshot_name_example = parse_snapshot_slot-snapshot_name 12345 (omega arith)

text_leb-snapshot_name_example : text_leb (snapshot_name 9) (snapshot_name 10) ≡ leb 9 10
text_leb-snapshot_name_example = text_leb-snapshot_name 9 10 (omega arith) (omega arith)

abbrev first : Text
first = snapshot_name 9

abbrev second : Text
second = snapshot_name 10

-- Two snapshots of the tree at `t`, the later one not sound.
abbrev disk : Disk X.Tree
disk =
    (snapshots_dir (codes "t"), second, none)
    ∷ (snapshots_dir (codes "t"), first, some ((codes "k", some (codes "v")) ∷ []))
    ∷ []

disk-IsCanonical : All IsCanonical (entries (snapshots_dir (codes "t")) disk)
unfolding text_eq
disk-IsCanonical = ((λ _. (10, refl, omega arith)), ((λ _. (9, refl, omega arith)), tt))

find_latest_snapshot-IsLatest_example :
    (o : Option Text) × (find_latest_snapshot ⦃F = files X.Tree⦄ (codes "t") disk ≡ (ok o, disk))
    × IsLatest (entries (snapshots_dir (codes "t")) disk) o
find_latest_snapshot-IsLatest_example =
    find_latest_snapshot-IsLatest ⦃F = files X.Tree⦄ (files_readable X.Tree) (new 0 100 300 600 10)
      (codes "t") disk refl disk-IsCanonical

disk-Distinct : Distinct (snapshots_in (entries (snapshots_dir (codes "t")) disk))
unfolding text_eq snapshot_name parse_snapshot_slot strip_prefix from_utf8 parse_u64 parse_digits
    show_padded
disk-Distinct = ((refl, tt), (tt, tt))

cleanup_old_snapshots-keeps_newest_example :
    let before = snapshots_in (entries (snapshots_dir (codes "t")) disk) in
    let (r, d') =
      cleanup_old_snapshots ⦃F = files X.Tree⦄ (new 0 100 300 600 10) (codes "t") (some 1) disk in
    let after = snapshots_in (entries (snapshots_dir (codes "t")) d') in
    (r ≡ ok tt)
    × (removed (take (length before - 1) (sort text_leb before)) (sort text_leb after)
        ≡ drop (length before - 1) (sort text_leb before))
cleanup_old_snapshots-keeps_newest_example =
    cleanup_old_snapshots-keeps_newest ⦃F = files X.Tree⦄ (files_readable X.Tree)
      (new 0 100 300 600 10) (codes "t") (some 1) disk refl disk-Distinct

all_removed :
    (dir : Text) (ns : List Text) (d : Disk X.Tree)
    → Removes ⦃F = files X.Tree⦄ (files_readable X.Tree) dir ns d
unfolding Removes
all_removed dir [] d = tt
all_removed dir (n ∷ ns) d = (refl, all_removed dir ns _)

cleanup_old_snapshots-leaves_newest_example :
    let before = snapshots_in (entries (snapshots_dir (codes "t")) disk) in
    let d' =
      (cleanup_old_snapshots ⦃F = files X.Tree⦄
        (new 0 100 300 600 10)
        (codes "t")
        (some 1)
        disk).1 in
    let after = snapshots_in (entries (snapshots_dir (codes "t")) d') in
    (sort text_leb after ≡ drop (length before - 1) (sort text_leb before))
    × (length after ≡ min 1 (length before))
cleanup_old_snapshots-leaves_newest_example =
    cleanup_old_snapshots-leaves_newest ⦃F = files X.Tree⦄ (files_readable X.Tree)
      (new 0 100 300 600 10) (codes "t") (some 1) disk refl disk-Distinct
      (all_removed (snapshots_dir (codes "t")) _ disk)

names-Distinct : Distinct (first ∷ second ∷ [])
unfolding text_eq snapshot_name show_padded
names-Distinct = ((refl, tt), (tt, tt))

open_lsm_tree_with_snapshot-Restores_example :
    Restores ⦃X = X⦄ ⦃F = files X.Tree⦄ ⦃L = trees X [] (first ∷ second ∷ []) []⦄
      (trees_sound X [] (first ∷ second ∷ []) [])
      (codes "t")
      (first ∷ second ∷ [])
      disk
      (open_lsm_tree_with_snapshot ⦃X = X⦄ ⦃F = files X.Tree⦄
        ⦃L = trees X [] (first ∷ second ∷ []) []⦄
        (codes "t")
        disk)
open_lsm_tree_with_snapshot-Restores_example =
    open_lsm_tree_with_snapshot-Restores ⦃X = X⦄ ⦃F = files X.Tree⦄
      ⦃L = trees X [] (first ∷ second ∷ []) []⦄ (trees_sound X [] (first ∷ second ∷ []) [])
      (codes "t") (first ∷ second ∷ []) [] disk disk refl refl names-Distinct
