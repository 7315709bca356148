-- ===== src/SnapshotFiles/Laws.antt =====
-- The names of snapshots, their order, and the snapshots among the entries of a directory.
use hayate.Prelude.{
  ℕ, ◌<◌, ◌≤◌, ◌≡◌, refl, ap, sym, ◌∙◌, Bool, true, false, ◌&&◌, Option, none, some, List, [], ◌∷◌,
  ◌++◌, leb, is_some, and_then, if◌then◌else◌, arith,
}
use hayate.Prelude.Text.{Text, codes, strip_prefix-append}
use hayate.Prelude.Utf8.{from_utf8, from_utf8_sound}
use hayate.Prelude.Decimal.{show_padded, u64_limit, value-show_padded}
use hayate.Prelude.Decimal.Laws.{
  show_padded-IsDigits, length-show_padded, parse_u64-digits, u64-lt-pow10,
}
use hayate.Prelude.Sorting.{text_leb}
use hayate.Prelude.Sorting.Laws.{text_leb-value}
use hayate.Result.{ok}
use hayate.FileSystem.{readable}
use hayate.Storage.Snapshots.{snapshot_name}
use hayate.SnapshotFiles.{parse_snapshot_slot, add_snapshot, collect}

-- The slot of a snapshot is read back from its name, for every 64-bit slot.
pub parse_snapshot_slot-snapshot_name :
    (slot : ℕ) → slot < u64_limit → parse_snapshot_slot (snapshot_name slot) ≡ some slot
unfolding parse_snapshot_slot snapshot_name
parse_snapshot_slot-snapshot_name slot h =
    rw (strip_prefix-append (codes "slot-") (show_padded 20 slot)) (
      parse_u64-digits (show_padded 20 slot) slot (show_padded-IsDigits 20 slot)
        (omega (arith, length-show_padded 19 slot (u64-lt-pow10 slot h)))
        (value-show_padded 20 slot) h)

pub leb→le : (a b : ℕ) → leb a b ≡ true → a ≤ b
leb→le a b h = ground arith

text_leb-append : (p s t : Text) → text_leb (p ++ s) (p ++ t) ≡ text_leb s t
unfolding text_leb
text_leb-append [] s t = refl
text_leb-append (c ∷ p) s t = ground (arith, text_leb-append p s t)

-- The order of the names of snapshots is that of their slots, for 64-bit slots.
pub text_leb-snapshot_name :
    (a b : ℕ)
    → a < u64_limit
    → b < u64_limit
    → text_leb (snapshot_name a) (snapshot_name b) ≡ leb a b
unfolding snapshot_name
text_leb-snapshot_name a b ha hb =
    text_leb-append (codes "slot-") (show_padded 20 a) (show_padded 20 b)
    ∙ text_leb-value 0 (show_padded 20 a) (show_padded 20 b)
        (length-show_padded 19 a (u64-lt-pow10 a ha)
          ∙ sym (length-show_padded 19 b (u64-lt-pow10 b hb)))
        (show_padded-IsDigits 20 a) (show_padded-IsDigits 20 b)
    ∙ rw (value-show_padded 20 a, value-show_padded 20 b)

-- The slot that the name of an entry shows, if it is that of a snapshot.
abbrev pub slot_of : Text → Option ℕ
slot_of name = and_then (from_utf8 name) parse_snapshot_slot

abbrev pub is_snapshot : Text × Bool → Bool
is_snapshot (name, is_dir) = is_dir && is_some (slot_of name)

abbrev pub snapshots_in : List (Text × Bool) → List Text
snapshots_in [] = []
snapshots_in ((name, is_dir) ∷ l) =
    let more = snapshots_in l in if is_snapshot (name, is_dir) then name ∷ more else more

add_snapshot_lem :
    (name : Text) (is_dir : Bool) (o : Option Text) (names : List Text)
    → from_utf8 name ≡ o
    → add_snapshot is_dir o names
      ≡ (if is_dir && is_some (and_then o parse_snapshot_slot) then name ∷ names else names)
add_snapshot_lem name false o names e = refl
add_snapshot_lem name true none names e = refl
add_snapshot_lem name true (some n) names e = rw (from_utf8_sound name n e)

pub collect-readable : (l : List (Text × Bool)) → collect (readable l) ≡ ok (snapshots_in l)
unfolding collect
collect-readable [] = refl
collect-readable ((name, is_dir) ∷ l) =
    rw (collect-readable l)
      (ap (λ x. ok x) (add_snapshot_lem name is_dir (from_utf8 name) (snapshots_in l) refl))

-- A name that shows a slot is the name of the snapshot of that slot.
abbrev pub IsCanonical : Text × Bool → Type 0
IsCanonical e = is_snapshot e ≡ true → (slot : ℕ) × (e.0 ≡ snapshot_name slot) × (slot < u64_limit)
