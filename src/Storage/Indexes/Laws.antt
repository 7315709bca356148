-- ===== src/Storage/Indexes/Laws.antt =====
-- A query of an index returns the members that have an entry, and no others.
use hayate.Prelude.{
  ◌≡◌, refl, sym, ap, ◌∙◌, ◌↔◌, true, Bool-set, some, List, [], ◌∷◌, ◌++◌, is_some, Option-cases,
  inl, inr,
}
use hayate.Prelude.Text.{Bytes, Text, codes, strip_prefix-append, strip_prefix_sound}
use hayate.Prelude.Utf8.{from_utf8, IsAscii, from_utf8_ascii, from_utf8_sound}
use hayate.Externals.{Externals, Reliable}
use hayate.Storage.Indexes.{member_of, members, entry_key, owner_prefix}
use mathlib.Core.Logic.{∥∥₁_elim, ∥∥₁_map}
use mathlib.Core.List.Memᴰ as Memᴰ
use mathlib.Core.List.{Memᴰ, Mem, append_assoc}

member_of_sound : (prefix key m : Text) → member_of prefix key ≡ some m → key ≡ prefix ++ m
member_of_sound prefix key m h = elim (Option-cases (from_utf8 key)) [
  | inl unreadable ↦ absurd (let e = rw unreadable at h in cc)
  | inr (t, read) ↦
      (sym (from_utf8_sound key t read) ∙ strip_prefix_sound prefix t m (rw read at h))
]

member_of_complete :
    (prefix m : Text) → IsAscii (prefix ++ m) → member_of prefix (prefix ++ m) ≡ some m
member_of_complete prefix m h = rw (from_utf8_ascii (prefix ++ m) h) (strip_prefix-append prefix m)

MemD-members :
    (prefix m : Text) (v : Bytes) (l : List (Bytes × Bytes))
    → IsAscii (prefix ++ m)
    → Memᴰ (prefix ++ m, v) l
    → Memᴰ m (members prefix l)
unfolding members
MemD-members prefix m v [] h d = absurd (Memᴰ.not-nil d)
MemD-members prefix m v ((key, w) ∷ rest) h d = elim (Memᴰ.cases_cons d) [
  | inl e ↦
      (let f : key ≡ prefix ++ m = sym (ap (λ (x : Bytes × Bytes). x.0) e) in
        let g : member_of prefix key ≡ some m =
          ap (member_of prefix) f ∙ member_of_complete prefix m h in
        rw g (Memᴰ.head refl))
  | inr d' ↦
      (let more = MemD-members prefix m v rest h d' in
        elim (Option-cases (member_of prefix key)) [
          | inl skipped ↦ rw skipped more
          | inr (x, here) ↦ rw here (Memᴰ.tail more)
        ])
]

MemD-entry :
    (prefix m : Text) (l : List (Bytes × Bytes))
    → Memᴰ m (members prefix l)
    → (v : Bytes) × Memᴰ (prefix ++ m, v) l
unfolding members
MemD-entry prefix m [] d = absurd (Memᴰ.not-nil d)
MemD-entry prefix m ((key, w) ∷ rest) d = elim (Option-cases (member_of prefix key)) [
  | inl skipped ↦ (let (v, x) = MemD-entry prefix m rest (rw skipped at d) in (v, Memᴰ.tail x))
  | inr (y, here) ↦ elim (Memᴰ.cases_cons (rw here at d)) [
    | inl e ↦
        (let f : prefix ++ m ≡ key =
            sym (member_of_sound prefix key m (here ∙ ap (λ x. some x) (sym e))) in
          (w, Memᴰ.head (ap (λ x. (x, w)) f)))
    | inr d' ↦ (let (v, x) = MemD-entry prefix m rest d' in (v, Memᴰ.tail x))
  ]
]

module _ ⦃X : Externals⦄ (R : Reliable X) (t : X.Tree) where
  owner_prefix-member : (owner m : Text) → owner_prefix owner ++ m ≡ entry_key owner m
  owner_prefix-member owner m = append_assoc owner (codes ":") m

  entry_of_member :
      (owner m : Text)
      → Mem m (members (owner_prefix owner) (X.scan_prefix t (owner_prefix owner)))
      → is_some (R.find t (entry_key owner m)) ≡ true
  entry_of_member owner m h =
      let p = owner_prefix owner in
      ∥∥₁_elim h (Bool-set _ _) (λ d.
        let (v, x) = MemD-entry p m (X.scan_prefix t p) d in
        let found = ((R.mem-scan_prefix t p (p ++ m) v).0 ∣ x ∣₁).0 in
        let e : R.find t (entry_key owner m) ≡ some v =
          ap (R.find t) (sym (owner_prefix-member owner m)) ∙ found in
        rw e)

  member_of_entry :
      (owner m : Text)
      → IsAscii (entry_key owner m)
      → is_some (R.find t (entry_key owner m)) ≡ true
      → Mem m (members (owner_prefix owner) (X.scan_prefix t (owner_prefix owner)))
  member_of_entry owner m ascii h =
      let p = owner_prefix owner in
      let k = owner_prefix-member owner m in
      elim (Option-cases (R.find t (entry_key owner m))) [
        | inl missing ↦ absurd (let e = rw missing at h in cc)
        | inr (v, here) ↦
            (let listed =
                (R.mem-scan_prefix t p (p ++ m) v).1 (ap (R.find t) k ∙ here, (m, refl)) in
              ∥∥₁_map listed (MemD-members p m v (X.scan_prefix t p) (rw k ascii)))
      ]

  -- A query of an index lists a text of ASCII characters exactly where the index has an entry of the
  -- owner for it.
  pub mem-members :
      (owner m : Text)
      → IsAscii (entry_key owner m)
      → Mem m (members (owner_prefix owner) (X.scan_prefix t (owner_prefix owner)))
        ↔ (is_some (R.find t (entry_key owner m)) ≡ true)
  mem-members owner m ascii = (entry_of_member owner m, member_of_entry owner m ascii)
