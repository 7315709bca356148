-- ===== src/Sample/Trees.antt =====
-- Trees as association lists, for examples: a newer entry stands before an older one, and an
-- entry without a value hides those behind it.
use hayate.Prelude.{
  ℕ, ◌≡◌, ◌↔◌, ap, sym, refl, ◌⊎◌, ◌∙◌, not, Bool, true, false, ◌&&◌, Option, none, some, List, [],
  ◌∷◌, ◌++◌, arith, if◌then◌else◌, Bool-cases, inl, inr, is_some, Option-cases, Bool-set,
}
use hayate.Prelude.Text.{
  Bytes, text_eq, text_eq_sound, text_eq_refl, strip_prefix, strip_prefix_sound,
  strip_prefix-append,
}
use hayate.Prelude.Sorting.{filter}
use mathlib.Core.Logic.{∥∥₁_elim}
use mathlib.Core.List.{Mem}
use mathlib.Core.List.Memᴰ as Memᴰ
use mathlib.Core.List.{Memᴰ}

abbrev pub Entries : Type 0
Entries = List (Bytes × Option Bytes)

abbrev pub find : Entries → Bytes → Option Bytes
find [] j = none
find ((k, o) ∷ t) j = if text_eq k j then o else find t j

abbrev add_entry : Bytes → Bytes → Option Bytes → List (Bytes × Bytes) → List (Bytes × Bytes)
add_entry p k none l = l
add_entry p k (some v) l = if is_some (strip_prefix p k) then (k, v) ∷ l else l

abbrev other_key : Bytes → Bytes × Bytes → Bool
other_key k e = not (text_eq k e.0)

-- The entries whose keys start with `p`, each key once.
abbrev pub scan : Entries → Bytes → List (Bytes × Bytes)
scan [] p = []
scan ((k, o) ∷ t) p = add_entry p k o (filter (other_key k) (scan t p))

filter_head :
    {A : Type 0} (q : A → Bool) (x y : A) (l : List A)
    → Memᴰ x (if q y then y ∷ filter q l else filter q l)
    → (x ≡ y) × (q y ≡ true) ⊎ Memᴰ x (filter q l)
filter_head q x y l m = elim (Bool-cases (q y)) [
  | inl yea ↦ elim (Memᴰ.cases_cons (rw yea at m)) [ inl e ↦ inl (e, yea) | inr n ↦ inr n ]
  | inr nay ↦ inr (rw nay at m)
]

MemD-filter :
    {A : Type 0} (q : A → Bool) (x : A) (l : List A) → Memᴰ x (filter q l) → Memᴰ x l × (q x ≡ true)
MemD-filter q x [] m = absurd (Memᴰ.not-nil m)
MemD-filter q x (y ∷ l) m = elim (filter_head q x y l m) [
  | inl (e, yea) ↦ (Memᴰ.head e, ap q e ∙ yea)
  | inr n ↦ let (k, h) = MemD-filter q x l n in (Memᴰ.tail k, h)
]

filter-MemD :
    {A : Type 0} (q : A → Bool) (x : A) (l : List A) → Memᴰ x l → q x ≡ true → Memᴰ x (filter q l)
filter-MemD q x [] m h = absurd (Memᴰ.not-nil m)
filter-MemD q x (y ∷ l) m h = elim (Memᴰ.cases_cons m) [
  | inl e ↦ (let yea : q y ≡ true = sym (ap q e) ∙ h in rw yea (Memᴰ.head e))
  | inr n ↦ elim (Bool-cases (q y)) [
    | inl yea ↦ rw yea (Memᴰ.tail (filter-MemD q x l n h))
    | inr nay ↦ rw nay (filter-MemD q x l n h)
  ]
]

abbrev IsCurrent : Entries → Bytes → Bytes → Bytes → Type 0
IsCurrent t p k v = (find t k ≡ some v) × (is_some (strip_prefix p k) ≡ true)

-- The entry at the front of the tree, in what a scan of it lists.
add_entry-MemD :
    (p k : Bytes) (o : Option Bytes) (l : List (Bytes × Bytes)) (x : Bytes × Bytes)
    → Memᴰ x (add_entry p k o l)
    → (x.0 ≡ k) × (o ≡ some x.1) × (is_some (strip_prefix p k) ≡ true) ⊎ Memᴰ x l
add_entry-MemD p k none l x m = inr m
add_entry-MemD p k (some v) l x m = elim (Bool-cases (is_some (strip_prefix p k))) [
  | inl starts ↦ elim (Memᴰ.cases_cons (rw starts at m)) [
    | inl e ↦
        inl
          (ap (λ (y : Bytes × Bytes). y.0) e, ap (λ (y : Bytes × Bytes). some y.1) (sym e), starts)
    | inr n ↦ inr n
  ]
  | inr no_start ↦ inr (rw no_start at m)
]

MemD-add_entry :
    (p k : Bytes) (o : Option Bytes) (l : List (Bytes × Bytes)) (x : Bytes × Bytes)
    → Memᴰ x l
    → Memᴰ x (add_entry p k o l)
MemD-add_entry p k none l x m = m
MemD-add_entry p k (some v) l x m = elim (Bool-cases (is_some (strip_prefix p k))) [
  | inl starts ↦ rw starts (Memᴰ.tail m)
  | inr no_start ↦ rw no_start m
]

MemD-scan : (t : Entries) (p k v : Bytes) → Memᴰ (k, v) (scan t p) → IsCurrent t p k v
MemD-scan [] p k v m = absurd (Memᴰ.not-nil m)
MemD-scan ((j, o) ∷ t) p k v m = elim (add_entry-MemD p j o _ (k, v) m) [
  | inl (e, here, starts) ↦ (rw (e, text_eq_refl j) here, rw e starts)
  | inr n ↦
      (let (n', differ) = MemD-filter (other_key j) (k, v) (scan t p) n in
        let (found, starts) = MemD-scan t p k v n' in
        let apart : text_eq j k ≡ false = ground (arith, differ) in (rw apart found, starts))
]

scan-MemD : (t : Entries) (p k v : Bytes) → IsCurrent t p k v → Memᴰ (k, v) (scan t p)
scan-MemD [] p k v (found, starts) = absurd (cc)
scan-MemD ((j, o) ∷ t) p k v (found, starts) = elim (Bool-cases (text_eq j k)) [
  | inl same ↦
      (let here : o ≡ some v = rw same at found in
        let e : j ≡ k = text_eq_sound j k same in rw (here, e, starts) (Memᴰ.head refl))
  | inr differ ↦
      MemD-add_entry p j o _ (k, v)
        (filter-MemD (other_key j) (k, v) (scan t p)
          (scan-MemD t p k v (rw differ at found, starts)) (rw differ))
]

-- Whether `v` is what the tree has under `k`, and `k` starts with `p`.
abbrev current : Option Bytes → Bytes → Bytes → Bytes → Bool
current none p k v = false
current (some w) p k v = text_eq w v && is_some (strip_prefix p k)

current_sound :
    (o : Option Bytes) (p k v : Bytes)
    → current o p k v ≡ true
    → (o ≡ some v) × ((r : Bytes) × (k ≡ p ++ r))
current_sound none p k v h = absurd (cc)
current_sound (some w) p k v h = elim (Option-cases (strip_prefix p k)) [
  | inl missing ↦ absurd (let e = rw missing at h in ground arith)
  | inr (r, rest) ↦
      (let e : text_eq w v ≡ true = (let e = rw rest at h in ground arith) in
        (ap (λ x. some x) (text_eq_sound w v e), (r, strip_prefix_sound p k r rest)))
]

IsCurrent-current :
    (t : Entries) (p k v : Bytes) → IsCurrent t p k v → current (find t k) p k v ≡ true
IsCurrent-current t p k v (found, starts) = rw (found, text_eq_refl v, starts)

starts_with : (p k r : Bytes) → k ≡ p ++ r → is_some (strip_prefix p k) ≡ true
starts_with p k r e = rw (e, strip_prefix-append p r)

pub mem-scan :
    (t : Entries) (p k v : Bytes)
    → Mem (k, v) (scan t p) ↔ ((find t k ≡ some v) × ((r : Bytes) × (k ≡ p ++ r)))
mem-scan t p k v = (
  λ m.
      current_sound (find t k) p k v
        (∥∥₁_elim m (Bool-set _ _) (λ d. IsCurrent-current t p k v (MemD-scan t p k v d))),
  λ h. ∣ scan-MemD t p k v (h.0, starts_with p k h.1.0 h.1.1) ∣₁,
)

filter_all :
    {A : Type 0} (q : A → Bool) (l : List A) → ((x : A) → Memᴰ x l → q x ≡ true) → filter q l ≡ l
filter_all q [] h = refl
filter_all q (x ∷ l) h =
    rw (h x (Memᴰ.head refl)) (ap (λ m. x ∷ m) (filter_all q l (λ y m. h y (Memᴰ.tail m))))

-- A new key comes to the front of a scan of its prefix.
pub scan-new :
    (t : Entries) (p r k v : Bytes)
    → find t k ≡ none
    → k ≡ p ++ r
    → scan ((k, some v) ∷ t) p ≡ (k, v) ∷ scan t p
scan-new t p r k v fresh e =
    let starts = starts_with p k r e in
    rw (starts, filter_all (other_key k) (scan t p) (λ x m. differs x m))
  where
    differs : (x : Bytes × Bytes) → Memᴰ x (scan t p) → other_key k x ≡ true
    differs (j, w) m = elim (Bool-cases (text_eq k j)) [
      | inl same ↦
          (let found : find t j ≡ some w = (MemD-scan t p j w m).0 in
            let gone : find t j ≡ none = rw (← text_eq_sound k j same) fresh in absurd (cc))
      | inr differ ↦ rw differ
    ]

-- A tree of numbers.
abbrev pub total : List (Bytes × ℕ) → Bytes → ℕ
total [] j = 0
total ((k, n) ∷ t) j = if text_eq k j then n else total t j
