-- ===== src/Prelude/Sorting/Laws.antt =====
-- Sorted lists: what `sort` keeps, its last element, and what a filter does to it.
use hayate.Prelude.Tests.{leb, if◌then◌else◌, Bool-cases}
use hayate.Prelude.Lists.{All, All-append, length}
use hayate.Prelude.Text.{Text}
use hayate.Prelude.Decimal.{value}
use hayate.Prelude.Decimal.Laws.{IsDigits}
use hayate.Prelude.Sorting.{insert, sort, reverse, last, take, drop, filter, text_leb}
use Prim.Native.Nat.{ℕ, zero, suc, ◌+◌, ◌*◌, ◌-◌, ◌<◌}
use mathlib.Core.Path.{◌≡◌, refl, ap, subst, ◌∙◌}
use mathlib.Core.Logic.{inl, inr}
use mathlib.Core.Bool.{Bool, true, false}
use mathlib.Core.Option.{none, some}
use mathlib.Core.List.{List, [], ◌∷◌, ◌++◌}
use native.Mathlib.Omega.{arith}

pub All-parts :
    {A : Type 0} (P : A → Type 0) (xs ys : List A) → All P (xs ++ ys) → All P xs × All P ys
All-parts P [] ys h = (tt, h)
All-parts P (x ∷ xs) ys (p, h) = let (front, back) = All-parts P xs ys h in ((p, front), back)

-- A symmetric relation between any two elements.
abbrev pub Pairwise : {A : Type 0} → (A → A → Type 0) → List A → Type 0
Pairwise R [] = Unit
Pairwise R (x ∷ xs) = All (R x) xs × Pairwise R xs

pub reverse-All : {A : Type 0} (P : A → Type 0) (xs : List A) → All P xs → All P (reverse xs)
reverse-All P [] h = tt
reverse-All P (x ∷ xs) (p, h) = All-append P (reverse xs) (x ∷ []) (reverse-All P xs h) (p, tt)

pub All-reverse : {A : Type 0} (P : A → Type 0) (xs : List A) → All P (reverse xs) → All P xs
All-reverse P [] h = tt
All-reverse P (x ∷ xs) h =
    let (front, back) = All-parts P (reverse xs) (x ∷ []) h in (back.0, All-reverse P xs front)

Pairwise-append :
    {A : Type 0} (R : A → A → Type 0) (x : A) (xs : List A)
    → ((y z : A) → R y z → R z y)
    → All (R x) xs
    → Pairwise R xs
    → Pairwise R (xs ++ x ∷ [])
Pairwise-append R x [] symmetric h k = (tt, tt)
Pairwise-append R x (y ∷ ys) symmetric (r, h) (f, k) =
    (All-append (R y) ys (x ∷ []) f (symmetric x y r, tt), Pairwise-append R x ys symmetric h k)

pub reverse-Pairwise :
    {A : Type 0} (R : A → A → Type 0) (xs : List A)
    → ((y z : A) → R y z → R z y)
    → Pairwise R xs
    → Pairwise R (reverse xs)
reverse-Pairwise R [] symmetric h = tt
reverse-Pairwise R (x ∷ xs) symmetric (f, h) =
    Pairwise-append R x (reverse xs) symmetric (reverse-All (R x) xs f)
      (reverse-Pairwise R xs symmetric h)

module _ {A : Type 0} (le : A → A → Bool) where
  abbrev pub IsSorted : List A → Type 0
  IsSorted [] = Unit
  IsSorted (x ∷ xs) = All (λ y. le x y ≡ true) xs × IsSorted xs

  insert-All : (P : A → Type 0) (x : A) (xs : List A) → P x → All P xs → All P (insert le x xs)
  unfolding insert
  insert-All P x [] p h = (p, tt)
  insert-All P x (y ∷ ys) p (q, h) = elim (Bool-cases (le x y)) [
    | inl below ↦ rw below (p, (q, h))
    | inr above ↦ rw above (q, insert-All P x ys p h)
  ]

  pub sort-All : (P : A → Type 0) (xs : List A) → All P xs → All P (sort le xs)
  unfolding sort
  sort-All P [] h = tt
  sort-All P (x ∷ xs) (p, h) = insert-All P x (sort le xs) p (sort-All P xs h)

  All-insert : (P : A → Type 0) (x : A) (xs : List A) → All P (insert le x xs) → P x × All P xs
  unfolding insert
  All-insert P x [] h = (h.0, tt)
  All-insert P x (y ∷ ys) h = elim (Bool-cases (le x y)) [
    | inl below ↦ (rw below at h)
    | inr above ↦
        let h' = rw above at h in let rest = All-insert P x ys h'.1 in (rest.0, (h'.0, rest.1))
  ]

  pub All-sort : (P : A → Type 0) (xs : List A) → All P (sort le xs) → All P xs
  unfolding sort
  All-sort P [] h = tt
  All-sort P (x ∷ xs) h = let both = All-insert P x (sort le xs) h in (both.0, All-sort P xs both.1)

  module _ (R : A → A → Type 0) (symmetric : (x y : A) → R x y → R y x) where
    insert-Pairwise :
        (x : A) (xs : List A) → All (R x) xs → Pairwise R xs → Pairwise R (insert le x xs)
    unfolding insert
    insert-Pairwise x [] h k = (tt, tt)
    insert-Pairwise x (y ∷ ys) (r, h) (f, k) = elim (Bool-cases (le x y)) [
      | inl below ↦ rw below ((r, h), (f, k))
      | inr above ↦ rw above (insert-All (R y) x ys (symmetric x y r) f, insert-Pairwise x ys h k)
    ]

    pub sort-Pairwise : (xs : List A) → Pairwise R xs → Pairwise R (sort le xs)
    unfolding sort
    sort-Pairwise [] h = tt
    sort-Pairwise (x ∷ xs) (r, h) =
        insert-Pairwise x (sort le xs) (sort-All (R x) xs r) (sort-Pairwise xs h)

  -- From the greatest to the least.
  abbrev pub IsDescending : List A → Type 0
  IsDescending [] = Unit
  IsDescending (x ∷ xs) = All (λ y. le y x ≡ true) xs × IsDescending xs

  IsDescending-append :
      (x : A) (xs : List A)
      → All (λ y. le x y ≡ true) xs
      → IsDescending xs
      → IsDescending (xs ++ x ∷ [])
  IsDescending-append x [] h k = (tt, tt)
  IsDescending-append x (y ∷ ys) (e, h) (f, k) =
      (All-append (λ z. le z y ≡ true) ys (x ∷ []) f (e, tt), IsDescending-append x ys h k)

  pub reverse-IsDescending : (xs : List A) → IsSorted xs → IsDescending (reverse xs)
  reverse-IsDescending [] h = tt
  reverse-IsDescending (x ∷ xs) (f, h) =
      IsDescending-append x (reverse xs) (reverse-All _ xs f) (reverse-IsDescending xs h)

  length-insert : (x : A) (xs : List A) → length (insert le x xs) ≡ suc (length xs)
  unfolding insert
  length-insert x [] = refl
  length-insert x (y ∷ ys) = ground (arith, length-insert x ys)

  pub length-sort : (xs : List A) → length (sort le xs) ≡ length xs
  unfolding sort
  length-sort [] = refl
  length-sort (x ∷ xs) = length-insert x (sort le xs) ∙ ap suc (length-sort xs)

  pub sort-nil : (xs : List A) → sort le xs ≡ [] → xs ≡ []
  sort-nil [] h = refl
  sort-nil (x ∷ xs) h = absurd (omega (arith, ap length h, length-sort (x ∷ xs)))

  sort-if :
      (b : Bool) (x : A) (xs : List A)
      → (if b then insert le x (sort le xs) else sort le xs) ≡ sort le (if b then x ∷ xs else xs)
  unfolding sort
  sort-if true x xs = refl
  sort-if false x xs = refl

  module _ (total : (x y : A) → le x y ≡ false → le y x ≡ true)
      (trans : (x y z : A) → le x y ≡ true → le y z ≡ true → le x z ≡ true) where
    All-trans :
        (x y : A) (ys : List A)
        → le x y ≡ true
        → All (λ z. le y z ≡ true) ys
        → All (λ z. le x z ≡ true) ys
    All-trans x y [] e h = tt
    All-trans x y (z ∷ zs) e (p, h) = (trans x y z e p, All-trans x y zs e h)

    insert-IsSorted : (x : A) (xs : List A) → IsSorted xs → IsSorted (insert le x xs)
    unfolding insert
    insert-IsSorted x [] h = (tt, tt)
    insert-IsSorted x (y ∷ ys) (p, h) = elim (Bool-cases (le x y)) [
      | inl below ↦ rw below ((below, All-trans x y ys below p), (p, h))
      | inr above ↦
          rw above
            (insert-All (λ z. le y z ≡ true) x ys (total x y above) p, insert-IsSorted x ys h)
    ]

    pub sort-IsSorted : (xs : List A) → IsSorted (sort le xs)
    unfolding sort
    sort-IsSorted [] = tt
    sort-IsSorted (x ∷ xs) = insert-IsSorted x (sort le xs) (sort-IsSorted xs)

    insert-below : (x : A) (xs : List A) → All (λ y. le x y ≡ true) xs → insert le x xs ≡ x ∷ xs
    unfolding insert
    insert-below x [] h = refl
    insert-below x (y ∷ ys) (p, h) = rw p

    pub filter-All : (P : A → Type 0) (p : A → Bool) (xs : List A) → All P xs → All P (filter p xs)
    filter-All P p [] h = tt
    filter-All P p (x ∷ xs) (q, h) = elim (Bool-cases (p x)) [
      | inl yea ↦ rw yea (q, filter-All P p xs h)
      | inr nay ↦ rw nay (filter-All P p xs h)
    ]

    filter-insert :
        (p : A → Bool) (x : A) (xs : List A)
        → IsSorted xs
        → filter p (insert le x xs) ≡ (if p x then insert le x (filter p xs) else filter p xs)
    unfolding insert
    filter-insert p x [] h = refl
    filter-insert p x (y ∷ ys) (q, h) = elim (Bool-cases (le x y)) [
      | inl below ↦ elim (Bool-cases (p x)) [
        | inl yea ↦ rw (
          below,
          yea,
          insert-below x (filter p (y ∷ ys))
              (filter-All _ p (y ∷ ys) (below, All-trans x y ys below q)),
        )
        | inr nay ↦ rw (below, nay)
      ]
      | inr above ↦ elim (Bool-cases (p x)) [
        | inl yea ↦ elim (Bool-cases (p y)) [
          | inl too ↦ rw (above, filter-insert p x ys h, yea, too, above)
          | inr not_too ↦ rw (above, filter-insert p x ys h, yea, not_too)
        ]
        | inr nay ↦ rw (above, filter-insert p x ys h, nay)
      ]
    ]

    -- A filter of a sorted list is the sorted list of what the filter leaves.
    pub filter-sort : (p : A → Bool) (xs : List A) → filter p (sort le xs) ≡ sort le (filter p xs)
    unfolding sort
    filter-sort p [] = refl
    filter-sort p (x ∷ xs) =
        filter-insert p x (sort le xs) (sort-IsSorted xs)
        ∙ rw (filter-sort p xs) (sort-if (p x) x (filter p xs))

    -- The last element of a sorted list is its greatest.
    pub last-greatest :
        (xs : List A) (m : A)
        → IsSorted xs
        → last xs ≡ some m
        → ((x : A) → le x x ≡ true)
        → All (λ x. le x m ≡ true) xs
    last-greatest [] m h e r = tt
    last-greatest (x ∷ []) m h e r = (let same : x ≡ m = cc in rw (← same) (r x), tt)
    last-greatest (x ∷ y ∷ xs) m (q, h) e r =
        let rest = last-greatest (y ∷ xs) m h e r in (trans x y m q.0 rest.0, rest)

pub length-drop : {A : Type 0} (n : ℕ) (xs : List A) → length (drop n xs) ≡ length xs - n
length-drop zero xs = omega arith
length-drop (suc n) [] = omega arith
length-drop (suc n) (x ∷ xs) = omega (arith, length-drop n xs)

pub take-All : {A : Type 0} (P : A → Type 0) (n : ℕ) (xs : List A) → All P xs → All P (take n xs)
take-All P zero xs h = tt
take-All P (suc n) [] h = tt
take-All P (suc n) (x ∷ xs) (p, h) = (p, take-All P n xs h)

pub All-last {κ} :
    {A : Type 0} (P : A → Type κ) (xs : List A) (m : A) → last xs ≡ some m → All P xs → P m
All-last P [] m e h = cc
All-last P (x ∷ []) m e h = let same : x ≡ m = cc in subst P same h.0
All-last P (x ∷ y ∷ xs) m e h = All-last P (y ∷ xs) m e h.1

pub last-none : {A : Type 0} (xs : List A) → last xs ≡ none → xs ≡ []
last-none [] e = refl
last-none (x ∷ []) e = cc
last-none (x ∷ y ∷ xs) e = let f : y ∷ xs ≡ [] = last-none (y ∷ xs) e in cc

-- Texts of digits of one length are in the order of their numbers.
value-lt :
    (acc acc' : ℕ) (s t : Text)
    → acc < acc'
    → length s ≡ length t
    → IsDigits s
    → value acc s < value acc' t
unfolding value
value-lt acc acc' [] [] h e d = h
value-lt acc acc' [] (b ∷ t) h e d = absurd (omega arith)
value-lt acc acc' (a ∷ s) [] h e d = absurd (omega arith)
value-lt acc acc' (a ∷ s) (b ∷ t) h e (d, ds) =
    value-lt (acc * 10 + (a - 48)) (acc' * 10 + (b - 48)) s t (ground arith) (omega arith) ds

pub text_leb-value :
    (acc : ℕ) (s t : Text)
    → length s ≡ length t
    → IsDigits s
    → IsDigits t
    → text_leb s t ≡ leb (value acc s) (value acc t)
unfolding value text_leb
text_leb-value acc [] [] e ds dt = ground arith
text_leb-value acc [] (b ∷ t) e ds dt = absurd (omega arith)
text_leb-value acc (a ∷ s) [] e ds dt = absurd (omega arith)
text_leb-value acc (a ∷ s) (b ∷ t) e (da, ds) (db, dt) = ground (
  arith,
  text_leb-value (acc * 10 + (a - 48)) s t (omega arith) ds dt,
  value-lt (acc * 10 + (a - 48)) (acc * 10 + (b - 48)) s t,
  value-lt (acc * 10 + (b - 48)) (acc * 10 + (a - 48)) t s,
)

-- `text_leb` is a total order.
pub text_leb_total : (s t : Text) → text_leb s t ≡ false → text_leb t s ≡ true
unfolding text_leb
text_leb_total [] t h = cc
text_leb_total (a ∷ s) [] h = refl
text_leb_total (a ∷ s) (b ∷ t) h = ground (arith, text_leb_total s t)

pub text_leb_trans :
    (s t u : Text) → text_leb s t ≡ true → text_leb t u ≡ true → text_leb s u ≡ true
unfolding text_leb
text_leb_trans [] t u h k = refl
text_leb_trans (a ∷ s) [] u h k = cc
text_leb_trans (a ∷ s) (b ∷ t) [] h k = cc
text_leb_trans (a ∷ s) (b ∷ t) (c ∷ u) h k = ground (arith, text_leb_trans s t u)

pub text_leb_refl : (s : Text) → text_leb s s ≡ true
unfolding text_leb
text_leb_refl [] = refl
text_leb_refl (a ∷ s) = ground (arith, text_leb_refl s)
