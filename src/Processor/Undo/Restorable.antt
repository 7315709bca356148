-- ===== src/Processor/Undo/Restorable.antt =====
-- That the data of what a block has spent can come back, as the block goes on.
use hayate.Prelude.{
  ◌+◌, ◌≤◌, ◌≡◌, refl, sym, ap, ◌∙◌, true, false, Option, none, some, List, [], ◌∷◌, ◌++◌, arith,
  Bool-cases, inl, inr,
}
use hayate.Prelude.Text.{Bytes, Text, text_eq, text_eq_sound, text_eq_refl}
use hayate.Externals.{Externals}
use hayate.Processor.Ledger.{count, owner, worth, HasNoColon, held, held-update_once}
use hayate.Processor.Undo.{Entries, change, restored, restored-none, returned, Restorable}

-- Two changes at different keys commute.
change-commute :
    (k x : Text) (o q : Option Bytes) (u : Entries) (j : Text)
    → text_eq k x ≡ false
    → change k o (change x q u) j ≡ change x q (change k o u) j
change-commute k x o q u j differ = elim (Bool-cases (text_eq k j)) [
  | inl same ↦ elim (Bool-cases (text_eq x j)) [
    | inl also ↦ absurd (
        let e : text_eq k x ≡ true =
          rw (text_eq_sound x j also, ← text_eq_sound k j same) (text_eq_refl k) in
        cc)
    | inr other ↦ rw (same, other)
  ]
  | inr apart ↦ rw apart
]

module _ ⦃X : Externals⦄ where
  pub returned-append_one :
      (a : Text) (l : List (Text × Bytes × Bytes)) (k : Text) (d e : Bytes)
      → returned a (l ++ (k, d, e) ∷ []) ≡ returned a l + worth a (some d)
  returned-append_one a [] k d e = omega arith
  returned-append_one a ((_, c, _) ∷ l) k d e = omega (arith, returned-append_one a l k d e)

  -- Fewer entries are in the way.
  pub Restorable-fewer :
      (ks : List Text) (l : List (Text × Bytes × Bytes)) (u v : Entries)
      → ((j : Text) → u j ≡ none → v j ≡ none)
      → Restorable ks u l
      → Restorable ks v l
  Restorable-fewer ks [] u v h r = tt
  Restorable-fewer ks ((k, d, _) ∷ l) u v h ((gone, once, clean), more) = (
    (h k gone, once, clean),
    Restorable-fewer ks l (change k (some d) u) (change k (some d) v)
        (λ j e. elim (Bool-cases (text_eq k j)) [
          | inl same ↦ absurd (let f = rw same at e in cc)
          | inr differ ↦ rw differ (h j (rw differ at e))
        ])
        more,
  )

  -- What holds data now is not in the list.
  pub restored-unlisted :
      (ks : List Text) (l : List (Text × Bytes × Bytes)) (u v : Entries) (k : Text) (d : Bytes)
      → Restorable ks u l
      → u k ≡ some d
      → v k ≡ none
      → restored l v k ≡ none
  restored-unlisted ks [] u v k d r there gone = gone
  restored-unlisted ks ((x, c, _) ∷ l) u v k d ((absent, _, _), more) there gone =
      elim (Bool-cases (text_eq x k)) [
        | inl same ↦ absurd (let e : u k ≡ none = rw (← text_eq_sound x k same) absent in cc)
        | inr differ ↦
            restored-unlisted ks l (change x (some c) u) (change x (some c) v) k d more
              (rw differ there) (rw differ gone)
      ]

  pub Restorable-append_one :
      (ks : List Text) (l : List (Text × Bytes × Bytes)) (u : Entries) (k : Text) (d e : Bytes)
      → Restorable ks u l
      → restored l u k ≡ none
      → count k ks ≡ 1
      → ((b : Text) → owner d ≡ some b → HasNoColon b)
      → Restorable ks u (l ++ (k, d, e) ∷ [])
  Restorable-append_one ks [] u k d e r gone once clean = ((gone, once, clean), tt)
  Restorable-append_one ks ((x, c, _) ∷ l) u k d e (first, more) gone once clean =
      (first, Restorable-append_one ks l (change x (some c) u) k d e more gone once clean)

  -- A key that is not in the list may come to hold data.
  pub Restorable-insert :
      (ks : List Text) (l : List (Text × Bytes × Bytes)) (u : Entries) (k : Text) (d : Bytes)
      → Restorable ks u l
      → restored l u k ≡ none
      → Restorable ks (change k (some d) u) l
  Restorable-insert ks [] u k d r gone = tt
  Restorable-insert ks ((x, c, _) ∷ l) u k d ((absent, once, clean), more) gone =
      elim (Bool-cases (text_eq k x)) [
        | inl same ↦ absurd (
            let e = restored-none l (change x (some c) u) k gone in
            let f = rw (text_eq_sound k x same, text_eq_refl x) at e in cc)
        | inr differ ↦ (
          (rw differ absent, once, clean),
          Restorable-fewer ks l (change k (some d) (change x (some c) u))
              (change x (some c) (change k (some d) u))
              (λ j h. sym (change-commute k x (some d) (some c) u j differ) ∙ h)
              (Restorable-insert ks l (change x (some c) u) k d more gone),
        )
      ]

  -- A UTxO is worth at most what is held.
  pub worth-held :
      (a k : Text) (d : Bytes) (ks : List Text) (u : Entries)
      → count k ks ≡ 1
      → u k ≡ some d
      → worth a (some d) ≤ held a ks u
  worth-held a k d ks u once there =
      let e = held-update_once a k none ks u (change k none u) once (λ j. refl) in
      omega (arith, e, ap (worth a) there)
