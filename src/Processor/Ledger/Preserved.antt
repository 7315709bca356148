-- ===== src/Processor/Ledger/Preserved.antt =====
-- Adding data under a free key, and dropping the data of a key, keep the storage consistent.
use hayate.Prelude.{
  ◌≡◌, refl, sym, ap, ◌∙◌, Bool, true, false, Option, none, some, List, [], ◌∷◌, arith,
  if◌then◌else◌, Bool-cases, inl, inr,
}
use hayate.Prelude.Text.{Bytes, Text, text_eq, text_eq_sound, text_eq_refl}
use hayate.Externals.{Externals, Reliable}
use hayate.Storage.State.{NetworkStorage}
use hayate.Storage.Indexes.{entry_key}
use hayate.Processor.Ledger.{
  count, HasNoColon, owner, worth, held-update_once, IsConsistent, Parses, Adds, Drops, is_entry_of,
  owned_by,
}

-- An index entry of owners without a colon says which owner and which key it is for.
pub entry_key_injective :
    (a b k j : Text)
    → HasNoColon a
    → HasNoColon b
    → entry_key a k ≡ entry_key b j
    → (a ≡ b) × (k ≡ j)
entry_key_injective [] [] k j p q e = (refl, cc)
entry_key_injective [] (y ∷ b) k j p q e = absurd (q.0 (cc))
entry_key_injective (x ∷ a) [] k j p q e = absurd (p.0 (cc))
entry_key_injective (x ∷ a) (y ∷ b) k j p q e =
    let (f, g) = entry_key_injective a b k j p.1 q.1 (cc) in (cc, g)

Bool-ext : (b c : Bool) → (b ≡ true → c ≡ true) → (c ≡ true → b ≡ true) → b ≡ c
Bool-ext true true f g = refl
Bool-ext true false f g = sym (f refl)
Bool-ext false true f g = g refl
Bool-ext false false f g = refl

both_true : (b c : Bool) → (if b then c else false) ≡ true → (b ≡ true) × (c ≡ true)
both_true true c h = (refl, h)
both_true false c h = cc

-- Whether an entry of `a` is that of an owner `b`.
is_entry_lem :
    (a b k j : Text)
    → HasNoColon a
    → HasNoColon b
    → text_eq (entry_key b k) (entry_key a j) ≡ (if text_eq k j then text_eq b a else false)
is_entry_lem a b k j p q =
    Bool-ext _ _
      (λ h.
        let (e, f) = entry_key_injective b a k j q p (text_eq_sound _ _ h) in
        rw (e, f, text_eq_refl j, text_eq_refl a))
      (λ h.
        let (f, e) = both_true _ _ h in
        rw (text_eq_sound k j f, text_eq_sound b a e, text_eq_refl (entry_key a j)))

module _ ⦃X : Externals⦄ where
  -- The entry of the address `a` and the key `j`, after a change under `k`.
  is_entry_of-owns :
      (o : Option Text) (a k j : Text)
      → HasNoColon a
      → ((b : Text) → o ≡ some b → HasNoColon b)
      → is_entry_of o k (entry_key a j) ≡ (if text_eq k j then owned_by a o else false)
  is_entry_of-owns none a k j p q = ground arith
  is_entry_of-owns (some b) a k j p q = is_entry_lem a b k j p (q b refl)

module _ ⦃X : Externals⦄ (R : Reliable X) (ks : List Text) {s s' : NetworkStorage} where
  -- A consistent storage stays so when data comes under a free key of the list.
  pub Adds-IsConsistent :
      (k : Text) (d : Bytes)
      → IsConsistent R ks s
      → count k ks ≡ 1
      → R.find s.utxo_tree k ≡ none
      → ((b : Text) → owner d ≡ some b → HasNoColon b)
      → Parses d
      → Adds R k d s s'
      → IsConsistent R ks s'
  Adds-IsConsistent k d c once free clean_owner parses a = record {
    listed = λ j e h. elim (Bool-cases (text_eq k j)) [
      | inl same ↦ rw (← text_eq_sound k j same) once
      | inr differ ↦ c.listed j e (sym (rw (a.utxos j, differ) refl) ∙ h)
    ];
    clean = λ j e b h o. elim (Bool-cases (text_eq k j)) [
      | inl same ↦
          (let here : R.find s'.utxo_tree j ≡ some d = rw (a.utxos j, same) in
            let this : d ≡ e = cc in clean_owner b (ap owner this ∙ o))
      | inr differ ↦ c.clean j e b (sym (rw (a.utxos j, differ) refl) ∙ h) o
    ];
    readable = λ j e h. elim (Bool-cases (text_eq k j)) [
      | inl same ↦
          (let here : R.find s'.utxo_tree j ≡ some d = rw (a.utxos j, same) in
            let this : d ≡ e = cc in rw (← this) parses)
      | inr differ ↦ c.readable j e (sym (rw (a.utxos j, differ) refl) ∙ h)
    ];
    balanced = λ b. omega (
      arith,
      a.balances b,
      c.balanced b,
      ap (worth b) free,
      held-update_once b k (some d) ks (R.find s.utxo_tree) (R.find s'.utxo_tree) once a.utxos,
    );
    indexed = λ b j h.
        rw (a.index (entry_key b j), is_entry_of-owns (owner d) b k j h clean_owner, a.utxos j)
          (elim (Bool-cases (text_eq k j)) [
            | inl same ↦ rw (same, c.indexed b j h, ← text_eq_sound k j same, free)
            | inr differ ↦ rw (differ) (c.indexed b j h)
          ]);
  }

  -- So it does when the data of a key goes.
  pub Drops-IsConsistent :
      (k : Text) (d : Bytes)
      → IsConsistent R ks s
      → R.find s.utxo_tree k ≡ some d
      → Drops R k d s s'
      → IsConsistent R ks s'
  Drops-IsConsistent k d c held_there a = record {
    listed = λ j e h. elim (Bool-cases (text_eq k j)) [
      | inl same ↦ absurd (let gone : R.find s'.utxo_tree j ≡ none = rw (a.utxos j, same) in cc)
      | inr differ ↦ c.listed j e (sym (rw (a.utxos j, differ) refl) ∙ h)
    ];
    clean = λ j e b h o. elim (Bool-cases (text_eq k j)) [
      | inl same ↦ absurd (let gone : R.find s'.utxo_tree j ≡ none = rw (a.utxos j, same) in cc)
      | inr differ ↦ c.clean j e b (sym (rw (a.utxos j, differ) refl) ∙ h) o
    ];
    readable = λ j e h. elim (Bool-cases (text_eq k j)) [
      | inl same ↦ absurd (let gone : R.find s'.utxo_tree j ≡ none = rw (a.utxos j, same) in cc)
      | inr differ ↦ c.readable j e (sym (rw (a.utxos j, differ) refl) ∙ h)
    ];
    balanced = λ b. omega (
      arith,
      a.balances b,
      c.balanced b,
      ap (worth b) held_there,
      held-update_once b k none ks (R.find s.utxo_tree) (R.find s'.utxo_tree)
          (c.listed k d held_there) a.utxos,
    );
    indexed = λ b j h.
        rw
          (
            a.index (entry_key b j),
            is_entry_of-owns (owner d) b k j h (λ x o. c.clean k d x held_there o),
            a.utxos j,
          )
          (elim (Bool-cases (text_eq k j)) [
            | inl same ↦
                rw (same, c.indexed b j h, ← text_eq_sound k j same, held_there) (ground arith)
            | inr differ ↦ rw (differ) (c.indexed b j h)
          ]);
  }
