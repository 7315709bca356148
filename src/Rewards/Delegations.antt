-- ===== src/Rewards/Delegations.antt =====
-- The current delegation of a stake key is that of the highest slot.
use hayate.Prelude.{
  ℕ, ◌<◌, ◌≤◌, ◌≡◌, ◌≢◌, ◌⊎◌, refl, ap, sym, ◌∙◌, true, false, Option, none, some, List, [], ◌∷◌,
  ◌++◌, ltb, ◌==◌, Bool-cases, inl, inr, All, All-imp, arith,
}
use hayate.Prelude.Text.{Bytes, codes}
use hayate.Prelude.Utf8.{from_utf8_ascii, IsAscii}
use hayate.Prelude.Decimal.{show, value-show, u64_limit, is_digit}
use hayate.Prelude.Decimal.Laws.{show-IsDigits, length-show_pos, parse_u64-digits}
use hayate.Result.{ok}
use hayate.Externals.{Externals, Reliable}
use hayate.Storage.State.{RewardsTracker}
use hayate.Processor.Ledger.{HasNoColon}
use hayate.Rewards.Snapshots.{hex_encode-HasNoColon}
use hayate.Rewards.{
  Bincode, add_byte, split_colons, slot_in_key, later, latest_delegation, delegation_key,
  get_current_delegation,
}
use mathlib.Core.Logic.Or
use mathlib.Core.List.{
  Mem, not-mem-nil, mem-cons_self, mem-cons_of_mem, eq-or-mem_of_mem-cons, append_assoc,
}
use native.Mathlib.Bridge.{le_prop}

no_colon_test : (c : ℕ) → c ≢ b':' → (c == b':') ≡ false
no_colon_test c h = ground (arith, h)

add_byte_cons :
    (c : ℕ) (f : Bytes) (fs : List Bytes)
    → (g : Bytes) × (gs : List Bytes) × (add_byte c (f ∷ fs) ≡ g ∷ gs)
unfolding add_byte
add_byte_cons c f fs = elim (Bool-cases (c == b':')) [
  | inl colon ↦ ([], f ∷ fs, rw colon)
  | inr other ↦ (c ∷ f, fs, rw other)
]

-- There is at least one field.
split_colons_cons : (s : Bytes) → (f : Bytes) × (fs : List Bytes) × (split_colons s ≡ f ∷ fs)
unfolding split_colons
split_colons_cons [] = ([], [], refl)
split_colons_cons (c ∷ s) =
    let (f, fs, e) = split_colons_cons s in let (g, gs, h) = add_byte_cons c f fs in (g, gs, rw e h)

split_colons-append :
    (a s : Bytes) → HasNoColon a → split_colons (a ++ b':' ∷ s) ≡ a ∷ split_colons s
unfolding split_colons add_byte
split_colons-append [] s h = let (f, fs, e) = split_colons_cons s in rw e
split_colons-append (c ∷ a) s (h, hs) = rw (split_colons-append a s hs, no_colon_test c h)

split_colons-one : (a : Bytes) → HasNoColon a → split_colons a ≡ a ∷ []
unfolding split_colons add_byte
split_colons-one [] h = refl
split_colons-one (c ∷ a) (h, hs) = rw (split_colons-one a hs, no_colon_test c h)

digit_no_colon : (c : ℕ) → is_digit c ≡ true → c ≢ b':'
digit_no_colon c h = λ e. absurd (ground (arith, e))

digit_ascii : (c : ℕ) → is_digit c ≡ true → c < 0x80
digit_ascii c h = ground arith

codes_no_colon : HasNoColon (codes "delegation")
codes_no_colon = omega arith

module _ ⦃X : Externals⦄ ⦃B : Bincode⦄ (R : Reliable X) where
  -- The slot of a delegation is read from its key.
  slot_in_key-delegation_key :
      (k : Bytes) (slot : ℕ) → slot < u64_limit → slot_in_key (delegation_key k slot) ≡ some slot
  unfolding slot_in_key
  slot_in_key-delegation_key k slot h =
      let digits = show-IsDigits slot in
      let no_colon : HasNoColon (show slot) = All-imp _ _ (show slot) digit_no_colon digits in
      let ascii : IsAscii (show slot) = All-imp _ _ (show slot) digit_ascii digits in
      let fields : split_colons (delegation_key k slot)
          ≡ codes "delegation" ∷ X.hex_encode k ∷ show slot ∷ [] =
        split_colons-append (codes "delegation") (X.hex_encode k ++ (codes ":" ++ show slot))
          codes_no_colon
        ∙ ap (λ fs. codes "delegation" ∷ fs)
            (split_colons-append (X.hex_encode k) (show slot) (hex_encode-HasNoColon R k)
              ∙ ap (λ fs. X.hex_encode k ∷ fs) (split_colons-one (show slot) no_colon)) in
      rw (fields, from_utf8_ascii (show slot) ascii)
        (parse_u64-digits (show slot) slot digits (length-show_pos slot) (value-show slot) h)

-- One of the entries, or what was the latest before them.
abbrev IsFrom : Option (ℕ × Bytes) → List (Bytes × Bytes) → ℕ → Bytes → Type 0
IsFrom acc l s p =
    (acc ≡ some (s, p)) ⊎ ((key : Bytes) × Mem (key, p) l × (slot_in_key key ≡ some s))

abbrev pub AtOrBefore : ℕ → Option ℕ → Type 0
AtOrBefore s none = Unit
AtOrBefore s (some k) = k ≤ s

abbrev start_of : Option (ℕ × Bytes) → Option ℕ
start_of none = none
start_of (some (k, _)) = some k

-- What the loop ends with: nothing if there was no slot, else an entry with the highest one.
abbrev IsBest : Option (ℕ × Bytes) → List (Bytes × Bytes) → Option (ℕ × Bytes) → Type 0
IsBest acc l none = (acc ≡ none) × All (λ e. slot_in_key e.0 ≡ none) l
IsBest acc l (some (s, p)) =
    IsFrom acc l s p × AtOrBefore s (start_of acc) × All (λ e. AtOrBefore s (slot_in_key e.0)) l

-- An entry whose slot is the latest, in front of the others.
IsBest-new :
    (acc : Option (ℕ × Bytes)) (key v : Bytes) (k : ℕ) (l : List (Bytes × Bytes))
    (out : Option (ℕ × Bytes))
    → slot_in_key key ≡ some k
    → ((s : ℕ) → k ≤ s → AtOrBefore s (start_of acc))
    → IsBest (some (k, v)) l out
    → IsBest acc ((key, v) ∷ l) out
IsBest-new acc key v k l none e h best = absurd (cc (best.0))
IsBest-new acc key v k l (some (s, p)) e h (inl same, below, all) =
    let ks : k ≡ s = cc in
    let vp : v ≡ p = cc in
    (inr (key, rw vp mem-cons_self, e ∙ ap some ks), h s below, (rw e below, all))
IsBest-new acc key v k l (some (s, p)) e h (inr (key', m, t), below, all) =
    (inr (key', mem-cons_of_mem _ m, t), h s below, (rw e below, all))

-- An entry whose slot is not later, or that has none.
IsBest-old :
    (acc : Option (ℕ × Bytes)) (key v : Bytes) (o : Option ℕ) (l : List (Bytes × Bytes))
    (out : Option (ℕ × Bytes))
    → slot_in_key key ≡ o
    → (acc ≡ none → o ≡ none)
    → ((s : ℕ) → AtOrBefore s (start_of acc) → AtOrBefore s o)
    → IsBest acc l out
    → IsBest acc ((key, v) ∷ l) out
IsBest-old acc key v o l none e f h (nothing, all) = (nothing, (e ∙ f nothing, all))
IsBest-old acc key v o l (some (s, p)) e f h (inl same, below, all) =
    (inl same, below, (rw e (h s below), all))
IsBest-old acc key v o l (some (s, p)) e f h (inr (key', m, t), below, all) =
    (inr (key', mem-cons_of_mem _ m, t), below, (rw e (h s below), all))

IsBest-later :
    (acc : Option (ℕ × Bytes)) (key v : Bytes) (o : Option ℕ) (l : List (Bytes × Bytes))
    (out : Option (ℕ × Bytes))
    → slot_in_key key ≡ o
    → IsBest (later o v acc) l out
    → IsBest acc ((key, v) ∷ l) out
IsBest-later acc key v none l out e best =
    IsBest-old acc key v none l out e (λ _. refl) (λ _ _. tt) best
IsBest-later none key v (some k) l out e best = IsBest-new none key v k l out e (λ _ _. tt) best
IsBest-later (some (a, q)) key v (some k) l out e best = elim (Bool-cases (ltb a k)) [
  | inl newer ↦ IsBest-new (some (a, q)) key v k l out e (λ s h. ground arith) (rw newer at best)
  | inr older ↦
      IsBest-old (some (a, q)) key v (some k) l out e (λ n. absurd (cc)) (λ s h. ground arith)
        (rw older at best)
]

latest_delegation-IsBest :
    (l : List (Bytes × Bytes)) (acc : Option (ℕ × Bytes)) → IsBest acc l (latest_delegation acc l)
unfolding latest_delegation
latest_delegation-IsBest [] none = (refl, tt)
latest_delegation-IsBest [] (some (s, p)) = (inl refl, omega arith, tt)
latest_delegation-IsBest ((key, v) ∷ l) acc =
    IsBest-later acc key v (slot_in_key key) l (latest_delegation (later (slot_in_key key) v acc) l)
      refl (latest_delegation-IsBest l (later (slot_in_key key) v acc))

-- What holds of every entry holds of a member.
AtOrBefore-Mem :
    (l : List (Bytes × Bytes)) (s k : ℕ) (e : Bytes × Bytes)
    → Mem e l
    → slot_in_key e.0 ≡ some k
    → All (λ x. AtOrBefore s (slot_in_key x.0)) l
    → k ≤ s
AtOrBefore-Mem [] s k e m h all = absurd (not-mem-nil m)
AtOrBefore-Mem (x ∷ l) s k e m h (b, all) =
    Or.elim le_prop (eq-or-mem_of_mem-cons m)
      (λ same.
        (let g : slot_in_key x.0 ≡ some k =
            ap (λ (y : Bytes × Bytes). slot_in_key y.0) (sym same) ∙ h in
          rw g at b))
      (λ m'. AtOrBefore-Mem l s k e m' h all)

none-Mem :
    (l : List (Bytes × Bytes)) (k : ℕ) (e : Bytes × Bytes)
    → Mem e l
    → slot_in_key e.0 ≡ some k
    → All (λ x. slot_in_key x.0 ≡ none) l
    → 1 ≤ 0
none-Mem [] k e m h all = absurd (not-mem-nil m)
none-Mem (x ∷ l) k e m h (b, all) =
    Or.elim le_prop (eq-or-mem_of_mem-cons m)
      (λ same. absurd (
        let g : slot_in_key x.0 ≡ some k =
          ap (λ (y : Bytes × Bytes). slot_in_key y.0) (sym same) ∙ h in
        cc))
      (λ m'. none-Mem l k e m' h all)

best_of_member :
    (l : List (Bytes × Bytes)) (e : Bytes × Bytes) (slot : ℕ) (o : Option (ℕ × Bytes))
    → Mem e l
    → slot_in_key e.0 ≡ some slot
    → IsBest none l o
    → (p key : Bytes) × (s : ℕ) × (o ≡ some (s, p))
      × Mem (key, p) l
      × (slot_in_key key ≡ some s)
      × All (λ x. AtOrBefore s (slot_in_key x.0)) l
best_of_member l e slot none m h (_, all) = absurd (omega (arith, none-Mem l slot e m h all))
best_of_member l e slot (some (s, p)) m h (inl same, below, all) = absurd (cc)
best_of_member l e slot (some (s, p)) m h (inr (key, n, t), below, all) =
    (p, key, s, refl, n, t, all)

module _ ⦃X : Externals⦄ ⦃B : Bincode⦄ (R : Reliable X) where
  -- Where a delegation of a stake key at a 64-bit slot is stored, the current delegation is found and
  -- the tracker stays as it is. The pool is that of a stored entry whose key begins as the keys of
  -- this stake key and shows a slot, which is at or after the slot of the delegation, and no entry
  -- whose key begins so shows a later slot.
  pub get_current_delegation-IsLatest :
      (k pool_id : Bytes) (slot : ℕ) (r : RewardsTracker)
      → slot < u64_limit
      → R.find r.delegations (delegation_key k slot) ≡ some pool_id
      → (p key : Bytes) × (s : ℕ) × (get_current_delegation k r ≡ (ok (some p), r))
        × (R.find r.delegations key ≡ some p)
        × ((rest : Bytes) × (key ≡ (codes "delegation:" ++ X.hex_encode k) ++ rest))
        × (slot_in_key key ≡ some s)
        × (slot ≤ s)
        × All
            (λ e. AtOrBefore s (slot_in_key e.0))
            (X.scan_prefix r.delegations (codes "delegation:" ++ X.hex_encode k))
  unfolding get_current_delegation
  get_current_delegation-IsLatest k pool_id slot r small stored =
      let prefix = codes "delegation:" ++ X.hex_encode k in
      let l = X.scan_prefix r.delegations prefix in
      let found : Mem (delegation_key k slot, pool_id) l =
        (R.mem-scan_prefix r.delegations prefix (delegation_key k slot) pool_id).1
          (stored, (codes ":" ++ show slot, simp (append_assoc))) in
      let shows = slot_in_key-delegation_key R k slot small in
      let (p, key, s, e, m, t, all) =
        best_of_member l _ slot (latest_delegation none l) found shows
          (latest_delegation-IsBest l none) in
      let (there, under) = (R.mem-scan_prefix r.delegations prefix key p).0 m in
      (p, key, s, rw e, there, under, t, AtOrBefore-Mem l s slot _ found shows all, all)
