-- ===== src/Processor/Rollback/Events.antt =====
-- The deletion of the events of a block.
use hayate.Prelude.{
  ℕ, zero, suc, ◌+◌, ◌≤◌, ◌<◌, ◌≡◌, refl, ◌∙◌, true, false, none, arith, is_some, Bool-cases,
  Option-cases, inl, inr, ◌==◌, ==_iff,
}
use hayate.Prelude.Text.{Text, text_eq, text_eq_sound, text_eq_refl}
use hayate.Result.{Returns}
use hayate.Externals.{Externals, Reliable}
use hayate.Storage.State.{NetworkStorage}
use hayate.Manager.{new}
use hayate.Handle
use hayate.Processor.State.{event_key}
use hayate.Processor.State.Epochs.{event_key_injective}
use hayate.Processor.Rollback.{delete_events}

module _ ⦃X : Externals⦄ (R : Reliable X) (slot : ℕ) where
  other_event : (i j : ℕ) → i < j → text_eq (event_key slot i) (event_key slot j) ≡ false
  other_event i j h = elim (Bool-cases (text_eq (event_key slot i) (event_key slot j))) [
    | inl same ↦
        absurd
          (let e = event_key_injective slot i j (text_eq_sound _ _ same) in omega (arith, h, e))
    | inr differ ↦ differ
  ]

  -- Where `n` events of a slot in a row stand from an index on and none follows them, `n` below the
  -- rounds, deleting the events of the slot from that index on succeeds within the rounds and
  -- changes no tree but the events'. None of the events from that index up to the missing one is
  -- left, and every key that is not one of theirs holds what it held.
  pub delete_events-removes :
      (rounds i n : ℕ) (s : NetworkStorage)
      → n < rounds
      → ((j : ℕ)
          → i ≤ j
          → j < i + n
          → is_some (R.find s.block_events_tree (event_key slot j)) ≡ true)
      → R.find s.block_events_tree (event_key slot (i + n)) ≡ none
      → (t : X.Tree) × Returns
          (delete_events rounds slot i)
          (new s)
          tt
          (new (record s { block_events_tree = t }))
        × ((j : ℕ) → i ≤ j → j ≤ i + n → R.find t (event_key slot j) ≡ none)
        × ((k : Text)
            → ((j : ℕ) → i ≤ j → j < i + n → text_eq (event_key slot j) k ≡ false)
            → R.find t k ≡ R.find s.block_events_tree k)
  unfolding delete_events
  delete_events-removes zero i n s h stand ends = absurd (omega (arith, h))
  delete_events-removes (suc rounds) i zero s h stand ends =
      let e : i + 0 ≡ i = omega arith in
      let gone : R.find s.block_events_tree (event_key slot i) ≡ none = rw e at ends in
      (
        s.block_events_tree,
        rw (Handle.Laws.get_block_event-new R s (event_key slot i), gone),
        λ j a b. (let f : j ≡ i = omega arith in rw f gone),
        λ k others. refl,
      )
  delete_events-removes (suc rounds) i (suc n) s h stand ends =
      let k = event_key slot i in
      elim (Option-cases (R.find s.block_events_tree k)) [
        | inl absent ↦
            absurd (let e = stand i (omega arith) (omega arith) in let f = rw absent at e in cc)
        | inr (d, there) ↦
            (let t1 = (X.delete s.block_events_tree k).1 in
              let s1 : NetworkStorage = record s { block_events_tree = t1 } in
              let kept : (j : ℕ)
                  → i < j
                  → R.find t1 (event_key slot j) ≡ R.find s.block_events_tree (event_key slot j) =
                λ j le. rw (R.find-delete, other_event i j le) in
              let shift : i + 1 + n ≡ i + suc n = omega arith in
              let (t2, e2, gone, others) =
                delete_events-removes rounds (i + 1) n s1 (omega (arith, h))
                  (λ j a b.
                    rw (kept j (omega (arith, a))) (stand j (omega (arith, a)) (omega (arith, b))))
                  (rw shift (kept (i + suc n) (omega arith) ∙ ends)) in
              (
                t2,
                rw
                    (
                      Handle.Laws.get_block_event-new R s k,
                      there,
                      Handle.Laws.delete_block_event-new R s k,
                    )
                    e2,
                λ j a b. elim (Bool-cases (text_eq k (event_key slot j))) [
                  | inl same ↦
                      (others (event_key slot j) (λ x y z.
                          (let e : k ≡ event_key slot j = text_eq_sound k _ same in
                            let f = event_key_injective slot i j e in
                            elim (Bool-cases (text_eq (event_key slot x) (event_key slot j))) [
                              | inl again ↦ absurd (
                                  let g = event_key_injective slot x j (text_eq_sound _ _ again) in
                                  omega (arith, f, g, y))
                              | inr differ ↦ differ
                            ]))
                        ∙ rw (R.find-delete, same))
                  | inr differ ↦
                      (let f : i + 1 ≤ j = by_index i j a differ in gone j f (omega (arith, b)))
                ],
                λ key free.
                    others key (λ j a b. free j (omega (arith, a)) (omega (arith, b)))
                    ∙ rw (R.find-delete, free i (omega arith) (omega arith)),
              ))
      ]
    where
      by_index :
          (i j : ℕ) → i ≤ j → text_eq (event_key slot i) (event_key slot j) ≡ false → i + 1 ≤ j
      by_index i j a differ = elim (Bool-cases (i == j)) [
        | inl same ↦ absurd (
            let e : i ≡ j = (==_iff i j).0 same in
            let f = rw (e, text_eq_refl (event_key slot j)) at differ in cc)
        | inr other ↦ ground arith
      ]
