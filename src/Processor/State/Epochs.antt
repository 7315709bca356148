-- ===== src/Processor/State/Epochs.antt =====
-- Slots and epochs, and the keys of block events.
use hayate.Prelude.{
  ℕ, ◌+◌, ◌*◌, ◌/◌, ◌%◌, ◌^◌, ◌≤◌, ◌<◌, ◌≡◌, ◌↔◌, true, arith, ◌++◌, ap, ◌∙◌, sym, ==_iff,
}
use hayate.Prelude.Text.{Text, codes, strip_prefix, strip_prefix-append}
use hayate.Prelude.Decimal.{show_padded, value, value-show_padded}
use hayate.Processor.State.{event_key, slot_to_epoch, epoch_to_slot, is_epoch_boundary}

-- For a 64-bit slot, the first slot of its epoch is at or before it, less than 86400 slots before,
-- and it is the slot itself exactly where the slot is an epoch boundary.
pub epoch_to_slot-slot_to_epoch :
    (slot : ℕ)
    → slot < 2 ^ 64
    → (epoch_to_slot (slot_to_epoch slot) ≤ slot)
      × (slot < epoch_to_slot (slot_to_epoch slot) + 86_400)
      × ((is_epoch_boundary slot ≡ true) ↔ (epoch_to_slot (slot_to_epoch slot) ≡ slot))
unfolding slot_to_epoch epoch_to_slot is_epoch_boundary
epoch_to_slot-slot_to_epoch slot h =
    let e : slot / 86_400 * 86_400 % 2 ^ 64 ≡ slot / 86_400 * 86_400 = omega arith in
    rw e (
      omega arith,
      omega arith,
      (
        λ b. (let f = (==_iff (slot % 86_400) 0).0 b in omega arith),
        λ f. (==_iff (slot % 86_400) 0).1 (omega arith),
      ),
    )

-- The event keys of a slot are different for different indexes.
pub event_key_injective : (slot i j : ℕ) → event_key slot i ≡ event_key slot j → i ≡ j
unfolding event_key
event_key_injective slot i j e =
    let p = codes "slot#" in
    let q = show_padded 20 slot in
    let h = codes "#" in
    let peel : (p x y : Text) → p ++ x ≡ p ++ y → x ≡ y = λ p x y e.
      (let f = sym (strip_prefix-append p x) ∙ (ap (strip_prefix p) e ∙ strip_prefix-append p y) in
        cc) in
    let e1 = peel p (q ++ (h ++ show_padded 10 i)) (q ++ (h ++ show_padded 10 j)) e in
    let e2 = peel q (h ++ show_padded 10 i) (h ++ show_padded 10 j) e1 in
    let e3 = peel h (show_padded 10 i) (show_padded 10 j) e2 in
    sym (value-show_padded 10 i) ∙ (ap (value 0) e3 ∙ value-show_padded 10 j)
