-- ===== src/Apic/Lvt/Laws.antt =====
-- The setters and getters of an entry of the local vector table against its layout.
use mxos_v.Base.{
  ℕ, ◌/◌, ◌%◌, ◌^◌, ◌<◌, ◌≡◌, refl, ap, ◌∙◌, Bool, some, none, List, [], ◌∷◌, set, ◌↔◌, ◌⊎◌, arith,
}
use mxos_v.Base.Bits.{and-mask}
use mxos_v.Apic.{trigger_of, from_bool, to_bool}
use mxos_v.Apic.Layout.{fields, fields-set_bits, get_bits-set_bits, from_bool_lt, to_bool-from_bool}
use mxos_v.Apic.Lvt.{
  DeliveryMode, fixed, smi, nmi, ext_int, init, delivery_mode_code, delivery_mode_of, TimerMode,
  one_shot, periodic, tsc_deadline, timer_mode_code, timer_mode_of, vector, set_vector,
  delivery_mode, set_delivery_mode, interrupt_input_pin_polarity, set_interrupt_input_pin_polarity,
  trigger_mode, set_trigger_mode, mask, set_mask, timer_mode, set_timer_mode,
}

-- Vector, delivery mode, a reserved bit, delivery status, polarity, remote IRR, trigger mode, mask,
-- timer mode, thirteen reserved bits.
abbrev pub lvt_layout : List ℕ
lvt_layout = 8 ∷ 3 ∷ 1 ∷ 1 ∷ 1 ∷ 1 ∷ 1 ∷ 1 ∷ 2 ∷ 13 ∷ []

delivery_mode_lt : (m : DeliveryMode) → delivery_mode_code m < 8
delivery_mode_lt fixed = omega arith
delivery_mode_lt smi = omega arith
delivery_mode_lt nmi = omega arith
delivery_mode_lt ext_int = omega arith
delivery_mode_lt init = omega arith

delivery_mode_of-code : (m : DeliveryMode) → delivery_mode_of (delivery_mode_code m) ≡ some m
delivery_mode_of-code fixed = refl
delivery_mode_of-code smi = refl
delivery_mode_of-code nmi = refl
delivery_mode_of-code ext_int = refl
delivery_mode_of-code init = refl

timer_mode_lt : (m : TimerMode) → timer_mode_code m < 4
timer_mode_lt one_shot = omega arith
timer_mode_lt periodic = omega arith
timer_mode_lt tsc_deadline = omega arith

timer_mode_of-code : (m : TimerMode) → timer_mode_of (timer_mode_code m) ≡ some m
timer_mode_of-code one_shot = refl
timer_mode_of-code periodic = refl
timer_mode_of-code tsc_deadline = refl

-- On an entry of 32 bits, with a vector of 8 bits, each setter writes its field and leaves every
-- other field as it was.
set-lvt_fields :
    (x v : ℕ) (m : DeliveryMode) (polarity trigger masked : Bool) (t : TimerMode)
    → x < 2 ^ 32
    → v < 2 ^ 8
    → (fields lvt_layout (set_vector x v) ≡ set (fields lvt_layout x) 0 v)
      × (fields lvt_layout (set_delivery_mode x m)
          ≡ set (fields lvt_layout x) 1 (delivery_mode_code m))
      × (fields lvt_layout (set_interrupt_input_pin_polarity x polarity)
          ≡ set (fields lvt_layout x) 4 (from_bool polarity))
      × (fields lvt_layout (set_trigger_mode x trigger)
          ≡ set (fields lvt_layout x) 6 (from_bool trigger))
      × (fields lvt_layout (set_mask x masked) ≡ set (fields lvt_layout x) 7 (from_bool masked))
      × (fields lvt_layout (set_timer_mode x t) ≡ set (fields lvt_layout x) 8 (timer_mode_code t))
unfolding set_vector set_delivery_mode set_interrupt_input_pin_polarity set_trigger_mode set_mask
    set_timer_mode
set-lvt_fields x v m polarity trigger masked t hx hv =
    let hm = delivery_mode_lt m in
    let ht = timer_mode_lt t in
    let w = fields-set_bits lvt_layout in
    let one = from_bool_lt in
    (
      w 0 24 8 0 x v hx hv hv (omega arith),
      w 1 21 3 8 x (delivery_mode_code m) hx hm hm (omega arith),
      w 4 18 1 13 x (from_bool polarity) hx (one polarity) (one polarity) (omega arith),
      w 6 16 1 15 x (from_bool trigger) hx (one trigger) (one trigger) (omega arith),
      w 7 15 1 16 x (from_bool masked) hx (one masked) (one masked) (omega arith),
      w 8 13 2 17 x (timer_mode_code t) hx ht ht (omega arith),
    )

-- On an entry of 32 bits, with a vector of 8 bits, each getter reads what its setter wrote, and
-- does not panic then.
get-set-lvt :
    (x v : ℕ) (m : DeliveryMode) (polarity trigger masked : Bool) (t : TimerMode)
    → x < 2 ^ 32
    → v < 2 ^ 8
    → (vector (set_vector x v) ≡ v)
      × (delivery_mode (set_delivery_mode x m) ≡ some m)
      × (interrupt_input_pin_polarity (set_interrupt_input_pin_polarity x polarity) ≡ polarity)
      × (trigger_mode (set_trigger_mode x trigger) ≡ trigger_of trigger)
      × (mask (set_mask x masked) ≡ masked)
      × (timer_mode (set_timer_mode x t) ≡ some t)
unfolding vector set_vector delivery_mode set_delivery_mode interrupt_input_pin_polarity
    set_interrupt_input_pin_polarity trigger_mode set_trigger_mode mask set_mask timer_mode
    set_timer_mode
get-set-lvt x v m polarity trigger masked t hx hv =
    let read = get_bits-set_bits in
    let one = from_bool_lt in
    (
      read 24 8 0 x v hx hv,
      ap delivery_mode_of (read 21 3 8 x (delivery_mode_code m) hx (delivery_mode_lt m))
          ∙ delivery_mode_of-code m,
      ap to_bool (read 18 1 13 x (from_bool polarity) hx (one polarity))
          ∙ to_bool-from_bool polarity,
      ap (λ c. trigger_of (to_bool c)) (read 16 1 15 x (from_bool trigger) hx (one trigger))
          ∙ ap trigger_of (to_bool-from_bool trigger),
      ap to_bool (read 15 1 16 x (from_bool masked) hx (one masked)) ∙ to_bool-from_bool masked,
      ap timer_mode_of (read 13 2 17 x (timer_mode_code t) hx (timer_mode_lt t))
          ∙ timer_mode_of-code t,
    )

-- Reading the modes of an entry panics exactly on the reserved codes: 1, 3 and 6 of the delivery
-- mode, and 3 of the timer mode.
pub lvt_panics :
    (x : ℕ)
    → ((delivery_mode x ≡ none)
        ↔ ((x / 2 ^ 8 % 8 ≡ 1) ⊎ ((x / 2 ^ 8 % 8 ≡ 3) ⊎ (x / 2 ^ 8 % 8 ≡ 6))))
      × ((timer_mode x ≡ none) ↔ (x / 2 ^ 17 % 4 ≡ 3))
unfolding delivery_mode timer_mode
lvt_panics x =
    rw (and-mask 3 (x / 2 ^ 8), and-mask 2 (x / 2 ^ 17))
      (codes (x / 2 ^ 8 % 8) (omega arith), modes (x / 2 ^ 17 % 4) (omega arith))
  where
    codes : (c : ℕ) → c < 8 → (delivery_mode_of c ≡ none) ↔ ((c ≡ 1) ⊎ ((c ≡ 3) ⊎ (c ≡ 6)))
    codes c h = ground arith

    modes : (c : ℕ) → c < 4 → (timer_mode_of c ≡ none) ↔ (c ≡ 3)
    modes c h = ground arith
