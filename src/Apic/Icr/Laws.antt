-- ===== src/Apic/Icr/Laws.antt =====
-- The setters and getters of the interrupt command register against its layout.
use mxos_v.Base.{
  ℕ, zero, suc, ◌/◌, ◌%◌, ◌^◌, ◌<◌, ◌≡◌, refl, ap, ◌∙◌, some, none, List, [], ◌∷◌, set,
  if◌then◌else◌, ◌↔◌, ◌⊎◌, sym, arith,
}
use mxos_v.Base.Bits.{and-mask}
use mxos_v.Apic.{TriggerMode, trigger_code, trigger_of, to_bool}
use mxos_v.Apic.Layout.{fields, fields-set_bits, get_bits-set_bits}
use mxos_v.Apic.Icr.{
  DeliveryMode, fixed, lowest_priority, smi, nmi, init, start_up, delivery_mode_of, shorthand_of,
  delivery_mode_code, DestinationMode, physical, logical, destination_mode_code, Level, deassert,
  assert, level_code, Shorthand, no_shorthand, myself, all_including_self, all_excluding_self,
  shorthand_code, set_vector, set_delivery_mode, set_destination_mode, set_level, set_trigger_mode,
  set_destination_shorthand, set_destination, vector, delivery_mode, destination_mode, level,
  trigger_mode, destination_shorthand, destination,
}

-- Vector, delivery mode, destination mode, delivery status, a reserved bit, level, trigger mode,
-- two reserved bits, shorthand, twelve reserved bits, destination.
abbrev pub icr_layout : List ℕ
icr_layout = 8 ∷ 3 ∷ 1 ∷ 1 ∷ 1 ∷ 1 ∷ 1 ∷ 2 ∷ 2 ∷ 12 ∷ 32 ∷ []

delivery_mode_lt : (m : DeliveryMode) → delivery_mode_code m < 8
delivery_mode_lt fixed = omega arith
delivery_mode_lt lowest_priority = omega arith
delivery_mode_lt smi = omega arith
delivery_mode_lt nmi = omega arith
delivery_mode_lt init = omega arith
delivery_mode_lt start_up = omega arith

destination_mode_lt : (m : DestinationMode) → destination_mode_code m < 2
destination_mode_lt physical = omega arith
destination_mode_lt logical = omega arith

level_lt : (l : Level) → level_code l < 2
level_lt deassert = omega arith
level_lt assert = omega arith

trigger_lt : (m : TriggerMode) → trigger_code m < 2
trigger_lt TriggerMode.edge = omega arith
trigger_lt TriggerMode.level = omega arith

shorthand_lt : (s : Shorthand) → shorthand_code s < 4
shorthand_lt no_shorthand = omega arith
shorthand_lt myself = omega arith
shorthand_lt all_including_self = omega arith
shorthand_lt all_excluding_self = omega arith

-- On a register of 64 bits, with values that fit their fields, each setter writes its field and
-- leaves every other field as it was.
pub set-icr_fields :
    (x v d : ℕ) (m : DeliveryMode) (dm : DestinationMode) (l : Level) (t : TriggerMode)
    (s : Shorthand)
    → x < 2 ^ 64
    → v < 2 ^ 8
    → d < 2 ^ 32
    → (fields icr_layout (set_vector x v) ≡ set (fields icr_layout x) 0 v)
      × (fields icr_layout (set_delivery_mode x m)
          ≡ set (fields icr_layout x) 1 (delivery_mode_code m))
      × (fields icr_layout (set_destination_mode x dm)
          ≡ set (fields icr_layout x) 2 (destination_mode_code dm))
      × (fields icr_layout (set_level x l) ≡ set (fields icr_layout x) 5 (level_code l))
      × (fields icr_layout (set_trigger_mode x t) ≡ set (fields icr_layout x) 6 (trigger_code t))
      × (fields icr_layout (set_destination_shorthand x s)
          ≡ set (fields icr_layout x) 8 (shorthand_code s))
      × (fields icr_layout (set_destination x d) ≡ set (fields icr_layout x) 10 d)
unfolding set_vector set_delivery_mode set_destination_mode set_level set_trigger_mode
    set_destination_shorthand set_destination
set-icr_fields x v d m dm l t s hx hv hd =
    let hm = delivery_mode_lt m in
    let hdm = destination_mode_lt dm in
    let hl = level_lt l in
    let ht = trigger_lt t in
    let hs = shorthand_lt s in
    let w = fields-set_bits icr_layout in
    (
      w 0 56 8 0 x v hx hv hv (omega arith),
      w 1 53 3 8 x (delivery_mode_code m) hx hm hm (omega arith),
      w 2 52 1 11 x (destination_mode_code dm) hx hdm hdm (omega arith),
      w 5 49 1 14 x (level_code l) hx hl hl (omega arith),
      w 6 48 1 15 x (trigger_code t) hx ht ht (omega arith),
      w 8 44 2 18 x (shorthand_code s) hx hs hs (omega arith),
      w 10 0 32 32 x d hx hd hd (omega arith),
    )

delivery_mode_of-code : (m : DeliveryMode) → delivery_mode_of (delivery_mode_code m) ≡ some m
delivery_mode_of-code fixed = refl
delivery_mode_of-code lowest_priority = refl
delivery_mode_of-code smi = refl
delivery_mode_of-code nmi = refl
delivery_mode_of-code init = refl
delivery_mode_of-code start_up = refl

shorthand_of-code : (s : Shorthand) → shorthand_of (shorthand_code s) ≡ some s
shorthand_of-code no_shorthand = refl
shorthand_of-code myself = refl
shorthand_of-code all_including_self = refl
shorthand_of-code all_excluding_self = refl

destination_mode-code :
    (m : DestinationMode) → (if to_bool (destination_mode_code m) then logical else physical) ≡ m
destination_mode-code physical = refl
destination_mode-code logical = refl

level-code : (l : Level) → (if to_bool (level_code l) then assert else deassert) ≡ l
level-code deassert = refl
level-code assert = refl

trigger-code : (m : TriggerMode) → trigger_of (to_bool (trigger_code m)) ≡ m
trigger-code TriggerMode.edge = refl
trigger-code TriggerMode.level = refl

-- On a register of 64 bits, with values that fit their fields, each getter reads what its setter
-- wrote, and does not panic then.
get-set-icr :
    (x v d : ℕ) (m : DeliveryMode) (dm : DestinationMode) (l : Level) (t : TriggerMode)
    (s : Shorthand)
    → x < 2 ^ 64
    → v < 2 ^ 8
    → d < 2 ^ 32
    → (vector (set_vector x v) ≡ v)
      × (delivery_mode (set_delivery_mode x m) ≡ some m)
      × (destination_mode (set_destination_mode x dm) ≡ dm)
      × (level (set_level x l) ≡ l)
      × (trigger_mode (set_trigger_mode x t) ≡ t)
      × (destination_shorthand (set_destination_shorthand x s) ≡ some s)
      × (destination (set_destination x d) ≡ d)
unfolding vector set_vector delivery_mode set_delivery_mode destination_mode set_destination_mode
    level set_level trigger_mode set_trigger_mode destination_shorthand set_destination_shorthand
    destination set_destination
get-set-icr x v d m dm l t s hx hv hd = (
  get_bits-set_bits 56 8 0 x v hx hv,
  ap delivery_mode_of (get_bits-set_bits 53 3 8 x (delivery_mode_code m) hx (delivery_mode_lt m))
      ∙ delivery_mode_of-code m,
  ap (λ c. if to_bool c then logical else physical)
        (get_bits-set_bits 52 1 11 x (destination_mode_code dm) hx (destination_mode_lt dm))
      ∙ destination_mode-code dm,
  ap (λ c. if to_bool c then assert else deassert)
        (get_bits-set_bits 49 1 14 x (level_code l) hx (level_lt l))
      ∙ level-code l,
  ap (λ c. trigger_of (to_bool c)) (get_bits-set_bits 48 1 15 x (trigger_code t) hx (trigger_lt t))
      ∙ trigger-code t,
  ap shorthand_of (get_bits-set_bits 44 2 18 x (shorthand_code s) hx (shorthand_lt s))
      ∙ shorthand_of-code s,
  sym (and-mask 32 _) ∙ get_bits-set_bits 0 32 32 x d hx hd,
)

-- Reading the delivery mode panics exactly on the codes 3 and 7; the shorthand is never out of range.
delivery_mode_panics :
    (x : ℕ)
    → ((delivery_mode x ≡ none) ↔ ((x / 2 ^ 8 % 8 ≡ 3) ⊎ (x / 2 ^ 8 % 8 ≡ 7)))
      × ((s : Shorthand) × (destination_shorthand x ≡ some s))
unfolding delivery_mode destination_shorthand
delivery_mode_panics x =
    rw (and-mask 3 (x / 2 ^ 8), and-mask 2 (x / 2 ^ 18))
      (codes (x / 2 ^ 8 % 8) (omega arith), known (x / 2 ^ 18 % 4) (omega arith))
  where
    codes : (c : ℕ) → c < 8 → (delivery_mode_of c ≡ none) ↔ ((c ≡ 3) ⊎ (c ≡ 7))
    codes c h = ground arith

    known : (c : ℕ) → c < 4 → (s : Shorthand) × (shorthand_of c ≡ some s)
    known zero h = (no_shorthand, refl)
    known (suc zero) h = (myself, refl)
    known (suc (suc zero)) h = (all_including_self, refl)
    known (suc (suc (suc zero))) h = (all_excluding_self, refl)
    known (suc (suc (suc (suc c)))) h = absurd (omega arith)
