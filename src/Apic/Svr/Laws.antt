-- ===== src/Apic/Svr/Laws.antt =====
-- The setters and getters of the spurious vector, priority and version registers against their
-- layouts.
use mxos_v.Base.{
  ℕ, ◌+◌, ◌*◌, ◌/◌, ◌%◌, ◌^◌, ◌<◌, ◌≡◌, ap, ◌∙◌, Bool, some, List, [], ◌∷◌, set, get_elem?, map,
  bit_and, arith,
}
use mxos_v.Base.Bits.{set_bits_lem, and-mask, bit_and_comm}
use mxos_v.Apic.{from_bool, to_bool}
use mxos_v.Apic.Layout.{fields, fields-set_bits, get_bits-set_bits, from_bool_lt, to_bool-from_bool}
use mxos_v.Apic.Svr.{
  vector, set_vector, apic_enabled, set_apic_enabled, focus_processor_checking,
  set_focus_processor_checking, eoi_broadcast_suppression, set_eoi_broadcast_suppression, class,
  set_class, subclass, set_subclass, version, max_lvt_entry, extended_apic_space,
  support_eoi_broadcast,
}

-- Vector, enabled, focus checking, two reserved bits, EOI broadcast suppression, reserved bits.
abbrev pub svr_layout : List ℕ
svr_layout = 8 ∷ 1 ∷ 1 ∷ 2 ∷ 1 ∷ 19 ∷ []

-- On a spurious vector register of 32 bits, with a vector of 8 bits, each setter writes its field
-- alone, and its getter reads it back.
set-svr_fields :
    (x v : ℕ) (b : Bool)
    → x < 2 ^ 32
    → v < 2 ^ 8
    → ((fields svr_layout (set_vector x v) ≡ set (fields svr_layout x) 0 v)
        × (vector (set_vector x v) ≡ v))
      × ((fields svr_layout (set_apic_enabled x b) ≡ set (fields svr_layout x) 1 (from_bool b))
          × (apic_enabled (set_apic_enabled x b) ≡ b))
      × ((fields svr_layout (set_focus_processor_checking x b)
            ≡ set (fields svr_layout x) 2 (from_bool b))
          × (focus_processor_checking (set_focus_processor_checking x b) ≡ b))
      × ((fields svr_layout (set_eoi_broadcast_suppression x b)
            ≡ set (fields svr_layout x) 4 (from_bool b))
          × (eoi_broadcast_suppression (set_eoi_broadcast_suppression x b) ≡ b))
unfolding vector set_vector apic_enabled set_apic_enabled focus_processor_checking
    set_focus_processor_checking eoi_broadcast_suppression set_eoi_broadcast_suppression
set-svr_fields x v b hx hv =
    let w = fields-set_bits svr_layout in
    let read = get_bits-set_bits in
    let hb = from_bool_lt b in
    let c = from_bool b in
    let same = to_bool-from_bool b in
    (
      (w 0 24 8 0 x v hx hv hv (omega arith), read 24 8 0 x v hx hv),
      (w 1 23 1 8 x c hx hb hb (omega arith), ap to_bool (read 23 1 8 x c hx hb) ∙ same),
      (w 2 22 1 9 x c hx hb hb (omega arith), ap to_bool (read 22 1 9 x c hx hb) ∙ same),
      (w 4 19 1 12 x c hx hb hb (omega arith), ap to_bool (read 19 1 12 x c hx hb) ∙ same),
    )

-- Subclass, class, reserved bits.
abbrev pub priority_layout : List ℕ
priority_layout = 4 ∷ 4 ∷ 24 ∷ []

-- On a priority register of 32 bits, the setters write the low four bits of their argument, a
-- byte, into their field alone. The subclass is read back; the class is read back with the four
-- reserved bits above it.
set-priority_fields :
    (x c : ℕ)
    → x < 2 ^ 32
    → c < 2 ^ 8
    → (fields priority_layout (set_class x c) ≡ set (fields priority_layout x) 1 (c % 16))
      × (fields priority_layout (set_subclass x c) ≡ set (fields priority_layout x) 0 (c % 16))
      × (class (set_class x c) ≡ c % 16 + 16 * (x / 2 ^ 8 % 16))
      × (subclass (set_subclass x c) ≡ c % 16)
unfolding class set_class subclass set_subclass
set-priority_fields x c hx hc =
    let e : bit_and 15 c ≡ c % 16 = bit_and_comm 15 c ∙ and-mask 4 c in
    let lt : c % 16 < 16 = omega arith in
    rw e (
      fields-set_bits priority_layout 1 24 4 4 x (c % 16) hx lt lt (omega arith),
      fields-set_bits priority_layout 0 28 4 0 x (c % 16) hx lt lt (omega arith),
      ap (λ t. t / 2 ^ 4 % 2 ^ 8) (set_bits_lem 24 4 4 x (c % 16) hx lt) ∙ omega arith,
      ap (λ t. bit_and t 15 % 2 ^ 8) (set_bits_lem 28 4 0 x (c % 16) hx lt)
          ∙ ap (λ t. t % 2 ^ 8) (and-mask 4 _)
          ∙ omega arith,
    )

-- Version, reserved, last entry of the local vector table, EOI broadcast suppression, reserved,
-- extended space.
abbrev pub version_layout : List ℕ
version_layout = 8 ∷ 8 ∷ 8 ∷ 1 ∷ 6 ∷ 1 ∷ []

-- The getters of the version register read its fields.
pub version-fields :
    (x : ℕ)
    → (get_elem? (fields version_layout x) 0 ≡ some (version x))
      × (get_elem? (fields version_layout x) 2 ≡ some (max_lvt_entry x))
      × (get_elem? (map to_bool (fields version_layout x)) 3 ≡ some (support_eoi_broadcast x))
      × (get_elem? (map to_bool (fields version_layout x)) 5 ≡ some (extended_apic_space x))
unfolding version max_lvt_entry support_eoi_broadcast extended_apic_space
version-fields x = (
  ap some (omega (arith, and-mask 8 (x / 2 ^ 0))),
  ap some (omega arith),
  ap (λ t. some (to_bool t)) (omega (arith, and-mask 1 (x / 2 ^ 24))),
  ap (λ t. some (to_bool t)) (omega (arith, and-mask 1 (x / 2 ^ 31))),
)
