-- ===== src/Apic/Svr.antt =====
-- kernel/src/interrupts/apic/svr.rs, prio_reg.rs and lapic_ver.rs: the spurious vector, the
-- priority and the version registers, words of 32 bits.
pub mod Laws
use mxos_v.Base.{ℕ, ◌/◌, ◌%◌, ◌*◌, ◌^◌, Bool, bit_and, bit_or}
use mxos_v.Base.Bits.{get_bits, set_bits, bit_not}
use mxos_v.Apic.{from_bool, to_bool}

unfoldable pub vector : ℕ → ℕ
vector x = get_bits 0 8 x

unfoldable pub set_vector : ℕ → ℕ → ℕ
set_vector x v = set_bits 32 0 8 x v

unfoldable pub apic_enabled : ℕ → Bool
apic_enabled x = to_bool (get_bits 8 1 x)

unfoldable pub set_apic_enabled : ℕ → Bool → ℕ
set_apic_enabled x enabled = set_bits 32 8 1 x (from_bool enabled)

unfoldable pub focus_processor_checking : ℕ → Bool
focus_processor_checking x = to_bool (get_bits 9 1 x)

unfoldable pub set_focus_processor_checking : ℕ → Bool → ℕ
set_focus_processor_checking x enabled = set_bits 32 9 1 x (from_bool enabled)

unfoldable pub eoi_broadcast_suppression : ℕ → Bool
eoi_broadcast_suppression x = to_bool (get_bits 12 1 x)

unfoldable pub set_eoi_broadcast_suppression : ℕ → Bool → ℕ
set_eoi_broadcast_suppression x enabled = set_bits 32 12 1 x (from_bool enabled)

-- `PriorityRegisiter`: `(self.0 >> 4) as u8`
unfoldable pub class : ℕ → ℕ
class x = x / 2 ^ 4 % 2 ^ 8

unfoldable pub set_class : ℕ → ℕ → ℕ
set_class x class = set_bits 32 4 4 x (bit_and 15 class)

unfoldable pub subclass : ℕ → ℕ
subclass x = bit_and x 15 % 2 ^ 8

unfoldable pub set_subclass : ℕ → ℕ → ℕ
set_subclass x subclass = set_bits 32 0 4 x (bit_and 15 subclass)

-- `LocalAPICVersion`
unfoldable pub version : ℕ → ℕ
version x = get_bits 0 8 x % 2 ^ 8

unfoldable pub max_lvt_entry : ℕ → ℕ
max_lvt_entry x = x / 2 ^ 16 % 2 ^ 8

unfoldable pub extended_apic_space : ℕ → Bool
extended_apic_space x = to_bool (get_bits 31 1 x)

unfoldable pub support_eoi_broadcast : ℕ → Bool
support_eoi_broadcast x = to_bool (get_bits 24 1 x)
