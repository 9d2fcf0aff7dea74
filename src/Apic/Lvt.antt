-- ===== src/Apic/Lvt.antt =====
-- kernel/src/interrupts/apic/lvt.rs: an entry of the local vector table, a word of 32 bits.
pub mod Laws
use mxos_v.Base.{ℕ, ◌/◌, ◌^◌, Bool, true, Option, some, none, ◌==◌, if◌then◌else◌}
use mxos_v.Base.Bits.{get_bits, set_bits}
use mxos_v.Apic.{TriggerMode, trigger_of, from_bool, to_bool}

-- `LVTDeliveryMode`
pub data DeliveryMode : Type 0 where
  fixed : DeliveryMode
  smi : DeliveryMode
  nmi : DeliveryMode
  ext_int : DeliveryMode
  init : DeliveryMode

abbrev pub delivery_mode_code : DeliveryMode → ℕ
delivery_mode_code fixed = 0
delivery_mode_code smi = 2
delivery_mode_code nmi = 4
delivery_mode_code ext_int = 7
delivery_mode_code init = 5

-- `LVTDeliveryStatus`
pub data DeliveryStatus : Type 0 where
  idle : DeliveryStatus
  send_pending : DeliveryStatus

pub data TimerMode : Type 0 where
  one_shot : TimerMode
  periodic : TimerMode
  tsc_deadline : TimerMode

abbrev pub timer_mode_code : TimerMode → ℕ
timer_mode_code one_shot = 0
timer_mode_code periodic = 1
timer_mode_code tsc_deadline = 2

unfoldable pub vector : ℕ → ℕ
vector x = get_bits 0 8 x

unfoldable pub set_vector : ℕ → ℕ → ℕ
set_vector x v = set_bits 32 0 8 x v

-- The `match` on the three bits.
abbrev pub delivery_mode_of : ℕ → Option DeliveryMode
delivery_mode_of c =
    if c == 0
    then some fixed
    else if c == 2
    then some smi
    else if c == 4
    then some nmi
    else if c == 7
    then some ext_int
    else if c == 5
    then some init
    else none

unfoldable pub delivery_mode : ℕ → Option DeliveryMode
delivery_mode x = delivery_mode_of (get_bits 8 3 x)

unfoldable pub set_delivery_mode : ℕ → DeliveryMode → ℕ
set_delivery_mode x mode = set_bits 32 8 3 x (delivery_mode_code mode)

unfoldable pub delivery_status : ℕ → DeliveryStatus
delivery_status x = if to_bool (get_bits 12 1 x) then send_pending else idle

unfoldable pub interrupt_input_pin_polarity : ℕ → Bool
interrupt_input_pin_polarity x = to_bool (get_bits 13 1 x)

unfoldable pub set_interrupt_input_pin_polarity : ℕ → Bool → ℕ
set_interrupt_input_pin_polarity x polarity = set_bits 32 13 1 x (from_bool polarity)

unfoldable pub remote_irr : ℕ → Bool
remote_irr x = to_bool (get_bits 14 1 x)

unfoldable pub trigger_mode : ℕ → TriggerMode
trigger_mode x = trigger_of (to_bool (get_bits 15 1 x))

unfoldable pub set_trigger_mode : ℕ → Bool → ℕ
set_trigger_mode x mode = set_bits 32 15 1 x (from_bool mode)

unfoldable pub mask : ℕ → Bool
mask x = to_bool (get_bits 16 1 x)

unfoldable pub set_mask : ℕ → Bool → ℕ
set_mask x m = set_bits 32 16 1 x (from_bool m)

abbrev pub timer_mode_of : ℕ → Option TimerMode
timer_mode_of c =
    if c == 0
    then some one_shot
    else if c == 1
    then some periodic
    else if c == 2
    then some tsc_deadline
    else none

unfoldable pub timer_mode : ℕ → Option TimerMode
timer_mode x = timer_mode_of (get_bits 17 2 x)

unfoldable pub set_timer_mode : ℕ → TimerMode → ℕ
set_timer_mode x mode = set_bits 32 17 2 x (timer_mode_code mode)

-- `LocalVectorTable::new`
unfoldable pub new : ℕ
new = set_mask 0 true
