-- ===== src/Apic/Icr.antt =====
-- kernel/src/interrupts/apic/icr.rs: the interrupt command register, a word of 64 bits.
pub mod Laws
use mxos_v.Base.{
  ℕ, zero, suc, ◌+◌, ◌*◌, ◌/◌, ◌%◌, ◌^◌, ◌<◌, ◌≡◌, refl, ap, ◌∙◌, Bool, true, false, Option, some,
  none, List, [], ◌∷◌, set, ◌==◌, if◌then◌else◌, arith,
}
use mxos_v.Base.Bits.{get_bits, set_bits, set_bits_lem, and-mask}
use mxos_v.Apic.{TriggerMode, trigger_code, trigger_of, from_bool, to_bool}
use mxos_v.Apic.Layout.{fields, with_field, fields-with_field}

-- `ICRDeliveryMode`
pub data DeliveryMode : Type 0 where
  fixed : DeliveryMode
  lowest_priority : DeliveryMode
  smi : DeliveryMode
  nmi : DeliveryMode
  init : DeliveryMode
  start_up : DeliveryMode

abbrev pub delivery_mode_code : DeliveryMode → ℕ
delivery_mode_code fixed = 0
delivery_mode_code lowest_priority = 1
delivery_mode_code smi = 2
delivery_mode_code nmi = 4
delivery_mode_code init = 5
delivery_mode_code start_up = 6

-- `ICRDeliveryStatus`
pub data DeliveryStatus : Type 0 where
  idle : DeliveryStatus
  send_pending : DeliveryStatus

-- `ICRDestinationMode`
pub data DestinationMode : Type 0 where
  physical : DestinationMode
  logical : DestinationMode

abbrev pub destination_mode_code : DestinationMode → ℕ
destination_mode_code physical = 0
destination_mode_code logical = 1

-- `ICRLevel`
pub data Level : Type 0 where
  deassert : Level
  assert : Level

abbrev pub level_code : Level → ℕ
level_code deassert = 0
level_code assert = 1

-- `ICRDestinationShorthand`
pub data Shorthand : Type 0 where
  no_shorthand : Shorthand
  myself : Shorthand
  all_including_self : Shorthand
  all_excluding_self : Shorthand

abbrev pub shorthand_code : Shorthand → ℕ
shorthand_code no_shorthand = 0
shorthand_code myself = 1
shorthand_code all_including_self = 2
shorthand_code all_excluding_self = 3

unfoldable pub vector : ℕ → ℕ
vector x = get_bits 0 8 x

unfoldable pub set_vector : ℕ → ℕ → ℕ
set_vector x v = set_bits 64 0 8 x v

-- The `match` on the three bits.
abbrev pub delivery_mode_of : ℕ → Option DeliveryMode
delivery_mode_of c =
    if c == 0
    then some fixed
    else if c == 1
    then some lowest_priority
    else if c == 2
    then some smi
    else if c == 4
    then some nmi
    else if c == 5
    then some init
    else if c == 6
    then some start_up
    else none

unfoldable pub delivery_mode : ℕ → Option DeliveryMode
delivery_mode x = delivery_mode_of (get_bits 8 3 x)

unfoldable pub set_delivery_mode : ℕ → DeliveryMode → ℕ
set_delivery_mode x mode = set_bits 64 8 3 x (delivery_mode_code mode)

unfoldable pub destination_mode : ℕ → DestinationMode
destination_mode x = if to_bool (get_bits 11 1 x) then logical else physical

unfoldable pub set_destination_mode : ℕ → DestinationMode → ℕ
set_destination_mode x mode = set_bits 64 11 1 x (destination_mode_code mode)

unfoldable pub delivery_status : ℕ → DeliveryStatus
delivery_status x = if to_bool (get_bits 12 1 x) then send_pending else idle

unfoldable pub level : ℕ → Level
level x = if to_bool (get_bits 14 1 x) then assert else deassert

unfoldable pub set_level : ℕ → Level → ℕ
set_level x l = set_bits 64 14 1 x (level_code l)

unfoldable pub trigger_mode : ℕ → TriggerMode
trigger_mode x = trigger_of (to_bool (get_bits 15 1 x))

unfoldable pub set_trigger_mode : ℕ → TriggerMode → ℕ
set_trigger_mode x mode = set_bits 64 15 1 x (trigger_code mode)

abbrev pub shorthand_of : ℕ → Option Shorthand
shorthand_of c =
    if c == 0
    then some no_shorthand
    else if c == 1
    then some myself
    else if c == 2
    then some all_including_self
    else if c == 3
    then some all_excluding_self
    else none

unfoldable pub destination_shorthand : ℕ → Option Shorthand
destination_shorthand x = shorthand_of (get_bits 18 2 x)

unfoldable pub set_destination_shorthand : ℕ → Shorthand → ℕ
set_destination_shorthand x shorthand = set_bits 64 18 2 x (shorthand_code shorthand)

-- `(self.0 >> 32) as u32`
unfoldable pub destination : ℕ → ℕ
destination x = x / 2 ^ 32 % 2 ^ 32

unfoldable pub set_destination : ℕ → ℕ → ℕ
set_destination x destination = set_bits 64 32 32 x destination
