-- ===== src/Apic.antt =====
-- kernel/src/interrupts/apic: the registers of the local APIC. A register is the number that it
-- holds; `none` is a panic.
pub mod Layout
pub mod Icr
pub mod Lvt
pub mod Regs
pub mod Svr
mod Tests
use mxos_v.Base.{ℕ, Bool, true, false, if◌then◌else◌, ◌==◌, not}

-- `TriggerMode`
pub data TriggerMode : Type 0 where
  edge : TriggerMode
  level : TriggerMode

-- `mode as u32`
abbrev pub trigger_code : TriggerMode → ℕ
trigger_code edge = 0
trigger_code level = 1

-- `match flag { false => Edge, true => Level }`
abbrev pub trigger_of : Bool → TriggerMode
trigger_of false = edge
trigger_of true = level

-- `value as u32` of a `bool`, and `field != 0`.
abbrev pub from_bool : Bool → ℕ
from_bool false = 0
from_bool true = 1

abbrev pub to_bool : ℕ → Bool
to_bool x = not (x == 0)
