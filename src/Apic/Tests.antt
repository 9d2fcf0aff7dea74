-- ===== src/Apic/Tests.antt =====
-- The theorems on the registers of the local APIC at concrete values.
use mxos_v.Base.{ℕ, ◌≡◌, false, [], ◌∷◌, set, arith}
use mxos_v.Apic.{TriggerMode}
use mxos_v.Apic.Layout.{fields}
use mxos_v.Apic.Icr
use mxos_v.Apic.Icr.Laws.{icr_layout, set-icr_fields}
use mxos_v.Apic.Lvt.Laws.{}
use mxos_v.Apic.Svr.Laws.{}
use mxos_v.Apic.Regs.{ApicRegs, read_icr, write_icr}
use mxos_v.Apic.Regs.Laws.{CommandRegister, perform_all, command_bus, read_icr-write_icr}

-- Every bit is set.
abbrev icr : ℕ
icr = 0xFFFFFFFFFFFFFFFF

abbrev lvt : ℕ
lvt = 0xFFFFFFFF

set-icr_fields_example :
    (fields icr_layout (Icr.set_vector icr 0x31)
      ≡ 0x31 ∷ 7 ∷ 1 ∷ 1 ∷ 1 ∷ 1 ∷ 1 ∷ 3 ∷ 3 ∷ 0xFFF ∷ 0xFFFFFFFF ∷ [])
    × (fields icr_layout (Icr.set_delivery_mode icr Icr.smi) ≡ set (fields icr_layout icr) 1 2)
    × (fields icr_layout (Icr.set_destination_mode icr Icr.physical)
        ≡ set (fields icr_layout icr) 2 0)
    × (fields icr_layout (Icr.set_level icr Icr.deassert) ≡ set (fields icr_layout icr) 5 0)
    × (fields icr_layout (Icr.set_trigger_mode icr TriggerMode.edge)
        ≡ set (fields icr_layout icr) 6 0)
    × (fields icr_layout (Icr.set_destination_shorthand icr Icr.myself)
        ≡ set (fields icr_layout icr) 8 1)
    × (fields icr_layout (Icr.set_destination icr 5) ≡ set (fields icr_layout icr) 10 5)
set-icr_fields_example =
    set-icr_fields icr 0x31 5 Icr.smi Icr.physical Icr.deassert TriggerMode.edge Icr.myself
      (omega arith) (omega arith) (omega arith)

-- Nothing has been sent, and the register has an old destination.
abbrev idle_command : CommandRegister
idle_command = record { high = 0x01000000; low = 0; sent = [] }

abbrev regs : ApicRegs
regs = record { x2apic = false; base_addr = 0xFEE00000 }

-- A command with the delivery status set, which reads as idle.
read_icr-write_icr_example :
    let c = perform_all 0xFEE00000 (write_icr regs 0x0300000000005500) idle_command in
    (c.sent ≡ 0x0300000000004500 ∷ [])
    × (read_icr regs (command_bus 0xFEE00000 0 c) ≡ 0x0300000000004500)
read_icr-write_icr_example =
    read_icr-write_icr regs idle_command 0x0300000000005500 0 (omega arith) (omega arith)
