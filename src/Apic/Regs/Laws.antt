-- ===== src/Apic/Regs/Laws.antt =====
-- The registers behind the two access modes: what is written is read back, what a command
-- sends, and which register has
-- the number of its place in the table of the x2APIC.
use mxos_v.Base.{
  ℕ, ◌+◌, ◌-◌, ◌*◌, ◌/◌, ◌%◌, ◌^◌, ◌<◌, ◌≤◌, ◌≡◌, refl, ap, ◌∙◌, Bool, true, false, some, List, [],
  ◌∷◌, ◌==◌, if◌then◌else◌, ==_refl, ◌↔◌, arith, Bool-cases, inl, inr,
}
use mxos_v.Base.Bits.{or-shift}
use mxos_v.Apic.Regs.{
  Bus, Access, wrmsr, store, ApicRegs, Reg, lapic_id, lapic_ver, tpr, ppr, eoi, ldr, svr, isr0,
  isr1, isr2, isr3, isr4, isr5, isr6, isr7, tmr0, tmr1, tmr2, tmr3, tmr4, tmr5, tmr6, tmr7, irr0,
  irr1, irr2, irr3, irr4, irr5, irr6, irr7, error_status, lvt_cmci, lvt_timer, lvt_thermal,
  lvt_perfmon, lvt_lint0, lvt_lint1, lvt_error, initial_count, current_count, divide_config, msr,
  offset, read, write, read_icr, write_icr, Divide, divide_by1, divide_by2, divide_by4, divide_by8,
  divide_by16, divide_by32, divide_by64, divide_by128, divide_code, divide_of, read_dcr,
  write_timer_div,
}

-- The machine after an access, where what is written to a place stays there.
abbrev pub after_access : Access → Bus → Bus
after_access (wrmsr a v) bus = record bus { rdmsr = λ p. if p == a then v else bus.rdmsr p }
after_access (store a v) bus = record bus { load = λ p. if p == a then v else bus.load p }

abbrev pub after : List Access → Bus → Bus
after [] bus = bus
after (a ∷ more) bus = after more (after_access a bus)

-- On a machine whose registers keep what is written, a register reads as the value of 32 bits last
-- written to it, in both modes.
read-write :
    (regs : ApicRegs) (bus : Bus) (r : Reg) (v : ℕ)
    → v < 2 ^ 32
    → read regs (after (write regs r v) bus) r ≡ v
unfolding read write
read-write regs bus r v h = elim (Bool-cases regs.x2apic) [
  | inl e ↦ rw (e, ==_refl (msr r)) (omega arith)
  | inr e ↦ rw (e, ==_refl (regs.base_addr + offset r))
]

-- The interrupt command register of a local APIC: its two halves, without the delivery status, which
-- software cannot write, and the commands that were sent, the last one first.
pub record CommandRegister : Type 0 where
  pub high : ℕ
  pub low : ℕ
  pub sent : List ℕ

-- A command without its delivery status, bit 12.
abbrev pub without_status : ℕ → ℕ
without_status v = v - v / 2 ^ 12 % 2 * 2 ^ 12

-- A write of the low half sends the command with the high half that is there, as does a write of the
-- whole register in x2APIC mode; a write of the high half sends nothing.
abbrev pub perform : ℕ → Access → CommandRegister → CommandRegister
perform base (wrmsr a v) c =
    if a == 0x830
    then record {
      high = v / 2 ^ 32;
      low = without_status (v % 2 ^ 32);
      sent = (v / 2 ^ 32 * 2 ^ 32 + without_status (v % 2 ^ 32)) ∷ c.sent;
    }
    else c
perform base (store a v) c =
    if a == base + 0x310
    then record c { high = v }
    else if a == base + 0x300
    then record c { low = without_status v; sent = (c.high * 2 ^ 32 + without_status v) ∷ c.sent }
    else c

abbrev pub perform_all : ℕ → List Access → CommandRegister → CommandRegister
perform_all base [] c = c
perform_all base (a ∷ more) c = perform_all base more (perform base a c)

-- The reads of the register, with the delivery status that the local APIC reports.
abbrev pub command_bus : ℕ → ℕ → CommandRegister → Bus
command_bus base status c = record {
  rdmsr = λ a. if a == 0x830 then c.high * 2 ^ 32 + (c.low + status * 2 ^ 12) else 0;
  load = λ a.
      if a == base + 0x310
      then c.high
      else if a == base + 0x300
      then c.low + status * 2 ^ 12
      else 0;
}

-- In both modes, and whatever the register held before, writing a command of 64 bits sends that command
-- once, without its delivery status, which is read-only, and sends no other; the register then reads as
-- the command with the delivery status that the local APIC reports.
pub read_icr-write_icr :
    (regs : ApicRegs) (c : CommandRegister) (v status : ℕ)
    → v < 2 ^ 64
    → status ≤ 1
    → let c' = perform_all regs.base_addr (write_icr regs v) c in
      (c'.sent ≡ without_status v ∷ c.sent)
      × (read_icr regs (command_bus regs.base_addr status c') ≡ without_status v + status * 2 ^ 12)
unfolding read_icr write_icr
read_icr-write_icr regs c v status h bit =
    let whole : v / 2 ^ 32 * 2 ^ 32 + without_status (v % 2 ^ 32) ≡ without_status v =
      omega arith in
    elim (Bool-cases regs.x2apic) [
      | inl e ↦ rw e (ap (λ x. x ∷ c.sent) whole, omega (arith, whole))
      | inr e ↦
          let other : (regs.base_addr + 0x300 == regs.base_addr + 0x310) ≡ false = ground arith in
          let back : (regs.base_addr + 0x310 == regs.base_addr + 0x300) ≡ false = ground arith in
          rw (e, other, back, ==_refl (regs.base_addr + 0x310), ==_refl (regs.base_addr + 0x300))
            (
              ap (λ x. x ∷ c.sent) whole,
              or-shift 32 (v / 2 ^ 32) (without_status (v % 2 ^ 32) + status * 2 ^ 12) (omega arith)
                  ∙ omega (arith, whole),
            )
    ]

abbrev pub is_tpr : Reg → Bool
is_tpr lapic_id = false
is_tpr lapic_ver = false
is_tpr tpr = true
is_tpr ppr = false
is_tpr eoi = false
is_tpr ldr = false
is_tpr svr = false
is_tpr isr0 = false
is_tpr isr1 = false
is_tpr isr2 = false
is_tpr isr3 = false
is_tpr isr4 = false
is_tpr isr5 = false
is_tpr isr6 = false
is_tpr isr7 = false
is_tpr tmr0 = false
is_tpr tmr1 = false
is_tpr tmr2 = false
is_tpr tmr3 = false
is_tpr tmr4 = false
is_tpr tmr5 = false
is_tpr tmr6 = false
is_tpr tmr7 = false
is_tpr irr0 = false
is_tpr irr1 = false
is_tpr irr2 = false
is_tpr irr3 = false
is_tpr irr4 = false
is_tpr irr5 = false
is_tpr irr6 = false
is_tpr irr7 = false
is_tpr error_status = false
is_tpr lvt_cmci = false
is_tpr lvt_timer = false
is_tpr lvt_thermal = false
is_tpr lvt_perfmon = false
is_tpr lvt_lint0 = false
is_tpr lvt_lint1 = false
is_tpr lvt_error = false
is_tpr initial_count = false
is_tpr current_count = false
is_tpr divide_config = false

-- The x2APIC places the register with offset `o` at the number 0x800 + o / 16. Every row of the
-- tables has that number, but for the task priority register.
msr_iff : (r : Reg) → (msr r ≡ 0x800 + offset r / 16) ↔ (is_tpr r ≡ false)
msr_iff lapic_id = ground arith
msr_iff lapic_ver = ground arith
msr_iff tpr = ground arith
msr_iff ppr = ground arith
msr_iff eoi = ground arith
msr_iff ldr = ground arith
msr_iff svr = ground arith
msr_iff isr0 = ground arith
msr_iff isr1 = ground arith
msr_iff isr2 = ground arith
msr_iff isr3 = ground arith
msr_iff isr4 = ground arith
msr_iff isr5 = ground arith
msr_iff isr6 = ground arith
msr_iff isr7 = ground arith
msr_iff tmr0 = ground arith
msr_iff tmr1 = ground arith
msr_iff tmr2 = ground arith
msr_iff tmr3 = ground arith
msr_iff tmr4 = ground arith
msr_iff tmr5 = ground arith
msr_iff tmr6 = ground arith
msr_iff tmr7 = ground arith
msr_iff irr0 = ground arith
msr_iff irr1 = ground arith
msr_iff irr2 = ground arith
msr_iff irr3 = ground arith
msr_iff irr4 = ground arith
msr_iff irr5 = ground arith
msr_iff irr6 = ground arith
msr_iff irr7 = ground arith
msr_iff error_status = ground arith
msr_iff lvt_cmci = ground arith
msr_iff lvt_timer = ground arith
msr_iff lvt_thermal = ground arith
msr_iff lvt_perfmon = ground arith
msr_iff lvt_lint0 = ground arith
msr_iff lvt_lint1 = ground arith
msr_iff lvt_error = ground arith
msr_iff initial_count = ground arith
msr_iff current_count = ground arith
msr_iff divide_config = ground arith

-- In x2APIC mode, on a machine whose registers keep what is written, a task priority of 32 bits
-- that is written is read back as the version.
write_tpr_lem :
    (base : ℕ) (bus : Bus) (v : ℕ)
    → v < 2 ^ 32
    → let regs : ApicRegs = record { x2apic = true; base_addr = base } in
      read regs (after (write regs tpr v) bus) lapic_ver ≡ v
unfolding read write
write_tpr_lem base bus v h = omega arith

divide_code_lt : (c : Divide) → divide_code c < 2 ^ 32
divide_code_lt divide_by1 = omega arith
divide_code_lt divide_by2 = omega arith
divide_code_lt divide_by4 = omega arith
divide_code_lt divide_by8 = omega arith
divide_code_lt divide_by16 = omega arith
divide_code_lt divide_by32 = omega arith
divide_code_lt divide_by64 = omega arith
divide_code_lt divide_by128 = omega arith

divide_of-code : (c : Divide) → divide_of (divide_code c) ≡ some c
divide_of-code divide_by1 = refl
divide_of-code divide_by2 = refl
divide_of-code divide_by4 = refl
divide_of-code divide_by8 = refl
divide_of-code divide_by16 = refl
divide_of-code divide_by32 = refl
divide_of-code divide_by64 = refl
divide_of-code divide_by128 = refl

-- The divide configuration reads as it was written, in both modes.
pub read_dcr-write_timer_div :
    (regs : ApicRegs) (bus : Bus) (c : Divide)
    → read_dcr regs (after (write_timer_div regs c) bus) ≡ some c
unfolding read_dcr write_timer_div
read_dcr-write_timer_div regs bus c =
    ap divide_of (read-write regs bus divide_config (divide_code c) (divide_code_lt c))
    ∙ divide_of-code c
