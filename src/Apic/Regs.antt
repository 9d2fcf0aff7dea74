-- ===== src/Apic/Regs.antt =====
-- kernel/src/interrupts/apic/mod.rs: the registers of the local APIC, as model-specific registers in
-- x2APIC mode and as words of memory in xAPIC mode. A write is the list of accesses that it makes.
pub mod Laws
use mxos_v.Base.{
  ℕ, ◌+◌, ◌*◌, ◌/◌, ◌%◌, ◌^◌, Bool, true, false, Option, some, none, List, [], ◌∷◌, ◌==◌,
  if◌then◌else◌, bit_or,
}

-- The machine: `rdmsr` and a volatile load of 32 bits.
pub record Bus : Type 0 where
  pub rdmsr : ℕ → ℕ
  pub load : ℕ → ℕ

-- `Msr::write` and `write_volatile`.
pub data Access : Type 0 where
  wrmsr : ℕ → ℕ → Access
  store : ℕ → ℕ → Access

pub record ApicRegs : Type 0 where
  pub x2apic : Bool
  pub base_addr : ℕ

-- The registers of the `apic_regs!` tables.
pub data Reg : Type 0 where
  lapic_id : Reg
  lapic_ver : Reg
  tpr : Reg
  ppr : Reg
  eoi : Reg
  ldr : Reg
  svr : Reg
  isr0 : Reg
  isr1 : Reg
  isr2 : Reg
  isr3 : Reg
  isr4 : Reg
  isr5 : Reg
  isr6 : Reg
  isr7 : Reg
  tmr0 : Reg
  tmr1 : Reg
  tmr2 : Reg
  tmr3 : Reg
  tmr4 : Reg
  tmr5 : Reg
  tmr6 : Reg
  tmr7 : Reg
  irr0 : Reg
  irr1 : Reg
  irr2 : Reg
  irr3 : Reg
  irr4 : Reg
  irr5 : Reg
  irr6 : Reg
  irr7 : Reg
  error_status : Reg
  lvt_cmci : Reg
  lvt_timer : Reg
  lvt_thermal : Reg
  lvt_perfmon : Reg
  lvt_lint0 : Reg
  lvt_lint1 : Reg
  lvt_error : Reg
  initial_count : Reg
  current_count : Reg
  divide_config : Reg

-- The first number of a row.
abbrev pub msr : Reg → ℕ
msr lapic_id = 0x802
msr lapic_ver = 0x803
msr tpr = 0x803
msr ppr = 0x80A
msr eoi = 0x80B
msr ldr = 0x80D
msr svr = 0x80F
msr isr0 = 0x810
msr isr1 = 0x811
msr isr2 = 0x812
msr isr3 = 0x813
msr isr4 = 0x814
msr isr5 = 0x815
msr isr6 = 0x816
msr isr7 = 0x817
msr tmr0 = 0x818
msr tmr1 = 0x819
msr tmr2 = 0x81A
msr tmr3 = 0x81B
msr tmr4 = 0x81C
msr tmr5 = 0x81D
msr tmr6 = 0x81E
msr tmr7 = 0x81F
msr irr0 = 0x820
msr irr1 = 0x821
msr irr2 = 0x822
msr irr3 = 0x823
msr irr4 = 0x824
msr irr5 = 0x825
msr irr6 = 0x826
msr irr7 = 0x827
msr error_status = 0x828
msr lvt_cmci = 0x82F
msr lvt_timer = 0x832
msr lvt_thermal = 0x833
msr lvt_perfmon = 0x834
msr lvt_lint0 = 0x835
msr lvt_lint1 = 0x836
msr lvt_error = 0x837
msr initial_count = 0x838
msr current_count = 0x839
msr divide_config = 0x83E

-- The second number of a row.
abbrev pub offset : Reg → ℕ
offset lapic_id = 0x020
offset lapic_ver = 0x030
offset tpr = 0x080
offset ppr = 0x0A0
offset eoi = 0x0B0
offset ldr = 0x0D0
offset svr = 0x0F0
offset isr0 = 0x100
offset isr1 = 0x110
offset isr2 = 0x120
offset isr3 = 0x130
offset isr4 = 0x140
offset isr5 = 0x150
offset isr6 = 0x160
offset isr7 = 0x170
offset tmr0 = 0x180
offset tmr1 = 0x190
offset tmr2 = 0x1A0
offset tmr3 = 0x1B0
offset tmr4 = 0x1C0
offset tmr5 = 0x1D0
offset tmr6 = 0x1E0
offset tmr7 = 0x1F0
offset irr0 = 0x200
offset irr1 = 0x210
offset irr2 = 0x220
offset irr3 = 0x230
offset irr4 = 0x240
offset irr5 = 0x250
offset irr6 = 0x260
offset irr7 = 0x270
offset error_status = 0x280
offset lvt_cmci = 0x2F0
offset lvt_timer = 0x320
offset lvt_thermal = 0x330
offset lvt_perfmon = 0x340
offset lvt_lint0 = 0x350
offset lvt_lint1 = 0x360
offset lvt_error = 0x370
offset initial_count = 0x380
offset current_count = 0x390
offset divide_config = 0x3E0

-- `$name: Read<$ty, ..>`, before `read_reg32`.
unfoldable pub read : ApicRegs → Bus → Reg → ℕ
read regs bus r =
    if regs.x2apic then bus.rdmsr (msr r) % 2 ^ 32 else bus.load (regs.base_addr + offset r)

-- `$name: Write<$ty, ..>`, after `write_reg32`.
unfoldable pub write : ApicRegs → Reg → ℕ → List Access
write regs r value =
    if regs.x2apic then wrmsr (msr r) value ∷ [] else store (regs.base_addr + offset r) value ∷ []

-- `write_reg32` of `()` is 0.
unfoldable pub end_interrupt : ApicRegs → List Access
end_interrupt regs = write regs eoi 0

unfoldable pub write_error_status : ApicRegs → List Access
write_error_status regs = write regs error_status 0

unfoldable pub read_dfr : ApicRegs → Bus → ℕ
read_dfr regs bus = bus.load (regs.base_addr + 0x0E0)

unfoldable pub write_dfr : ApicRegs → ℕ → List Access
write_dfr regs value = store (regs.base_addr + 0x0E0) value ∷ []

unfoldable pub read_icr : ApicRegs → Bus → ℕ
read_icr regs bus =
    if regs.x2apic
    then bus.rdmsr 0x830
    else bit_or (bus.load (regs.base_addr + 0x310) * 2 ^ 32) (bus.load (regs.base_addr + 0x300))

unfoldable pub write_icr : ApicRegs → ℕ → List Access
write_icr regs value =
    if regs.x2apic
    then wrmsr 0x830 value ∷ []
    else store (regs.base_addr + 0x310) (value / 2 ^ 32)
      ∷ store (regs.base_addr + 0x300) (value % 2 ^ 32)
      ∷ []

unfoldable pub write_self_ipi : ApicRegs → ℕ → List Access
write_self_ipi regs value = wrmsr 0x83F value ∷ []

-- `DivideConfigurationRegister`
pub data Divide : Type 0 where
  divide_by1 : Divide
  divide_by2 : Divide
  divide_by4 : Divide
  divide_by8 : Divide
  divide_by16 : Divide
  divide_by32 : Divide
  divide_by64 : Divide
  divide_by128 : Divide

abbrev pub divide_code : Divide → ℕ
divide_code divide_by1 = 11
divide_code divide_by2 = 0
divide_code divide_by4 = 1
divide_code divide_by8 = 2
divide_code divide_by16 = 3
divide_code divide_by32 = 8
divide_code divide_by64 = 9
divide_code divide_by128 = 10

-- `read_reg32`; `none` is the panic on a reserved value.
abbrev pub divide_of : ℕ → Option Divide
divide_of c =
    if c == 11
    then some divide_by1
    else if c == 0
    then some divide_by2
    else if c == 1
    then some divide_by4
    else if c == 2
    then some divide_by8
    else if c == 3
    then some divide_by16
    else if c == 8
    then some divide_by32
    else if c == 9
    then some divide_by64
    else if c == 10
    then some divide_by128
    else none

unfoldable pub read_dcr : ApicRegs → Bus → Option Divide
read_dcr regs bus = divide_of (read regs bus divide_config)

unfoldable pub write_timer_div : ApicRegs → Divide → List Access
write_timer_div regs value = write regs divide_config (divide_code value)
