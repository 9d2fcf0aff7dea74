-- ===== src/Vmm/Manager/Translate.antt =====
-- What the memory translates after `map`, for a mapper that does what it documents.
use mxos_v.Base.{
  ℕ, suc, ◌+◌, ◌-◌, ◌*◌, ◌/◌, ◌%◌, ◌^◌, ◌≢◌, ◌⊎◌, lt→ltb, ◌≤◌, ◌<◌, bit_and, ◌≡◌, refl, ◌∙◌, Bool,
  true, false, not, ◌&&◌, Option, none, some, leb, ltb, if◌then◌else◌, Bool-cases, inl, inr, arith,
}
use mxos_v.Vmm.{SizeAddr}
use mxos_v.Vmm.Pages.{Page, Walk, page_bytes, huge_page_size, is_canonical}
use mxos_v.Vmm.Pages.Covers.{Steps, page_loops_lem}
use mxos_v.Vmm.Manager.{Mapper, VirtualMemoryManager, alloc_range, map_page, map_range, map}

abbrev pub in_range : ℕ → ℕ → ℕ → Bool
in_range x lo hi = leb lo x && ltb x hi

-- What `map_to` documents, where frames for page tables never run out: an unmapped page is mapped to a
-- frame of its size, and nothing else changes; a huge page is not mapped where there is a table of
-- small pages, even an empty one (`has_table`, by the number of the huge page), and a mapping makes no
-- table outside of its own huge page.
pub record IsMapper {M : Type 0} (mapper : Mapper M) (translate : M → ℕ → Option ℕ)
    (has_table : M → ℕ → Bool) : Type 0 where
  pub maps :
      (page : Page) (addr frame : ℕ) (user : Bool) (m : M)
      → is_canonical addr ≡ true
      → addr % page_bytes page ≡ 0
      → frame % page_bytes page ≡ 0
      → ((x : ℕ) → addr ≤ x → x < addr + page_bytes page → translate m x ≡ none)
      → (page ≡ Page.huge → has_table m (addr / huge_page_size) ≡ false)
      → (m' : M) × (mapper.map_to page addr frame user m ≡ some m')
        × ((x : ℕ)
            → translate m' x ≡ (
                if in_range x addr (addr + page_bytes page)
                then some (frame + (x - addr))
                else translate m x))
        × ((k : ℕ) → k ≢ addr / huge_page_size → has_table m' k ≡ has_table m k)

-- No table of small pages stands in a huge page of the range.
abbrev pub NoTables : {M : Type 0} → (M → ℕ → Bool) → M → ℕ → ℕ → Type 0
NoTables has_table m lo hi =
    (k : ℕ)
    → lo ≤ k * huge_page_size
    → k * huge_page_size + huge_page_size ≤ hi
    → has_table m k ≡ false

module _ {M : Type 0} (mapper : Mapper M) (translate : M → ℕ → Option ℕ) (has_table : M → ℕ → Bool)
    (m₀ : M) (start phys : ℕ) where
  -- The addresses from the start up to `a` translate to the bytes from `phys` on, the others as
  -- before.
  abbrev pub Mapped : ℕ → M → Type 0
  Mapped a m =
      (x : ℕ)
      → translate m x ≡ (if in_range x start a then some (phys + (x - start)) else translate m₀ x)

  -- The huge pages from `a` on have the tables that they had.
  abbrev pub SameTables : ℕ → M → Type 0
  SameTables a m = (k : ℕ) → a ≤ k * huge_page_size → has_table m k ≡ has_table m₀ k

  abbrev pub MapsTo : ℕ → ℕ → ℕ × M → Type 0
  MapsTo end a s = (start ≤ a) × (s.0 ≡ phys + (a - start)) × Mapped a (s.1) × SameTables a (s.1)

  -- One more page.
  extend :
      (a n frame : ℕ) (m m' : M) (x : ℕ)
      → start ≤ a
      → frame ≡ phys + (a - start)
      → Mapped a m
      → translate m' x ≡ (if in_range x a (a + n) then some (frame + (x - a)) else translate m x)
      → translate m' x
        ≡ (if in_range x start (a + n) then some (phys + (x - start)) else translate m₀ x)
  extend a n frame m m' x below at before after = elim (Bool-cases (in_range x a (a + n))) [
    | inl new ↦
        let inside : in_range x start (a + n) ≡ true = ground arith in
        let same : frame + (x - a) ≡ phys + (x - start) = ground arith in
        after ∙ rw (new, inside, same) refl
    | inr old ↦
        let same : in_range x start (a + n) ≡ in_range x start a = ground arith in
        after ∙ rw (old, same) (before x)
  ]

  -- The pages from `start` to `end` are not mapped.
  abbrev pub Unmapped : ℕ → Type 0
  Unmapped end = (x : ℕ) → start ≤ x → x < end → translate m₀ x ≡ none

  -- A huge page of the range has no table when its turn comes.
  no_table :
      (end a : ℕ) (page : Page) (m : M)
      → NoTables has_table m₀ start end
      → start ≤ a
      → a % page_bytes page ≡ 0
      → a + page_bytes page ≤ end
      → SameTables a m
      → page ≡ Page.huge
      → has_table m (a / huge_page_size) ≡ false
  no_table end a Page.small m none_there below on_page room same h = absurd (cc h)
  no_table end a Page.huge m none_there below on_page room same h =
      let exact : a / huge_page_size * huge_page_size ≡ a = omega arith in
      same (a / huge_page_size) (omega (arith, exact))
      ∙ none_there (a / huge_page_size) (omega (arith, exact)) (omega (arith, exact))

  map_page-Steps :
      (laws : IsMapper mapper translate has_table) (kernel : Bool) (end : ℕ) (page : Page)
      → 1 ≤ page_bytes page
      → Unmapped end
      → NoTables has_table m₀ start end
      → ((a : ℕ) → start ≤ a → a ≤ end → is_canonical a ≡ true)
      → phys + (end - start) < 2 ^ 52
      → ((a : ℕ) → start ≤ a → a % page_bytes page ≡ 0 → (phys + (a - start)) % page_bytes page ≡ 0)
      → Steps (map_page mapper kernel) (MapsTo end) end page
  unfolding map_page
  map_page-Steps laws kernel end page pos free none_there canonical fits aligned a (frame, m)
        on_page room (below, at, before, same) =
      let unmapped = λ (x : ℕ) (lo : a ≤ x) (hi : x < a + page_bytes page).
        let out : in_range x start a ≡ false = ground arith in
        before x ∙ rw out (free x (omega arith) (omega arith)) in
      let (m', runs, after, tables) =
        laws.maps page a frame (not kernel) m (canonical a below (omega arith)) on_page
          (rw at (aligned a below on_page)) unmapped
          (no_table end a page m none_there below on_page room same) in
      let small : ltb (frame + page_bytes page) (2 ^ 52) ≡ true =
        lt→ltb _ _ (omega (arith, at, fits)) in
      (
        (frame + page_bytes page, m'),
        rw (map_page, runs, small) refl,
        (
          omega arith,
          omega arith,
          λ x. extend a (page_bytes page) frame m m' x below at before (after x),
          λ k later.
              tables k (λ e. absurd (omega (arith, later, e))) ∙ same k (omega (arith, later)),
        ),
      )

module _ {M : Type 0} (mapper : Mapper M) (translate : M → ℕ → Option ℕ) (has_table : M → ℕ → Bool)
    (laws : IsMapper mapper translate has_table) where
  map_range-translate :
      (kernel : Bool) (range : SizeAddr) (phys offset : ℕ) (v : VirtualMemoryManager M)
      → range.addr % 4096 ≡ 0
      → range.size % 4096 ≡ 0
      → phys % huge_page_size ≡ range.addr % huge_page_size
      → phys + range.size < 2 ^ 52
      → ((a : ℕ) → range.addr ≤ a → a ≤ range.addr + range.size → is_canonical a ≡ true)
      → offset ≤ range.size
      → Unmapped mapper translate has_table v.memory range.addr phys (range.addr + range.size)
      → NoTables has_table v.memory range.addr (range.addr + range.size)
      → (m : M) × (map_range mapper (suc range.size) kernel range phys offset v
          ≡ some (some (range.addr + offset), record v { memory = m }))
        × Mapped mapper translate has_table v.memory range.addr phys (range.addr + range.size) m
  unfolding map_range
  map_range-translate kernel range phys offset v pa ps congruent fits canonical inside free
        none_there =
      let start : ℕ = range.addr in
      let end : ℕ = range.addr + range.size in
      let steps = λ (page : Page) (pos : 1 ≤ page_bytes page).
        map_page-Steps mapper translate has_table v.memory start phys laws kernel end page pos free
          none_there canonical (omega arith) in
      let small = steps Page.small (omega arith) (λ a below h. omega arith) in
      let huge = steps Page.huge (omega arith) (λ a below h. omega arith) in
      let w : Walk (ℕ × M) = record { addr = start; size = range.size; state = (phys, v.memory) } in
      let nothing : Mapped mapper translate has_table v.memory start phys start v.memory =
        λ x. let none_yet : in_range x start start ≡ false = ground arith in rw none_yet refl in
      let ((frame, m), runs, (_, _, mapped, _)) =
        page_loops_lem (map_page mapper kernel)
          (MapsTo mapper translate has_table v.memory start phys end) (suc range.size) w
          (omega arith) pa ps canonical small huge
          (omega arith, omega arith, nothing, λ k _. refl) in
      let first : is_canonical start ≡ true = canonical start (omega arith) (omega arith) in
      let last : is_canonical (start + offset) ≡ true =
        canonical (start + offset) (omega arith) (omega arith) in
      (m, rw (map_range, first, last, runs) refl, mapped)

  -- A range that ends in the half of the address space that it starts in.
  in_one_half :
      (lo size : ℕ)
      → (lo + size < 2 ^ 47) ⊎ ((2 ^ 64 - 2 ^ 47 ≤ lo) × (lo + size < 2 ^ 64))
      → (a : ℕ) → lo ≤ a
      → a ≤ lo + size
      → is_canonical a ≡ true
  in_one_half lo size half a from to = ground (arith, half)

  -- Where the ranges give a range of whole pages that nothing is mapped to, with no table of small
  -- pages in a huge page of the range, which ends below the end of its half of the address space; the
  -- physical address and the range have the same offset in a huge page, the physical addresses end
  -- below 2 ^ 52, and the range has room for the offset: `map` succeeds. It returns the address in the
  -- range with the offset of the physical one in its page, the addresses of the range translate to the
  -- physical addresses in order, and every other address translates as before.
  pub map-translate :
      (kernel : Bool) (size order phys : ℕ) (range : SizeAddr) (v v' : VirtualMemoryManager M)
      → alloc_range kernel ((size + bit_and phys 0xFFF) % 2 ^ 64) order v ≡ some (some range, v')
      → range.addr % 4096 ≡ 0
      → range.size % 4096 ≡ 0
      → (range.addr + range.size < 2 ^ 47)
        ⊎ ((2 ^ 64 - 2 ^ 47 ≤ range.addr) × (range.addr + range.size < 2 ^ 64))
      → (phys - bit_and phys 0xFFF) % huge_page_size ≡ range.addr % huge_page_size
      → phys - bit_and phys 0xFFF + range.size < 2 ^ 52
      → bit_and phys 0xFFF ≤ range.size
      → ((x : ℕ) → range.addr ≤ x → x < range.addr + range.size → translate v'.memory x ≡ none)
      → NoTables has_table v'.memory range.addr (range.addr + range.size)
      → (m : M) × (map mapper kernel size order phys v
          ≡ some (some (range.addr + bit_and phys 0xFFF), record v' { memory = m }))
        × ((x : ℕ)
            → translate m x ≡ (
                if in_range x range.addr (range.addr + range.size)
                then some (phys - bit_and phys 0xFFF + (x - range.addr))
                else translate v'.memory x))
  unfolding map
  map-translate kernel size order phys range v v' found pa ps half congruent fits inside free
        none_there =
      let (m, runs, mapped) =
        map_range-translate kernel range (phys - bit_and phys 0xFFF) (bit_and phys 0xFFF) v' pa ps
          congruent fits (in_one_half range.addr range.size half) inside free none_there in
      (m, rw (map, found) runs, mapped)
