-- ===== src/Vmm/Manager/Tests.antt =====
-- A memory that is its translation, and a range of two pages.
use mxos_v.Base.{
  ℕ, Bool, ◌≢◌, ◌≤◌, ◌<◌, ◌/◌, ◌%◌, ◌||◌, ◌==◌, false, inl, ◌+◌, ◌-◌, ◌≡◌, refl, true, Option, none,
  some, [], ◌∷◌, if◌then◌else◌, arith,
}
use mxos_v.Vmm.{SizeAddr, TreeBestFitAlloc, set_from}
use mxos_v.Vmm as Ranges
use mxos_v.Vmm.Pages.{Flow, Page, page_bytes, huge_page_size, is_canonical}
use mxos_v.Vmm.Manager.{Mapper, VirtualMemoryManager, alloc_range, map, free}
use mxos_v.Vmm.Manager.Translate.{IsMapper, in_range, map-translate}
use mxos_v.Vmm.Manager.Release.{free-panics}

-- What an address translates to, and which huge pages have a table.
abbrev Tables : Type 0
Tables = (ℕ → Option ℕ) × (ℕ → Bool)

abbrev map_page_to : Page → ℕ → ℕ → (ℕ → Option ℕ) → ℕ → Option ℕ
map_page_to page addr frame m x =
    if in_range x addr (addr + page_bytes page) then some (frame + (x - addr)) else m x

abbrev new_table : Page → ℕ → (ℕ → Bool) → ℕ → Bool
new_table Page.small addr tables k = (k == addr / huge_page_size) || tables k
new_table Page.huge addr tables k = tables k

abbrev plain : Mapper Tables
plain = record {
  map_to = λ page addr frame user m. elim page [
    | Page.small ↦ some (map_page_to Page.small addr frame (m.0), new_table Page.small addr (m.1))
    | Page.huge ↦
        if (m.1) (addr / huge_page_size)
        then none
        else some (map_page_to Page.huge addr frame (m.0), new_table Page.huge addr (m.1))
  ];
  unmap = λ page addr m. some m;
  allocate_frame = λ page m. none;
}

plain-IsMapper : IsMapper plain (λ m. m.0) (λ m. m.1)
plain-IsMapper = record { maps = maps_of }
  where
    maps_of :
        (page : Page) (addr frame : ℕ) (user : Bool) (m : Tables)
        → is_canonical addr ≡ true
        → addr % page_bytes page ≡ 0
        → frame % page_bytes page ≡ 0
        → ((x : ℕ) → addr ≤ x → x < addr + page_bytes page → (m.0) x ≡ none)
        → (page ≡ Page.huge → (m.1) (addr / huge_page_size) ≡ false)
        → (m' : Tables) × (plain.map_to page addr frame user m ≡ some m')
          × ((x : ℕ)
              → (m'.0) x ≡ (
                  if in_range x addr (addr + page_bytes page)
                  then some (frame + (x - addr))
                  else (m.0) x))
          × ((k : ℕ) → k ≢ addr / huge_page_size → (m'.1) k ≡ (m.1) k)
    maps_of Page.small addr frame user m on pa pf free tables = (
      (map_page_to Page.small addr frame (m.0), new_table Page.small addr (m.1)),
      refl,
      λ x. refl,
      λ k other.
          let no : (k == addr / huge_page_size) ≡ false = ground (arith, other) in rw no refl,
    )
    maps_of Page.huge addr frame user m on pa pf free tables = (
      (map_page_to Page.huge addr frame (m.0), new_table Page.huge addr (m.1)),
      rw (tables refl) refl,
      λ x. refl,
      λ k other. refl,
    )

-- Free addresses of the kernel from 1 MiB on, and none of the user.
abbrev start : VirtualMemoryManager Tables
start = record {
  memory = (λ x. none, λ k. false);
  kernel_alloc = record {
    addr_size_tree = (0x100000, 0x10000) ∷ [];
    size_addr_tree = record { size = 0x10000; addr = 0x100000 } ∷ [];
  };
  user_alloc = record { addr_size_tree = []; size_addr_tree = [] };
  kernel_start = 0x100000;
}

-- The manager once the first two pages are taken.
abbrev taken : VirtualMemoryManager Tables
taken = record start {
  kernel_alloc = record {
    addr_size_tree = (0x102000, 0xE000) ∷ [];
    size_addr_tree = record { size = 0xE000; addr = 0x102000 } ∷ [];
  };
}

taken_lem :
    alloc_range true 0x1010 0 start ≡ some (some (record { size = 0x2000; addr = 0x100000 }), taken)
unfolding alloc_range Ranges.alloc set_from Ranges.carve Ranges.keep_before Ranges.keep_after
    Ranges.map_insert Ranges.set_insert Ranges.map_remove Ranges.set_remove
taken_lem = refl

map-translate_example :
    (m : Tables) × (map plain true 0x1000 0 0x300010 start
      ≡ some (some 0x100010, record taken { memory = m }))
    × ((x : ℕ)
        → (m.0) x
          ≡ (if in_range x 0x100000 0x102000 then some (0x300000 + (x - 0x100000)) else none))
map-translate_example =
    map-translate plain (λ m. m.0) (λ m. m.1) plain-IsMapper true 0x1000 0 0x300010
      (record { size = 0x2000; addr = 0x100000 }) start taken taken_lem refl refl
      (inl (omega arith)) refl (omega arith) (omega arith) (λ x lo hi. refl) (λ k lo hi. refl)

free-panics_example : free plain 0x100000 0x1001 start ≡ Flow.panic
free-panics_example = free-panics plain 0x100000 0x1001 start refl (λ e. omega (arith, e))
