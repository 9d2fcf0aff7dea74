-- ===== src/Vmm/Pages.antt =====
-- The three loops of `map`, `alloc` and `free` over the pages of a range: small pages up to a
-- multiple of 2 MiB, huge pages, small pages. `VirtAddr::new`, and `+` and `+=` on a `VirtAddr`, panic on
-- an address that is not canonical or past 2 ^ 64.
pub mod Covers
use mxos_v.Base.{
  ℕ, zero, suc, ◌+◌, ◌-◌, ◌%◌, ◌^◌, Bool, true, false, not, ◌&&◌, ◌||◌, leb, ltb, ◌==◌,
}
use mxos_v.Vmm.{page_size}

-- `HUGE_PAGE_SIZE`
abbrev pub huge_page_size : ℕ
huge_page_size = 0x200000

-- The addresses of the lower and of the upper half, the canonical ones.
abbrev pub is_canonical : ℕ → Bool
is_canonical a = ltb a (2 ^ 47) || leb (2 ^ 64 - 2 ^ 47) a && ltb a (2 ^ 64)

-- `Size4KiB` and `Size2MiB`
pub data Page : Type 0 where
  small : Page
  huge : Page

abbrev pub page_bytes : Page → ℕ
page_bytes Page.small = page_size
page_bytes Page.huge = huge_page_size

-- The state after a step: the code goes on, returns early, or panics, or a loop is not over within its
-- fuel.
pub data Flow (S : Type 0) : Type 0 where
  go : S → Flow S
  stop : S → Flow S
  panic : Flow S
  out_of_fuel : Flow S

-- A loop over pages: the address, the bytes left, and the state of the body.
pub record Walk (S : Type 0) : Type 0 where
  pub addr : ℕ
  pub size : ℕ
  pub state : S

module _ {S : Type 0} (body : Page → ℕ → S → Flow S) where
  -- The walk after one page, where the new address may not be canonical, and the subtraction
  -- from the size panics below 0.
  unfoldable pub advance : Page → Walk S → S → Flow (Walk S)
  advance page w s =
      elim (is_canonical (w.addr + page_bytes page) && leb (page_bytes page) w.size) [
        | true ↦
            go (record {
              addr = w.addr + page_bytes page;
              size = w.size - page_bytes page;
              state = s;
            })
        | false ↦ panic
      ]

  unfoldable pub one_page : Page → Walk S → Flow (Walk S)
  one_page page w = elim (body page w.addr w.state) [
    | go s ↦ advance page w s
    | stop s ↦ stop (record w { state = s })
    | panic ↦ panic
    | out_of_fuel ↦ out_of_fuel
  ]

  abbrev pub and_then : Flow (Walk S) → (Walk S → Flow (Walk S)) → Flow (Walk S)
  and_then (go w) f = f w
  and_then (stop w) f = stop w
  and_then panic f = panic
  and_then out_of_fuel f = out_of_fuel

  -- A loop with at most `fuel` passes.
  unfoldable pub page_loop : (Walk S → Bool) → Page → ℕ → Walk S → Flow (Walk S)
  page_loop test page zero w = out_of_fuel
  page_loop test page (suc fuel) w = elim (test w) [
    | true ↦ and_then (one_page page w) (page_loop test page fuel)
    | false ↦ go w
  ]

  abbrev pub unaligned : Walk S → Bool
  unaligned w = ltb 0 w.size && not (w.addr % huge_page_size == 0)

  abbrev pub room_for_huge : Walk S → Bool
  room_for_huge w = leb huge_page_size w.size

  abbrev pub bytes_left : Walk S → Bool
  bytes_left w = ltb 0 w.size

  unfoldable pub page_loops : ℕ → Walk S → Flow (Walk S)
  page_loops fuel w =
      and_then
        (and_then (page_loop unaligned Page.small fuel w) (page_loop room_for_huge Page.huge fuel))
        (page_loop bytes_left Page.small fuel)
