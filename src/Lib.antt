-- ===== src/Lib.antt =====
-- mxos-v4, a hobby operating system for x86-64: a model of parts of its kernel, with proofs.
--
-- The kernel starts from the boot information of the bootloader. It hands the usable physical
-- memory to a buddy allocator of frames (kernel/src/memory/pmm.rs), whose pair bits are a bitmap
-- (kernel/src/bitmap.rs); paging, heap, console and interrupts are built on top. The interrupts are
-- those of the local APIC, which kernel/src/interrupts/apic reaches through typed registers.
--
-- Bitmap.antt is kernel/src/bitmap.rs. A bitmap is the list of its 64-bit words; `get`, `toggle`,
-- `set_bit` (`set`), `reset`, `assign`, `find_first_set` and `find_first_unset` are the functions of
-- those names. Bitmap/Access.antt is about reads and writes, Bitmap/Search.antt about the searches.
--
-- Pmm.antt is kernel/src/memory/pmm.rs: the `Buddy` of one order with its free list and its bitmap,
-- the allocator, and `new`, `alloc`, `free`, `free_region`. The free lists run through the free
-- frames, so the state has the memory of their `next` words. The iteration over
-- `self.buddies[order..]` is a function on the tail of the list of buddies. The loops over orders are
-- recursion on the rounds left, ten of them (orders 12 to 21), and the loop at the top order has as
-- many rounds as its range is long. Addresses are natural numbers: 64-bit overflow of an address is
-- not modelled, since a physical address has at most 52 bits. The direct map of physical memory is
-- an argument (`DirectMap`).
-- Pmm/Blocks.antt and Pmm/Region.antt are about `free_region`, Pmm/RoundTrip.antt, Pmm/Refill.antt and
-- Pmm/Merge.antt about `alloc` and `free`, Pmm/Bounds.antt about `new` and the sizes of the bitmaps.
-- `init` and the wrappers for the traits of the x86_64 crate are not modelled.
--
-- Apic.antt is kernel/src/interrupts/apic: Icr.antt is icr.rs, Lvt.antt is lvt.rs, Svr.antt holds
-- svr.rs, prio_reg.rs and lapic_ver.rs, Regs.antt is mod.rs. A register is a word of 32 or 64 bits,
-- with `&`, `|` and `!` on words; Layout.antt reads a word as the list of its fields, which is the
-- view that the setters are proved against. Reads take the machine (`Bus`) as an argument, writes
-- give the list of their accesses.
--
-- Heap.antt is kernel/src/memory/malloc/pairing_heap.rs, over any totally ordered type: `Link` is the
-- optional boxed node. Heap/Merge.antt is about `meld` and `merge_pairs`, Heap/Laws.antt about the
-- operations. The loop of `push` is recursion on its number of rounds.
--
-- Malloc.antt is the arithmetic of kernel/src/memory/malloc/mod.rs: the size classes, the addresses
-- of segments, pages and blocks, and `split_thread_free`. The layout of `Segment` and `PageMeta`,
-- which the compiler chooses, is an argument. Malloc/PageMeta.antt is `PageMeta` with the free lists of a
-- page, each a list of blocks, Malloc/Carve.antt the loops that cut a page into blocks, and
-- Malloc/Thread.antt `ThreadAllocator` and `FreeSegments`, as one thread runs them: `alloc`,
-- `fast_alloc`, `local_free`, `find_page` and the functions that they call. A page is the address of its
-- metadata and the linked lists of pages are lists of addresses, so `remove_page` takes the page off
-- every list. The counters of blocks and of pages in use wrap at 32 and 8 bits. The loop of `alloc` has
-- fuel for its passes, and to run out of it is a result of its own (`Run`). Malloc/Thread/Passes.antt
-- counts them, with Malloc/Thread/Picks.antt about the page of a pass and Malloc/Thread/Returns.antt
-- about the result; Malloc/Thread/First.antt is about the first allocation of a class.
-- Malloc/Allocator.antt is `Allocator`, which takes segments and large ranges from the model of
-- `VirtualMemoryManager`; its laws join both. The B-trees of that manager take their nodes
-- from this allocator while it is locked, and the standard library leaves open when, so the effect of
-- that is an argument (`nodes`). The loop for segments has the fuel that its caller gives: four passes
-- are enough where the nodes use up no segment.
--
-- Vmm.antt is the allocator `TreeBestFitAlloc` of kernel/src/memory/vmm.rs. The B-trees are sorted
-- lists; Vmm/Sets.antt reads the set of ranges as a cover of addresses, Vmm/Align.antt is about
-- rounding, Vmm/Keep.antt about the parts of an entry that stay, Vmm/Space.antt about `alloc`,
-- Vmm/Free.antt about `free`. Vmm/Pages.antt holds the loops over pages that `map`, `alloc` and `free` of
-- `VirtualMemoryManager` repeat, with the body of a pass as an argument; their fuel is one more than
-- the size in bytes, and each pass takes at least a page off the size. Vmm/Manager.antt is those three
-- functions. The page table and the frame allocator are a record of operations, `Mapper`, over any
-- type of memory, and `IsMapper` in Vmm/Manager/Translate.antt is what map_to documents, where
-- frames for page tables never run out. `VirtAddr` panics on an address that is not canonical and
-- `PhysAddr` on one of more than 52 bits, as the x86_64 crate documents.
--
-- Psf.antt is the font reader, kernel/src/psf.rs and kernel/src/psf/ucs2.rs. Psf/Outcome.antt has its
-- errors, Psf/File.antt `parse`, the scan of the unicode table and `get_glyph`, Psf/Entries.antt the
-- iterator `UnicodeTableEntries`, Psf/Row.antt `rows` and `GlyphRowIter`, Psf/Ucs2.antt `Ucs2Str`.
-- Psf/Utf8.antt is `str::from_utf8` of the standard library. Psf/Entries/Table.antt is a relation
-- between the bytes of a table and its number of glyphs: Scan1.antt and Scan2.antt beside it show that
-- the scans accept such tables alone, Run.antt that the iterator runs through them. Sums of 32 bits
-- that the code does not bound are tested, and an overflow is a panic.
--
-- Console.antt is kernel/src/output/console.rs: the frame buffer as a list of bytes, the cursor, and
-- `clear`, `move_right`, `move_down`, `scrollup`, `putchar` and `write_str`. The font, the table of
-- glyphs and the description of the frame buffer are part of the state. `fill_at` is `slice.fill`.
-- Console/Buffer.antt is about the writes to the buffer, Console/Cursor.antt about the cursor.
-- Console/Fonts.antt makes the font of a file, and Console/Start.antt is `init` and `new`, which join
-- the reader of fonts and the console.
--
-- A panic, of an assertion, an index or `unimplemented!`, is `none`; where a loop has fuel that might
-- be taken for a panic, it is a constructor of the result (`Run` of Malloc/Thread.antt, `Flow` of
-- Vmm/Pages.antt), and to run out of fuel is another one.
--
-- Not modelled: the start of the memory managers from the boot information (`init` of
-- kernel/src/memory/pmm.rs and kernel/src/memory/vmm.rs), the retries that other threads cause and the
-- part of `dealloc` for a page of another thread in kernel/src/memory/malloc/mod.rs, the printers of
-- the font reader; the descriptor tables, the handlers, the serial port and the start-up code, which
-- are device I/O; the runner and the UEFI loader.
--
-- Base.antt holds the shared names: tests and options, lists over the native numbers, and the bit
-- operations with their lemmas.
pub mod Apic
pub mod Base
pub mod Bitmap
pub mod Console
pub mod Heap
pub mod Malloc
pub mod Pmm
pub mod Psf
pub mod Vmm
