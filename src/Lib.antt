-- ===== src/Lib.antt =====
-- The verified core of the blyt runtime: the code that keeps a cart's state, saves it, serves its
-- resources, hands out its memory, draws its pictures and checks what it loads. All of it is C below
-- runtime/.
--
-- How the parts work together. A session opens a cart (runtime/host/src/libblyt/cart_load.c), whose
-- header checks are `Cart`. It makes the state buffers from the cart's layouts and then reads, writes,
-- allocates and frees slots of them (state_buffer.c, `State`). A save takes a view of every buffer
-- (save.c, `Save.Session`) and serialises the views as BLYS sections
-- (runtime/shared/blyt_blys.c, `Save`). The resource table (resource.c, `Resource`) is filled by the
-- walk over the cart's ELF sections (blyt_elf_section.c, `Shared.ElfSection`), decodes a resource
-- when it is first read (blyt_resource_codec.c, `Shared.ResourceCodec`) and evicts the decoded bytes
-- of entries that nobody pins (blyt_resource_lifecycle.h, `Shared.ResourceLifecycle`). The cart heap
-- (blyt_arena.c, `Shared.Arena`) and the resources share one budget of 16 MB
-- (blyt_mem_budget.h, `Shared.MemBudget`). While a cart draws, it keeps off-screen surfaces in a
-- registry (runtime/host/src/libblyt/cart_run.c, `Surface`), which counts against the same budget,
-- and draws on them by the primitives of the rasterizer (runtime/shared/blyt_raster.c, `Raster`) or
-- through a lock that copies the pixels into guest memory and back.
--
-- Files and sources:
--   Prelude and below: lists, options and bytes over the native numbers, bit masks, little-endian
--     words, reads and writes of byte arrays.
--   Shared/Handle: runtime/shared/blyt_handle.h. Shared/Gen: blyt_gen.h. Shared/FpCanon:
--     blyt_fp_canon.c. Shared/MemBudget: blyt_mem_budget.h. Shared/ResourceLifecycle and
--     Shared/ResourceCodec: blyt_resource_lifecycle.h and blyt_resource_codec.c.
--   Shared/ElfSection: blyt_elf_section.c, with Bounds on offsets and Decimal on the parser.
--   Shared/Arena: blyt_arena.c, with Handed, Budget and Free on the accounting.
--   State: state_buffer.c; Valid has the invariant, Bitset, Access, Slots and Refs one group of
--     operations each, Snapshot the definitions of snapshot, restore, zeroing and destruction, with
--     Layout, Restore and Zero about them, Init the initialisation, Session sequences of operations.
--   Resource: resource.c; Evict and Fit on evictions, Data on materialised bytes, Load the loaders.
--   Save: blyt_blys.c; File the adapters of save.c, Section and RoundTrip the proofs, Session the
--     entry points of save.c.
--   Cart: the identity and program header checks of cart_load.c, with Segments on what they say.
--   Raster: blyt_raster.c; Rows on loops over rows, Span on clipping, Rect and Blit on what the fills
--     and the copy paint, Line on the line: Pixel one pixel, Loop the loop, Error its error term,
--     Flat and Steep the two directions, Ends the whole, Endless a line that overflows.
--   Surface: the registry of cart_run.c; Registry has slots, handles, freeing and creating, Locks the
--     locks and the end of a frame, Calls the calls of the cart with their gates. Handles, Lifetime and
--     Reap are about handles, Views and Copies about locks, Invariant and Reach about sequences of
--     operations with Sums on the accounts, Screen about slot 0. Draws has
--     an independent description of the drawing calls; below it Gates, Primitives and Refine compare
--     the calls with it, and Backed and Keeps are about the buffers behind the surfaces.
--   The modules named Tests run the theorems on small inputs.
--
-- A struct is a record, an enumeration a data type, an array a list, a pointer an offset or an
-- option. A C function `blyt_state_get` is `state_get`: the prefix is left out. Code that changes a
-- struct takes it and returns it. Failure codes are none, or a data type where several are told
-- apart. Words are native numbers with their wrap-around written out.
--
-- Fuel. The eviction loop has one round more than there are entries. The walks of the arena have as
-- much fuel as the arena has bytes, and one more; every block has a header of 16 bytes, so a free
-- list without a cycle is shorter. The reader of a save takes its fuel as an argument, and a number
-- above the number of sections is enough. The skipping of `n` bytes has `n` rounds. The line takes
-- the number of its rounds as an argument; where its coordinates have 28 bits, any number above its
-- longer side is enough. The zeroing of guest memory has a round more than there are bytes.
--
-- Outside the model: the file system, malloc, the zstd library, the emulator's guest memory and the
-- generated FlatBuffers readers are parameters. The session around the emulator, the other calls of
-- cart_run.c, cart_run_hostlua.c, the guest libraries, the front ends, the developer tool and the SDK
-- are not modelled, nor are the section, symbol and text checks of cart_load.c. A partial read of a
-- file that ends early leaves bytes in the caller's buffer that the model does not show, and a save
-- is modelled up to the stream, not to the disk. That a walk along a free list of the arena ends, for
-- every list that the allocator can build, is not shown. A surface
-- that is copied onto itself is read as it was before. Where the eviction by the accounting of the
-- surfaces would not end within its fuel, the table is taken to stay as it is.
pub mod Prelude
pub mod Shared
pub mod State
pub mod Resource
pub mod Save
pub mod Cart
pub mod Raster
pub mod Surface
