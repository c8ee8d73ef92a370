-- ===== src/Cart.antt =====
-- runtime/host/src/libblyt/cart_load.c: the checks of a cart's ELF header and program headers. The
-- map is the list of its bytes, at least as long as an ELF header, and an offset stands for a
-- pointer into it.
mod Segments
mod Tests
use blyt.Prelude.{
  ℕ, zero, suc, ◌+◌, ◌*◌, ◌/◌, ◌%◌, ◌^◌, Bool, true, false, not, ◌&&◌, ◌||◌, Option, none, some,
  List, [], ◌∷◌, ◌++◌, ltb, leb, ◌==◌, if◌then◌else◌, length, ◌>>=◌, ◌>>◌, guard,
}
use blyt.Prelude.Bytes.{le_value, read_at}

pub data CartErr : Type 0 where
  cart_ok not_elf bad_class bad_endian bad_osabi bad_machine bad_flags bad_segment bad_interp
        no_relro bad_opcode :
      CartErr

abbrev pub max_load : ℕ
max_load = 64

-- "/lib/ld-blyt.so.1" with its NUL.
abbrev pub interp_path : List ℕ
interp_path =
    b'/' ∷ b'l' ∷ b'i' ∷ b'b' ∷ b'/' ∷ b'l' ∷ b'd' ∷ b'-' ∷ b'b' ∷ b'l' ∷ b'y' ∷ b't' ∷ b'.' ∷ b's'
    ∷ b'o' ∷ b'.' ∷ b'1' ∷ 0 ∷ []

-- The sum of two `uint32_t` in 64 bits.
unfoldable pub u32_add_le : ℕ → ℕ → ℕ → Bool
u32_add_le a b limit = leb (a + b) limit

unfoldable pub ranges_overlap : ℕ → ℕ → ℕ → ℕ → Bool
ranges_overlap a alen b blen =
    if (alen == 0) || (blen == 0) then false else ltb a (b + blen) && ltb b (a + alen)

unfoldable pub same_bytes : List ℕ → List ℕ → Bool
same_bytes [] [] = true
same_bytes [] (y ∷ ys) = false
same_bytes (x ∷ xs) [] = false
same_bytes (x ∷ xs) (y ∷ ys) = (x == y) && same_bytes xs ys

-- The fields of an `Elf32_Phdr` that are checked.
pub record Phdr : Type 0 where
  pub p_type : ℕ
  pub p_offset : ℕ
  pub p_vaddr : ℕ
  pub p_filesz : ℕ
  pub p_memsz : ℕ
  pub p_flags : ℕ

abbrev pub word_at : List ℕ → ℕ → ℕ
word_at map off = le_value (read_at map off 4)

abbrev pub half_at : List ℕ → ℕ → ℕ
half_at map off = le_value (read_at map off 2)

unfoldable pub phdr_at : List ℕ → ℕ → Phdr
phdr_at map off = record {
  p_type = word_at map off;
  p_offset = word_at map (off + 4);
  p_vaddr = word_at map (off + 8);
  p_filesz = word_at map (off + 16);
  p_memsz = word_at map (off + 20);
  p_flags = word_at map (off + 24);
}

-- PF_X is bit 0 of the flags, PF_W bit 1.
abbrev pub is_exec : Phdr → Bool
is_exec ph = ph.p_flags % 2 == 1

abbrev pub is_write : Phdr → Bool
is_write ph = ph.p_flags / 2 % 2 == 1

-- What the loop over the program headers has gathered.
pub record Gathered : Type 0 where
  pub loads : List Phdr
  pub has_relro : Bool
  pub has_interp : Bool
  pub entry_ok : Bool

module _ (map : List ℕ) (e_entry : ℕ) where
  -- A PT_INTERP (3).
  unfoldable pub check_interp : Phdr → Gathered → CartErr × Gathered
  check_interp ph g =
      if not (ph.p_type == 3)
      then (cart_ok, g)
      else if not (u32_add_le ph.p_offset ph.p_filesz (length map))
      then (bad_interp, g)
      else if not (ph.p_filesz == length interp_path)
          || not (same_bytes (read_at map ph.p_offset ph.p_filesz) interp_path)
      then (bad_interp, g)
      else (cart_ok, record g { has_interp = true })

  -- A PT_GNU_RELRO (0x6474e552), and a PT_GNU_STACK (0x6474e551).
  unfoldable pub note_relro : Phdr → Gathered → Gathered
  note_relro ph g = if ph.p_type == 0x6474e552 then record g { has_relro = true } else g

  unfoldable pub stack_exec : Phdr → Bool
  stack_exec ph = (ph.p_type == 0x6474e551) && is_exec ph

  unfoldable pub holds_entry : Phdr → Bool
  holds_entry ph =
      is_exec ph
      && ltb 0 ph.p_filesz
      && leb ph.p_vaddr e_entry
      && ltb e_entry ((ph.p_vaddr + ph.p_filesz) % 2 ^ 32)

  -- A PT_LOAD (1).
  unfoldable pub check_load : Phdr → Gathered → CartErr × Gathered
  check_load ph g =
      if not (ph.p_type == 1)
      then (cart_ok, g)
      else if (is_write ph && is_exec ph) || not (u32_add_le ph.p_offset ph.p_filesz (length map))
      then (bad_segment, g)
      else (
        cart_ok,
        record g {
          entry_ok = g.entry_ok || holds_entry ph;
          loads = if ltb (length g.loads) max_load then g.loads ++ (ph ∷ []) else g.loads;
        },
      )

  -- The loop over `n` headers of `entsize` bytes from `off` on.
  unfoldable pub gather : ℕ → ℕ → ℕ → Gathered → CartErr × Gathered
  gather zero entsize off g = (cart_ok, g)
  gather (suc n) entsize off g =
      let ph = phdr_at map off in
      let (err, g1) = check_interp ph g in
      let (err', g2) = check_load ph (note_relro ph g1) in
      let rest = gather n entsize (off + entsize) g2 in
      elim err [
        | cart_ok ↦
            if stack_exec ph
            then (bad_segment, g1)
            else elim err' [ cart_ok ↦ rest | failed ↦ (failed, g2) ]
        | failed ↦ (failed, g1)
      ]

unfoldable pub segments_overlap : Phdr → Phdr → Bool
segments_overlap a b =
    ranges_overlap a.p_offset a.p_filesz b.p_offset b.p_filesz
    || ranges_overlap a.p_vaddr a.p_memsz b.p_vaddr b.p_memsz

unfoldable pub overlaps_any : Phdr → List Phdr → Bool
overlaps_any a [] = false
overlaps_any a (b ∷ bs) = segments_overlap a b || overlaps_any a bs

-- Whether two of the segments overlap.
unfoldable pub any_overlap : List Phdr → Bool
any_overlap [] = false
any_overlap (a ∷ rest) = overlaps_any a rest || any_overlap rest

-- ECALL is 73 00 00 00, EBREAK 73 00 10 00.
unfoldable pub is_trap : List ℕ → Bool
is_trap bytes =
    same_bytes bytes (0x73 ∷ 0 ∷ 0 ∷ 0 ∷ []) || same_bytes bytes (0x73 ∷ 0 ∷ 0x10 ∷ 0 ∷ [])

-- The scan at every even offset that has four bytes.
unfoldable pub has_trap : List ℕ → Bool
has_trap (a ∷ b ∷ c ∷ d ∷ rest) = is_trap (a ∷ b ∷ c ∷ d ∷ []) || has_trap (c ∷ d ∷ rest)
has_trap _ = false

unfoldable pub any_trap : List ℕ → List Phdr → Bool
any_trap map [] = false
any_trap map (ph ∷ phs) =
    (if not (is_exec ph) || ltb ph.p_filesz 4
      then false
      else has_trap (read_at map ph.p_offset ph.p_filesz))
    || any_trap map phs

-- The checks after the loop.
unfoldable pub check_gathered : List ℕ → Gathered → CartErr
check_gathered map g =
    if not g.entry_ok
    then bad_segment
    else if not g.has_interp
    then bad_interp
    else if not g.has_relro
    then no_relro
    else if any_overlap g.loads
    then bad_segment
    else if any_trap map g.loads
    then bad_opcode
    else cart_ok

unfoldable pub check_segments : List ℕ → CartErr
check_segments map =
    let phnum = half_at map 44 in
    let entsize = half_at map 42 in
    let e_entry = word_at map 24 in
    let e_phoff = word_at map 28 in
    if phnum == 0
    then cart_ok
    else if ltb entsize 32 || ltb (length map) (e_phoff + phnum * entsize)
    then bad_segment
    else let (err, g) =
        gather map e_entry phnum entsize e_phoff
          (record { loads = []; has_relro = false; has_interp = false; entry_ok = e_entry == 0 }) in
      elim err [ cart_ok ↦ check_gathered map g | failed ↦ failed ]

-- The class is 32-bit, the data little-endian, the ABI 0, the machine RISC-V, and `ef_flags` what the
-- header of the runtime asks for.
unfoldable pub check_identity : ℕ → List ℕ → CartErr
check_identity ef_flags map =
    if not (same_bytes (read_at map 0 4) (0x7f ∷ b'E' ∷ b'L' ∷ b'F' ∷ []))
    then not_elf
    else if not (same_bytes (read_at map 4 1) (1 ∷ []))
    then bad_class
    else if not (same_bytes (read_at map 5 1) (1 ∷ []))
    then bad_endian
    else if not (same_bytes (read_at map 7 1) (0 ∷ []))
    then bad_osabi
    else if not (half_at map 18 == 243)
    then bad_machine
    else if not (word_at map 36 == ef_flags)
    then bad_flags
    else cart_ok
