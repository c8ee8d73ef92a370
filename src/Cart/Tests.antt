-- ===== src/Cart/Tests.antt =====
-- A run of the theorem on two segments, the first of them code.
use blyt.Prelude.{
  ℕ, ◌+◌, ◌*◌, ◌≤◌, ◌<◌, ◌≡◌, refl, true, false, some, List, [], ◌∷◌, length, get_elem?,
}
use blyt.Prelude.Bytes.{read_at}
use blyt.Cart.{
  cart_ok, Phdr, Gathered, check_gathered, any_overlap, overlaps_any, segments_overlap,
  ranges_overlap, any_trap, has_trap, is_trap, same_bytes, is_exec,
}
use blyt.Cart.Segments.{IsApart, check_gathered_sound}

abbrev code : Phdr
code = record { p_type = 1; p_offset = 0; p_vaddr = 4096; p_filesz = 8; p_memsz = 8; p_flags = 5 }

abbrev rodata : Phdr
rodata = record { p_type = 1; p_offset = 8; p_vaddr = 8192; p_filesz = 4; p_memsz = 4; p_flags = 4 }

abbrev gathered : Gathered
gathered = record {
  loads = code ∷ rodata ∷ [];
  has_relro = true;
  has_interp = true;
  entry_ok = true;
}

abbrev bytes : List ℕ
bytes = 0x13 ∷ 0 ∷ 0 ∷ 0 ∷ 0x13 ∷ 5 ∷ 0x10 ∷ 0 ∷ 1 ∷ 2 ∷ 3 ∷ 4 ∷ []

gathered-accepted : check_gathered bytes gathered ≡ cart_ok
unfolding check_gathered any_overlap overlaps_any segments_overlap ranges_overlap any_trap has_trap
    is_trap same_bytes
gathered-accepted = refl

check_gathered_sound_example :
    ((i j : ℕ) (p q : Phdr)
      → i < j
      → get_elem? gathered.loads i ≡ some p
      → get_elem? gathered.loads j ≡ some q
      → IsApart p q)
    × ((i k : ℕ) (p : Phdr)
        → get_elem? gathered.loads i ≡ some p
        → is_exec p ≡ true
        → 2 * k + 4 ≤ length (read_at bytes p.p_offset p.p_filesz)
        → is_trap (read_at (read_at bytes p.p_offset p.p_filesz) (2 * k) 4) ≡ false)
check_gathered_sound_example = check_gathered_sound bytes gathered gathered-accepted
