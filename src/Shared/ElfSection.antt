-- ===== src/Shared/ElfSection.antt =====
-- runtime/shared/blyt_elf_section.c: the walk over an ELF32 image's sections. The image is the list
-- of its bytes, a C string the list of its bytes before the NUL, and an offset stands for a pointer
-- into the image; the guards against NULL arguments are left out.
pub mod Bounds
pub mod Decimal
use blyt.Prelude.{
  ℕ, zero, suc, ◌+◌, ◌-◌, ◌*◌, ◌/◌, ◌%◌, ◌^◌, Bool, true, false, not, ◌&&◌, ◌||◌, Option, none,
  some, List, [], ◌∷◌, ltb, leb, ◌==◌, if◌then◌else◌, length, drop, ◌>>=◌, ◌>>◌, guard,
}
use blyt.Prelude.Bytes.{le_value, read_at}

abbrev pub ehdr_min : ℕ
ehdr_min = 52

abbrev pub shdr_size : ℕ
shdr_size = 40

-- `blyt_sht_t`: `shdrs` is an offset in the image, and `strtab` the bytes of the string table.
pub record Sht : Type 0 where
  pub shdrs : ℕ
  pub shnum : ℕ
  pub strtab : List ℕ

-- A little-endian field of `n` bytes.
abbrev pub field_at : List ℕ → ℕ → ℕ → ℕ
field_at elf off n = le_value (read_at elf off n)

unfoldable pub strtab_of : List ℕ → ℕ → ℕ → ℕ → Option Sht
strtab_of elf shoff shnum shdr =
    let strtab_off = field_at elf (shdr + 16) 4 in
    let strtab_size = field_at elf (shdr + 20) 4 in
    if (strtab_off == 0) || (strtab_size == 0) || ltb (length elf) (strtab_off + strtab_size)
    then none
    else some (record { shdrs = shoff; shnum = shnum; strtab = read_at elf strtab_off strtab_size })

unfoldable pub resolve_sht : List ℕ → Option Sht
resolve_sht elf =
    if ltb (length elf) ehdr_min
    then none
    else let e_shoff = field_at elf 32 4 in
      let e_shnum = field_at elf 48 2 in
      let e_shstrndx = field_at elf 50 2 in
      if (e_shoff == 0) || (e_shnum == 0) || leb e_shnum e_shstrndx
      then none
      else if ltb (length elf) (e_shoff + e_shnum * shdr_size)
      then none
      else strtab_of elf e_shoff e_shnum (e_shoff + e_shstrndx * shdr_size)

-- Whether the bytes start with the name and a NUL.
unfoldable pub name_matches : List ℕ → List ℕ → Bool
name_matches [] [] = false
name_matches [] (c ∷ cs) = c == 0
name_matches (n ∷ ns) [] = false
name_matches (n ∷ ns) (c ∷ cs) = (c == n) && name_matches ns cs

-- The rest behind the prefix, and a string up to its NUL.
unfoldable pub strip_prefix : List ℕ → List ℕ → Option (List ℕ)
strip_prefix [] cs = some cs
strip_prefix (p ∷ ps) [] = none
strip_prefix (p ∷ ps) (c ∷ cs) = if c == p then strip_prefix ps cs else none

unfoldable pub until_nul : List ℕ → Option (List ℕ)
until_nul [] = none
until_nul (c ∷ cs) = if c == 0 then some [] else (do s ← until_nul cs; some (c ∷ s))

module _ (elf : List ℕ) where
  -- The name, the offset and the size of a section header.
  unfoldable pub sh_name : ℕ → ℕ
  sh_name shdr = field_at elf shdr 4

  unfoldable pub sh_offset : ℕ → ℕ
  sh_offset shdr = field_at elf (shdr + 16) 4

  unfoldable pub sh_size : ℕ → ℕ
  sh_size shdr = field_at elf (shdr + 20) 4

  -- The header at `shdr` has the name.
  unfoldable pub has_name : Sht → List ℕ → ℕ → Bool
  has_name sht name shdr =
      if leb (length sht.strtab) (sh_name shdr)
      then false
      else name_matches name (drop (sh_name shdr) sht.strtab)

  -- The suffix of the name of the header at `shdr`, if the name has the prefix.
  unfoldable pub suffix_of : Sht → List ℕ → ℕ → Option (List ℕ)
  suffix_of sht prefix shdr =
      if leb (length sht.strtab) (sh_name shdr)
      then none
      else (do rest ← strip_prefix prefix (drop (sh_name shdr) sht.strtab); until_nul rest)

  -- The loop at the header `shdr`, with `n` headers to come.
  unfoldable pub find_loop : ℕ → ℕ → Sht → List ℕ → Option (ℕ × ℕ)
  find_loop zero shdr sht name = none
  find_loop (suc n) shdr sht name =
      let rest = find_loop n (shdr + shdr_size) sht name in
      if not (has_name sht name shdr)
      then rest
      else if ltb (length elf) (sh_offset shdr + sh_size shdr)
      then none
      else some (sh_offset shdr, sh_size shdr)

  unfoldable pub elf32_find_section : List ℕ → Option (ℕ × ℕ)
  elf32_find_section name = do sht ← resolve_sht elf; find_loop sht.shnum sht.shdrs sht name

  -- The callback threads its context through.
  module _ {C : Type 0} (cb : C → List ℕ → ℕ → ℕ → C) where
    unfoldable pub each_loop : ℕ → ℕ → Sht → List ℕ → ℕ → C → ℕ × C
    each_loop zero shdr sht prefix matched ctx = (matched, ctx)
    each_loop (suc n) shdr sht prefix matched ctx = elim (suffix_of sht prefix shdr) [
      | none ↦ each_loop n (shdr + shdr_size) sht prefix matched ctx
      | some suffix ↦
          if ltb (length elf) (sh_offset shdr + sh_size shdr)
          then each_loop n (shdr + shdr_size) sht prefix matched ctx
          else each_loop n (shdr + shdr_size) sht prefix (matched + 1)
              (cb ctx suffix (sh_offset shdr) (sh_size shdr))
    ]

    unfoldable pub elf32_for_each_section_prefix : List ℕ → C → ℕ × C
    elf32_for_each_section_prefix prefix ctx = elim (resolve_sht elf) [
      | none ↦ (0, ctx)
      | some sht ↦ each_loop sht.shnum sht.shdrs sht prefix 0 ctx
    ]

-- The loop of `parse_u32`: the value, or none on a character that is no digit or on an overflow.
unfoldable pub parse_digits : ℕ → List ℕ → Option ℕ
parse_digits v [] = some v
parse_digits v (c ∷ cs) =
    if ltb c b'0' || ltb b'9' c
    then none
    else let d = c - b'0' in
      if ltb ((2 ^ 32 - 1 - d) / 10) v then none else parse_digits ((v * 10 + d) % 2 ^ 32) cs

unfoldable pub elf32_parse_u32 : List ℕ → Option ℕ
elf32_parse_u32 s = do
  guard (not (length s == 0))
  v ← parse_digits 0 s
  guard (not (v == 0))
  some v
