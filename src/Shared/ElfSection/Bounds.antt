-- ===== src/Shared/ElfSection/Bounds.antt =====
-- The sections that the walk hands out lie within the image.
use blyt.Prelude.{
  ℕ, zero, suc, ◌+◌, ◌≤◌, ◌≡◌, some, List, arith, ltb, length, Option-cases, Bool-cases, inl, inr,
  bind-eq-some,
}
use blyt.Shared.ElfSection.{
  Sht, resolve_sht, has_name, suffix_of, sh_offset, sh_size, shdr_size, find_loop,
  elf32_find_section, each_loop, elf32_for_each_section_prefix,
}

module _ (elf : List ℕ) where
  find_loop-bounds :
      (n shdr : ℕ) (sht : Sht) (name : List ℕ) (off size : ℕ)
      → find_loop elf n shdr sht name ≡ some (off, size)
      → off + size ≤ length elf
  unfolding find_loop
  find_loop-bounds zero shdr sht name off size h = absurd (ground (arith, h))
  find_loop-bounds (suc n) shdr sht name off size h =
      let rest = find_loop-bounds n (shdr + shdr_size) sht name off size in
      elim (Bool-cases (has_name elf sht name shdr)) [
        | inl named ↦ ground (arith, h, named)
        | inr other ↦ rest (ground (arith, h, other))
      ]

  -- The section that is found lies within the image.
  pub find_section-bounds :
      (name : List ℕ) (off size : ℕ)
      → elf32_find_section elf name ≡ some (off, size)
      → off + size ≤ length elf
  unfolding elf32_find_section
  find_section-bounds name off size h =
      let (sht, _, found) = bind-eq-some (resolve_sht elf) _ h in
      find_loop-bounds sht.shnum sht.shdrs sht name off size found

  -- A property of the callback's context that the callback keeps for sections within the image.
  module _ {C : Type 0} (cb : C → List ℕ → ℕ → ℕ → C) (P : C → Type 0) where
    each_loop-keeps :
        (n shdr : ℕ) (sht : Sht) (prefix : List ℕ) (matched : ℕ) (ctx : C)
        → ((c : C) (suffix : List ℕ) (off size : ℕ)
            → off + size ≤ length elf
            → P c
            → P (cb c suffix off size))
        → P ctx
        → P (each_loop elf cb n shdr sht prefix matched ctx).1
    unfolding each_loop
    each_loop-keeps zero shdr sht prefix matched ctx keeps p = p
    each_loop-keeps (suc n) shdr sht prefix matched ctx keeps p =
        let skip = each_loop-keeps n (shdr + shdr_size) sht prefix matched ctx keeps p in
        elim (Option-cases (suffix_of elf sht prefix shdr)) [
          | inl other ↦ rw (each_loop, other) skip
          | inr (suffix, named) ↦
              elim (Bool-cases (ltb (length elf) (sh_offset elf shdr + sh_size elf shdr))) [
                | inl outside ↦ rw (each_loop, named, outside) skip
                | inr inside ↦
                    rw (each_loop, named, inside)
                      (each_loop-keeps n (shdr + shdr_size) sht prefix (matched + 1) _ keeps
                        (keeps ctx suffix _ _ (ground (arith, inside)) p))
              ]
        ]

    -- A property that the context has at first, and that the callback keeps on every section that
    -- lies within the image, holds of the context in the end: no other section is handed out.
    pub for_each-bounds :
        (prefix : List ℕ) (ctx : C)
        → ((c : C) (suffix : List ℕ) (off size : ℕ)
            → off + size ≤ length elf
            → P c
            → P (cb c suffix off size))
        → P ctx
        → P (elf32_for_each_section_prefix elf cb prefix ctx).1
    unfolding elf32_for_each_section_prefix
    for_each-bounds prefix ctx keeps p = elim (Option-cases (resolve_sht elf)) [
      | inl bad ↦ rw (elf32_for_each_section_prefix, bad) p
      | inr (sht, ok) ↦
          rw (elf32_for_each_section_prefix, ok)
            (each_loop-keeps sht.shnum sht.shdrs sht prefix 0 ctx keeps p)
    ]
