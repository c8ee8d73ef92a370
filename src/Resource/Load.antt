-- ===== src/Resource/Load.antt =====
-- The loaders of runtime/host/src/libblyt/resource.c, which fill the table from a cart's sections or
-- from a development index. `realloc_ok` is whether the table can grow, and `find_section` and the
-- enumeration are those of the ELF walk.
use blyt.Prelude.{
  ℕ, ◌%◌, ◌^◌, Bool, true, false, ◌&&◌, ◌||◌, Option, none, some, List, [], ◌∷◌, ◌==◌,
  if◌then◌else◌, length,
}
use blyt.Prelude.Bytes.{read_at}
use blyt.Shared.ResourceCodec.{res_header_parse, algo_none, algo_zstd}
use blyt.Shared.ElfSection.{elf32_find_section, elf32_for_each_section_prefix, elf32_parse_u32}
use blyt.Resource.{Entry, Table, Env, fresh_entry, table_push, table_clear, table_mark_persistent}

-- ".cart.resource." and ".cart.persistent"
abbrev pub resource_section_prefix : List ℕ
resource_section_prefix =
    b'.' ∷ b'c' ∷ b'a' ∷ b'r' ∷ b't' ∷ b'.' ∷ b'r' ∷ b'e' ∷ b's' ∷ b'o' ∷ b'u' ∷ b'r' ∷ b'c' ∷ b'e'
    ∷ b'.' ∷ []

abbrev pub persistent_section : List ℕ
persistent_section =
    b'.' ∷ b'c' ∷ b'a' ∷ b'r' ∷ b't' ∷ b'.' ∷ b'p' ∷ b'e' ∷ b'r' ∷ b's' ∷ b'i' ∷ b's' ∷ b't' ∷ b'e'
    ∷ b'n' ∷ b't' ∷ []

-- The entry for a section: without a compression header it is served as it is.
unfoldable pub section_entry : ℕ → List ℕ → Entry
section_entry id section = elim (res_header_parse section) [
  | none ↦ record fresh_entry {
    id = id;
    algo = algo_none;
    bytes = some section;
    len = length section;
  }
  | some h ↦
      if h.algo == algo_zstd
      then record fresh_entry {
        id = id;
        algo = h.algo;
        len = h.dsize;
        bytes = none;
        cdata = h.body;
      }
      else record fresh_entry { id = id; algo = h.algo; len = h.dsize; bytes = some h.body }
]

module _ (realloc_ok : ℕ → Bool) where
  unfoldable pub load_resource_section : List ℕ → Table → List ℕ → ℕ → ℕ → Table
  load_resource_section map t suffix off size = elim (elf32_parse_u32 suffix) [
    | none ↦ t
    | some id ↦ elim (table_push realloc_ok t (section_entry id (read_at map off size))) [
      | none ↦ t
      | some t' ↦ t'
    ]
  ]

  -- `cart` is none where the cart or its map is NULL; the result is the count.
  unfoldable pub table_load_from_cart : Table → Option (List ℕ) → ℕ × Table
  table_load_from_cart t none = (0, table_clear t)
  table_load_from_cart t (some map) =
      let t' =
        (elf32_for_each_section_prefix map (load_resource_section map) resource_section_prefix
          (table_clear t)).1 in
      (length t'.entries, t')

unfoldable pub table_load_persistent_from_cart : Table → Option (List ℕ) → Table
table_load_persistent_from_cart t none = t
table_load_persistent_from_cart t (some map) = elim (elf32_find_section map persistent_section) [
  | none ↦ t
  | some (off, size) ↦ table_mark_persistent t (read_at map off size)
]

-- A line of the index, as `strchr` and `strtoul` divide it: the id and the path behind the space,
-- with its line ends; none where there is no space, or no number before it.
abbrev pub IndexLine : Type 0
IndexLine = Option (ℕ × List ℕ)

-- The path up to its trailing line ends.
unfoldable pub strip_line_end : List ℕ → List ℕ
strip_line_end [] = []
strip_line_end (c ∷ cs) =
    let rest = strip_line_end cs in
    if (length rest == 0) && ((c == 10) || (c == 13)) then [] else c ∷ rest

module _ (env : Env) (realloc_ok : ℕ → Bool) (strdup_ok : List ℕ → Bool)
    (data_path : List ℕ → List ℕ) where
  -- A staged entry, whose bytes can be read again if its path could be kept.
  unfoldable pub staged_entry : ℕ → List ℕ → List ℕ → Entry
  staged_entry id path buf = record fresh_entry {
    id = id;
    bytes = some buf;
    len = length buf;
    owned = some buf;
    src_path = if strdup_ok path then some path else none;
  }

  -- The loop over the lines: whether an entry was loaded, and the table.
  unfoldable pub load_index_lines : List IndexLine → Bool → Table → Bool × Table
  load_index_lines [] ok t = (ok, t)
  load_index_lines (none ∷ lines) ok t = load_index_lines lines ok t
  load_index_lines (some (id, rel) ∷ lines) ok t =
      let path = data_path (strip_line_end rel) in
      if (id == 0) || (length (strip_line_end rel) == 0)
      then load_index_lines lines ok t
      else elim (env.read_whole_file path) [
        | none ↦ load_index_lines lines ok t
        | some buf ↦ elim (table_push realloc_ok t (staged_entry (id % 2 ^ 32) path buf)) [
          | none ↦ (ok, t)
          | some t' ↦ load_index_lines lines true t'
        ]
      ]

  -- `index` is none where there is no directory or the index cannot be opened; `false` is -1.
  unfoldable pub table_load_from_index : Table → Option (List IndexLine) → Bool × Table
  table_load_from_index t none = (false, table_clear t)
  table_load_from_index t (some lines) = load_index_lines lines false (table_clear t)
