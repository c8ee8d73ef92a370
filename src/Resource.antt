-- ===== src/Resource.antt =====
-- runtime/host/src/libblyt/resource.c: the table of a cart's resources, its budget figures and its
-- evictions. A pointer to bytes is an `Option` of the bytes. What lies outside is the parameter
-- `Env`: the file system and `malloc` behind `read_whole_file`, `malloc` for a decoded buffer of a
-- given size, and the zstd library.
pub mod Load
mod Evict
mod Fit
mod Data
mod Tests
use blyt.Prelude.{
  ℕ, zero, suc, ◌+◌, ◌-◌, ◌*◌, ◌%◌, ◌^◌, Bool, true, false, not, ◌&&◌, ◌||◌, Option, none, some,
  List, [], ◌∷◌, ◌++◌, map, ltb, leb, ◌==◌, if◌then◌else◌, length, get_elem?, set, is_some,
}
use blyt.Prelude.Bytes.{le_value}
use blyt.Shared.MemBudget.{mem_budget_bytes}
use blyt.Shared.ResourceCodec.{Zstd, res_decode, algo_none, algo_zstd}
use blyt.Shared.ResourceLifecycle.{RlState, rl_is_evictable, rl_force_release_pins}

pub record Env : Type 0 where
  pub read_whole_file : List ℕ → Option (List ℕ)
  pub malloc_ok : ℕ → Bool
  pub zstd : Zstd

-- `blyt_resource_entry_t`; `cdata` with `clen` is one list.
pub record Entry : Type 0 where
  pub id : ℕ
  pub bytes : Option (List ℕ)
  pub len : ℕ
  pub owned : Option (List ℕ)
  pub algo : ℕ
  pub cdata : List ℕ
  pub src_path : Option (List ℕ)
  pub rl : RlState
  pub persistent : Bool
  pub last_access : ℕ

-- `blyt_resource_table_t`; `count` is the length of `entries`.
pub record Table : Type 0 where
  pub entries : List Entry
  pub cap : ℕ
  pub lru_clock : ℕ

unfoldable pub table_init : Table
table_init = record { entries = []; cap = 0; lru_clock = 0 }

-- The clock runs on.
unfoldable pub table_clear : Table → Table
table_clear t = record t { entries = []; cap = 0 }

-- The position of the first entry with the id, which `find` and `find_mut` return.
unfoldable pub find_from : List Entry → ℕ → ℕ → Option (ℕ × Entry)
find_from [] id i = none
find_from (e ∷ es) id i =
    let rest = find_from es id (i + 1) in if e.id == id then some (i, e) else rest

unfoldable pub table_find : Table → ℕ → Option (ℕ × Entry)
table_find t id = find_from t.entries id 0

unfoldable pub table_force_release_pins : Table → Table
table_force_release_pins t = record t {
  entries = map (λ (e : Entry). record e { rl = rl_force_release_pins e.rl }) t.entries;
}

abbrev pub fresh_entry : Entry
fresh_entry = record {
  id = 0;
  bytes = none;
  len = 0;
  owned = none;
  algo = algo_none;
  cdata = [];
  src_path = none;
  rl = record { pin_count = 0 };
  persistent = false;
  last_access = 0;
}

-- `table_push`, and the entry that the caller then fills in; none where `realloc` fails. `ncap` is
-- the capacity asked for.
unfoldable pub table_push : (ℕ → Bool) → Table → Entry → Option Table
table_push realloc_ok t e =
    if length t.entries == t.cap
    then (let ncap = if t.cap == 0 then 8 else t.cap * 2 in
        if realloc_ok ncap
        then some (record t { entries = t.entries ++ (e ∷ []); cap = ncap })
        else none)
    else some (record t { entries = t.entries ++ (e ∷ []) })

abbrev pub resident : Entry → List ℕ → Entry
resident e buf = record e { owned = some buf; bytes = some buf }

-- `blyt_resource_entry_data`: the bytes, or none, and the entry with what was materialised.
unfoldable pub entry_data : Env → Entry → Option (List ℕ) × Entry
entry_data env e = elim e.bytes [
  | some b ↦ (some b, e)
  | none ↦ elim e.src_path [
    | some path ↦ elim (env.read_whole_file path) [
      | none ↦ (none, e)
      | some buf ↦ (some buf, record (resident e buf) { len = length buf })
    ]
    | none ↦
        if not (e.algo == algo_zstd)
        then (none, e)
        else if env.malloc_ok (if e.len == 0 then 1 else e.len)
        then elim (res_decode env.zstd e.algo e.cdata e.len) [
          | none ↦ (none, e)
          | some buf ↦ (some buf, resident e buf)
        ]
        else (none, e)
  ]
]

-- Whether an eviction may take the entry's bytes.
unfoldable pub is_reclaimable : Entry → Bool
is_reclaimable e = not (e.persistent || not (rl_is_evictable e.rl))

-- `blyt_resource_entry_evict`: the bytes reclaimed and the entry.
unfoldable pub entry_evict : Entry → ℕ × Entry
entry_evict e =
    if not (is_reclaimable e)
    then (0, e)
    else if not (is_some e.owned)
    then (0, e)
    else (e.len, record e { owned = none; bytes = none })

unfoldable pub evict_all : List Entry → ℕ × List Entry
evict_all [] = (0, [])
evict_all (e ∷ es) =
    let (n, e') = entry_evict e in
    let (total, es') = evict_all es in ((n + total) % 2 ^ 64, e' ∷ es')

unfoldable pub table_evict_all_evictable : Table → ℕ × Table
table_evict_all_evictable t =
    let (total, es) = evict_all t.entries in (total, record t { entries = es })

-- The sum of `(uint32_t)e->len` over the entries that pass a test, in a `uint32_t`.
unfoldable pub sum_len : (Entry → Bool) → List Entry → ℕ
sum_len test [] = 0
sum_len test (e ∷ es) = ((if test e then e.len % 2 ^ 32 else 0) + sum_len test es) % 2 ^ 32

unfoldable pub table_footprint : Table → ℕ
table_footprint t = sum_len (λ e. not (is_reclaimable e)) t.entries

abbrev pub is_resident_evictable : Entry → Bool
is_resident_evictable e = is_some e.owned && is_reclaimable e

unfoldable pub table_resident_evictable : Table → ℕ
table_resident_evictable t = sum_len is_resident_evictable t.entries

unfoldable pub table_resident_decompressed : Table → ℕ
table_resident_decompressed t = sum_len (λ e. is_some e.owned) t.entries

-- The entry at position `i` becomes the most recently used.
unfoldable pub table_touch : Table → ℕ → Table
table_touch t i = elim (get_elem? t.entries i) [
  | none ↦ t
  | some e ↦
      let clock = (t.lru_clock + 1) % 2 ^ 32 in
      record t { entries = set t.entries i (record e { last_access = clock }); lru_clock = clock }
]

-- The scan of `evict_to_fit` for the oldest victim, at positions `i` on.
unfoldable pub older : Option (ℕ × Entry) → Entry → Bool
older none e = true
older (some (i, v)) e = ltb e.last_access v.last_access

unfoldable pub pick_victim : List Entry → ℕ → Option (ℕ × Entry) → Option (ℕ × Entry)
pick_victim [] i victim = victim
pick_victim (e ∷ es) i victim =
    pick_victim es (i + 1)
      (if is_resident_evictable e && older victim e then some (i, e) else victim)

-- The loop of `evict_to_fit` on fuel; `none` means that the fuel ran out.
unfoldable pub evict_loop : ℕ → ℕ → ℕ → List Entry → Option (ℕ × List Entry)
evict_loop zero max freed es = none
evict_loop (suc fuel) max freed es =
    if leb (sum_len is_resident_evictable es) max
    then some (freed, es)
    else elim (pick_victim es 0 none) [
      | none ↦ some (freed, es)
      | some (i, v) ↦
          evict_loop fuel max ((freed + (entry_evict v).0) % 2 ^ 64) (set es i (entry_evict v).1)
    ]

-- Each round but the last evicts an entry, so the number of entries is fuel enough.
unfoldable pub table_evict_to_fit : Table → ℕ → Option (ℕ × Table)
table_evict_to_fit t max = elim (evict_loop (length t.entries + 1) max 0 t.entries) [
  | none ↦ none
  | some (freed, es) ↦ some (freed, record t { entries = es })
]

unfoldable pub mark_one : ℕ → Table → Table
mark_one id t = elim (table_find t id) [
  | none ↦ t
  | some (i, e) ↦ record t { entries = set t.entries i (record e { persistent = true }) }
]

-- The ids are read four bytes at a time; up to three bytes at the end are left over.
unfoldable pub table_mark_persistent : Table → List ℕ → Table
table_mark_persistent t (a ∷ b ∷ c ∷ d ∷ rest) =
    table_mark_persistent (mark_one (le_value (a ∷ b ∷ c ∷ d ∷ [])) t) rest
table_mark_persistent t _ = t

-- The loop of `preload_persistent`: whether every persistent entry was materialised, and the
-- entries; it stops at the first failure.
unfoldable pub preload_entries : Env → List Entry → Bool × List Entry
preload_entries env [] = (true, [])
preload_entries env (e ∷ es) =
    let (done, es') = preload_entries env es in
    if not e.persistent
    then (done, e ∷ es')
    else let (got, e') = entry_data env e in
      if is_some got then (done, e' ∷ es') else (false, e' ∷ es)

unfoldable pub table_preload_persistent : Env → Table → Bool × Table
table_preload_persistent env t =
    if ltb mem_budget_bytes (table_footprint t)
    then (false, t)
    else let (done, es) = preload_entries env t.entries in (done, record t { entries = es })
