-- ===== src/Resource/Tests.antt =====
-- Runs of the theorems on a small table.
use blyt.Prelude.{
  ℕ, ◌+◌, ◌≤◌, ◌<◌, ◌^◌, ◌≡◌, refl, ◌⊎◌, true, false, none, some, List, [], ◌∷◌, length, All, map,
  arith, get_elem?,
}
use blyt.Shared.MemBudget.{mem_budget_bytes}
use blyt.Shared.ResourceLifecycle.{rl_is_evictable}
use blyt.Resource.{
  Env, Entry, Table, fresh_entry, table_evict_to_fit, table_resident_evictable, table_footprint,
  is_resident_evictable, is_reclaimable, entry_evict, entry_data, evict_loop, sum_len, pick_victim,
  older, table_preload_persistent,
}
use blyt.Resource.Evict.{weigh}
use blyt.Resource.Fit.{cache_weight, kept_weight, EvictedAt, evict_to_fit_lem, evict_to_fit-oldest}
use blyt.Resource.Data.{data-evict-data, preload_persistent_lem, IsReady, AllDecode, materialised}

-- A decoded entry, used at `time`.
abbrev cached : ℕ → ℕ → List ℕ → Entry
cached id time buf = record fresh_entry {
  id = id;
  bytes = some buf;
  len = length buf;
  owned = some buf;
  algo = 1;
  last_access = time;
}

abbrev old : Entry
old = cached 1 3 (9 ∷ 9 ∷ [])

abbrev young : Entry
young = cached 2 5 (7 ∷ [])

abbrev two : Table
two = record { entries = young ∷ old ∷ []; cap = 8; lru_clock = 5 }

abbrev fitted : Table
fitted = record two { entries = young ∷ record old { owned = none; bytes = none } ∷ [] }

two-fitted : table_evict_to_fit two 1 ≡ some (2, fitted)
unfolding table_evict_to_fit evict_loop sum_len pick_victim older entry_evict is_reclaimable
    rl_is_evictable
two-fitted = refl

two-cached : cache_weight two.entries < 2 ^ 32
unfolding is_reclaimable rl_is_evictable weigh
two-cached = omega arith

two-kept : kept_weight two.entries < 2 ^ 32
unfolding is_reclaimable rl_is_evictable weigh
two-kept = omega arith

old-resident : is_resident_evictable old ≡ true
unfolding is_reclaimable rl_is_evictable
old-resident = refl

young-resident : is_resident_evictable young ≡ true
unfolding is_reclaimable rl_is_evictable
young-resident = refl

old-gone : get_elem? fitted.entries 1 ≡ some (entry_evict old).1
unfolding entry_evict is_reclaimable rl_is_evictable
old-gone = refl

evict_to_fit_lem_example :
    (freed : ℕ) × (t' : Table) × (table_evict_to_fit two 1 ≡ some (freed, t'))
    × (table_resident_evictable t' ≤ 1)
    × (freed + table_resident_evictable t' ≡ table_resident_evictable two)
    × (table_footprint t' ≡ table_footprint two)
    × EvictedAt two.entries t'.entries 1
evict_to_fit_lem_example = evict_to_fit_lem two 1 1 two-cached two-kept

evict_to_fit-oldest_example : old.last_access ≤ young.last_access
evict_to_fit-oldest_example =
    evict_to_fit-oldest two 1 1 0 {e = old} {f = young} two-cached two-fitted refl old-resident
      old-gone refl young-resident

-- A staged entry whose bytes were given up; the file system has them.
abbrev env : Env
env = record {
  read_whole_file = λ path. some (1 ∷ 2 ∷ []);
  malloc_ok = λ n. true;
  zstd = λ body n. none;
}

abbrev staged : Entry
staged = record fresh_entry { id = 4; len = 2; src_path = some (b'p' ∷ []) }

staged-data :
    entry_data env staged
    ≡ (some (1 ∷ 2 ∷ []), record staged { bytes = some (1 ∷ 2 ∷ []); owned = some (1 ∷ 2 ∷ []) })
unfolding entry_data
staged-data = refl

staged-free : is_reclaimable staged ≡ true
unfolding is_reclaimable rl_is_evictable
staged-free = refl

data-evict-data_example :
    ((entry_evict (record staged { bytes = some (1 ∷ 2 ∷ []); owned = some (1 ∷ 2 ∷ []) })).1.bytes
      ≡ none)
    × (entry_data env
          (entry_evict (record staged { bytes = some (1 ∷ 2 ∷ []); owned = some (1 ∷ 2 ∷ []) })).1
        ≡ (
          some (1 ∷ 2 ∷ []),
          record staged { bytes = some (1 ∷ 2 ∷ []); owned = some (1 ∷ 2 ∷ []) },
        ))
data-evict-data_example = data-evict-data env staged refl staged-free staged-data

-- A table whose staged entry is in the persistent set, and one that is not.
abbrev pinned_set : Table
pinned_set = record {
  entries = record staged { persistent = true } ∷ old ∷ [];
  cap = 8;
  lru_clock = 5;
}

pinned_set-kept : kept_weight pinned_set.entries < 2 ^ 32
unfolding is_reclaimable rl_is_evictable weigh
pinned_set-kept = omega arith

preload_persistent_lem_example :
    ((mem_budget_bytes < kept_weight pinned_set.entries)
      × (table_preload_persistent env pinned_set ≡ (false, pinned_set)))
    ⊎ ((kept_weight pinned_set.entries ≤ mem_budget_bytes)
        × AllDecode env pinned_set.entries
        × (table_preload_persistent env pinned_set
            ≡ (true, record pinned_set { entries = map (materialised env) pinned_set.entries }))
        × All IsReady (map (materialised env) pinned_set.entries))
    ⊎ ((kept_weight pinned_set.entries ≤ mem_budget_bytes)
        × (i : ℕ) × (e : Entry) × (get_elem? pinned_set.entries i ≡ some e)
        × (e.persistent ≡ true)
        × ((entry_data env e).0 ≡ none)
        × ((table_preload_persistent env pinned_set).0 ≡ false))
preload_persistent_lem_example = preload_persistent_lem env pinned_set pinned_set-kept
