-- ===== src/Resource/Data.antt =====
-- Materialising a resource, evicting it, and the persistent set.
use blyt.Prelude.{
  ℕ, ◌≤◌, ◌<◌, ◌≡◌, refl, ap, ◌⊎◌, inl, inr, true, false, none, some, List, [], ◌∷◌, arith, ltb,
  if◌then◌else◌, Bool-cases, Option-cases, length, is_some, ◌==◌, All, ◌^◌, not, zero, suc, map,
  subst, get_elem?,
}
use blyt.Resource.Evict.{sum_len-weigh}
use blyt.Resource.Fit.{kept_weight}
use blyt.Shared.MemBudget.{mem_budget_bytes}
use blyt.Shared.ResourceCodec.{res_decode, algo_zstd}
use blyt.Resource.{
  Env, Entry, Table, entry_data, entry_evict, resident, is_reclaimable, preload_entries,
  table_preload_persistent, table_footprint,
}

-- Where the bytes of a materialised entry came from.
abbrev FromFile : Env → Entry → List ℕ → Entry → Type 0
FromFile env e b e' =
    (path : List ℕ) × (e.src_path ≡ some path)
    × (env.read_whole_file path ≡ some b)
    × (e' ≡ record (resident e b) { len = length b })

abbrev FromFrame : Env → Entry → List ℕ → Entry → Type 0
FromFrame env e b e' =
    (e.src_path ≡ none)
    × ((e.algo == algo_zstd) ≡ true)
    × (env.malloc_ok (if e.len == 0 then 1 else e.len) ≡ true)
    × (res_decode env.zstd e.algo e.cdata e.len ≡ some b)
    × (e' ≡ resident e b)

entry_data-source :
    (env : Env) (e : Entry) {b : List ℕ} {e' : Entry}
    → e.bytes ≡ none
    → entry_data env e ≡ (some b, e')
    → FromFile env e b e' ⊎ FromFrame env e b e'
unfolding entry_data
entry_data-source env e {b} {e'} empty got = elim (Option-cases e.src_path) [
  | inl p ↦ inr (ground (arith, empty, got, p))
  | inr (path, p) ↦ inl (path, p, ground (arith, empty, got, p), ground (arith, empty, got, p))
]

data-FromFile :
    (env : Env) (e : Entry) (path b : List ℕ)
    → e.bytes ≡ none
    → e.src_path ≡ some path
    → env.read_whole_file path ≡ some b
    → entry_data env e ≡ (some b, record (resident e b) { len = length b })
unfolding entry_data
data-FromFile env e path b empty p r = ground (arith, empty, p, r)

data-FromFrame :
    (env : Env) (e : Entry) (b : List ℕ)
    → e.bytes ≡ none
    → FromFrame env e b (resident e b)
    → entry_data env e ≡ (some b, resident e b)
unfolding entry_data
data-FromFrame env e b empty h = ground (arith, empty, h)

evict_resident :
    (e : Entry) (b : List ℕ)
    → is_reclaimable e ≡ true
    → entry_evict (resident e b) ≡ (e.len, record e { owned = none; bytes = none })
unfolding entry_evict is_reclaimable
evict_resident e b free = ground (arith, free)

-- An entry without bytes that is materialised and then evicted has no bytes again; asked once more
-- it gives the same bytes and the same entry, so that the eviction cannot be observed.
pub data-evict-data :
    (env : Env) (e : Entry) {b : List ℕ} {e' : Entry}
    → e.bytes ≡ none
    → is_reclaimable e ≡ true
    → entry_data env e ≡ (some b, e')
    → ((entry_evict e').1.bytes ≡ none) × (entry_data env (entry_evict e').1 ≡ (some b, e'))
data-evict-data env e {b} {e'} empty free got = elim (entry_data-source env e empty got) [
  | inl (path, p, r, made) ↦
      let gone =
        ap (λ q. q.1)
          (evict_resident (record e { len = length b }) b (unfold is_reclaimable in free)) in
      rw (made, gone)
        (
          refl,
          data-FromFile env (record e { len = length b; owned = none; bytes = none }) path b refl p
              r,
        )
  | inr (p, algo, room, dec, made) ↦
      let gone = ap (λ q. q.1) (evict_resident e b free) in
      rw (made, gone)
        (
          refl,
          data-FromFrame env (record e { owned = none; bytes = none }) b refl
              (p, algo, room, dec, refl),
        )
]

-- Persistent entries hold their bytes.
abbrev pub IsReady : Entry → Type 0
IsReady e = (e.persistent ≡ false) ⊎ (is_some e.bytes ≡ true)

entry_data-ready :
    (env : Env) (e : Entry)
    → is_some (entry_data env e).0 ≡ true
    → is_some (entry_data env e).1.bytes ≡ true
unfolding entry_data
entry_data-ready env e h = elim (Option-cases e.bytes) [
  | inl empty ↦ elim (Option-cases e.src_path) [
    | inl p ↦ ground (arith, empty, p, h)
    | inr (path, p) ↦ ground (arith, empty, p, h)
  ]
  | inr (b, full) ↦ ground (arith, full)
]

preload_cons :
    (env : Env) (e : Entry) (es : List Entry)
    → (preload_entries env (e ∷ es)).0 ≡ true
    → ((preload_entries env es).0 ≡ true)
      × (((e.persistent ≡ false)
            × ((preload_entries env (e ∷ es)).1 ≡ e ∷ (preload_entries env es).1))
          ⊎ ((is_some (entry_data env e).0 ≡ true)
              × ((preload_entries env (e ∷ es)).1
                  ≡ (entry_data env e).1 ∷ (preload_entries env es).1)))
unfolding preload_entries
preload_cons env e es h = elim (Bool-cases e.persistent) [
  | inl p ↦ elim (Bool-cases (is_some (entry_data env e).0)) [
    | inl got ↦ (ground (arith, p, got, h), inr (got, simp (p, got) refl))
    | inr lost ↦ absurd (ground (arith, p, lost, h))
  ]
  | inr p ↦ (ground (arith, p, h), inl (p, rw p refl))
]

preload_entries-IsReady :
    (env : Env) (es : List Entry)
    → (preload_entries env es).0 ≡ true
    → All IsReady (preload_entries env es).1
preload_entries-IsReady env [] h = unfold preload_entries in tt
preload_entries-IsReady env (e ∷ es) h =
    let (rest, head) = preload_cons env e es h in
    elim head [
      | inl (p, made) ↦ rw made (inl p, preload_entries-IsReady env es rest)
      | inr (got, made) ↦
          rw made (inr (entry_data-ready env e got), preload_entries-IsReady env es rest)
    ]

-- The entry after its bytes were asked for, if it is persistent.
abbrev pub materialised : Env → Entry → Entry
materialised env e = if e.persistent then (entry_data env e).1 else e

-- Every persistent entry can be decoded or read.
abbrev pub AllDecode : Env → List Entry → Type 0
AllDecode env = All (λ e. (e.persistent ≡ false) ⊎ (is_some (entry_data env e).0 ≡ true))

-- The loop materialises every persistent entry, or stops at one that cannot be.
preload_entries-cases :
    (env : Env) (es : List Entry)
    → (AllDecode env es × (preload_entries env es ≡ (true, map (materialised env) es)))
      ⊎ ((i : ℕ) × (e : Entry) × (get_elem? es i ≡ some e)
          × (e.persistent ≡ true)
          × ((entry_data env e).0 ≡ none)
          × ((preload_entries env es).0 ≡ false))
unfolding preload_entries
preload_entries-cases env [] = inl (tt, refl)
preload_entries-cases env (e ∷ es) = elim (Bool-cases e.persistent) [
  | inr p ↦ elim (preload_entries-cases env es) [
    | inl (all, done) ↦ inl ((inl p, all), simp (p, done) refl)
    | inr (i, x, at, y, lost, stop) ↦ inr (suc i, x, at, y, lost, simp (p, stop) refl)
  ]
  | inl p ↦ elim (Option-cases (entry_data env e).0) [
    | inl lost ↦ inr (zero, e, refl, p, lost, simp (p, lost) refl)
    | inr (bs, got) ↦ elim (preload_entries-cases env es) [
      | inl (all, done) ↦ inl ((inr (simp got refl), all), simp (p, got, done) refl)
      | inr (i, x, at, y, lost, stop) ↦ inr (suc i, x, at, y, lost, simp (p, got, stop) refl)
    ]
  ]
]

-- Where the lengths of the entries that cannot be evicted sum to less than 2 ^ 32, there are three
-- outcomes of `preload_persistent`. Either the sum is over the budget, and the call fails and leaves
-- the table. Or it is within the budget, every persistent entry decodes, and the call succeeds,
-- changes the persistent entries as their decoding does and no other, and all of them hold bytes. Or
-- it is within the budget, and the call fails on a persistent entry that does not decode.
pub preload_persistent_lem :
    (env : Env) (t : Table)
    → kept_weight t.entries < 2 ^ 32
    → ((mem_budget_bytes < kept_weight t.entries) × (table_preload_persistent env t ≡ (false, t)))
      ⊎ ((kept_weight t.entries ≤ mem_budget_bytes)
          × AllDecode env t.entries
          × (table_preload_persistent env t
              ≡ (true, record t { entries = map (materialised env) t.entries }))
          × All IsReady (map (materialised env) t.entries))
      ⊎ ((kept_weight t.entries ≤ mem_budget_bytes)
          × (i : ℕ) × (e : Entry) × (get_elem? t.entries i ≡ some e)
          × (e.persistent ≡ true)
          × ((entry_data env e).0 ≡ none)
          × ((table_preload_persistent env t).0 ≡ false))
unfolding table_preload_persistent table_footprint
preload_persistent_lem env t small =
    let sum = sum_len-weigh (λ e. not (is_reclaimable e)) t.entries small in
    elim (Bool-cases (ltb mem_budget_bytes (table_footprint t))) [
      | inl over ↦ inl (ground (arith, over, sum), rw over)
      | inr within ↦
          let fits : kept_weight t.entries ≤ mem_budget_bytes = ground (arith, within, sum) in
          elim (preload_entries-cases env t.entries) [
            | inl (all, done) ↦ inr (
                inl (
                  fits,
                  all,
                  rw (within, done),
                  subst (λ r. All IsReady r.1) done
                      (preload_entries-IsReady env t.entries (rw done)),
                ))
            | inr (i, e, at, p, lost, stop) ↦ inr (inr (fits, i, e, at, p, lost, rw (within, stop)))
          ]
    ]
