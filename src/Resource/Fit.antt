-- ===== src/Resource/Fit.antt =====
-- `blyt_resource_table_evict_to_fit`: it ends, it fits, it frees the oldest, and it leaves what is
-- pinned or persistent alone.
use blyt.Prelude.{
  ℕ, zero, suc, ◌+◌, ◌%◌, ◌^◌, ◌≤◌, ◌<◌, ◌≡◌, refl, ◌≢◌, ◌∙◌, sym, subst, ap, ◌⊎◌, inl, inr, true,
  false, not, Option, none, some, List, [], ◌∷◌, arith, leb, Bool-cases, Option-cases, length,
  get_elem?, set, get_elem?-set_self, get_elem?-set_ne, lt_of_get_elem?,
}
use native.Mathlib.Decide.{ℕ_discrete}
use blyt.Resource.{
  Entry, Table, entry_evict, is_reclaimable, is_resident_evictable, sum_len, pick_victim,
  evict_loop, table_evict_to_fit, table_footprint, table_resident_evictable,
}
use blyt.Resource.Evict.{
  weigh, len_if, one_if, sum_len-weigh, weigh-set, count-le-length, entry_evict-Evicts, Picked,
  pick_victim-Picked,
}

abbrev pub cache_weight : List Entry → ℕ
cache_weight = weigh (len_if is_resident_evictable)

abbrev pub kept_weight : List Entry → ℕ
kept_weight = weigh (len_if (λ e. not (is_reclaimable e)))

abbrev cache_count : List Entry → ℕ
cache_count = weigh (one_if is_resident_evictable)

-- The entry is as it was, or it was in the cache and has been evicted.
abbrev pub EvictedAt : List Entry → List Entry → ℕ → Type 0
EvictedAt es es' j =
    (get_elem? es' j ≡ get_elem? es j)
    ⊎ ((e : Entry) × (get_elem? es j ≡ some e)
        × (is_resident_evictable e ≡ true)
        × (get_elem? es' j ≡ some (entry_evict e).1))

pub record Fitted (max freed : ℕ) (es : List Entry) (freed' : ℕ) (es' : List Entry) : Type 0 where
  pub fits : cache_weight es' ≤ max
  pub amount : freed' + cache_weight es' ≡ freed + cache_weight es
  pub kept : kept_weight es' ≡ kept_weight es
  pub only : (j : ℕ) → EvictedAt es es' j
  pub oldest :
      (i j : ℕ) (e f : Entry)
      → get_elem? es i ≡ some e
      → is_resident_evictable e ≡ true
      → get_elem? es' i ≡ some (entry_evict e).1
      → get_elem? es' j ≡ some f
      → is_resident_evictable f ≡ true
      → e.last_access ≤ f.last_access

some_eq {ℓ} : {A : Type ℓ} {a b : A} {o : Option A} → o ≡ some a → o ≡ some b → a ≡ b
some_eq p q = cc

not_cached :
    (es : List Entry)
    → ((j : ℕ) (e : Entry) → get_elem? es j ≡ some e → is_resident_evictable e ≡ false)
    → cache_weight es ≡ 0
unfolding weigh
not_cached [] h = refl
not_cached (e ∷ es) h = ground (arith, h 0 e refl, not_cached es (λ j u at. h (suc j) u at))

Fitted-here :
    (max freed : ℕ) (es : List Entry) → cache_weight es ≤ max → Fitted max freed es freed es
Fitted-here max freed es h = record {
  fits = h;
  amount = refl;
  kept = refl;
  only = λ j. inl refl;
  oldest = λ i j e f at res at' _ _.
      let same : e ≡ (entry_evict e).1 = some_eq at at' in
      absurd (ground (arith, (entry_evict-Evicts e res).gone, ap is_resident_evictable same, res));
}

-- One round: the victim at `k` is evicted, and the rest of the loop fits what is left.
module _ (max freed : ℕ) (es : List Entry) (k : ℕ) (v : Entry) (at : get_elem? es k ≡ some v)
    (res : is_resident_evictable v ≡ true)
    (least : (j : ℕ) (e : Entry)
      → get_elem? es j ≡ some e
      → is_resident_evictable e ≡ true
      → v.last_access ≤ e.last_access) where
  after : List Entry
  after = set es k (entry_evict v).1

  at_victim : get_elem? after k ≡ some (entry_evict v).1
  unfolding after
  at_victim = get_elem?-set_self es k _ (lt_of_get_elem? es k at)

  at_other : (j : ℕ) → j ≢ k → get_elem? after j ≡ get_elem? es j
  unfolding after
  at_other j ne = get_elem?-set_ne es {i = k} {j = j} _ (λ p. ne (sym p))

  cache_weight-after : cache_weight after + v.len ≡ cache_weight es
  unfolding after
  cache_weight-after =
      let ev = entry_evict-Evicts v res in
      ground
        (arith, weigh-set (len_if is_resident_evictable) es k (entry_evict v).1 at, ev.gone, res)

  cache_count-after : cache_count after + 1 ≡ cache_count es
  unfolding after
  cache_count-after =
      let ev = entry_evict-Evicts v res in
      ground
        (arith, weigh-set (one_if is_resident_evictable) es k (entry_evict v).1 at, ev.gone, res)

  kept_weight-after : kept_weight after ≡ kept_weight es
  unfolding after
  kept_weight-after =
      let ev = entry_evict-Evicts v res in
      ground (
        arith,
        weigh-set (len_if (λ e. not (is_reclaimable e))) es k (entry_evict v).1 at,
        ev.same_reclaimable,
        ev.same_len,
      )

  -- What is in the cache at the end was there before this round.
  survivor :
      (es' : List Entry) (j : ℕ) (f : Entry)
      → EvictedAt after es' j
      → get_elem? es' j ≡ some f
      → is_resident_evictable f ≡ true
      → get_elem? es j ≡ some f
  survivor es' j f (inr (u, at_u, res_u, gone)) at_f res_f =
      let same : f ≡ (entry_evict u).1 = some_eq at_f gone in
      absurd
        (ground (arith, (entry_evict-Evicts u res_u).gone, ap is_resident_evictable same, res_f))
  survivor es' j f (inl same) at_f res_f =
      let at_after = sym same ∙ at_f in
      elim (ℕ_discrete j k) [
        | yes e ↦
            let same' : f ≡ (entry_evict v).1 = some_eq at_after (rw e at_victim) in
            absurd (
              ground
                (arith, (entry_evict-Evicts v res).gone, ap is_resident_evictable same', res_f))
        | no ne ↦ sym (at_other j ne) ∙ at_after
      ]

  Fitted-after :
      {freed' : ℕ} {es' : List Entry}
      → Fitted max (freed + v.len) after freed' es'
      → Fitted max freed es freed' es'
  Fitted-after {freed'} {es'} ft = record {
    fits = ft.fits;
    amount = omega (arith, ft.amount, cache_weight-after);
    kept = ft.kept ∙ kept_weight-after;
    only = λ j. elim (ℕ_discrete j k) [
      | yes e ↦ elim (ft.only j) [
        | inl same ↦ inr (v, rw e at, res, same ∙ rw e at_victim)
        | inr (u, at_u, res_u, _) ↦
            let same : u ≡ (entry_evict v).1 = some_eq at_u (rw e at_victim) in
            absurd (
              ground (arith, (entry_evict-Evicts v res).gone, ap is_resident_evictable same, res_u))
      ]
      | no ne ↦ elim (ft.only j) [
        | inl same ↦ inl (same ∙ at_other j ne)
        | inr (u, at_u, res_u, gone) ↦ inr (u, sym (at_other j ne) ∙ at_u, res_u, gone)
      ]
    ];
    oldest = λ i j e f at_e res_e gone at_f res_f.
        let before_f = survivor es' j f (ft.only j) at_f res_f in
        elim (ℕ_discrete i k) [
          | yes q ↦ let same : e ≡ v = some_eq at_e (rw q at) in rw same (least j f before_f res_f)
          | no ne ↦ ft.oldest i j e f (at_other i ne ∙ at_e) res_e gone at_f res_f
        ];
  }

evict_stop :
    (fuel max freed : ℕ) (es : List Entry)
    → leb (sum_len is_resident_evictable es) max ≡ false
    → pick_victim es 0 none ≡ none
    → evict_loop (suc fuel) max freed es ≡ some (freed, es)
unfolding evict_loop
evict_stop fuel max freed es more missing = rw (more, missing) refl

evict_more :
    (fuel max freed k : ℕ) (es : List Entry) (v : Entry)
    → leb (sum_len is_resident_evictable es) max ≡ false
    → pick_victim es 0 none ≡ some (k, v)
    → evict_loop (suc fuel) max freed es
      ≡ evict_loop fuel max ((freed + (entry_evict v).0) % 2 ^ 64) (set es k (entry_evict v).1)
unfolding evict_loop
evict_more fuel max freed k es v more found = rw (more, found) refl

-- With more fuel than cached entries the loop ends, and the result fits.
evict_loop-Fitted :
    (fuel max freed : ℕ) (es : List Entry)
    → cache_count es < fuel
    → freed + cache_weight es < 2 ^ 32
    → (freed' : ℕ) × (es' : List Entry) × (evict_loop fuel max freed es ≡ some (freed', es'))
      × Fitted max freed es freed' es'
unfolding evict_loop after
evict_loop-Fitted zero max freed es fuel small = absurd (omega arith)
evict_loop-Fitted (suc fuel) max freed es enough small =
    elim (Bool-cases (leb (sum_len is_resident_evictable es) max)) [
      | inl stop ↦ (
        freed,
        es,
        rw stop refl,
        Fitted-here max freed es (ground (arith, sum_len-weigh is_resident_evictable es, stop)),
      )
      | inr more ↦ elim (Option-cases (pick_victim es 0 none)) [
        | inl missing ↦
            let empty = (subst (Picked es 0 none) missing (pick_victim-Picked es 0 none)).1 in
            (
              freed,
              es,
              evict_stop fuel max freed es more missing,
              Fitted-here max freed es (omega (arith, not_cached es empty)),
            )
        | inr ((k, v), found) ↦
            let (origin, least, _) =
              subst (Picked es 0 none) found (pick_victim-Picked es 0 none) in
            let at : get_elem? es k ≡ some v = ground (arith, origin) in
            let res : is_resident_evictable v ≡ true = ground (arith, origin) in
            let ev = entry_evict-Evicts v res in
            let weight = cache_weight-after max freed es k v at res least in
            let add : (freed + (entry_evict v).0) % 2 ^ 64 ≡ freed + v.len =
              omega (arith, ev.reclaimed, weight) in
            let (freed', es', e, ft) =
              evict_loop-Fitted fuel max (freed + v.len) (after max freed es k v at res least)
                (omega (arith, cache_count-after max freed es k v at res least))
                (omega (arith, weight)) in
            (
              freed',
              es',
              evict_more fuel max freed k es v more found
                  ∙ ap (λ n. evict_loop fuel max n (after max freed es k v at res least)) add
                  ∙ e,
              Fitted-after max freed es k v at res least ft,
            )
      ]
    ]

evict_to_fit-loop :
    (t : Table) (max freed : ℕ) (es : List Entry)
    → evict_loop (length t.entries + 1) max 0 t.entries ≡ some (freed, es)
    → table_evict_to_fit t max ≡ some (freed, record t { entries = es })
unfolding table_evict_to_fit
evict_to_fit-loop t max freed es e = rw (e, table_evict_to_fit) refl

-- On a table whose cache and footprint are below 4 GiB each the eviction ends. Afterwards the cached
-- bytes are within the bound; what it reports as freed is exactly what the cache lost; the
-- non-evictable footprint is what it was; and the entry at each position is unchanged, or was a
-- cached one that may go and has been evicted.
pub evict_to_fit_lem :
    (t : Table) (max j : ℕ)
    → cache_weight t.entries < 2 ^ 32
    → kept_weight t.entries < 2 ^ 32
    → (freed : ℕ) × (t' : Table) × (table_evict_to_fit t max ≡ some (freed, t'))
      × (table_resident_evictable t' ≤ max)
      × (freed + table_resident_evictable t' ≡ table_resident_evictable t)
      × (table_footprint t' ≡ table_footprint t)
      × EvictedAt t.entries t'.entries j
unfolding table_resident_evictable table_footprint
evict_to_fit_lem t max j cached kept =
    let es = t.entries in
    let enough = count-le-length is_resident_evictable es in
    let (freed, es', e, ft) =
      evict_loop-Fitted (length es + 1) max 0 es (omega (arith, enough)) (omega arith) in
    let before = sum_len-weigh is_resident_evictable es cached in
    let later = sum_len-weigh is_resident_evictable es' (omega (arith, ft.amount)) in
    let kept_before = sum_len-weigh (λ e. not (is_reclaimable e)) es kept in
    let kept_later = sum_len-weigh (λ e. not (is_reclaimable e)) es' (omega (arith, ft.kept)) in
    (
      freed,
      record t { entries = es' },
      evict_to_fit-loop t max freed es' e,
      omega (arith, later, ft.fits),
      omega (arith, later, before, ft.amount),
      kept_later ∙ ft.kept ∙ sym kept_before,
      ft.only j,
    )

-- The eviction goes by age: an entry that it evicted was last used no later than any entry that is
-- still in the cache and may go.
pub evict_to_fit-oldest :
    (t : Table) (max i j : ℕ) {freed : ℕ} {t' : Table} {e f : Entry}
    → cache_weight t.entries < 2 ^ 32
    → table_evict_to_fit t max ≡ some (freed, t')
    → get_elem? t.entries i ≡ some e
    → is_resident_evictable e ≡ true
    → get_elem? t'.entries i ≡ some (entry_evict e).1
    → get_elem? t'.entries j ≡ some f
    → is_resident_evictable f ≡ true
    → e.last_access ≤ f.last_access
evict_to_fit-oldest t max i j {t'} {e} {f} cached ran at_e res_e gone at_f res_f =
    let es = t.entries in
    let enough = count-le-length is_resident_evictable es in
    let (n, es', r, ft) =
      evict_loop-Fitted (length es + 1) max 0 es (omega (arith, enough)) (omega arith) in
    let same : t' ≡ record t { entries = es' } = cc (ran, evict_to_fit-loop t max n es' r) in
    ft.oldest i j e f at_e res_e (rw same at gone) (rw same at at_f) res_f
