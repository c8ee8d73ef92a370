-- ===== src/Resource/Evict.antt =====
-- Weights over the entries, one eviction, and the choice of the victim.
use blyt.Prelude.{
  ℕ, zero, suc, ◌+◌, ◌-◌, ◌^◌, ◌≤◌, ◌<◌, ◌≡◌, refl, ◌⊎◌, inl, inr, Bool, true, false, ◌&&◌, Option,
  none, some, List, [], ◌∷◌, arith, if◌then◌else◌, Bool-cases, length, get_elem?, set,
}
use blyt.Shared.ResourceLifecycle.{rl_is_evictable}
use blyt.Resource.{
  Entry, entry_evict, is_reclaimable, is_resident_evictable, sum_len, older, pick_victim,
}

-- The plain sum of a weight.
unfoldable pub weigh : (Entry → ℕ) → List Entry → ℕ
weigh w [] = 0
weigh w (e ∷ es) = w e + weigh w es

abbrev pub len_if : (Entry → Bool) → Entry → ℕ
len_if test e = if test e then e.len else 0

abbrev pub one_if : (Entry → Bool) → Entry → ℕ
one_if test e = if test e then 1 else 0

-- The 32-bit sums of the source do not wrap where the plain sum fits.
pub sum_len-weigh :
    (test : Entry → Bool) (es : List Entry)
    → weigh (len_if test) es < 2 ^ 32
    → sum_len test es ≡ weigh (len_if test) es
unfolding sum_len weigh
sum_len-weigh test [] h = refl
sum_len-weigh test (e ∷ es) h = ground (arith, sum_len-weigh test es)

pub weigh-set :
    (w : Entry → ℕ) (es : List Entry) (i : ℕ) {e : Entry} (e' : Entry)
    → get_elem? es i ≡ some e
    → weigh w (set es i e') + w e ≡ weigh w es + w e'
unfolding weigh
weigh-set w [] i e' h = absurd (cc)
weigh-set w (x ∷ es) zero {e} e' h = let same : x ≡ e = cc in rw same (omega arith)
weigh-set w (x ∷ es) (suc i) e' h = omega (arith, weigh-set w es i e' h)

pub weigh-le :
    (w v : Entry → ℕ) (es : List Entry) → ((e : Entry) → w e ≤ v e) → weigh w es ≤ weigh v es
unfolding weigh
weigh-le w v [] h = omega arith
weigh-le w v (e ∷ es) h = omega (arith, h e, weigh-le w v es h)

pub count-le-length : (test : Entry → Bool) (es : List Entry) → weigh (one_if test) es ≤ length es
unfolding weigh
count-le-length test [] = omega arith
count-le-length test (e ∷ es) = ground (arith, count-le-length test es)

-- Evicting a resident entry that may go: its length is reclaimed, its bytes are dropped, and its
-- length, pins, recency and sources stay.
pub record Evicts (e : Entry) : Type 0 where
  pub reclaimed : (entry_evict e).0 ≡ e.len
  pub gone : is_resident_evictable (entry_evict e).1 ≡ false
  pub same_reclaimable : is_reclaimable (entry_evict e).1 ≡ is_reclaimable e
  pub same_len : (entry_evict e).1.len ≡ e.len

pub entry_evict-Evicts : (e : Entry) → is_resident_evictable e ≡ true → Evicts e
unfolding entry_evict is_reclaimable rl_is_evictable
entry_evict-Evicts e h = ground arith

-- What the scan for a victim returns.
abbrev pub Picked : List Entry → ℕ → Option (ℕ × Entry) → Option (ℕ × Entry) → Type 0
Picked es i cur none =
    (cur ≡ none) × ((j : ℕ) (e : Entry) → get_elem? es j ≡ some e → is_resident_evictable e ≡ false)
Picked es i cur (some (k, v)) =
    ((cur ≡ some (k, v))
      ⊎ (i ≤ k) × (get_elem? es (k - i) ≡ some v) × (is_resident_evictable v ≡ true))
    × ((j : ℕ) (e : Entry)
        → get_elem? es j ≡ some e
        → is_resident_evictable e ≡ true
        → v.last_access ≤ e.last_access)
    × ((c : ℕ) (u : Entry) → cur ≡ some (c, u) → v.last_access ≤ u.last_access)

abbrev next_victim : Option (ℕ × Entry) → ℕ → Entry → Option (ℕ × Entry)
next_victim cur i e = if is_resident_evictable e && older cur e then some (i, e) else cur

-- The current victim is kept only if it is no younger than the entry.
not_older :
    (cur : Option (ℕ × Entry)) (e v : Entry)
    → older cur e ≡ false
    → ((c : ℕ) (u : Entry) → cur ≡ some (c, u) → v.last_access ≤ u.last_access)
    → v.last_access ≤ e.last_access
unfolding older
not_older none e v o h = absurd (cc)
not_older (some (c, w)) e v o h = ground (arith, h c w refl)

at_cons :
    (e : Entry) (es : List Entry) (j : ℕ) (u : Entry)
    → get_elem? (e ∷ es) j ≡ some u
    → (u ≡ e) ⊎ ((m : ℕ) × (get_elem? es m ≡ some u))
at_cons e es zero u h = inl (cc)
at_cons e es (suc j) u h = inr (j, h)

-- One more entry in front.
Picked-cons :
    (e : Entry) (es : List Entry) (i : ℕ) (cur r : Option (ℕ × Entry))
    → Picked es (i + 1) (next_victim cur i e) r
    → Picked (e ∷ es) i cur r
unfolding older
Picked-cons e es i none none h = elim (Bool-cases (is_resident_evictable e)) [
  | inl t ↦ absurd (ground (arith, t, h.0))
  | inr f ↦ (
    refl,
    λ j u at. elim (at_cons e es j u at) [ inl same ↦ rw same f | inr (m, at') ↦ h.1 m u at' ],
  )
]
Picked-cons e es i (some (c, w)) none h = absurd (ground (arith, h.0))
Picked-cons e es i cur (some (k, v)) h = (
  elim h.0 [
    | inl kept ↦ ground (arith, kept)
    | inr (lo, at, res) ↦
        let there : k - i ≡ suc (k - (i + 1)) = omega arith in inr (omega arith, rw there at, res)
  ],
  λ j u at res. elim (at_cons e es j u at) [
    | inl same ↦
        let res' : is_resident_evictable e ≡ true = ground (arith, same, res) in
        elim (Bool-cases (older cur e)) [
          | inl o ↦ rw same (h.2 i e (rw (res', o)))
          | inr o ↦ rw same (not_older cur e v o (λ c w p. h.2 c w (rw (res', o) p)))
        ]
    | inr (m, at') ↦ h.1 m u at' res
  ],
  λ c w p. elim (Bool-cases (is_resident_evictable e && older cur e)) [
    | inl b ↦ ground (arith, h.2 i e (rw b), b, p)
    | inr b ↦ h.2 c w (rw b p)
  ],
)

pub pick_victim-Picked :
    (es : List Entry) (i : ℕ) (cur : Option (ℕ × Entry)) → Picked es i cur (pick_victim es i cur)
unfolding pick_victim
pick_victim-Picked [] i none = (refl, λ j e h. absurd (cc))
pick_victim-Picked [] i (some (k, v)) = (inl refl, λ j e h. absurd (cc), λ c u h. ground (arith, h))
pick_victim-Picked (e ∷ es) i cur =
    Picked-cons e es i cur _ (pick_victim-Picked es (i + 1) (next_victim cur i e))
