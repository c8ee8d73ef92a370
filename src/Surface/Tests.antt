-- ===== src/Surface/Tests.antt =====
-- Runs of the theorems on a new session, with a guest memory that is a function of the address.
use blyt.Prelude.{
  Bool, ap₂, ℕ, zero, suc, ◌+◌, ◌^◌, ◌≤◌, ◌<◌, ◌≡◌, ◌≢◌, ◌⊎◌, inl, refl, ◌∙◌, true, false, none,
  some, List, [], ◌∷◌, arith, ◌==◌, if◌then◌else◌, get_elem?, set, length, replicate,
}
use blyt.Raster.{pixels}
use blyt.Resource.{table_init}
use blyt.Surface.Registry.{
  Guest, Slot, Registry, RunCtx, registry_init, zero_slot, resolve_surface, resolve_lockview,
  surface_create_slot, surface_free_slot, fresh_slot,
}
use blyt.Surface.Locks.{
  surface_acquire_lock, surface_release_lock, surface_reap_all, taken, taken_slot, lock_bytes,
}
use blyt.Shared.Handle.{surface_encode, screen}
use blyt.Resource.{table_footprint, sum_len}
use blyt.Surface.Registry.{mem_acct_guest_heap_used}
use blyt.Surface.Handles.{resolve-encode}
use blyt.Surface.Lifetime.{AreWords, create-resolve, free_slot-stale}
use blyt.Surface.Reap.{reap_all-stale}
use blyt.Surface.Invariant.{IsAccounted}
use blyt.Surface.Reach.{
  create, end_frame, Reaches, here, there, init-slot, init-IsAccounted, reap_all-empty,
  Reaches-IsAccounted,
}
use blyt.Surface.Screen.{Reaches-screen}
use blyt.Surface.Views.{Rejected, locked-Rejected}
use blyt.Surface.Copies.{acquire-release}
use blyt.Shared.Handle.{lockview_encode}
use blyt.Surface.Calls.{
  Paint, returns, traps, fault, surface_draw, ecall_surface_blit, ecall_surface_destroy,
  ecall_surface_acquire,
}

-- A guest memory.
abbrev Store : Type 0
Store = ℕ → ℕ

abbrev load : Store → ℕ → ℕ → List ℕ
load m a zero = []
load m a (suc n) = m a ∷ load m (a + 1) n

abbrev store : Store → ℕ → List ℕ → Store
store m a [] = m
store m a (b ∷ bs) = λ x. if x == a then b else store m (a + 1) bs x

abbrev flat : Guest Store
flat = record { memory_read = load; memory_write = store }

load_same :
    (m m' : Store) (a n : ℕ) → ((x : ℕ) → a ≤ x → x < a + n → m x ≡ m' x) → load m a n ≡ load m' a n
load_same m m' a zero h = refl
load_same m m' a (suc n) h =
    ap₂ (λ b bs. b ∷ bs) (h a (omega arith) (omega arith))
      (load_same m m' (a + 1) n (λ x k l. h x (omega (arith, k)) (omega (arith, l))))

store_outside :
    (m : Store) (a : ℕ) (bs : List ℕ) (x : ℕ) → (x < a) ⊎ (a + length bs ≤ x) → store m a bs x ≡ m x
store_outside m a [] x h = refl
store_outside m a (b ∷ bs) x h = ground (arith, h, store_outside m (a + 1) bs x (omega (arith, h)))

flat_read_back :
    (m : Store) (a : ℕ) (bs : List ℕ)
    → a + length bs ≤ 2 ^ 32
    → load (store m a bs) a (length bs) ≡ bs
flat_read_back m a [] h = refl
flat_read_back m a (b ∷ bs) h =
    ap₂ (λ c cs. c ∷ cs) (ground arith)
      (load_same _ (store m (a + 1) bs) (a + 1) (length bs) (λ x k l. ground (arith, k))
        ∙ flat_read_back m (a + 1) bs (omega (arith, h)))

flat_read_apart :
    (m : Store) (a : ℕ) (bs : List ℕ) (b n : ℕ)
    → (a + length bs ≤ b) ⊎ (b + n ≤ a)
    → load (store m a bs) b n ≡ load m b n
flat_read_apart m a bs b n h =
    load_same (store m a bs) m b n (λ x k l. store_outside m a bs x (omega (arith, h, k, l)))

abbrev blank : Store
blank = λ a. 0

-- A session in its drawing phase, with one surface of two pixels in slot 1.
abbrev two_pixels : Slot
two_pixels = fresh_slot zero_slot 2 1

abbrev opened : Registry
opened = record (registry_init []) {
  slots = set (registry_init []).slots 1 two_pixels;
  surface_bytes = 2;
}

abbrev with_surfaces : Registry → RunCtx
with_surfaces reg = record {
  surfaces = reg;
  resources = table_init;
  peer_heap = 0;
  mem_acct_vaddr = 0;
  phase = 3;
  cart_is_debug = false;
  dev_fault = false;
  cart_has_drawn = some false;
}

abbrev handle : ℕ
handle = surface_encode 0 1

opened_at : get_elem? opened.slots 1 ≡ some two_pixels
unfolding registry_init
opened_at = refl

opened_resolves : resolve_surface opened handle ≡ some (1, two_pixels)
opened_resolves = resolve-encode opened 1 two_pixels opened_at (omega arith) refl (omega arith)

init_words : AreWords (registry_init []).slots
init_words i s e = ground (arith, (init-slot [] i s e).1)

create-resolve_example :
    let r = surface_create_slot flat true (with_surfaces (registry_init [])) blank 4 3 in
    ((r.0 ≡ 0) × (r.1.0 ≡ with_surfaces (registry_init [])) × (r.1.1 ≡ blank))
    ⊎ ((idx : ℕ) × (s t : Slot) × (resolve_surface r.1.0.surfaces r.0 ≡ some (idx, t))
        × (get_elem? (registry_init []).slots idx ≡ some s)
        × (s.in_use ≡ false)
        × ((t.w ≡ 4) × (t.h ≡ 3) × (◌<◌ 0 4) × (◌≤◌ 4 8192) × (◌<◌ 0 3) × (◌≤◌ 3 8192))
        × (t.buffer ≡ pixels (replicate 12 0))
        × ((t.is_screen ≡ false) × (t.gen ≡ s.gen) × (t.locked ≡ s.locked))
        × ((j : ℕ)
            → idx ≢ j
            → get_elem? r.1.0.surfaces.slots j ≡ get_elem? (registry_init []).slots j))
create-resolve_example =
    create-resolve flat (with_surfaces (registry_init [])) blank 4 3 true init_words

reap_all-stale_example :
    let reg = (surface_reap_all flat (with_surfaces opened) blank).0.surfaces in
    ((h i : ℕ) (s : Slot)
      → resolve_surface reg h ≡ some (i, s)
      → ((i ≡ 0) ⊎ (s.is_screen ≡ true)) × (s.locked ≡ false))
    × ((token : ℕ) → resolve_lockview reg token ≡ none)
reap_all-stale_example = reap_all-stale flat (with_surfaces opened) blank

reap_all-empty_example :
    let reg = (surface_reap_all flat (with_surfaces (registry_init [])) blank).0.surfaces in
    IsAccounted reg × (reg.surface_bytes ≡ 0) × (reg.active_locks ≡ 0)
reap_all-empty_example =
    reap_all-empty flat (with_surfaces (registry_init [])) blank (init-IsAccounted [])

-- A surface is created in the first frame, and the frame ends.
abbrev first : Registry
first = (surface_create_slot flat true (with_surfaces (registry_init [])) blank 4 3).1.0.surfaces

one_frame :
    Reaches flat (registry_init []) (surface_reap_all flat (with_surfaces first) blank).0.surfaces
unfolding mem_acct_guest_heap_used table_footprint table_init sum_len
one_frame =
    there _ _ _
      (there _ _ _ (here (registry_init []))
        (create (with_surfaces (registry_init [])) blank 4 3 true (omega arith) (omega arith)))
      (end_frame (with_surfaces first) blank)

Reaches-IsAccounted_example :
    IsAccounted (surface_reap_all flat (with_surfaces first) blank).0.surfaces
Reaches-IsAccounted_example = Reaches-IsAccounted flat [] _ one_frame

Reaches-screen_example :
    (s : Slot) × (resolve_surface
        (surface_reap_all flat (with_surfaces first) blank).0.surfaces
        screen
      ≡ some (0, s))
    × (s.is_screen ≡ true)
Reaches-screen_example = Reaches-screen flat [] _ one_frame

opened_words : AreWords opened.slots
unfolding registry_init
opened_words zero s e = init_words zero s e
opened_words (suc zero) s e = ground (arith, e)
opened_words (suc (suc i)) s e = init_words (suc (suc i)) s e

free_slot-stale_example :
    let reg' = surface_free_slot opened 1 two_pixels in
    let r =
      surface_create_slot flat true (record (with_surfaces opened) { surfaces = reg' }) blank 4 3 in
    (resolve_surface reg' handle ≡ none) × (resolve_surface r.1.0.surfaces handle ≡ none)
free_slot-stale_example =
    free_slot-stale flat (with_surfaces opened) blank handle 1 two_pixels true 4 3 opened_words
      opened_resolves refl

-- The same surface while it is locked.
abbrev view : Slot
view = taken_slot opened two_pixels false

abbrev locked_session : RunCtx
locked_session = with_surfaces (taken opened 1 two_pixels false)

locked_resolves : resolve_surface locked_session.surfaces handle ≡ some (1, view)
unfolding registry_init
locked_resolves =
    resolve-encode locked_session.surfaces 1 view refl (omega arith) refl (omega arith)

locked-Rejected_example :
    ((paint : Slot → Paint)
      → Rejected flat locked_session blank (surface_draw flat locked_session blank handle paint))
    × ((src x y : ℕ)
        → Rejected flat locked_session blank
            (ecall_surface_blit flat locked_session blank handle src x y))
    × ((dst x y : ℕ)
        → Rejected flat locked_session blank
            (ecall_surface_blit flat locked_session blank dst handle x y))
    × Rejected flat locked_session blank (ecall_surface_destroy flat locked_session blank handle)
    × ((out_vaddr : ℕ)
        → (ecall_surface_acquire flat locked_session blank handle out_vaddr
            ≡ traps (fault locked_session) blank)
          ⊎ (ecall_surface_acquire flat locked_session blank handle out_vaddr
              ≡ returns (some 0) locked_session (store blank out_vaddr (replicate 20 0))))
locked-Rejected_example =
    locked-Rejected flat locked_session blank handle 1 view locked_resolves refl

-- The cart draws the bytes 7 and 8 in its view.
abbrev copied : Store
copied =
    store (store blank 0x0200_0000 (0 ∷ 0 ∷ [])) 4096
      (lock_bytes 0x0200_0000 2 1 (lockview_encode 0 1))

acquire-release_example :
    (surface_acquire_lock flat opened blank handle 4096 false
      ≡ (true, (taken opened 1 two_pixels false, copied)))
    × (load copied 0x0200_0000 2 ≡ 0 ∷ 0 ∷ [])
    × ((reg' : Registry) × (t : Slot) × (surface_release_lock flat
            (taken opened 1 two_pixels false)
            (store copied 0x0200_0000 (7 ∷ 8 ∷ []))
            (lockview_encode 0 1)
          ≡ (some view, reg'))
        × (get_elem? reg'.slots 1 ≡ some t)
        × (t.buffer ≡ pixels (7 ∷ 8 ∷ []))
        × (t.locked ≡ false)
        × (resolve_lockview reg' (lockview_encode 0 1) ≡ none)
        × ((m' : Store) (next place : ℕ) (clear_only : Bool)
            → resolve_lockview
                (surface_acquire_lock flat reg' m' next place clear_only).1.0
                (lockview_encode 0 1)
              ≡ none)
        × (reg'.lock_bump ≡ 0))
unfolding registry_init
acquire-release_example =
    acquire-release flat flat_read_back flat_read_apart opened blank handle 1 4096 two_pixels
      (0 ∷ 0 ∷ []) opened_resolves refl refl (omega arith) refl refl (omega arith)
      (inl (omega arith)) (7 ∷ 8 ∷ []) refl
