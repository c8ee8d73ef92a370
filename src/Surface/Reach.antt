-- ===== src/Surface/Reach.antt =====
-- Sequences of surface operations of runtime/host/src/libblyt/cart_run.c.
use blyt.Prelude.{
  ℕ, zero, suc, ◌+◌, ◌-◌, ◌^◌, ◌<◌, ◌≡◌, inl, inr, refl, sym, ◌∙◌, Bool, false, Option, none, some,
  List, arith, get_elem?, lt_of_get_elem?, replicate, All-replicate, All-get_elem?,
}
use blyt.Shared.MemBudget.{mem_budget_bytes}
use blyt.Resource.{table_footprint}
use blyt.Raster.{Buffer}
use blyt.Surface.Registry.{
  Guest, Slot, Registry, RunCtx, put_slot, has_buffer, resolve_surface, surface_free_slot,
  surface_create_slot, registry_init, zero_slot, surface_max, mem_acct_guest_heap_used,
}
use blyt.Surface.Locks.{
  flush_found, free_found, flush_from, free_from, surface_acquire_lock, surface_release_lock,
  surface_reap_all,
}
use blyt.Surface.Sums.{total, total_zero}
use blyt.Surface.Handles.{resolved}
use blyt.Surface.Lifetime.{publish-surfaces}
use blyt.Surface.Invariant.{
  slot_charge, held, IsAccounted, put-IsAccounted, free_slot-IsAccounted, flush_lock-IsAccounted,
  acquire-IsAccounted, release-IsAccounted, create-IsAccounted,
}
use blyt.Surface.Reap.{reaped, reaped-slot}

module _ {Mem : Type 0} (guest : Guest Mem) where
  flush_found-IsAccounted :
      (reg : Registry) (mem : Mem) (i : ℕ) (o : Option Slot)
      → get_elem? reg.slots i ≡ o
      → IsAccounted reg
      → IsAccounted (flush_found guest reg mem i o)
  flush_found-IsAccounted reg mem i none e v = v
  flush_found-IsAccounted reg mem i (some s) e v = flush_lock-IsAccounted guest reg i s mem v e

  flush_from-IsAccounted :
      (n : ℕ) (reg : Registry) (mem : Mem) (i : ℕ)
      → IsAccounted reg
      → IsAccounted (flush_from guest reg mem i n)
  unfolding flush_from
  flush_from-IsAccounted zero reg mem i v = v
  flush_from-IsAccounted (suc n) reg mem i v =
      flush_from-IsAccounted n _ mem (i + 1) (flush_found-IsAccounted reg mem i _ refl v)

free_found-IsAccounted :
    (reg : Registry) (i : ℕ) (o : Option Slot)
    → get_elem? reg.slots i ≡ o
    → IsAccounted reg
    → IsAccounted (free_found reg i o)
free_found-IsAccounted reg i none e v = v
free_found-IsAccounted reg i (some s) e v = free_slot-IsAccounted reg i s v e

free_from-IsAccounted :
    (n : ℕ) (reg : Registry) (i : ℕ) → IsAccounted reg → IsAccounted (free_from reg i n)
unfolding free_from
free_from-IsAccounted zero reg i v = v
free_from-IsAccounted (suc n) reg i v =
    free_from-IsAccounted n _ (i + 1) (free_found-IsAccounted reg i _ refl v)

module _ {Mem : Type 0} (guest : Guest Mem) (ctx : RunCtx) (mem : Mem) where
  reaped-IsAccounted : IsAccounted ctx.surfaces → IsAccounted (reaped guest ctx mem)
  unfolding reaped
  reaped-IsAccounted v =
      free_from-IsAccounted (surface_max - 1) _ 1
        (flush_from-IsAccounted guest surface_max ctx.surfaces mem 0 v)

  abbrev reset : Registry
  reset = record (reaped guest ctx mem) { lock_bump = 0; active_locks = 0 }

  nothing_left :
      IsAccounted ctx.surfaces
      → (total slot_charge (reaped guest ctx mem).slots ≡ 0)
        × (total held (reaped guest ctx mem).slots ≡ 0)
  nothing_left v =
      let v' = reaped-IsAccounted v in
      let low : (i : ℕ) (s : Slot)
          → get_elem? (reaped guest ctx mem).slots i ≡ some s
          → i < surface_max =
        λ i s e. omega (arith, lt_of_get_elem? (reaped guest ctx mem).slots i e, v'.size) in
      (
        total_zero slot_charge (reaped guest ctx mem).slots (λ i s e.
            let (place, free) = reaped-slot guest ctx mem i s (low i s e) e in
            let owner = v'.owners i s e in
            elim place [
              | inl z ↦ ground (arith, owner.1 z)
              | inr (inl unused) ↦ ground (arith, owner.0 unused)
              | inr (inr sc) ↦ ground (arith, owner.2 sc)
            ]),
        total_zero held (reaped guest ctx mem).slots
            (λ i s e. ground (arith, (reaped-slot guest ctx mem i s (low i s e) e).1)),
      )

  reap_all-surfaces : (surface_reap_all guest ctx mem).0.surfaces ≡ reset
  unfolding surface_reap_all reaped
  reap_all-surfaces = publish-surfaces guest (record ctx { surfaces = reset }) mem

  -- The end of a frame keeps the accounts, and leaves no byte charged and no lock: the counters that
  -- it resets are the sums over the slots, and the bytes have come down to 0 by themselves.
  pub reap_all-empty :
      IsAccounted ctx.surfaces
      → IsAccounted (surface_reap_all guest ctx mem).0.surfaces
        × ((surface_reap_all guest ctx mem).0.surfaces.surface_bytes ≡ 0)
        × ((surface_reap_all guest ctx mem).0.surfaces.active_locks ≡ 0)
  reap_all-empty v =
      let v' = reaped-IsAccounted v in
      let nothing = nothing_left v in
      rw reap_all-surfaces (
        record {
          size = v'.size;
          bytes = v'.bytes;
          bounded = v'.bounded;
          locks = sym nothing.1;
          arena = λ e. refl;
          owners = v'.owners;
        },
        v'.bytes ∙ nothing.0,
        refl,
      )

-- One operation on the surfaces of a cart, with or without the gates of its call; a creation stands
-- where the other footprint is not near the end of a 32-bit word.
pub data Step {Mem : Type 0} (guest : Guest Mem) : Registry → Registry → Type 0 where
  create :
      (ctx : RunCtx) (mem : Mem) (w h : ℕ) (calloc_ok : Bool)
      → table_footprint ctx.resources + ctx.peer_heap + mem_budget_bytes < 2 ^ 32
      → mem_acct_guest_heap_used guest ctx mem < 2 ^ 32
      → Step guest ctx.surfaces (surface_create_slot guest calloc_ok ctx mem w h).1.0.surfaces
  destroy :
      (reg : Registry) (handle i : ℕ) (s : Slot)
      → resolve_surface reg handle ≡ some (i, s)
      → Step guest reg (surface_free_slot reg i s)
  paint :
      (reg : Registry) (handle i : ℕ) (s : Slot) (b : Buffer)
      → resolve_surface reg handle ≡ some (i, s)
      → has_buffer b ≡ has_buffer s.buffer
      → Step guest reg (put_slot reg i (record s { buffer = b }))
  acquire :
      (reg : Registry) (mem : Mem) (handle out_vaddr : ℕ) (clear_only : Bool)
      → Step guest reg (surface_acquire_lock guest reg mem handle out_vaddr clear_only).1.0
  release :
      (reg : Registry) (mem : Mem) (token : ℕ)
      → Step guest reg (surface_release_lock guest reg mem token).1
  end_frame :
      (ctx : RunCtx) (mem : Mem)
      → Step guest ctx.surfaces (surface_reap_all guest ctx mem).0.surfaces

pub data Reaches {Mem : Type 0} (guest : Guest Mem) : Registry → Registry → Type 0 where
  here : (reg : Registry) → Reaches guest reg reg
  there : (a b c : Registry) → Reaches guest a b → Step guest b c → Reaches guest a c

module _ {Mem : Type 0} (guest : Guest Mem) where
  Step-IsAccounted : (a b : Registry) → Step guest a b → IsAccounted a → IsAccounted b
  Step-IsAccounted a b (create ctx mem w h calloc_ok ample word) v =
      create-IsAccounted guest ctx mem w h calloc_ok ample word v
  Step-IsAccounted a b (destroy reg handle i s found) v =
      free_slot-IsAccounted reg i s v (resolved reg handle i s found).0
  Step-IsAccounted a b (paint reg handle i s buffer found same) v =
      let at = (resolved reg handle i s found).0 in
      put-IsAccounted reg i s (record s { buffer = buffer }) reg.surface_bytes reg.lock_bump
        reg.active_locks v at (v.owners i s at) (ground (arith, same)) v.bounded refl v.arena
  Step-IsAccounted a b (acquire reg mem handle out_vaddr clear_only) v =
      acquire-IsAccounted guest reg mem handle out_vaddr clear_only v
  Step-IsAccounted a b (release reg mem token) v = release-IsAccounted guest reg mem token v
  Step-IsAccounted a b (end_frame ctx mem) v = (reap_all-empty guest ctx mem v).0

  Reaches-IsAccounted-IsAccounted :
      (a b : Registry) → Reaches guest a b → IsAccounted a → IsAccounted b
  Reaches-IsAccounted-IsAccounted a b (here reg) v = v
  Reaches-IsAccounted-IsAccounted a b (there x y z r s) v =
      Step-IsAccounted y z s (Reaches-IsAccounted-IsAccounted x y r v)

-- The slots of a new session.
pub init-slot :
    (frame : List ℕ) (i : ℕ) (s : Slot)
    → get_elem? (registry_init frame).slots i ≡ some s
    → (s.owned ≡ false) × (s.gen ≡ 0)
unfolding registry_init
init-slot frame zero s e = (ground (arith, e), ground (arith, e))
init-slot frame (suc i) s e =
    All-get_elem? (λ t. (t.owned ≡ false) × (t.gen ≡ 0)) (replicate 63 zero_slot) i
      (All-replicate (λ t. (t.owned ≡ false) × (t.gen ≡ 0)) 63 zero_slot (refl, refl)) e

pub init-IsAccounted : (frame : List ℕ) → IsAccounted (registry_init frame)
unfolding registry_init
init-IsAccounted frame = record {
  size = refl;
  bytes = refl;
  bounded = omega arith;
  locks = refl;
  arena = λ e. refl;
  owners = λ i s e. let plain = (init-slot frame i s e).0 in (λ k. plain, λ k. plain, λ k. plain);
}

module _ {Mem : Type 0} (guest : Guest Mem) where
  -- Whatever surfaces a cart creates, draws on, locks, releases and destroys from the start of the
  -- session on, over any number of frames, the registry stays accounted for: its bytes are the sum
  -- over the owned buffers, never more than the budget, its live locks are counted, and the arena is
  -- empty when there are none.
  pub Reaches-IsAccounted :
      (frame : List ℕ) (reg : Registry) → Reaches guest (registry_init frame) reg → IsAccounted reg
  Reaches-IsAccounted frame reg r =
      Reaches-IsAccounted-IsAccounted guest (registry_init frame) reg r (init-IsAccounted frame)
