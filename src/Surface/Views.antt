-- ===== src/Surface/Views.antt =====
-- Lock views of surfaces in runtime/host/src/libblyt/cart_run.c: exclusion, and what they copy.
use blyt.Prelude.{
  ℕ, ◌≡◌, ◌⊎◌, inl, inr, refl, ap, Bool, true, false, none, some, arith, replicate, Bool-cases,
}
use blyt.Surface.Registry.{Guest, Slot, Registry, RunCtx, resolve_surface}
use blyt.Surface.Locks.{surface_acquire_lock, acquire_found}
use blyt.Surface.Calls.{
  acquired, Outcome, returns, traps, fault, Paint, Gate, go, drop, trap, gated, surface_phase_gate,
  surface_lock_gate, surface_draw, ecall_surface_blit, ecall_surface_destroy, ecall_surface_acquire,
}

pub Gate-cases : (g : Gate) → (g ≡ go) ⊎ ((g ≡ drop) ⊎ (g ≡ trap))
Gate-cases go = inl refl
Gate-cases drop = inr (inl refl)
Gate-cases trap = inr (inr refl)

abbrev no_lock : {Mem : Type 0} → Registry → Mem → Bool × (Registry × Mem)
no_lock reg mem = (false, (reg, mem))

module _ {Mem : Type 0} (guest : Guest Mem) (ctx : RunCtx) (mem : Mem) where
  -- The call has had no effect, but that a debug cart has a fault.
  abbrev pub Rejected : Outcome Mem → Type 0
  Rejected out = (out ≡ traps (fault ctx) mem) ⊎ (out ≡ returns none ctx mem)

  shut : (g : Gate) (rest : Outcome Mem) → Rejected rest → Rejected (gated g ctx mem rest)
  shut go rest r = r
  shut drop rest r = inr refl
  shut trap rest r = inl refl

  locked_gate :
      (i : ℕ) (s : Slot) (rest : Outcome Mem)
      → s.locked ≡ true
      → Rejected (gated (surface_lock_gate ctx (some (i, s))) ctx mem rest)
  unfolding surface_lock_gate
  locked_gate i s rest l = elim (Bool-cases ctx.cart_is_debug) [
    | inl d ↦ inl (rw (l, d))
    | inr d ↦ inr (rw (l, d))
  ]

  acquire-locked :
      (handle i : ℕ) (s : Slot) (out_vaddr : ℕ) (clear_only : Bool)
      → resolve_surface ctx.surfaces handle ≡ some (i, s)
      → s.locked ≡ true
      → surface_acquire_lock guest ctx.surfaces mem handle out_vaddr clear_only
        ≡ no_lock ctx.surfaces (guest.memory_write mem out_vaddr (replicate 20 0))
  unfolding surface_acquire_lock acquire_found
  acquire-locked handle i s out_vaddr clear_only e l = ground (arith, e, l)

  -- While a surface is locked its handle is of no use: drawing on it, copying onto it or from it and
  -- destroying it are rejected without effect, and locking it again fails, in or out of the drawing
  -- phase; it clears the caller's lock record, or traps in a debug cart out of phase.
  pub locked-Rejected :
      (handle i : ℕ) (s : Slot)
      → resolve_surface ctx.surfaces handle ≡ some (i, s)
      → s.locked ≡ true
      → ((paint : Slot → Paint) → Rejected (surface_draw guest ctx mem handle paint))
        × ((src x y : ℕ) → Rejected (ecall_surface_blit guest ctx mem handle src x y))
        × ((dst x y : ℕ) → Rejected (ecall_surface_blit guest ctx mem dst handle x y))
        × Rejected (ecall_surface_destroy guest ctx mem handle)
        × ((out_vaddr : ℕ)
            → (ecall_surface_acquire guest ctx mem handle out_vaddr ≡ traps (fault ctx) mem)
              ⊎ (ecall_surface_acquire guest ctx mem handle out_vaddr
                  ≡ returns (some 0) ctx (guest.memory_write mem out_vaddr (replicate 20 0))))
  unfolding surface_draw ecall_surface_blit ecall_surface_destroy ecall_surface_acquire
  locked-Rejected handle i s e l = (
    λ paint. shut (surface_phase_gate ctx) _ (rw e (locked_gate i s _ l)),
    λ src x y. shut (surface_phase_gate ctx) _ (rw e (locked_gate i s _ l)),
    λ dst x y. shut (surface_phase_gate ctx) _ (
        shut (surface_lock_gate ctx (resolve_surface ctx.surfaces dst)) _
          (rw e (locked_gate i s _ l))),
    rw e (locked_gate i s _ l),
    λ out_vaddr. elim (Gate-cases (surface_phase_gate ctx)) [
      | inl p ↦ inr (
          rw (ecall_surface_acquire, p)
            (ap (acquired ctx) (acquire-locked handle i s out_vaddr false e l)))
      | inr (inl p) ↦ inr (
          rw (ecall_surface_acquire, p)
            (ap (acquired ctx) (acquire-locked handle i s out_vaddr true e l)))
      | inr (inr p) ↦ inl (rw (ecall_surface_acquire, p))
    ],
  )
