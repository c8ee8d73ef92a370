-- ===== src/State/Session.antt =====
-- A session as the sequence of operations on its state context.
use blyt.Prelude.{ℕ, ◌≡◌, refl, subst, Bool, Option, none, some, List, [], ◌∷◌}
use blyt.State.{
  StateCtx, AllocResult, no_buffer, no_slot, allocated, state_set, state_set64, state_alloc_slot,
  state_free_slot,
}
use blyt.State.Valid.{IsValid}
use blyt.State.Access.{set-IsValid, set64-IsValid}
use blyt.State.Slots.{AllocSpec, alloc_slot_lem, free_slot-Frees}
use blyt.State.Snapshot.{
  Snapshot, state_ctx_snapshot, state_ctx_restore_snapshot, state_ctx_zero_data,
}
use blyt.State.Zero.{zero_data-IsValid}
use blyt.State.Layout.{
  SameLayout, SameLayout-refl, SameLayout-trans, set-SameLayout, set64-SameLayout,
  alloc_slot-SameLayout, free_slot-SameLayout, zero_data-SameLayout,
}
use blyt.State.Restore.{restore-snapshot}

-- One call of the guest, or the zeroing of a reset.
pub data Op : Type 0 where
  set32 : (id slot field value type_tag : ℕ) → Op
  set64 : (id slot field value : ℕ) → Op
  alloc : (id : ℕ) → Op
  free : (id slot : ℕ) → Op
  zero : Op

-- A call that fails changes nothing.
abbrev or_same : StateCtx → Option StateCtx → StateCtx
or_same ctx none = ctx
or_same ctx (some ctx') = ctx'

abbrev alloc_or_same : StateCtx → AllocResult → StateCtx
alloc_or_same ctx no_buffer = ctx
alloc_or_same ctx no_slot = ctx
alloc_or_same ctx (allocated s ctx') = ctx'

pub step : StateCtx → Op → StateCtx
step ctx (set32 id slot field value type_tag) =
    or_same ctx (state_set ctx id slot field value type_tag)
step ctx (set64 id slot field value) = or_same ctx (state_set64 ctx id slot field value)
step ctx (alloc id) = alloc_or_same ctx (state_alloc_slot ctx id)
step ctx (free id slot) = or_same ctx (state_free_slot ctx id slot)
step ctx zero = state_ctx_zero_data ctx

pub run : List Op → StateCtx → StateCtx
run [] ctx = ctx
run (op ∷ ops) ctx = run ops (step ctx op)

-- What both the invariant and the layout say of a later context.
record Follows (ctx ctx' : StateCtx) : Type 0 where
  valid : IsValid ctx'
  layout : SameLayout ctx' ctx

or_same-Follows :
    (ctx : StateCtx) (r : Option StateCtx)
    → IsValid ctx
    → ((ctx' : StateCtx) → r ≡ some ctx' → Follows ctx ctx')
    → Follows ctx (or_same ctx r)
or_same-Follows ctx none v h = record { valid = v; layout = SameLayout-refl ctx }
or_same-Follows ctx (some ctx') v h = h ctx' refl

alloc-Follows :
    (ctx : StateCtx) (id : ℕ) (r : AllocResult)
    → IsValid ctx
    → state_alloc_slot ctx id ≡ r
    → Follows ctx (alloc_or_same ctx r)
alloc-Follows ctx id no_buffer v e = record { valid = v; layout = SameLayout-refl ctx }
alloc-Follows ctx id no_slot v e = record { valid = v; layout = SameLayout-refl ctx }
alloc-Follows ctx id (allocated s ctx') v e =
    let (bc, bc', al) = subst (AllocSpec ctx id) e (alloc_slot_lem ctx id v) in
    record { valid = al.valid; layout = alloc_slot-SameLayout ctx id s e }

step-Follows : (ctx : StateCtx) (op : Op) → IsValid ctx → Follows ctx (step ctx op)
unfolding step
step-Follows ctx (set32 id slot field value tag) v = or_same-Follows ctx _ v λ ctx' e. record {
  valid = set-IsValid ctx id slot field value tag v e;
  layout = set-SameLayout ctx id slot field value tag e;
}
step-Follows ctx (set64 id slot field value) v = or_same-Follows ctx _ v λ ctx' e. record {
  valid = set64-IsValid ctx id slot field value v e;
  layout = set64-SameLayout ctx id slot field value e;
}
step-Follows ctx (alloc id) v = alloc-Follows ctx id _ v refl
step-Follows ctx (free id slot) v = or_same-Follows ctx _ v λ ctx' e.
    let (bc, bc', fr) = free_slot-Frees ctx id slot v e in
    record { valid = fr.valid; layout = free_slot-SameLayout ctx id slot e }
step-Follows ctx zero v = record {
  valid = zero_data-IsValid ctx v;
  layout = zero_data-SameLayout ctx v;
}

run-Follows : (ops : List Op) (ctx : StateCtx) → IsValid ctx → Follows ctx (run ops ctx)
unfolding run
run-Follows [] ctx v = record { valid = v; layout = SameLayout-refl ctx }
run-Follows (op ∷ ops) ctx v =
    let one = step-Follows ctx op v in
    let rest = run-Follows ops (step ctx op) one.valid in
    record { valid = rest.valid; layout = SameLayout-trans rest.layout one.layout }

-- Every sequence of writes, allocations, frees and resets, failing ones included, leaves a valid
-- context valid.
pub run-IsValid : (ops : List Op) (ctx : StateCtx) → IsValid ctx → IsValid (run ops ctx)
run-IsValid ops ctx v = (run-Follows ops ctx v).valid

-- Whatever a session does after a snapshot was taken, restoring the snapshot gives the context back
-- as it was: slots, generations and data of every buffer.
pub restore-run :
    (calloc_ok : Bool) (malloc_ok : ℕ → ℕ → Bool) (ops : List Op) (ctx : StateCtx) {snap : Snapshot}
    → IsValid ctx
    → state_ctx_snapshot calloc_ok malloc_ok ctx ≡ some snap
    → state_ctx_restore_snapshot (run ops ctx) (some snap) ≡ ctx
restore-run calloc_ok malloc_ok ops ctx v h =
    restore-snapshot calloc_ok malloc_ok ctx (run ops ctx) v (run-Follows ops ctx v).layout h
