-- ===== src/State/Tests.antt =====
-- Runs of the theorems on a context of one buffer with four slots, slot 0 taken, and two fields.
use blyt.Prelude.{
  ℕ, zero, ◌-◌, ◌%◌, ◌^◌, ◌≡◌, ◌≢◌, refl, subst, ◌↔◌, true, false, ◌&&◌, Option, none, some, List,
  [], ◌∷◌, arith, ◌==◌, if◌then◌else◌, replicate, All-replicate, get_elem?,
}
use blyt.Prelude.Bytes.{IsByte}
use blyt.Prelude.Bits.{test_bit, clear_bit}
use blyt.Shared.FpCanon.{canon_f64}
use blyt.Shared.Gen.{IsGen}
use blyt.State.{
  Field, BufferCtx, StateCtx, AllocResult, no_buffer, no_slot, allocated, find_buffer, put_buffer,
  field_sizeof, locate, locate_in, slot_is_allocated, slot_in_range, slot_bit, canonical, state_get,
  state_get64, state_set, state_set64, state_alloc_slot, state_free_slot, state_ref,
  state_ref_valid, unmark_slot, clear_slot_data, bump_gen, first_free,
}
use blyt.State.Valid.{IsValidBuffer, IsValid, find_buffer-range}
use blyt.State.Access.{get-set, get64-set64}
use blyt.State.Slots.{AllocSpec, alloc_slot_lem, Frees, free_slot-Frees}
use blyt.State.Refs.{ref_valid-iff-state_ref, ref-free_slot, ref-free_slot-alloc_slot}
use blyt.State.Snapshot.{
  Snapshot, state_ctx_snapshot, snapshot_buffers, snapshot_fields, snapshot_field,
  state_ctx_restore_snapshot,
}
use blyt.State.Session.{Op, set32, alloc, free, zero, run, run-IsValid, restore-run}
use blyt.State.Init.{
  CartLayouts, init_ok, state_ctx_init, init_buffers, init_buffer, init_fields, find_record,
  same_name,
}
use blyt.State.Init.Establishes.{init-IsValid}

abbrev position : Field
position = record { type_tag = 4; field_name = b'x' ∷ []; field_data = replicate 16 0 }

abbrev speed : Field
speed = record { type_tag = 8; field_name = b'v' ∷ []; field_data = replicate 32 0 }

abbrev enemies : BufferCtx
enemies = record {
  buf_id = 1;
  count = 4;
  fields = position ∷ speed ∷ [];
  slot_bitset = 1 ∷ replicate 15 0;
  slot_gens = replicate 128 1;
  schema_hash = 7;
  name = some (b'e' ∷ []);
}

abbrev game : StateCtx
game = record { n_buffers = 1; buffers = enemies ∷ [] }

enemies-IsValid : IsValidBuffer enemies
unfolding field_sizeof
enemies-IsValid = record {
  bitset_size = refl;
  bitset_bytes = (omega arith, All-replicate IsByte 15 0 (omega arith));
  gens_size = refl;
  gens = All-replicate IsGen 128 1 (ground arith);
  fields_fit = (
    (refl, All-replicate IsByte 16 0 (omega arith)),
    ((refl, All-replicate IsByte 32 0 (omega arith)), tt),
  );
}

game-IsValid : IsValid game
game-IsValid = record {
  valid = λ id {bc} found.
      let (lo, hi, at) = find_buffer-range game id found in
      let first : id - 1 ≡ 0 = omega (arith, lo, hi) in
      let here : get_elem? (enemies ∷ []) 0 ≡ some bc =
        subst (λ k. get_elem? (enemies ∷ []) k ≡ some bc) first at in
      subst IsValidBuffer (ground (arith, here)) enemies-IsValid;
}

abbrev or_game : Option StateCtx → StateCtx
or_game none = game
or_game (some ctx) = ctx

abbrev moves : List Op
moves = alloc 1 ∷ set32 1 0 1 77 4 ∷ free 1 0 ∷ zero ∷ []

run-IsValid_example : IsValid (run moves game)
run-IsValid_example = run-IsValid moves game game-IsValid

game-position : locate game 1 0 1 ≡ some (enemies, position)
unfolding locate locate_in find_buffer slot_is_allocated slot_in_range slot_bit test_bit
game-position = refl

game-speed : locate game 1 0 2 ≡ some (enemies, speed)
unfolding locate locate_in find_buffer slot_is_allocated slot_in_range slot_bit test_bit
game-speed = refl

get-set_example :
    (ctx' : StateCtx) × (state_set game 1 0 1 300 4 ≡ some ctx')
    × IsValid ctx'
    × (state_get ctx' 1 0 1 ≡ (
        if (1 == 1) && (0 == 0) && (1 == 1)
        then some (canonical 4 300 % 256 ^ field_sizeof 4)
        else state_get game 1 0 1))
get-set_example =
    get-set game 1 0 1 300 4 1 0 1 game-IsValid game-position (λ e. absurd (omega (arith, e)))

get64-set64_example :
    (ctx' : StateCtx) × (state_set64 game 1 0 2 9 ≡ some ctx')
    × IsValid ctx'
    × (state_get64 ctx' 1 0 2
        ≡ (if (1 == 1) && (0 == 0) && (2 == 2) then some (canon_f64 9) else state_get64 game 1 0 2))
get64-set64_example = get64-set64 game 1 0 2 9 1 0 2 game-IsValid (omega arith) game-speed refl

-- What is left after slot 0 was freed, and after a slot was then allocated again.
abbrev freed_game : StateCtx
freed_game = or_game (state_free_slot game 1 0)

abbrev or_freed : AllocResult → StateCtx
or_freed no_buffer = game
or_freed no_slot = game
or_freed (allocated s ctx) = ctx

game-freed : state_free_slot game 1 0 ≡ some freed_game
unfolding state_free_slot find_buffer slot_is_allocated slot_in_range slot_bit test_bit
game-freed = refl

game-allocated :
    state_alloc_slot freed_game 1 ≡ allocated 0 (or_freed (state_alloc_slot freed_game 1))
unfolding state_free_slot find_buffer slot_is_allocated slot_in_range slot_bit test_bit
    state_alloc_slot unmark_slot clear_slot_data bump_gen first_free clear_bit put_buffer
game-allocated = refl

-- The reference to slot 0 at generation 1.
abbrev first_ref : ℕ
first_ref = 0x10000

ref_valid-iff-state_ref_example :
    (state_ref_valid game 1 first_ref ≡ true)
    ↔ (first_ref ≢ 0) × (state_ref game 1 (first_ref % 2 ^ 16) ≡ first_ref)
ref_valid-iff-state_ref_example =
    ref_valid-iff-state_ref game 1 first_ref game-IsValid (omega arith)

ref-free_slot_example :
    (state_ref_valid game 1 (state_ref game 1 0) ≡ true)
    × (state_ref_valid freed_game 1 (state_ref game 1 0) ≡ false)
    × (state_ref freed_game 1 0 ≡ (if (1 == 1) && (0 == 0) then 0 else state_ref game 1 0))
ref-free_slot_example = ref-free_slot game 1 0 1 0 game-IsValid game-freed

ref-free_slot-alloc_slot_example :
    state_ref_valid (or_freed (state_alloc_slot freed_game 1)) 1 (state_ref game 1 0) ≡ false
ref-free_slot-alloc_slot_example =
    ref-free_slot-alloc_slot game 1 0 0 game-IsValid game-freed game-allocated

alloc_slot_lem_example : AllocSpec game 1 (state_alloc_slot game 1)
alloc_slot_lem_example = alloc_slot_lem game 1 game-IsValid

free_slot-Frees_example : (bc : BufferCtx) × (bc' : BufferCtx) × Frees game 1 0 freed_game bc bc'
free_slot-Frees_example = free_slot-Frees game 1 0 game-IsValid game-freed

abbrev no_snapshot : Snapshot
no_snapshot = record { n_buffers = 0; buffers = [] }

abbrev or_none : Option Snapshot → Snapshot
or_none none = no_snapshot
or_none (some s) = s

abbrev snapshot : Snapshot
snapshot = or_none (state_ctx_snapshot true (λ i j. true) game)

game-snapshot : state_ctx_snapshot true (λ i j. true) game ≡ some snapshot
unfolding state_ctx_snapshot snapshot_buffers snapshot_fields snapshot_field
game-snapshot = refl

restore-run_example : state_ctx_restore_snapshot (run moves game) (some snapshot) ≡ game
restore-run_example = restore-run true (λ i j. true) moves game game-IsValid game-snapshot

abbrev layouts : CartLayouts
layouts = record {
  schema_hash = 7;
  buffers = some (record { name = some (b'e' ∷ []); count = 4; record_name = b'r' ∷ [] }) ∷ [];
  records =
      some (record {
        name = b'r' ∷ [];
        fields = some (record { type_tag = 4; field_name = b'x' ∷ [] }) ∷ [];
      })
      ∷ [];
}

init-ok : (state_ctx_init (λ n. true) (some (replicate 12 0)) (λ bytes. some layouts)).0 ≡ init_ok
unfolding state_ctx_init init_buffers init_buffer init_fields find_record same_name
init-ok = refl

init-IsValid_example :
    IsValid (state_ctx_init (λ n. true) (some (replicate 12 0)) (λ bytes. some layouts)).1
init-IsValid_example =
    init-IsValid (λ n. true) (replicate 12 0) (λ bytes. some layouts) layouts refl (refl, tt)
      init-ok
