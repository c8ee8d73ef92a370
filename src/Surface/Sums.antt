-- ===== src/Surface/Sums.antt =====
-- Sums over the slots of the surface registry of runtime/host/src/libblyt/cart_run.c.
use blyt.Prelude.{ℕ, zero, suc, ◌+◌, ◌≤◌, ◌≡◌, refl, List, [], ◌∷◌, some, arith, get_elem?, set}
use blyt.Surface.Registry.{Slot}

abbrev pub total : (Slot → ℕ) → List Slot → ℕ
total f [] = 0
total f (s ∷ ss) = f s + total f ss

pub total-set :
    (f : Slot → ℕ) (ss : List Slot) (i : ℕ) (s t : Slot)
    → get_elem? ss i ≡ some s
    → total f (set ss i t) + f s ≡ total f ss + f t
total-set f [] i s t e = absurd (ground arith)
total-set f (x ∷ ss) zero s t e = ground (arith, e)
total-set f (x ∷ ss) (suc i) s t e = omega (arith, total-set f ss i s t e)

pub member_le_total :
    (f : Slot → ℕ) (ss : List Slot) (i : ℕ) (s : Slot) → get_elem? ss i ≡ some s → f s ≤ total f ss
member_le_total f [] i s e = absurd (ground arith)
member_le_total f (x ∷ ss) zero s e = ground (arith, e)
member_le_total f (x ∷ ss) (suc i) s e = omega (arith, member_le_total f ss i s e)

pub total_zero :
    (f : Slot → ℕ) (ss : List Slot)
    → ((i : ℕ) (s : Slot) → get_elem? ss i ≡ some s → f s ≡ 0)
    → total f ss ≡ 0
total_zero f [] h = refl
total_zero f (x ∷ xs) h = omega (arith, h 0 x refl, total_zero f xs (λ i s e. h (suc i) s e))
