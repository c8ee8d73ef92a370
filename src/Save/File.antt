-- ===== src/Save/File.antt =====
-- The file adapters of runtime/host/src/libblyt/save.c: `fwrite` appends, as far as there is room,
-- and `fread` takes bytes from the front.
use blyt.Prelude.{
  ℕ, zero, suc, ◌+◌, ◌-◌, ◌≤◌, ◌≡◌, refl, ◌∙◌, sym, ap, true, false, Option, none, some, List, [],
  ◌∷◌, ◌++◌, arith, leb, ◌==◌, if◌then◌else◌, length, take, drop, length-append, length-drop,
  take-append-drop, min,
}
use mathlib.Core.List.{append_assoc}
use blyt.Save.{ReadResult, got, eof, fail, source_exact, skip_loop, skip_bytes}

-- `room` is the most bytes that the file can hold.
unfoldable pub file_sink : ℕ → List ℕ → List ℕ → Option (List ℕ)
file_sink room f bytes = if leb (length f + length bytes) room then some (f ++ bytes) else none

-- The state is what is left to read.
unfoldable pub file_source : List ℕ → ℕ → ReadResult (List ℕ)
file_source left n =
    if leb n (length left)
    then got (take n left) (drop n left)
    else if length left == 0
    then eof
    else fail

pub sink-append :
    (room : ℕ) (f bytes : List ℕ) {f' : List ℕ} → file_sink room f bytes ≡ some f' → f' ≡ f ++ bytes
unfolding file_sink
sink-append room f bytes h = ground (arith, h)

pub take-append : (xs rest : List ℕ) → take (length xs) (xs ++ rest) ≡ xs
take-append [] rest = refl
take-append (x ∷ xs) rest = ap (λ t. x ∷ t) (take-append xs rest)

pub drop-append : (xs rest : List ℕ) → drop (length xs) (xs ++ rest) ≡ rest
drop-append [] rest = refl
drop-append (x ∷ xs) rest = drop-append xs rest

-- Reading what stands in front.
pub source-append :
    (xs rest : List ℕ) (n : ℕ) → n ≡ length xs → file_source (xs ++ rest) n ≡ got xs rest
unfolding file_source
source-append xs rest n e =
    let fits : leb (length xs) (length (xs ++ rest)) ≡ true =
      ground (arith, length-append xs rest) in
    rw (e, fits, take-append, drop-append)

pub source_exact-append :
    (xs rest : List ℕ) (n : ℕ)
    → n ≡ length xs
    → source_exact file_source (xs ++ rest) n ≡ some (xs, rest)
unfolding source_exact
source_exact-append xs rest n e = rw (source-append xs rest n e, source_exact)

split_front : (n : ℕ) (xs : List ℕ) → n ≤ length xs → length (take n xs) ≡ n
split_front zero xs h = refl
split_front (suc n) [] h = absurd (omega arith)
split_front (suc n) (x ∷ xs) h = ap suc (split_front n xs (omega arith))

skip_loop-append :
    (fuel : ℕ) (xs rest : List ℕ) (n : ℕ)
    → n ≡ length xs
    → n ≤ fuel
    → skip_loop file_source fuel (xs ++ rest) n ≡ some rest
unfolding skip_loop
skip_loop-append zero [] rest n e h = ground (arith, e)
skip_loop-append zero (x ∷ xs) rest n e h = absurd (omega arith)
skip_loop-append (suc fuel) [] rest n e h = ground (arith, e)
skip_loop-append (suc fuel) (x ∷ xs) rest n e h =
    let k = min n 256 in
    let ys = x ∷ xs in
    let front = split_front k ys (omega arith) in
    let parts : ys ++ rest ≡ take k ys ++ (drop k ys ++ rest) =
      ap (λ t. t ++ rest) (sym (take-append-drop k ys))
      ∙ append_assoc (take k ys) (drop k ys) rest in
    let one : source_exact file_source (ys ++ rest) k ≡ some (take k ys, drop k ys ++ rest) =
      ap (λ t. source_exact file_source t k) parts
      ∙ source_exact-append (take k ys) (drop k ys ++ rest) k (sym front) in
    let some_left : (n == 0) ≡ false = ground (arith, e) in
    rw (some_left, one)
      (skip_loop-append fuel (drop k ys) rest (n - k) (omega (arith, length-drop k ys, e))
        (omega arith))

pub skip_bytes-append :
    (xs rest : List ℕ) (n : ℕ) → n ≡ length xs → skip_bytes file_source (xs ++ rest) n ≡ some rest
unfolding skip_bytes
skip_bytes-append xs rest n e = skip_loop-append n xs rest n e (omega arith)
