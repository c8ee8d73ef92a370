-- ===== src/Shared/ResourceCodec.antt =====
-- runtime/shared/blyt_resource_codec.c: the 8-byte header of a packed resource, and its decoding.
-- The zstd library is a parameter: what a decompression of a body into `out_len` bytes writes, or
-- none where the library reports an error or has no memory for its context.
use blyt.Prelude.{
  ℕ, ◌≡◌, not, ◌&&◌, Option, none, some, List, length, get_or, drop, ltb, ◌==◌, if◌then◌else◌,
  ◌>>=◌, ◌>>◌, guard, arith,
}
use blyt.Prelude.Bytes.{le_value, read_at}

abbrev pub res_header_len : ℕ
res_header_len = 8

abbrev pub algo_none : ℕ
algo_none = 0

abbrev pub algo_zstd : ℕ
algo_zstd = 1

pub record ResHeader : Type 0 where
  pub algo : ℕ
  pub dsize : ℕ
  pub body : List ℕ

unfoldable pub res_header_parse : List ℕ → Option ResHeader
res_header_parse section =
    if ltb (length section) res_header_len
    then none
    else let a = get_or section 0 0 in
      if not (a == algo_none) && not (a == algo_zstd)
      then none
      else some (record {
        algo = a;
        dsize = le_value (read_at section 4 4);
        body = drop res_header_len section;
      })

abbrev pub Zstd : Type 0
Zstd = List ℕ → ℕ → Option (List ℕ)

-- `none` is the result -1; else the bytes written to `out`.
unfoldable pub res_decode : Zstd → ℕ → List ℕ → ℕ → Option (List ℕ)
res_decode zstd algo body out_len =
    if algo == algo_none
    then (if length body == out_len then some body else none)
    else if algo == algo_zstd
    then (do out ← zstd body out_len; guard (length out == out_len); some out)
    else none

-- What is decoded has the length that was asked for, by either algorithm.
pub length-res_decode :
    (zstd : Zstd) (algo : ℕ) (body : List ℕ) (out_len : ℕ) {out : List ℕ}
    → res_decode zstd algo body out_len ≡ some out
    → length out ≡ out_len
unfolding res_decode
length-res_decode zstd algo body out_len e = ground arith
