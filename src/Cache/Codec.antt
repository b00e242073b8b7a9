-- ===== src/Cache/Codec.antt =====
-- The Go decoders of lance/cache.go against the Rust encoders of rust/src/cache.rs.
use lance_go.Base.{
  ℕ, ◌+◌, ◌%◌, ◌≤◌, ◌<◌, ◌≡◌, refl, sym, ap, subst, ◌∙◌, List, [], ◌++◌, arith, length, take, drop,
  length-append, length-take, take-append, drop-append, take-append-drop, drop-drop, All, All-drop,
}
use lance_go.Base.Bytes.{
  IsByte, le_put, le_u32, le_u64, word32, word64, length-le_put, le_get-le_put_4, le_get-le_put_8,
  le_put-le_get, le_get-lt_4,
}
use lance_go.Errors.{ok, passed, ok-injective}
use lance_go.Cache.{
  CacheKey, read_str, decode_cache_key, put_str, encode_cache_key, RangeKey, read_bounds,
  decode_range_key, encode_range_key, u64le,
}
use mathlib.Core.List.{append_assoc, append-nil}

length-put_str : (s : List ℕ) → length (put_str s) ≡ length s + 4
unfolding put_str
length-put_str s =
    omega
      (arith, length-append (le_put 4 (length s % word32)) s, length-le_put 4 (length s % word32))

read_str_of_parts :
    (rd s rest : List ℕ)
    → 4 ≤ length rd
    → le_u32 rd ≡ length s
    → drop 4 rd ≡ s ++ rest
    → length s + length rest < word32
    → read_str rd ≡ ok (s, rest)
unfolding read_str
read_str_of_parts rd s rest l n d b =
    rw (d, n, take-append (length s) s rest refl, drop-append (length s) s rest refl)
      (ground (arith, length-append s rest))

length-put_str-append : (s rest : List ℕ) → length (put_str s ++ rest) ≡ length s + length rest + 4
length-put_str-append s rest = omega (arith, length-append (put_str s) rest, length-put_str s)

-- The length field of a string that was written, and what stands behind it.
le_u32-put_str : (s rest : List ℕ) → length s < word32 → le_u32 (put_str s ++ rest) ≡ length s
unfolding put_str
le_u32-put_str s rest h =
    rw (append_assoc (le_put 4 (length s % word32)) s rest)
      (le_get-le_put_4 (length s % word32) (s ++ rest) (omega arith) ∙ omega arith)

drop-put_str : (s rest : List ℕ) → drop 4 (put_str s ++ rest) ≡ s ++ rest
unfolding put_str
drop-put_str s rest =
    rw (append_assoc (le_put 4 (length s % word32)) s rest)
      (drop-append 4 (le_put 4 (length s % word32)) (s ++ rest) (length-le_put 4 _))

-- A string that was written is read back, with what follows it.
read_str-put_str :
    (s rest : List ℕ)
    → length s + length rest + 4 < word32
    → read_str (put_str s ++ rest) ≡ ok (s, rest)
read_str-put_str s rest h =
    read_str_of_parts (put_str s ++ rest) s rest (omega (arith, length-put_str-append s rest))
      (le_u32-put_str s rest (omega arith)) (drop-put_str s rest) (omega arith)

read_str_parts :
    (rd s rest : List ℕ)
    → read_str rd ≡ ok (s, rest)
    → (4 ≤ length rd)
      × (le_u32 rd ≤ length (drop 4 rd))
      × (take (le_u32 rd) (drop 4 rd) ≡ s)
      × (drop (le_u32 rd) (drop 4 rd) ≡ rest)
unfolding read_str
read_str_parts rd s rest e = (ground arith, ground arith, ground arith, ground arith)

-- What is read was written so.
put_str-read_str :
    (rd s rest : List ℕ) → All IsByte rd → read_str rd ≡ ok (s, rest) → put_str s ++ rest ≡ rd
unfolding put_str
put_str-read_str rd s rest h e =
    let (four, room, front, back) = read_str_parts rd s rest e in
    let n : length s % word32 ≡ le_u32 rd =
      omega (arith, ap length front, length-take (le_u32 rd) (drop 4 rd), le_get-lt_4 rd h) in
    append_assoc (le_put 4 (length s % word32)) s rest
    ∙ rw (n, le_put-le_get 4 rd h four, ← front, ← back)
        (ap (λ t. take 4 rd ++ t) (take-append-drop (le_u32 rd) (drop 4 rd))
          ∙ take-append-drop 4 rd)

encode_cache_key-append :
    (k : CacheKey) (v : List ℕ)
    → encode_cache_key k ++ v ≡ put_str k.prefix ++ (put_str k.key ++ (put_str k.type_name ++ v))
unfolding encode_cache_key
encode_cache_key-append k v = simp append_assoc

length-encode_cache_key :
    (k : CacheKey) (v : List ℕ)
    → length (encode_cache_key k ++ v)
      ≡ length k.prefix + length k.key + length k.type_name + length v + 12
length-encode_cache_key k v = rw (encode_cache_key-append k v) (
    omega (
      arith,
      length-put_str-append k.prefix (put_str k.key ++ (put_str k.type_name ++ v)),
      length-put_str-append k.key (put_str k.type_name ++ v),
      length-put_str-append k.type_name v,
    ))

-- A payload of less than 4 GiB that Rust writes for a key and a value is read by Go as that key and
-- that value.
pub decode-encode_cache_key :
    (k : CacheKey) (v : List ℕ)
    → length (encode_cache_key k ++ v) < word32
    → decode_cache_key (encode_cache_key k ++ v) ≡ ok (k, v)
unfolding decode_cache_key
decode-encode_cache_key k v h =
    let e = length-encode_cache_key k v in
    let l = length-put_str-append k.key (put_str k.type_name ++ v) in
    let l' = length-put_str-append k.type_name v in
    rw (
      encode_cache_key-append k v,
      read_str-put_str k.prefix (put_str k.key ++ (put_str k.type_name ++ v)) (omega arith),
      read_str-put_str k.key (put_str k.type_name ++ v) (omega arith),
      read_str-put_str k.type_name v (omega arith),
    )

read_str-IsByte :
    (rd s rest : List ℕ) → All IsByte rd → read_str rd ≡ ok (s, rest) → All IsByte rest
read_str-IsByte rd s rest h e =
    let (four, room, front, back) = read_str_parts rd s rest e in
    rw (← back) (All-drop IsByte (le_u32 rd) (drop 4 rd) (All-drop IsByte 4 rd h))

-- Three strings read one after the other are the parts of an encoded key.
encode_of_reads :
    (p a rd b rd' c rd'' : List ℕ)
    → All IsByte p
    → read_str p ≡ ok (a, rd)
    → read_str rd ≡ ok (b, rd')
    → read_str rd' ≡ ok (c, rd'')
    → encode_cache_key (record { prefix = a; key = b; type_name = c }) ++ rd'' ≡ p
encode_of_reads p a rd b rd' c rd'' h e₁ e₂ e₃ =
    let h' = read_str-IsByte p a rd h e₁ in
    let h'' = read_str-IsByte rd b rd' h' e₂ in
    encode_cache_key-append _ rd''
    ∙ rw (
      put_str-read_str rd' c rd'' h'' e₃,
      put_str-read_str rd b rd' h' e₂,
      put_str-read_str p a rd h e₁,
    )

-- Go reads a key and a value from a payload only if that payload is what Rust writes for them.
pub encode-decode_cache_key :
    (p : List ℕ) (k : CacheKey) (v : List ℕ)
    → All IsByte p
    → decode_cache_key p ≡ ok (k, v)
    → encode_cache_key k ++ v ≡ p
unfolding decode_cache_key
encode-decode_cache_key p k v h e =
    let (x₁, e₁, f₁) = passed _ (read_str p) e in
    let (x₂, e₂, f₂) = passed _ (read_str x₁.1) f₁ in
    let (x₃, e₃, f₃) = passed _ (read_str x₂.1) f₂ in
    ap (λ (t : CacheKey × List ℕ). encode_cache_key t.0 ++ t.1) (sym (ok-injective f₃))
    ∙ encode_of_reads p x₁.0 x₁.1 x₂.0 x₂.1 x₃.0 x₃.1 h e₁ e₂ e₃

take-le_put : (v : ℕ) (rest : List ℕ) → take 8 (le_put 8 v ++ rest) ≡ le_put 8 v
take-le_put v rest = take-append 8 (le_put 8 v) rest (length-le_put 8 v)

drop-le_put : (v : ℕ) (rest : List ℕ) → drop 8 (le_put 8 v ++ rest) ≡ rest
drop-le_put v rest = drop-append 8 (le_put 8 v) rest (length-le_put 8 v)

-- For a number below 2 ^ 64 `u64le` writes eight bytes, which read back as the number.
pub le_u64-u64le : (v : ℕ) → v < word64 → (length (u64le v) ≡ 8) × (le_u64 (u64le v) ≡ v)
unfolding u64le
le_u64-u64le v h = (
  length-le_put 8 v,
  subst (λ b. le_u64 b ≡ v) (append-nil (le_put 8 v)) (le_get-le_put_8 v [] h),
)

le_u64-le_put : (v : ℕ) → v < word64 → le_u64 (le_put 8 v) ≡ v
unfolding u64le
le_u64-le_put v h = (le_u64-u64le v h).1

-- Two bounds that were written are read back, with what follows them.
read_bounds-le_put :
    (path : List ℕ) (start end : ℕ) (v : List ℕ)
    → start < word64
    → end < word64
    → read_bounds path (le_put 8 start ++ (le_put 8 end ++ v))
      ≡ ok (record { path = path; start = start; end = end }, v)
unfolding read_bounds
read_bounds-le_put path start end v hs he =
    let rest = le_put 8 end ++ v in
    let l = length-append (le_put 8 start) rest in
    let l' = length-append (le_put 8 end) v in
    let n = length-le_put 8 start in
    let n' = length-le_put 8 end in
    rw
      (
        drop-drop 8 8 16 (le_put 8 start ++ rest) refl,
        take-le_put start rest,
        drop-le_put start rest,
        take-le_put end v,
        drop-le_put end v,
        le_u64-le_put start hs,
        le_u64-le_put end he,
      )
      (ground arith)

decode_range_key_of_parts :
    (p path rest : List ℕ)
    → 4 ≤ length p
    → le_u32 p ≡ length path
    → drop 4 p ≡ path ++ rest
    → length path + length rest < word32
    → decode_range_key p ≡ read_bounds path rest
unfolding decode_range_key
decode_range_key_of_parts p path rest l n d b =
    rw (d, n, take-append (length path) path rest refl, drop-append (length path) path rest refl)
      (ground (arith, length-append path rest))

-- A payload of less than 4 GiB that Rust writes for a range of 64-bit bounds and its bytes is read
-- by Go as that range and those bytes.
pub decode-encode_range_key :
    (k : RangeKey) (v : List ℕ)
    → length (encode_range_key k ++ v) < word32
    → k.start < word64
    → k.end < word64
    → decode_range_key (encode_range_key k ++ v) ≡ ok (k, v)
unfolding encode_range_key
decode-encode_range_key k v h hs he =
    let bounds = le_put 8 k.start ++ (le_put 8 k.end ++ v) in
    let eq : encode_range_key k ++ v ≡ put_str k.path ++ bounds = simp append_assoc in
    let l = length-put_str-append k.path bounds in
    let b : length k.path + length bounds + 4 < word32 = rw (← l, ← eq) h in
    rw eq (
      decode_range_key_of_parts (put_str k.path ++ bounds) k.path bounds (omega arith)
        (le_u32-put_str k.path bounds (omega arith)) (drop-put_str k.path bounds) (omega arith)
      ∙ read_bounds-le_put k.path k.start k.end v hs he)
