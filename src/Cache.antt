-- ===== src/Cache.antt =====
-- lance/cache.go: the payloads of the cache callbacks, and the adapters that answer them. The
-- encoders are those of rust/src/cache.rs, which writes the payloads.
pub mod Codec
pub mod Adapter
use lance_go.Base.{
  ℕ, ◌+◌, ◌-◌, ◌%◌, ◌^◌, Option, none, some, List, [], ◌∷◌, ◌++◌, length, take, drop, ltb, ◌==◌,
  if◌then◌else◌,
}
use lance_go.Base.Int.{ℤ, pos, negsuc}
use lance_go.Base.Bytes.{le_put, le_u32, le_u64, word32, word64}
use lance_go.Errors.{GoError, leaf, plain, Leaf, num, Result, ok, err, ◌>>=◌}
use lance_go.Plugin.Invoke.{Reply, returned, failed, Plugin}

-- A Go string is its bytes.
pub record CacheKey : Type 0 where
  pub prefix : List ℕ
  pub key : List ℕ
  pub type_name : List ℕ

-- `readStr`, over what is left of the payload.
read_str : List ℕ → Result (List ℕ × List ℕ)
read_str rd =
    if ltb (length rd) 4
    then err (plain "lance: truncated cache key" [])
    else if ltb (length (drop 4 rd) % word32) (le_u32 rd)
    then err (plain "lance: truncated cache key string" [])
    else ok (take (le_u32 rd) (drop 4 rd), drop (le_u32 rd) (drop 4 rd))

-- `decodeCacheKey`: the key, and what follows it.
unfoldable pub decode_cache_key : List ℕ → Result (CacheKey × List ℕ)
unfolding read_str
decode_cache_key payload = do
  (prefix, rd) ← read_str payload
  (key, rd') ← read_str rd
  (type_name, rd'') ← read_str rd'
  ok (record { prefix = prefix; key = key; type_name = type_name }, rd'')

-- `put_str` of rust/src/cache.rs.
unfoldable pub put_str : List ℕ → List ℕ
put_str s = le_put 4 (length s % word32) ++ s

-- `encode_cache_key` of rust/src/cache.rs.
unfoldable pub encode_cache_key : CacheKey → List ℕ
encode_cache_key k = put_str k.prefix ++ (put_str k.key ++ put_str k.type_name)

-- A byte range of an object.
pub record RangeKey : Type 0 where
  pub path : List ℕ
  pub start : ℕ
  pub end : ℕ

-- Behind the path: the two bounds, and what follows them.
read_bounds : List ℕ → List ℕ → Result (RangeKey × List ℕ)
read_bounds path rd =
    if ltb (length rd) 16
    then err (plain "lance: truncated range key bounds" [])
    else ok (
      record { path = path; start = le_u64 (take 8 rd); end = le_u64 (take 8 (drop 8 rd)) },
      drop 16 rd,
    )

-- `decodeRangeKey`
unfoldable pub decode_range_key : List ℕ → Result (RangeKey × List ℕ)
unfolding read_bounds
decode_range_key payload =
    if ltb (length payload) 4
    then err (plain "lance: truncated range key" [])
    else if ltb (length (drop 4 payload) % word32) (le_u32 payload)
    then err (plain "lance: truncated range key path" [])
    else read_bounds (take (le_u32 payload) (drop 4 payload))
        (drop (le_u32 payload) (drop 4 payload))

-- `encode_range_key` of rust/src/cache.rs.
unfoldable pub encode_range_key : RangeKey → List ℕ
encode_range_key k = put_str k.path ++ (le_put 8 k.start ++ le_put 8 k.end)

-- `u64le`
pub u64le : ℕ → List ℕ
u64le v = le_put 8 v

-- The conversion `uint64(x)` of a signed number.
abbrev pub to_u64 : ℤ → ℕ
to_u64 (pos n) = n % word64
to_u64 (negsuc n) = word64 - 1 - n % word64

-- `CacheBackend`, over the state that it keeps. A lookup may change that state too.
pub record CacheBackend (S : Type 0) : Type 0 where
  pub get : S → CacheKey → Option (List ℕ) × S
  pub put : S → CacheKey → List ℕ → ℕ → S
  pub invalidate_prefix : S → List ℕ → S
  pub clear : S → S
  pub len : S → ℤ
  pub size_bytes : S → ℤ

-- `ObjectStoreCache`
pub record ObjectStoreCache (S : Type 0) : Type 0 where
  pub get : S → RangeKey → Option (List ℕ) × S
  pub put : S → RangeKey → List ℕ → S

abbrev pub cache_get : ℕ
cache_get = 0

abbrev pub cache_put : ℕ
cache_put = 1

abbrev pub osc_get : ℕ
osc_get = 0

abbrev pub osc_put : ℕ
osc_put = 1

module _ {S : Type 0} where
  abbrev found_or_miss : Option (List ℕ) × S → Reply × S
  found_or_miss (some v, s) = (returned v, s)
  found_or_miss (none, s) = (failed (leaf Leaf.plugin_miss), s)

  -- `cacheBackendAdapter.Invoke`
  unfoldable pub cache_backend_invoke : CacheBackend S → Plugin S
  unfolding decode_cache_key u64le
  cache_backend_invoke b method payload s =
      if method == 0
      then elim (decode_cache_key payload) [
        | err e ↦ (failed e, s)
        | ok (k, _) ↦ found_or_miss (b.get s k)
      ]
      else if method == 1
      then elim (decode_cache_key payload) [
        | err e ↦ (failed e, s)
        | ok (k, val) ↦ (returned [], b.put s k val (length val))
      ]
      else if method == 2
      then (returned [], b.invalidate_prefix s payload)
      else if method == 3
      then (returned [], b.clear s)
      else if method == 4
      then (returned (u64le (to_u64 (b.len s))), s)
      else if method == 5
      then (returned (u64le (to_u64 (b.size_bytes s))), s)
      else (failed (plain "lance: unknown cache backend method %d" (num method ∷ [])), s)

  -- `objectStoreCacheAdapter.Invoke`
  unfoldable pub object_store_cache_invoke : ObjectStoreCache S → Plugin S
  unfolding decode_range_key
  object_store_cache_invoke c method payload s = elim (decode_range_key payload) [
    | err e ↦ (failed e, s)
    | ok (k, data_) ↦
        if method == 0
        then found_or_miss (c.get s k)
        else if method == 1
        then (returned [], c.put s k data_)
        else (failed (plain "lance: unknown object-store cache method %d" (num method ∷ [])), s)
  ]
