-- ===== src/Tests/Cache.antt =====
-- Runs of lance/cache.go: keys, and a backend that is an association list.
use lance_go.Base.{ℕ, ◌≡◌, refl, none, Option, some, List, [], ◌∷◌, ◌++◌, arith, All}
use lance_go.Base.Bytes.{IsByte, le_get, le_put}
use lance_go.Base.Int.{pos}
use lance_go.Errors.{ok}
use lance_go.Plugin.{Registry, empty, register_plugin}
use lance_go.Plugin.Invoke.{Plugin, Fmt, call_ok}
use lance_go.Cache.{
  CacheKey, RangeKey, CacheBackend, cache_backend_invoke, cache_get, cache_put, encode_cache_key,
  decode_cache_key, put_str,
}
use lance_go.Cache.Adapter.{call, KeepsPuts, callback_put-get}

abbrev page_key : CacheKey
page_key = record { prefix = 112 ∷ 47 ∷ []; key = 107 ∷ []; type_name = [] }

abbrev page_payload : List ℕ
page_payload = 2 ∷ 0 ∷ 0 ∷ 0 ∷ 112 ∷ 47 ∷ 1 ∷ 0 ∷ 0 ∷ 0 ∷ 107 ∷ 0 ∷ 0 ∷ 0 ∷ 0 ∷ 9 ∷ []

encode_page_key : encode_cache_key page_key ++ (9 ∷ []) ≡ page_payload
unfolding encode_cache_key put_str le_put
encode_page_key = refl

decode_page_payload : decode_cache_key page_payload ≡ ok (page_key, 9 ∷ [])
unfolding decode_cache_key le_get
decode_page_payload = refl

bytes_page_payload : All IsByte page_payload
bytes_page_payload = ground arith

abbrev range_key : RangeKey
range_key = record { path = 97 ∷ []; start = 16; end = 4096 }

-- A backend with room for the value that was put last, whatever its key.
abbrev one_slot : CacheBackend (Option (List ℕ))
one_slot = record {
  get = λ s k. (s, s);
  put = λ s k v size. some v;
  invalidate_prefix = λ s p. none;
  clear = λ s. none;
  len = λ s. pos 0;
  size_bytes = λ s. pos 0;
}

abbrev plain_fmt : Fmt
plain_fmt = record { appendf = λ f args. []; error_text = λ e. 101 ∷ [] }

abbrev no_plugins : Registry (Plugin (Option (List ℕ)))
no_plugins = empty

one_slot-KeepsPuts : KeepsPuts plain_fmt one_slot no_plugins
one_slot-KeepsPuts s k v = refl

callback_put-get_example :
    let (h, r') = register_plugin (cache_backend_invoke one_slot) no_plugins in
    let a = call plain_fmt r' h cache_put (encode_cache_key page_key ++ (9 ∷ [])) none in
    let a' = call plain_fmt r' h cache_get (encode_cache_key page_key) a.state in
    (a.rc ≡ call_ok) × (a'.rc ≡ call_ok) × (a'.out ≡ some (9 ∷ []))
unfolding encode_cache_key put_str le_put
callback_put-get_example =
    callback_put-get plain_fmt one_slot no_plugins one_slot-KeepsPuts page_key (9 ∷ []) none tt
      (omega arith) (omega arith)
