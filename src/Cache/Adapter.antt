-- ===== src/Cache/Adapter.antt =====
-- The cache adapters of lance/cache.go behind the callback of lance/callbacks.go: what native code
-- that writes its payloads as rust/src/cache.rs does gets back from a backend.
use lance_go.Base.{
  ℕ, ◌+◌, ◌^◌, ◌<◌, ◌≡◌, refl, ap, subst, ◌∙◌, true, Option, none, some, List, [], ◌++◌, arith,
  length, length-append,
}
use lance_go.Base.Bytes.{word32}
use lance_go.Errors.{leaf, Leaf, ok}
use lance_go.Plugin.{Registry, register_plugin}
use lance_go.Plugin.Handles.{IsValid, register_plugin_lem}
use lance_go.Plugin.Invoke.{
  Plugin, Fmt, Answer, returned, failed, call_ok, call_miss, go_callback_invoke, Reaches,
  callback_returned, callback_missed, copy_c_bytes_whole,
}
use lance_go.Cache.{
  CacheKey, CacheBackend, cache_backend_invoke, encode_cache_key, decode_cache_key, cache_get,
  cache_put,
}
use lance_go.Cache.Codec.{decode-encode_cache_key}
use mathlib.Core.List.{append-nil}

decode_key :
    (k : CacheKey)
    → length (encode_cache_key k) < word32
    → decode_cache_key (encode_cache_key k) ≡ ok (k, [])
decode_key k l =
    subst (λ p. decode_cache_key p ≡ ok (k, [])) (append-nil (encode_cache_key k))
      (decode-encode_cache_key k [] (rw append-nil l))

module _ {S : Type 0} where
  -- One call through a registered plugin, with both out pointers and a whole payload.
  abbrev pub call : Fmt → Registry (Plugin S) → ℕ → ℕ → List ℕ → S → Answer S
  call fmt r h method payload s =
      go_callback_invoke fmt r h method (some payload) (length payload) true s

  -- A plugin that was just registered is reached under its handle.
  registered-Reaches :
      (fmt : Fmt) (p : Plugin S) (r : Registry (Plugin S)) (payload : List ℕ)
      → IsValid r
      → r.next + 1 < 2 ^ 64
      → length payload < 2 ^ 63
      → Reaches fmt
          (register_plugin p r).1
          (register_plugin p r).0
          (some payload)
          (length payload)
          true
          p
          payload
  registered-Reaches fmt p r payload v b l =
      let h = (register_plugin p r).0 in
      (refl, (register_plugin_lem p r v b).2 h ∙ ground arith, copy_c_bytes_whole payload l)

  put_reply :
      (b : CacheBackend S) (k : CacheKey) (val : List ℕ) (s : S)
      → length (encode_cache_key k ++ val) < word32
      → cache_backend_invoke b cache_put (encode_cache_key k ++ val) s
        ≡ (returned [], b.put s k val (length val))
  unfolding cache_backend_invoke
  put_reply b k val s l = rw (decode-encode_cache_key k val l)

  get_reply :
      (b : CacheBackend S) (k : CacheKey) (s s' : S) (v : List ℕ)
      → length (encode_cache_key k) < word32
      → b.get s k ≡ (some v, s')
      → cache_backend_invoke b cache_get (encode_cache_key k) s ≡ (returned v, s')
  unfolding cache_backend_invoke
  get_reply b k s s' v l e = rw (decode_key k l, e)

  miss_reply :
      (b : CacheBackend S) (k : CacheKey) (s s' : S)
      → length (encode_cache_key k) < word32
      → b.get s k ≡ (none, s')
      → cache_backend_invoke b cache_get (encode_cache_key k) s
        ≡ (failed (leaf Leaf.plugin_miss), s')
  unfolding cache_backend_invoke
  miss_reply b k s s' l e = rw (decode_key k l, e)

module _ {S : Type 0} (fmt : Fmt) (b : CacheBackend S) (r : Registry (Plugin S)) where
  -- A backend that was registered with a valid registry that has handles left answers the get of a
  -- key, encoded in less than 4 GiB, with OK and the bytes that its `Get` finds, and its state is
  -- what its `Get` left.
  pub callback_get_found :
      (k : CacheKey) (v : List ℕ) (s s' : S)
      → IsValid r
      → r.next + 1 < 2 ^ 64
      → length (encode_cache_key k) < word32
      → b.get s k ≡ (some v, s')
      → let (h, r') = register_plugin (cache_backend_invoke b) r in
        let a = call fmt r' h cache_get (encode_cache_key k) s in
        (a.rc ≡ call_ok) × (a.out ≡ some v) × (a.state ≡ s')
  callback_get_found k v s s' valid room l e =
      let (h, r') = register_plugin (cache_backend_invoke b) r in
      callback_returned fmt r' h cache_get _ _ true s (cache_backend_invoke b) (encode_cache_key k)
        v s' (registered-Reaches fmt _ r (encode_cache_key k) valid room (omega arith))
        (get_reply b k s s' v l e)

  -- In the same setting a key for which the backend's `Get` finds nothing is answered with MISS, and
  -- the backend's state is what its `Get` left.
  pub callback_get_missing :
      (k : CacheKey) (s s' : S)
      → IsValid r
      → r.next + 1 < 2 ^ 64
      → length (encode_cache_key k) < word32
      → b.get s k ≡ (none, s')
      → let (h, r') = register_plugin (cache_backend_invoke b) r in
        let a = call fmt r' h cache_get (encode_cache_key k) s in
        (a.rc ≡ call_miss) × (a.state ≡ s')
  callback_get_missing k s s' valid room l e =
      let (h, r') = register_plugin (cache_backend_invoke b) r in
      callback_missed fmt r' h cache_get _ _ true s (cache_backend_invoke b) (encode_cache_key k) s'
        (registered-Reaches fmt _ r (encode_cache_key k) valid room (omega arith))
        (miss_reply b k s s' l e)

  -- The documented behaviour of a backend: what was put under a key is got from it, until the next
  -- change.
  abbrev pub KeepsPuts : Type 0
  KeepsPuts = (s : S) (k : CacheKey) (v : List ℕ) → (b.get (b.put s k v (length v)) k).0 ≡ some v

  -- For a backend that keeps what is put and was registered with a valid registry that has handles
  -- left: native code that puts a value and then gets the key, with payloads below 4 GiB, is
  -- answered with OK twice, the second time with the value.
  pub callback_put-get :
      KeepsPuts
      → (k : CacheKey) (v : List ℕ) (s : S) → IsValid r
      → r.next + 1 < 2 ^ 64
      → length (encode_cache_key k ++ v) < word32
      → let (h, r') = register_plugin (cache_backend_invoke b) r in
        let a = call fmt r' h cache_put (encode_cache_key k ++ v) s in
        let a' = call fmt r' h cache_get (encode_cache_key k) a.state in
        (a.rc ≡ call_ok) × (a'.rc ≡ call_ok) × (a'.out ≡ some v)
  callback_put-get law k v s valid room l =
      let (h, r') = register_plugin (cache_backend_invoke b) r in
      let (rc, out, st) =
        callback_returned fmt r' h cache_put _ _ true s (cache_backend_invoke b)
          (encode_cache_key k ++ v) [] (b.put s k v (length v))
          (registered-Reaches fmt _ r (encode_cache_key k ++ v) valid room (omega arith))
          (put_reply b k v s l) in
      let t = b.put s k v (length v) in
      let (rc', out', _) =
        callback_get_found k v t (b.get t k).1 valid room
          (omega (arith, length-append (encode_cache_key k) v))
          (ap (λ (o : Option (List ℕ)). (o, (b.get t k).1)) (law s k v)) in
      (rc, rw st rc', rw st out')
