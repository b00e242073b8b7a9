-- ===== src/Tests/Distributed.antt =====
-- Runs of lance/distributed.go: options, a segment, and a nil segment.
use lance_go.Base.{ℕ, ◌+◌, ◌≡◌, ◌↔◌, true, none, some, String, List, [], ◌∷◌}
use lance_go.Errors.{Result, ok}
use lance_go.Errors.Ffi.{background}
use lance_go.Handle.{open_handle, error_of}
use lance_go.Index.{btree}
use lance_go.Index.Manage.{BuildArgs}
use lance_go.Json.{Doc}
use lance_go.Transaction.{TransactionOut}
use lance_go.Config.{Giving}
use lance_go.Distributed.{
  UncommittedOption, IndexMetadata, UncommittedConfig, with_fragments, panicked, segment_call,
  create_index_uncommitted, merge_index_segments,
}
use lance_go.Distributed.Fragments.{Restricted, create_index_uncommitted-Restricted}
use lance_go.Distributed.Segments.{
  SegmentCall, segment_call_frees, any_nil, merge_index_segments-panicked_iff,
}
use lance_go.Tests.Config.{outside, memory, thread}
use lance_go.Tests.Index.{nonzero, shown}

abbrev decode : String → Result ℕ
decode view = ok 7

abbrev out : TransactionOut
out = record { pb = some 100; pb_len = 2; view = some 200 }

abbrev native_merge : ℕ → List (List ℕ) → Giving ℕ TransactionOut
native_merge p blobs t n = (0, out, n + 1)

segment_call_frees_example :
    let (res, v) = segment_call memory decode outside background 0 (native_merge 3 []) thread in
    SegmentCall memory decode outside background 0 (native_merge 3 []) thread res v.native
segment_call_frees_example =
    segment_call_frees memory decode outside background 0 (native_merge 3 []) thread

abbrev segment : IndexMetadata ℕ
segment = record { pb = 8 ∷ []; view = 7; raw = "{}" }

merge_index_segments-panicked_iff_example :
    let (res, after) =
      merge_index_segments memory decode outside background
        (open_handle 3)
        0
        native_merge
        (some segment ∷ none ∷ [])
        thread in
    (after.held_locks ≡ 0)
    × (after.span_ends ≡ error_of res ∷ [])
    × ((res ≡ ok panicked) ↔ (
        (any_nil (some segment ∷ none ∷ []) ≡ true)
        × (background.err 0 ≡ none)
        × (p : ℕ) × ((open_handle 3).ptr ≡ some p)))
merge_index_segments-panicked_iff_example =
    merge_index_segments-panicked_iff memory decode outside background (open_handle 3) 0
      native_merge thread (some segment ∷ none ∷ [])

abbrev send : Doc ℕ → Result String
send d = ok "{}"

abbrev send_options : UncommittedConfig → Result String
send_options o = ok "{}"

abbrev quoted : String → String → String
quoted verb name = verb

abbrev native_build : ℕ → BuildArgs ℕ → String → Giving ℕ TransactionOut
native_build p args options t n = (0, out, n + 1)

abbrev twice : List UncommittedOption
twice = with_fragments (some (1 ∷ 2 ∷ [])) ∷ with_fragments (some (3 ∷ [])) ∷ []

create_index_uncommitted-Restricted_example :
    let (res, after) =
      create_index_uncommitted memory decode outside background nonzero shown send send_options
        native_build "id"
        (btree 64)
        none
        none
        quoted
        (open_handle 3)
        0
        twice
        thread in
    Restricted memory decode outside background
      (open_handle 3)
      0
      nonzero
      shown
      send
      send_options
      quoted
      native_build
      "id"
      (btree 64)
      none
      none
      twice
      thread
      res
      after
create_index_uncommitted-Restricted_example =
    create_index_uncommitted-Restricted memory decode outside background (open_handle 3) 0 nonzero
      shown send send_options quoted native_build "id" (btree 64) none none twice thread
