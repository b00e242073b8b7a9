-- ===== src/Json.antt =====
-- The documents that encoding/json writes for native code, as values.
use Prim.Native.String.{String, compare}
use Prim.Native.Nat.{Ordering}
use lance_go.Base.{ℕ, Bool, true, false, Option, none, some, List, if◌then◌else◌}
use lance_go.Base.Int.{ℤ}

abbrev pub same_text : String → String → Bool
same_text a b = elim (compare a b) [ Ordering.eq ↦ true | _ ↦ false ]

mutual
  -- The values of a document: null, an unsigned and a signed number, a float, a bool, a string, a
  -- list of strings or of floats, a map[string]string, a document, a list of documents.
  pub data JsonValue (F : Type 0) : Type 0 where
    null : JsonValue F
    uint : ℕ → JsonValue F
    int : ℤ → JsonValue F
    float : F → JsonValue F
    bool : Bool → JsonValue F
    str : String → JsonValue F
    strs : List String → JsonValue F
    pairs : List (String × String) → JsonValue F
    floats : List F → JsonValue F
    object : Doc F → JsonValue F
    objects : Docs F → JsonValue F

  -- A map[string]any.
  pub data Doc (F : Type 0) : Type 0 where
    empty : Doc F
    field : String → JsonValue F → Doc F → Doc F

  pub data Docs (F : Type 0) : Type 0 where
    none_left : Docs F
    doc : Doc F → Docs F → Docs F

module _ {F : Type 0} where
  -- `m[k] = v`
  unfoldable pub set : String → JsonValue F → Doc F → Doc F
  set k v empty = field k v empty
  set k v (field j w m) =
      let rest = set k v m in if same_text k j then field k v m else field j w rest

  -- `if cond { m[k] = v }`
  abbrev pub set_if : Bool → String → JsonValue F → Doc F → Doc F
  set_if true k v m = set k v m
  set_if false k v m = m

  abbrev pub is_empty : Doc F → Bool
  is_empty empty = true
  is_empty (field k v m) = false

  -- `if len(m) == 0 { return nil }`, and the document as a value otherwise.
  abbrev pub unless_empty : Doc F → Option (Doc F)
  unless_empty m = if is_empty m then none else some m

  -- `map[string]any{"params": m}`
  abbrev pub params : Doc F → Doc F
  params m = field "params" (object m) empty

-- A member of a document, the first of its name.
abbrev pub member : {F : Type 0} → String → Doc F → Option (JsonValue F)
member k empty = none
member k (field j v d) = if same_text k j then some v else member k d
