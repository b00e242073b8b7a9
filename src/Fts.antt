-- ===== src/Fts.antt =====
-- The full-text queries of lance/scanner.go, and the tagged documents that they are sent as.
pub mod Fits
pub mod Judged
pub mod Says
use lance_go.Base.{
  ℕ, Bool, true, false, ◌&&◌, ◌||◌, not, Option, none, some, String, List, [], ◌∷◌, map,
  if◌then◌else◌, ◌==◌,
}
use lance_go.Base.Int.{ℤ, pos, negsuc}
use lance_go.Errors.{GoError, leaf, wrap, text, Leaf, Result, ok, err, ◌>>=◌}
use lance_go.Json.{
  JsonValue, Doc, Docs, null, uint, int, float, str, strs, floats, object, objects, empty, field,
  none_left, doc, same_text,
}

-- What the source does with a float32: the zero value is told apart, and the two defaults.
pub record Floats (F : Type 0) : Type 0 where
  pub is_zero : F → Bool
  pub one : F
  pub half : F

-- `MatchQuery`
pub record MatchQuery (F : Type 0) : Type 0 where
  pub column : String
  pub terms : String
  pub boost : F
  pub fuzziness : ℤ
  pub max_expansions : ℤ
  pub operator : String
  pub prefix_length : ℕ

-- `PhraseQuery`
pub record PhraseQuery : Type 0 where
  pub column : String
  pub terms : String
  pub slop : ℕ

mutual
  -- The implementations of `FtsQuery`.
  pub data FtsQuery (F : Type 0) : Type 0 where
    match_query : MatchQuery F → FtsQuery F
    phrase_query : PhraseQuery → FtsQuery F
    boost_query : Slot F → Slot F → F → FtsQuery F
    multi_match_query : List (MatchQuery F) → FtsQuery F
    boolean_query : Slots F → Slots F → Slots F → FtsQuery F

  -- A variable of the interface type `FtsQuery`.
  pub data Slot (F : Type 0) : Type 0 where
    nil : Slot F
    holds : FtsQuery F → Slot F

  -- A slice of those.
  pub data Slots (F : Type 0) : Type 0 where
    no_slots : Slots F
    slots : Slot F → Slots F → Slots F

abbrev pub operator_or : String
operator_or = "Or"

abbrev pub operator_and : String
operator_and = "And"

abbrev invalid : String → GoError
invalid shape = wrap shape [] (leaf Leaf.invalid_argument)

abbrev pub blank : String → Bool
blank s = same_text s ""

abbrev pub is_nil : {F : Type 0} → Slot F → Bool
is_nil nil = true
is_nil (holds q) = false

abbrev pub expansions : ℤ → ℤ
expansions (pos n) = if n == 0 then pos 50 else pos n
expansions (negsuc n) = negsuc n

abbrev pub operator_of : String → String
operator_of op = if blank op then operator_or else op

abbrev pub known_operator : String → Bool
known_operator op = same_text op operator_or || same_text op operator_and

module _ {F : Type 0} where
  -- `nullableString`
  abbrev pub nullable_string : String → JsonValue F
  nullable_string s = if blank s then null else str s

  -- `map[string]any{tag: body}`
  abbrev pub tagged : String → Doc F → Doc F
  tagged tag body = field tag (object body) empty

  abbrev pub fuzziness_value : ℤ → JsonValue F
  fuzziness_value (negsuc n) = null
  fuzziness_value (pos n) = int (pos n)

  abbrev pub phrase_doc : PhraseQuery → Doc F
  phrase_doc q = tagged "phrase" (
      field "column" (nullable_string q.column)
        (field "terms" (str q.terms) (field "slop" (uint q.slop) empty)))

  -- `PhraseQuery.ftsNode`
  unfoldable pub phrase_node : PhraseQuery → Result (Doc F)
  phrase_node q =
      if blank q.terms
      then err (invalid "phrase query terms must not be empty: %w")
      else ok (phrase_doc q)

module _ {F : Type 0} (fs : Floats F) where
  -- `if boost == 0 { boost = default }`
  abbrev pub nonzero_or : F → F → F
  nonzero_or default x = if fs.is_zero x then default else x

  abbrev pub match_doc : MatchQuery F → Doc F
  match_doc q = tagged "match" (
      field "column" (nullable_string q.column) (
        field "terms" (str q.terms) (
          field "boost" (float (nonzero_or fs.one q.boost)) (
            field "fuzziness" (fuzziness_value q.fuzziness) (
              field "max_expansions" (int (expansions q.max_expansions)) (
                field "operator" (str (operator_of q.operator))
                  (field "prefix_length" (uint q.prefix_length) empty)))))))

  -- `MatchQuery.ftsNode`
  unfoldable pub match_node : MatchQuery F → Result (Doc F)
  match_node q =
      if blank q.terms
      then err (invalid "match query terms must not be empty: %w")
      else if not (known_operator (operator_of q.operator))
      then err (
          wrap "invalid operator %q: %w" (text (operator_of q.operator) ∷ [])
            (leaf Leaf.invalid_argument))
      else ok (match_doc q)

  -- The loop of `MultiMatchQuery.ftsNode`, with the terms of the first sub-query.
  unfoldable pub multi_columns : String → List (MatchQuery F) → Result (List (String × F))
  multi_columns terms [] = ok []
  multi_columns terms (q ∷ qs) =
      let rest = multi_columns terms qs in
      if blank q.column
      then err (invalid "multi-match sub-queries must name a column: %w")
      else if not (same_text q.terms terms)
      then err (invalid "multi-match sub-queries must share the same terms: %w")
      else rest >>= λ cs. ok ((q.column, nonzero_or fs.one q.boost) ∷ cs)

  -- `MultiMatchQuery.ftsNode`
  unfoldable pub multi_match_node : List (MatchQuery F) → Result (Doc F)
  multi_match_node [] = err (invalid "multi-match query needs at least one sub-query: %w")
  multi_match_node (q ∷ qs) = multi_columns q.terms (q ∷ qs) >>= λ cs. ok (
      tagged "multi_match" (
        field "query" (str q.terms) (
          field "columns" (strs (map (λ (c : String × F). c.0) cs))
            (field "boost" (floats (map (λ (c : String × F). c.1) cs)) empty))))

  -- The documents of `BoostQuery.ftsNode` and `BooleanQuery.ftsNode`.
  abbrev pub boost_node : Doc F → Doc F → F → Doc F
  boost_node positive negative b = tagged "boost" (
      field "positive" (object positive) (
        field "negative" (object negative)
          (field "negative_boost" (float (nonzero_or fs.half b)) empty)))

  abbrev pub boolean_node : Docs F → Docs F → Docs F → Doc F
  boolean_node should must must_not = tagged "boolean" (
      field "should" (objects should)
        (field "must" (objects must) (field "must_not" (objects must_not) empty)))

  unfoldable mutual
    -- `ftsNode`
    pub fts_node : FtsQuery F → Result (Doc F)
    fts_node (match_query q) = match_node q
    fts_node (phrase_query q) = phrase_node q
    fts_node (multi_match_query qs) = multi_match_node qs
    fts_node (boost_query p n b) =
        let positive =
          slot_node (invalid "boost query needs positive and negative sub-queries: %w") p in
        let negative =
          slot_node (invalid "boost query needs positive and negative sub-queries: %w") n in
        if is_nil p || is_nil n
        then err (invalid "boost query needs positive and negative sub-queries: %w")
        else positive >>= λ x. negative >>= λ y. ok (boost_node x y b)
    fts_node (boolean_query should must must_not) = slot_nodes should >>= λ x.
        slot_nodes must >>= λ y. slot_nodes must_not >>= λ z. ok (boolean_node x y z)

    -- A query that must not be nil, with the error if it is.
    pub slot_node : GoError → Slot F → Result (Doc F)
    slot_node e nil = err e
    slot_node e (holds q) = fts_node q

    -- `toNodes` of `BooleanQuery.ftsNode`.
    pub slot_nodes : Slots F → Result (Docs F)
    slot_nodes no_slots = ok none_left
    slot_nodes (slots s ss) =
        slot_node (invalid "boolean sub-queries must not be nil: %w") s >>= λ x.
        slot_nodes ss >>= λ xs. ok (doc x xs)

  -- `marshalFtsQuery`, with what encoding/json makes of a document.
  unfoldable pub marshal_fts_query : (Doc F → Result String) → Slot F → Result String
  marshal_fts_query marshal s = slot_node (invalid "query must not be nil: %w") s >>= marshal
