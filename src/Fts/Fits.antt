-- ===== src/Fts/Fits.antt =====
-- Which full-text queries of lance/scanner.go are sent, and how the others are refused.
use lance_go.Base.{
  some, map, ap, ◌==◌, if◌then◌else◌, ◌≡◌, refl, sym, ◌∙◌, ◌⊎◌, inl, inr, true, false, ◌||◌, String,
  List, [], ◌∷◌, All, Bool-cases, arith,
}
use lance_go.Errors.{GoError, leaf, wrap, text, Leaf, Result, err, errors_is}
use lance_go.Json.{JsonValue, null, int, strs, floats, Doc, none_left, doc, same_text}
use lance_go.Base.Int.{ℤ, pos, negsuc}
use lance_go.Fts.Judged.{Judged, accepted, refused, Judged-bind, Judged-map, Judged-iff}
use lance_go.Fts.Says.{Says, SlotSays, AllSay, columns_of, boosts_of}
use lance_go.Fts.{
  expansions, fuzziness_value, Floats, MatchQuery, PhraseQuery, FtsQuery, match_query, phrase_query,
  boost_query, multi_match_query, boolean_query, Slot, nil, holds, Slots, no_slots, slots,
  operator_or, operator_and, blank, operator_of, known_operator, phrase_node, match_node, match_doc,
  phrase_doc, nonzero_or, multi_columns, multi_match_node, fts_node, slot_node, slot_nodes,
  marshal_fts_query, boost_node, boolean_node, invalid,
}

module _ {F : Type 0} where
  -- A sub-query of a multi-match that names a column and has the given terms.
  abbrev pub Shares : String → MatchQuery F → Type 0
  Shares terms q = (blank q.column ≡ false) × (same_text q.terms terms ≡ true)

  unfoldable mutual
    -- A query that can be sent: each match and phrase has terms, and an operator that is known or
    -- not set; a multi-match has sub-queries, which name columns and share their terms; and no
    -- query inside another is nil.
    pub Fits : FtsQuery F → Type 0
    Fits (match_query q) =
        (blank q.terms ≡ false)
        × ((blank q.operator
              || (same_text q.operator operator_or || same_text q.operator operator_and))
            ≡ true)
    Fits (phrase_query q) = blank q.terms ≡ false
    Fits (multi_match_query []) = ⊥
    Fits (multi_match_query (q ∷ qs)) = All (Shares q.terms) (q ∷ qs)
    Fits (boost_query p n b) = SlotFits p × SlotFits n
    Fits (boolean_query should must must_not) = AllFit should × (AllFit must × AllFit must_not)

    pub SlotFits : Slot F → Type 0
    SlotFits nil = ⊥
    SlotFits (holds q) = Fits q

    pub AllFit : Slots F → Type 0
    AllFit no_slots = Unit {0}
    AllFit (slots s ss) = SlotFits s × AllFit ss

-- An operator that is not set stands for Or.
known_operator-operator_of :
    (op : String)
    → known_operator (operator_of op)
      ≡ (blank op || (same_text op operator_or || same_text op operator_and))
known_operator-operator_of op = elim (Bool-cases (blank op)) [
  | inl unset ↦ rw unset refl
  | inr set ↦ rw set refl
]

fuzziness_lem :
    {F : Type 0} (z : ℤ)
    → some (fuzziness_value {F = F} z) ≡ some (elim z [ pos n ↦ int (pos n) | negsuc n ↦ null ])
fuzziness_lem (pos n) = refl
fuzziness_lem (negsuc n) = refl

expansions_lem :
    (z : ℤ)
    → expansions z ≡ (elim z [ pos n ↦ if n == 0 then pos 50 else pos n | negsuc n ↦ negsuc n ])
expansions_lem (pos n) = refl
expansions_lem (negsuc n) = refl

module _ {F : Type 0} (fs : Floats F) where
  match_doc-Says : (q : MatchQuery F) → Says fs (match_query q) (match_doc fs q)
  unfolding Says
  match_doc-Says q = (
    _,
    refl,
    record {
      column = refl;
      terms = refl;
      boost = refl;
      fuzziness = fuzziness_lem q.fuzziness;
      max_expansions = ap (λ e. some (JsonValue.int e)) (expansions_lem q.max_expansions);
      operator = refl;
      prefix_length = refl;
      no_more = refl;
    },
  )

  Judged-match :
      (q : MatchQuery F) → Judged (Fits (match_query q)) (Says fs (match_query q)) (match_node fs q)
  unfolding match_node Fits errors_is
  Judged-match q = elim (Bool-cases (blank q.terms)) [
    | inl no_terms ↦
        refused (λ h. ground arith) (invalid "match query terms must not be empty: %w")
          (ground arith) refl
    | inr terms ↦ elim (Bool-cases (known_operator (operator_of q.operator))) [
      | inl known ↦
          accepted (terms, sym (known_operator-operator_of q.operator) ∙ known) (match_doc fs q)
            (match_doc-Says q) (ground arith)
      | inr unknown ↦
          refused
            (λ h. let k = sym unknown ∙ known_operator-operator_of q.operator ∙ h.1 in ground arith)
            (wrap "invalid operator %q: %w" (text (operator_of q.operator) ∷ [])
              (leaf Leaf.invalid_argument))
            (ground arith) refl
    ]
  ]

  Judged-phrase :
      (q : PhraseQuery)
      → Judged (Fits {F = F} (phrase_query q)) (Says fs (phrase_query q)) (phrase_node {F = F} q)
  unfolding phrase_node Fits Says errors_is
  Judged-phrase q = elim (Bool-cases (blank q.terms)) [
    | inl no_terms ↦
        refused (λ h. ground arith) (invalid "phrase query terms must not be empty: %w")
          (ground arith) refl
    | inr terms ↦
        accepted terms (phrase_doc q)
          (_, refl, record { column = refl; terms = refl; slop = refl; no_more = refl })
          (ground arith)
  ]

  -- The columns and the boosts that are collected.
  abbrev Collected : List (MatchQuery F) → List (String × F) → Type 0
  Collected qs cs =
      (map (λ (c : String × F). c.0) cs ≡ columns_of fs qs)
      × (map (λ (c : String × F). c.1) cs ≡ boosts_of fs qs)

  Judged-columns :
      (terms : String) (qs : List (MatchQuery F))
      → Judged (All (Shares terms) qs) (Collected qs) (multi_columns fs terms qs)
  unfolding multi_columns errors_is
  Judged-columns terms [] = accepted tt [] (refl, refl) refl
  Judged-columns terms (q ∷ qs) = elim (Bool-cases (blank q.column)) [
    | inl no_column ↦
        refused (λ h. ground arith) (invalid "multi-match sub-queries must name a column: %w")
          (ground arith) refl
    | inr column ↦ elim (Bool-cases (same_text q.terms terms)) [
      | inr other ↦
          refused (λ h. ground arith)
            (invalid "multi-match sub-queries must share the same terms: %w") (ground arith) refl
      | inl same ↦
          rw (column, same)
            (Judged-iff _ (λ h. ((refl, refl), h)) (λ h. h.1)
              (Judged-map _ (λ cs. (q.column, nonzero_or fs fs.one q.boost) ∷ cs)
                (λ cs (columns, boosts). (
                  ap (λ l. q.column ∷ l) columns,
                  ap (λ l. nonzero_or fs fs.one q.boost ∷ l) boosts,
                ))
                (Judged-columns terms qs)))
    ]
  ]

  Judged-multi :
      (qs : List (MatchQuery F))
      → Judged
          (Fits (multi_match_query qs))
          (Says fs (multi_match_query qs))
          (multi_match_node fs qs)
  unfolding multi_match_node Fits Says errors_is
  Judged-multi [] =
      refused (λ h. h) (invalid "multi-match query needs at least one sub-query: %w") refl refl
  Judged-multi (q ∷ qs) =
      Judged-map (multi_columns fs q.terms (q ∷ qs)) _
        (λ cs (columns, boosts). (
          _,
          refl,
          record {
            query = refl;
            columns = ap (λ l. some (strs l)) columns;
            boost = ap (λ l. some (floats l)) boosts;
            no_more = refl;
          },
        ))
        (Judged-columns q.terms (q ∷ qs))

  mutual
    unfolding fts_node Fits Says errors_is

    Judged-fts_node : (q : FtsQuery F) → Judged (Fits q) (Says fs q) (fts_node fs q)
    Judged-fts_node (match_query q) = Judged-match q
    Judged-fts_node (phrase_query q) = Judged-phrase q
    Judged-fts_node (multi_match_query qs) = Judged-multi qs
    Judged-fts_node (boost_query nil n b) =
        refused (λ h. h.0) (invalid "boost query needs positive and negative sub-queries: %w") refl
          refl
    Judged-fts_node (boost_query (holds p) nil b) =
        refused (λ h. h.1) (invalid "boost query needs positive and negative sub-queries: %w") refl
          refl
    Judged-fts_node (boost_query (holds p) (holds n) b) =
        Judged-bind (fts_node fs p) _ (Judged-fts_node p) (λ x says_p.
          Judged-map (fts_node fs n) (λ y. boost_node fs x y b)
            (λ y says_n. (x, y, says_p, says_n, (_, refl, (refl, refl, refl, refl))))
            (Judged-fts_node n))
    Judged-fts_node (boolean_query should must must_not) =
        Judged-bind (slot_nodes fs should) _ (Judged-slot_nodes should) (λ x says_x.
          Judged-bind (slot_nodes fs must) _ (Judged-slot_nodes must) (λ y says_y.
            Judged-map (slot_nodes fs must_not) (boolean_node fs x y)
              (λ z says_z. (x, y, z, says_x, says_y, says_z, (_, refl, (refl, refl, refl, refl))))
              (Judged-slot_nodes must_not)))

    Judged-slot_node :
        (e : GoError) (s : Slot F)
        → errors_is e Leaf.invalid_argument ≡ true
        → Judged (SlotFits s) (SlotSays fs s) (slot_node fs e s)
    Judged-slot_node e nil i = refused (λ h. h) e refl i
    Judged-slot_node e (holds q) i = Judged-fts_node q

    Judged-slot_nodes : (ss : Slots F) → Judged (AllFit ss) (AllSay fs ss) (slot_nodes fs ss)
    Judged-slot_nodes no_slots = accepted tt none_left refl refl
    Judged-slot_nodes (slots s ss) =
        Judged-bind (slot_node fs (invalid "boolean sub-queries must not be nil: %w") s) _
          (Judged-slot_node (invalid "boolean sub-queries must not be nil: %w") s refl)
          (λ x says.
            Judged-map (slot_nodes fs ss) (doc x) (λ xs say. (x, xs, refl, says, say))
              (Judged-slot_nodes ss))

  -- A query is sent exactly if it fits, where a boolean query fits also with no sub-queries at all:
  -- then a document that says just what the query and its sub-queries say, member by member and with
  -- their defaults, goes to encoding/json, whose answer is the result; otherwise, also for a nil
  -- query, the call gives ErrInvalidArgument, and there is no document.
  pub marshal_fts_query_judged :
      (marshal : Doc F → Result String) (s : Slot F)
      → (SlotFits s × (d : Doc F) × SlotSays fs s d × (marshal_fts_query fs marshal s ≡ marshal d))
        ⊎ ((¬ SlotFits s)
            × (e : GoError) × (marshal_fts_query fs marshal s ≡ err e)
            × (errors_is e Leaf.invalid_argument ≡ true))
  unfolding marshal_fts_query errors_is
  marshal_fts_query_judged marshal s =
      elim (Judged-slot_node (invalid "query must not be nil: %w") s refl) [
        | accepted p d says h ↦ inl (p, d, says, rw h refl)
        | refused n e h i ↦ inr (n, e, rw h refl, i)
      ]
