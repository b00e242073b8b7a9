-- ===== src/Open/Valid.antt =====
-- Which options of `Open` (lance/dataset.go) pass its validation.
use lance_go.Base.{
  ℕ, true, ◌≡◌, refl, ◌↔◌, inl, inr, false, ◌||◌, Option, none, some, String, List, [], ◌∷◌,
  is_some, arith, Option-cases,
}
use lance_go.Json.{same_text}
use lance_go.Open.{
  OpenConfig, OpenOption, with_tag, with_branch, with_version, no_options, apply_option,
  apply_options, validate,
}

abbrev text_or : Option String → String → String
text_or none d = d
text_or (some s) d = s

abbrev version_or : Option ℕ → Option ℕ → Option ℕ
version_or none d = d
version_or (some v) d = some v

module _ {K : Type 0} where
  abbrev pub tag_of : OpenOption K → Option String
  tag_of (with_tag t) = some t
  tag_of _ = none

  abbrev pub branch_of : OpenOption K → Option String
  branch_of (with_branch b) = some b
  branch_of _ = none

  abbrev pub version_of : OpenOption K → Option ℕ
  version_of (with_version v) = some v
  version_of _ = none

  -- The value of the last option of a kind.
  abbrev pub last_of : {B : Type 0} → (OpenOption K → Option B) → List (OpenOption K) → Option B
  last_of f [] = none
  last_of f (o ∷ os) = elim (last_of f os) [ some b ↦ some b | none ↦ f o ]

  -- The configuration holds the last tag, branch and version.
  Holds : List (OpenOption K) → OpenConfig K → Type 0
  Holds os cfg =
      let c = apply_options os cfg in
      (c.tag_set ≡ (is_some (last_of tag_of os) || cfg.tag_set))
      × (c.tag ≡ text_or (last_of tag_of os) cfg.tag)
      × (c.branch_set ≡ (is_some (last_of branch_of os) || cfg.branch_set))
      × (c.branch ≡ text_or (last_of branch_of os) cfg.branch)
      × (c.version ≡ version_or (last_of version_of os) cfg.version)

  apply_options-Holds : (os : List (OpenOption K)) (cfg : OpenConfig K) → Holds os cfg
  unfolding Holds
  apply_options-Holds [] cfg = (refl, refl, refl, refl, refl)
  apply_options-Holds (with_tag t ∷ os) cfg =
      let (a, b, c, d, e) = apply_options-Holds os (record cfg { tag = t; tag_set = true }) in
      (ground arith, ground arith, ground arith, ground arith, ground arith)
  apply_options-Holds (with_branch t ∷ os) cfg =
      let (a, b, c, d, e) = apply_options-Holds os (record cfg { branch = t; branch_set = true }) in
      (ground arith, ground arith, ground arith, ground arith, ground arith)
  apply_options-Holds (with_version v ∷ os) cfg =
      let (a, b, c, d, e) = apply_options-Holds os (record cfg { version = some v }) in
      (ground arith, ground arith, ground arith, ground arith, ground arith)
  apply_options-Holds (o ∷ os) cfg =
      let (a, b, c, d, e) = apply_options-Holds os (apply_option o cfg) in
      (ground arith, ground arith, ground arith, ground arith, ground arith)

  -- The options ask for a tag, or for a branch, a version or both, in words.
  pub data Coherent (os : List (OpenOption K)) : Type 0 where
    by_tag :
        (t : String)
        → last_of tag_of os ≡ some t
        → same_text t "" ≡ false
        → last_of branch_of os ≡ none
        → last_of version_of os ≡ none
        → Coherent os
    by_branch :
        (b : String)
        → last_of tag_of os ≡ none
        → last_of branch_of os ≡ some b
        → same_text b "" ≡ false
        → Coherent os
    latest : last_of tag_of os ≡ none → last_of branch_of os ≡ none → Coherent os

  validate-Coherent :
      (os : List (OpenOption K)) → validate (apply_options os no_options) ≡ none → Coherent os
  unfolding validate Holds
  validate-Coherent os h =
      let (a, b, c, d, e) = apply_options-Holds os no_options in
      elim (Option-cases (last_of tag_of os)) [
        | inl untagged ↦ elim (Option-cases (last_of branch_of os)) [
          | inl unbranched ↦ latest untagged unbranched
          | inr (x, branched) ↦ by_branch x untagged branched (ground arith)
        ]
        | inr (t, tagged) ↦ by_tag t tagged (ground arith) (ground arith) (ground arith)
      ]

  Coherent-validate :
      (os : List (OpenOption K)) → Coherent os → validate (apply_options os no_options) ≡ none
  unfolding validate Holds
  Coherent-validate os (by_tag t tagged full unbranched unversioned) =
      let (a, b, c, d, e) = apply_options-Holds os no_options in ground arith
  Coherent-validate os (by_branch x untagged branched full) =
      let (a, b, c, d, e) = apply_options-Holds os no_options in ground arith
  Coherent-validate os (latest untagged unbranched) =
      let (a, b, c, d, e) = apply_options-Holds os no_options in ground arith

  -- The validation of `Open` passes exactly the lists of options whose last tag, branch and version
  -- make sense together: a tag that is not empty, alone; or no tag, and no branch or one that is not
  -- empty, with any version.
  pub validate-Coherent_iff :
      (os : List (OpenOption K)) → (validate (apply_options os no_options) ≡ none) ↔ Coherent os
  validate-Coherent_iff os = (validate-Coherent os, Coherent-validate os)
