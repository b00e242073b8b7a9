-- ===== src/Tests/Index.antt =====
-- Runs of lance/index.go: the documents of two configurations, with a float64 as a number.
use Prim.Native.String.{String}
use lance_go.Base.{ℕ, ◌≡◌, refl, Bool, not, ◌==◌, ◌+◌, Option, none, some, List, [], ◌∷◌}
use lance_go.Base.Int.{ℤ, pos}
use lance_go.Errors.{Result, ok}
use lance_go.Json.{Doc, object, uint, field, empty, set}
use lance_go.Config.{Giving}
use lance_go.Index.Manage.{IndexInfo}
use lance_go.Index.{btree, index_params, scalar_params}
use lance_go.Index.Defaults.{AllGiven}
use lance_go.Index.Sent.{index_params_given}

abbrev pub nonzero : ℕ → Bool
nonzero x = not (x == 0)

abbrev pub shown : ℤ → String
shown d = "DistanceType(?)"

abbrev zone_doc : Doc ℕ
zone_doc = field "params" (object (field "zone_size" (uint 64) empty)) empty

zone_params : index_params nonzero shown (btree 64) ≡ ok (some zone_doc)
unfolding index_params scalar_params set
zone_params = refl

index_params_given_example : AllGiven nonzero zone_doc
index_params_given_example =
    index_params_given nonzero shown (λ z. refl) (btree 64) zone_doc zone_params

abbrev one : IndexInfo ℕ
one = record {
  name = "by_id";
  uuid = "u1";
  fields = [];
  dataset_version = 2;
  index_version = pos 1;
  created_at = none;
}

abbrev decode_list : String → Result (List (IndexInfo ℕ))
decode_list listed = ok (one ∷ [])

abbrev send_name : String → Result String
send_name name = ok name

abbrev native_load : ℕ → String → Giving ℕ (Option ℕ)
native_load p criterion t n = (0, some 100, n + 1)
