-- ===== src/Tests/Version.antt =====
-- Runs of lance/version.go: the checkout of a version, and a tag on its way to native code.
use lance_go.Base.{ℕ, ◌+◌, ◌≡◌, refl, Option, some, String}
use lance_go.Errors.{Result, ok}
use lance_go.Handle.{Handle}
use lance_go.Json.{Doc}
use lance_go.Config.{Giving}
use lance_go.Version.{version_ref, tag_ref, ref_json}
use lance_go.Version.Received.{number, tagged, parse_ref, parse_ref-ref_json}

parse_ref-ref_json_example :
    (parse_ref (ref_json {F = ℕ} (version_ref 0)) ≡ some (number 0))
    × (parse_ref (ref_json {F = ℕ} (tag_ref "v1")) ≡ some (tagged "v1"))
parse_ref-ref_json_example = parse_ref-ref_json ℕ 0 "v1" refl

abbrev send : Doc ℕ → Result String
send d = ok "{}"

abbrev native_checkout : ℕ → String → Giving ℕ ℕ
native_checkout p r t n = (0, p + 1, n + 1)

abbrev native_tag : ℕ → String → Option String → Giving ℕ (Unit {0})
native_tag p tag r t n = (0, tt, n + 1)

abbrev native_append : ℕ → ℕ → Giving ℕ (Unit {0})
native_append p rdr t n = (0, tt, n + rdr)
