-- ===== src/Version/Received.antt =====
-- A reference of lance/version.go as native code reads it (rust/src/version.rs).
use lance_go.Base.{ℕ, ◌≡◌, refl, false, Option, none, some, String}
use lance_go.Json.{member, JsonValue, Doc, same_text}
use lance_go.Version.{version_ref, tag_ref, ref_json}

-- The `Ref` of the lance crate.
pub data NativeRef : Type 0 where
  number : ℕ → NativeRef
  tagged : String → NativeRef

-- `RefJson::into_ref`; a field of the wrong kind is an error, which is none.
unfoldable pub into_ref :
    {F : Type 0} → Option (JsonValue F) → Option (JsonValue F) → Option NativeRef
into_ref (some (JsonValue.uint v)) none = some (number v)
into_ref none (some (JsonValue.str t)) = some (tagged t)
into_ref v t = none

-- `parse_ref`, of the document.
unfoldable pub parse_ref : {F : Type 0} → Doc F → Option NativeRef
unfolding into_ref
parse_ref d = into_ref (member "version" d) (member "tag" d)

-- What `VersionRef` and `TagRef` send arrives as that version, whatever its number, and as that tag,
-- when its name is not empty.
pub parse_ref-ref_json :
    (F : Type 0) (v : ℕ) (t : String)
    → same_text t "" ≡ false
    → (parse_ref (ref_json {F = F} (version_ref v)) ≡ some (number v))
      × (parse_ref (ref_json {F = F} (tag_ref t)) ≡ some (tagged t))
unfolding parse_ref ref_json
parse_ref-ref_json F v t named = (refl, rw named refl)
