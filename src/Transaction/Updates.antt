-- ===== src/Transaction/Updates.antt =====
-- What an `UpdateConfigOperation` of lance/transaction.go makes of the tables that it updates.
use lance_go.Base.{Option, none, some, String}
use lance_go.Json.{JsonValue, member, str, object, Doc}
use lance_go.Maps.{Updates, merged}

-- What an update of an `UpdateConfigOperation` makes of a table, where no update is none.
abbrev pub updated : Option Updates → (String → Option String) → String → Option String
updated none table k = table k
updated (some u) table k = merged u table k

-- The reading of an `UpdateMap` (rust/src/transaction.rs): under "entries", each key with a string or
-- null. What it makes of a table: a key with null is deleted.
abbrev shown_value : {F : Type 0} → JsonValue F → Option String
shown_value (str v) = some v
shown_value _ = none

abbrev merges_entries : {F : Type 0} → Doc F → (String → Option String) → String → Option String
merges_entries d table k = elim (member k d) [ none ↦ table k | some v ↦ shown_value v ]

abbrev merges_object :
    {F : Type 0} → JsonValue F → (String → Option String) → String → Option String
merges_object (object d) table k = merges_entries d table k
merges_object _ table k = table k

abbrev merges_map : {F : Type 0} → JsonValue F → (String → Option String) → String → Option String
merges_map (object d) table k = elim (member "entries" d) [
  | none ↦ table k
  | some v ↦ merges_object v table k
]
merges_map _ table k = table k

-- What the member of this name in the document of an operation makes of a table.
abbrev pub merges_named :
    {F : Type 0} → String → Doc F → (String → Option String) → String → Option String
merges_named name d table k = elim (member name d) [
  | none ↦ table k
  | some v ↦ merges_map v table k
]
