-- ===== src/Scoring/Lookup.antt =====
-- `_lookup` and `_mapping_values` of scoring.py: a name is looked for in the candidate, in the
-- version of its document, and in the records inside them, breadth first. The code skips a record
-- that it has seen, which changes nothing in what it finds first.
use inno_scalping_crawling.Common.{
  ℕ, zero, suc, ◌+◌, ◌*◌, Option, none, some, List, [], ◌∷◌, ◌++◌, if◌then◌else◌, Text, codes,
}
use inno_scalping_crawling.Publication.{Value, Entries, null, mapping, sequence, end, entry, field}
use inno_scalping_crawling.Scoring.{is_present}

unfoldable pub nested_names : List Text
nested_names =
    codes "metadata"
    ∷ codes "metadata_json"
    ∷ codes "source"
    ∷ codes "source_metadata"
    ∷ codes "provenance"
    ∷ codes "document"
    ∷ codes "document_version"
    ∷ []

-- The mappings behind these names.
abbrev pub mapping_or : Option Value → List Value → List Value
mapping_or (some (mapping entries)) rest = mapping entries ∷ rest
mapping_or _ rest = rest

unfoldable pub mappings_at : List Text → Value → List Value
mappings_at [] v = []
mappings_at (name ∷ names) v = mapping_or (field v name) (mappings_at names v)

-- `_mapping_values`
unfoldable pub mapping_values : Value → List Value
mapping_values (mapping entries) = mapping entries ∷ mappings_at nested_names (mapping entries)
mapping_values v = []

-- The body of the loop over `nested_names`.
abbrev pub added : Option Value → List Value
added none = []
added (some null) = []
added (some v) = v ∷ mapping_values v

unfoldable pub nested_records : List Text → Value → List Value
nested_records [] r = []
nested_records (name ∷ names) r = added (field r name) ++ nested_records names r

-- The `while` loop, on fuel.
unfoldable pub collect : ℕ → List Value → List Value
collect zero queue = []
collect (suc fuel) [] = []
collect (suc fuel) (r ∷ queue) = r ∷ collect fuel (queue ++ nested_records nested_names r)

-- A record and all that the loop can add after it are no more than this.
unfoldable mutual
  pub weight : Value → ℕ
  weight (mapping entries) = 1 + 63 * entries_weight entries
  weight (sequence entries) = 1 + 63 * entries_weight entries
  weight _ = 1

  pub entries_weight : Entries → ℕ
  entries_weight end = 0
  entries_weight (entry _ v rest) = weight v + entries_weight rest

unfoldable pub queue_weight : List Value → ℕ
queue_weight [] = 0
queue_weight (r ∷ queue) = weight r + queue_weight queue

abbrev start : Value → List Value → List Value
start null rest = rest
start v rest = v ∷ rest

-- The candidate and its document version, unless they are `None`.
abbrev pub first_records : Value → Value → List Value
first_records candidate document_version = start candidate (start document_version [])

abbrev pub present_or : Option Value → Option Value → Option Value
present_or v rest = if is_present v then v else rest

unfoldable pub find_name : Text → List Value → Option Value
find_name name [] = none
find_name name (r ∷ records) = present_or (field r name) (find_name name records)

abbrev pub some_or : Option Value → Option Value → Option Value
some_or (some v) rest = some v
some_or none rest = rest

unfoldable pub find_names : List Text → List Value → Option Value
find_names [] records = none
find_names (name ∷ names) records = some_or (find_name name records) (find_names names records)

unfoldable pub lookup_value : Value → Value → List Text → Option Value
lookup_value candidate document_version names =
    let queue = first_records candidate document_version in
    find_names names (collect (queue_weight queue) queue)
