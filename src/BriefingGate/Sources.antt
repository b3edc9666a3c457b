-- ===== src/BriefingGate/Sources.antt =====
-- Which sources briefing_gate.py disallows: `_assert_sources_allowed`.
use inno_scalping_crawling.Common.{
  Bool, false, ◌&&◌, ◌||◌, List, [], ◌∷◌, Text, codes, any, Result, raise_if,
}
use inno_scalping_crawling.Publication.{
  Value, Entries, mapping, sequence, end, entry, one_of, key_name,
}
use inno_scalping_crawling.BriefingGate.{
  BriefingError, disallowed_source, is_word, is_false, section_of,
}

-- `_SOURCE_CONTAINER_KEYS`, `_SOURCE_BOOLEAN_KEYS` and `_SOURCE_STATUS_KEYS`
unfoldable pub source_container_keys : List Text
source_container_keys =
    codes "source"
    ∷ codes "sources"
    ∷ codes "sourceresult"
    ∷ codes "sourceresults"
    ∷ codes "sourcestatus"
    ∷ codes "sourcestatuses"
    ∷ codes "sourcepolicy"
    ∷ codes "accesspolicy"
    ∷ codes "document"
    ∷ codes "documentversion"
    ∷ []

unfoldable pub source_boolean_keys : List Text
source_boolean_keys =
    codes "sourceallowed"
    ∷ codes "allowedsource"
    ∷ codes "allowlisted"
    ∷ codes "policyallowed"
    ∷ codes "sourcepolicyallowed"
    ∷ codes "accessallowed"
    ∷ codes "sourceapproved"
    ∷ codes "sourceactive"
    ∷ codes "sourceenabled"
    ∷ codes "sourcepolicyvalid"
    ∷ codes "robotsallowed"
    ∷ []

unfoldable pub source_status_keys : List Text
source_status_keys =
    codes "sourcestatus"
    ∷ codes "accessstatus"
    ∷ codes "accessdecision"
    ∷ codes "policydecision"
    ∷ codes "sourcedecision"
    ∷ []

abbrev pub policy_keys : List Text
policy_keys = codes "sourcepolicy" ∷ codes "accesspolicy" ∷ []

abbrev pub scoped_keys : List Text
scoped_keys = codes "active" ∷ codes "enabled" ∷ codes "allowed" ∷ []

-- `_is_bad_status`
unfoldable pub is_bad_status : Value → Bool
is_bad_status v =
    is_false v
    || is_word
        (codes "failed"
          ∷ codes "rejected"
          ∷ codes "denied"
          ∷ codes "blocked"
          ∷ codes "inactive"
          ∷ codes "unknown"
          ∷ codes "not_allowed"
          ∷ codes "not-allowed"
          ∷ [])
        v

-- Whether the loop's body raises on this pair; `scope` is `child_scope`.
unfoldable pub marker_denied : Bool → Text → Value → Bool
marker_denied scope name v =
    (one_of source_boolean_keys name && is_false v)
    || ((one_of policy_keys name && is_bad_status v)
        || ((one_of source_status_keys name && is_bad_status v)
            || (scope && (one_of scoped_keys name && is_false v))))

abbrev pub in_scope : Bool → Text → Bool
in_scope scope key = scope || one_of source_container_keys (key_name key)

-- Whether `walk` raises.
unfoldable mutual
  pub denied : Bool → Value → Bool
  denied scope (mapping entries) = entries_denied scope entries
  denied scope (sequence entries) = entries_denied scope entries
  denied scope _ = false

  pub entries_denied : Bool → Entries → Bool
  entries_denied scope end = false
  entries_denied scope (entry k v rest) =
      marker_denied (in_scope scope k) (key_name k) v
      || (denied (in_scope scope k) v || entries_denied scope rest)

-- `_assert_sources_allowed`
unfoldable pub assert_sources_allowed : Value → List Value → Result BriefingError (Unit {0})
assert_sources_allowed payload items =
    raise_if (any (denied false) (section_of payload ∷ items)) disallowed_source
