-- ===== src/BriefingGate/Related.antt =====
-- The duplicates of briefing_gate.py: `_identities`, `_has_relationship` and
-- `_assert_deduplicated_or_related`.
use inno_scalping_crawling.Common.{
  Bool, true, false, not, ◌&&◌, ◌||◌, if◌then◌else◌, ltb, Option, none, some, List, [], ◌∷◌, ◌++◌,
  any, length, Text, codes, words, join_spaces, strip, text_eq, Result, raise_if, ◌>>◌,
}
use inno_scalping_crawling.Publication.{Value, field}
use inno_scalping_crawling.BriefingGate.{
  BriefingError, not_deduplicated, unrelated_duplicates, first, or_else, or_empty, is_given,
  is_false, value_present, str,
}

-- `_RELATION_KEYS`
unfoldable pub relation_keys : List Text
relation_keys =
    codes "relationship_to_existing"
    ∷ codes "existing_strategy_relationship"
    ∷ codes "existing_strategy_relation"
    ∷ codes "relationship"
    ∷ codes "relation"
    ∷ codes "related_strategy_ids"
    ∷ codes "related_strategies"
    ∷ codes "duplicate_of"
    ∷ codes "deduplication"
    ∷ codes "deduplication_note"
    ∷ codes "deduplication_notes"
    ∷ codes "novelty_status"
    ∷ []

abbrev present_or : Option Value → Option Value → Option Value
present_or v rest = if value_present v then v else rest

unfoldable pub first_present : Value → List Text → Option Value
first_present r [] = none
first_present r (name ∷ names) = present_or (field r name) (first_present r names)

-- `_relation_value`
unfoldable pub relation_value : Value → Option Value
relation_value r = or_else (first_present r relation_keys) (
    first_present (or_empty (first r (codes "metadata" ∷ codes "metadata_json" ∷ [])))
      relation_keys)

abbrev is_some : Option Value → Bool
is_some none = false
is_some (some _) = true

-- `_has_relationship`
unfoldable pub has_relationship : Value → Value → Bool
has_relationship section r =
    is_some (relation_value r)
    || value_present (
        first section
          (codes "relationships" ∷ codes "relationship_map" ∷ codes "deduplication_notes" ∷ []))

pub data Kind : Type 0 where
  candidate_field candidate strategy_field strategy name item : Kind

abbrev pub kind_eq : Kind → Kind → Bool
kind_eq candidate_field candidate_field = true
kind_eq candidate candidate = true
kind_eq strategy_field strategy_field = true
kind_eq strategy strategy = true
kind_eq name name = true
kind_eq item item = true
kind_eq _ _ = false

abbrev pub Identity : Type 0
Identity = Kind × Text

abbrev pub identity_eq : Identity → Identity → Bool
identity_eq (k, s) (l, t) = kind_eq k l && text_eq s t

-- The `str` of a mapping or a sequence, and `str.lower` with the whole table of letters.
module _ (repr : Value → Text) (lower_all : Text → Text) where
  abbrev given_text : Option Value → Text
  given_text none = []
  given_text (some v) = str repr v

  abbrev of_kind : Kind → Kind → Option Value → Option Value → List Identity
  of_kind with_field alone key field_name =
      if not (is_given key)
      then []
      else if is_given field_name
      then (with_field, strip (given_text key) ++ (b':' ∷ given_text field_name)) ∷ []
      else (alone, strip (given_text key)) ∷ []

  abbrev named : Option Value → Option Value → List Identity
  named canonical item_id =
      if is_given canonical
      then (name, join_spaces (words (lower_all (given_text canonical)))) ∷ []
      else if is_given item_id
      then (item, strip (given_text item_id)) ∷ []
      else []

  abbrev or_named : List Identity → List Identity → List Identity
  or_named [] others = others
  or_named (i ∷ identities) others = i ∷ identities

  -- `_identities`
  unfoldable pub identities : Value → List Identity
  identities r =
      let field_name = first r (codes "field_name" ∷ []) in
      or_named
        (of_kind candidate_field candidate
            (first r (codes "strategy_candidate_id" ∷ codes "candidate_id" ∷ [])) field_name
          ++ of_kind strategy_field strategy (first r (codes "strategy_id" ∷ [])) field_name)
        (named (first r (codes "canonical_name" ∷ codes "strategy_name" ∷ []))
          (first r (codes "briefing_item_id" ∷ [])))

  abbrev pub Groups : Type 0
  Groups = List (Identity × List Value)

  -- `groups.setdefault(identity, []).append(record)`
  unfoldable pub add : Identity → Value → Groups → Groups
  add i r [] = (i, r ∷ []) ∷ []
  add i r ((j, members) ∷ groups) =
      let rest = add i r groups in
      if identity_eq j i then (j, members ++ (r ∷ [])) ∷ groups else (j, members) ∷ rest

  unfoldable pub add_all : List Identity → Value → Groups → Groups
  add_all [] r groups = groups
  add_all (i ∷ is) r groups = add_all is r (add i r groups)

  unfoldable pub group : List Value → Groups → Groups
  group [] groups = groups
  group (r ∷ items) groups = group items (add_all (identities r) r groups)

  abbrev declares_incomplete : List Text → Value → Bool
  declares_incomplete [] r = false
  declares_incomplete (marker ∷ markers) r =
      marked (field r marker) || declares_incomplete markers r
    where
      marked : Option Value → Bool
      marked none = false
      marked (some v) = is_false v

  abbrev pub is_incomplete : Value → Bool
  is_incomplete = declares_incomplete (
      codes "deduplicated"
      ∷ codes "duplicates_removed"
      ∷ codes "duplicate_removed"
      ∷ codes "deduplication_complete"
      ∷ [])

  abbrev pub is_unrelated : Value → Identity × List Value → Bool
  is_unrelated section (_, members) =
      ltb 1 (length members) && not (any (has_relationship section) members)

  -- `_assert_deduplicated_or_related`
  unfoldable pub assert_deduplicated_or_related :
      Value → List Value → Result BriefingError (Unit {0})
  assert_deduplicated_or_related section items = do
    raise_if (any is_incomplete (section ∷ items)) not_deduplicated
    raise_if (any (is_unrelated section) (group items [])) unrelated_duplicates
