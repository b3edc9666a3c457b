-- ===== src/BriefingGate.antt =====
-- src/scalping_briefing/publishing/briefing_gate.py: what a briefing must record before it can be
-- delivered. The values are those of publishing/gate.py; `none` is `_MISSING`.
pub mod Sources
pub mod Sensitive
pub mod Pairs
pub mod DataWindow
pub mod Related
pub mod Groups
pub mod Approval
pub mod History
pub mod Whole
pub mod Chain
pub mod Safe
pub mod Recorded
mod Examples
use inno_scalping_crawling.Common.{
  Bool, true, false, not, Option, none, some, List, [], ◌∷◌, Text, codes, is_filled, lower, strip,
}
use inno_scalping_crawling.Publication.{
  Value, Entries, null, boolean, scalar, text, mapping, sequence, end, entry, field, values, one_of,
}
use inno_scalping_crawling.Publication.Item.{GateError}
use inno_scalping_crawling.Delivery.Guard.{GuardError}

pub data BriefingError : Type 0 where
  publication : GateError → BriefingError
  guard : GuardError → BriefingError
  no_quote_limit quote_limit_not_positive : BriefingError
  disallowed_source window_missing window_not_datetime window_reversed : BriefingError
  not_deduplicated unrelated_duplicates : BriefingError
  no_status not_approved item_not_approved sensitive_information key_mismatch : BriefingError

abbrev non_null : Option Value → Option Value → Option Value
non_null none rest = rest
non_null (some null) rest = rest
non_null (some v) rest = some v

-- `_first`
unfoldable pub first : Value → List Text → Option Value
first r [] = none
first r (name ∷ names) = non_null (field r name) (first r names)

abbrev pub or_else : Option Value → Option Value → Option Value
or_else none other = other
or_else (some v) other = some v

-- `default={}`
abbrev pub or_empty : Option Value → Value
or_empty none = mapping end
or_empty (some v) = v

-- `_pairs`
abbrev pub pairs : Value → Entries
pairs (mapping entries) = entries
pairs (sequence entries) = entries
pairs _ = end

-- `_records`: unlike in gate.py, a text is one record.
abbrev pub own_records : Value → List Value
own_records null = []
own_records (mapping entries) = mapping entries ∷ []
own_records (sequence entries) = values entries
own_records v = v ∷ []

-- `_section`
unfoldable pub section_of : Value → Value
section_of payload = nested (field payload (codes "briefing"))
  where
    nested : Option Value → Value
    nested none = payload
    nested (some null) = payload
    nested (some v) = v

abbrev pub item_names : List Text
item_names = codes "items" ∷ codes "briefing_items" ∷ []

abbrev items_or_section : Value → Option Value → Option Value → List Value
items_or_section section (some v) evidence = own_records v
items_or_section section none (some v) = section ∷ []
items_or_section section none none = []

-- `_items`
unfoldable pub items_of : Value → List Value
unfolding section_of
items_of payload =
    let section = section_of payload in
    items_or_section section (or_else (first section item_names) (first payload item_names))
      (first section (codes "evidence" ∷ []))

-- `_filled`
abbrev pub is_given : Option Value → Bool
is_given none = false
is_given (some null) = false
is_given (some (text s)) = is_filled s
is_given (some v) = true

-- `isinstance(value, str) and value.strip().lower() in words`
abbrev pub is_word : List Text → Value → Bool
is_word words (text s) = one_of words (lower (strip s))
is_word words _ = false

abbrev pub is_true : Value → Bool
is_true (boolean b) = b
is_true _ = false

-- `_is_false`
unfoldable pub is_false : Value → Bool
is_false (boolean b) = not b
is_false v =
    is_word
      (codes "false"
        ∷ codes "no"
        ∷ codes "denied"
        ∷ codes "deny"
        ∷ codes "blocked"
        ∷ codes "inactive"
        ∷ codes "disabled"
        ∷ codes "unknown"
        ∷ codes "not_allowed"
        ∷ codes "not-allowed"
        ∷ [])
      v

-- `_value_present`
unfoldable pub value_present : Option Value → Bool
value_present none = false
value_present (some null) = false
value_present (some (boolean b)) = b
value_present (some (scalar _ truth _)) = truth
value_present (some (text s)) = is_filled s
value_present (some (mapping end)) = false
value_present (some (mapping (entry _ _ _))) = true
value_present (some (sequence end)) = false
value_present (some (sequence (entry _ _ _))) = true

-- `str`; that of a mapping or a sequence is a parameter.
abbrev pub str : (Value → Text) → Value → Text
str repr null = codes "None"
str repr (boolean true) = codes "True"
str repr (boolean false) = codes "False"
str repr (scalar s _ _) = s
str repr (text s) = s
str repr v = repr v
