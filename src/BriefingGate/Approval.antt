-- ===== src/BriefingGate/Approval.antt =====
-- Approval in briefing_gate.py: `_approved`, `_is_internal_draft` and
-- `_assert_approval_or_internal_draft`.
use mathlib.Core.Path.{◌≡◌}
use inno_scalping_crawling.Common.{
  ◌⊎◌, inl, inr, arith, Bool, true, false, not, ◌&&◌, ◌||◌, if◌then◌else◌, Option, none, some, List,
  [], ◌∷◌, any, All, Text, codes, is_filled, Result, ok, raise_if, Bool-cases, ◌>>◌,
}
use inno_scalping_crawling.Publication.{
  Value, Entries, null, text, end, entry, field, one_of, key_name,
}
use inno_scalping_crawling.BriefingGate.{
  BriefingError, no_status, not_approved, item_not_approved, first, or_else, or_empty, pairs,
  is_word, is_true,
}

abbrev pub approved_words : List Text
approved_words = codes "approved" ∷ codes "published" ∷ []

abbrev pub maybe : (Value → Bool) → Option Value → Bool
maybe test none = false
maybe test (some v) = test v

abbrev pub status_names : List Text
status_names = codes "review_status" ∷ codes "publication_status" ∷ codes "status" ∷ []

abbrev of_candidate : Option Value → Option Value
of_candidate none = none
of_candidate (some null) = none
of_candidate (some candidate) = first candidate status_names

-- `_approved`
unfoldable pub approved : Value → Bool
approved r =
    maybe is_true (first r (codes "approved" ∷ codes "is_approved" ∷ []))
    || maybe (is_word approved_words)
        (or_else (first r status_names) (of_candidate (field r (codes "strategy_candidate"))))

-- `_INTERNAL_MARKER_KEYS`
unfoldable pub internal_marker_keys : List Text
internal_marker_keys =
    codes "internaldraft"
    ∷ codes "isinternaldraft"
    ∷ codes "internalonly"
    ∷ codes "draftonly"
    ∷ codes "notforexternal"
    ∷ codes "internal"
    ∷ []

-- The body of the loop over the collected values.
unfoldable pub is_internal : Value → Bool
is_internal v =
    is_true v
    || is_word
        (codes "internal"
          ∷ codes "internal_only"
          ∷ codes "internal-draft"
          ∷ codes "private"
          ∷ codes "review"
          ∷ codes "reviewer"
          ∷ [])
        v

unfoldable pub any_internal : Entries → Bool
any_internal end = false
any_internal (entry key v rest) =
    (one_of internal_marker_keys (key_name key) && is_internal v) || any_internal rest

-- `_is_internal_draft`
unfoldable pub is_internal_draft : Value → Bool
is_internal_draft section =
    any_internal (pairs section)
    || (any (λ name. maybe is_internal (first section (name ∷ [])))
          (codes "audience" ∷ codes "delivery_scope" ∷ codes "publication_audience" ∷ [])
        || any_internal
            (pairs (or_empty (first section (codes "metadata" ∷ codes "metadata_json" ∷ [])))))

abbrev pub briefing_status : Value → Option Value
briefing_status section = first section (codes "publication_status" ∷ codes "status" ∷ [])

abbrev pub is_filled_text : Value → Bool
is_filled_text (text s) = is_filled s
is_filled_text _ = false

-- `_assert_approval_or_internal_draft`
unfoldable pub assert_approval_or_internal_draft :
    Value → List Value → Result BriefingError (Unit {0})
assert_approval_or_internal_draft section items =
    let checked = (do
      raise_if (not (maybe is_filled_text (briefing_status section))) no_status
      raise_if (not (maybe (is_word approved_words) (briefing_status section))) not_approved
      raise_if (any (λ item. not (approved item)) items) item_not_approved) in
    if is_internal_draft section then ok tt else checked

all_approved :
    (items : List Value)
    → any (λ item. not (approved item)) items ≡ false
    → All (λ item. approved item ≡ true) items
all_approved [] h = tt
all_approved (item ∷ items) h = (ground arith, all_approved items (ground arith))

pub assert_approval_lem :
    (section : Value) (items : List Value)
    → assert_approval_or_internal_draft section items ≡ ok tt
    → (is_internal_draft section ≡ true)
      ⊎ ((maybe (is_word approved_words) (briefing_status section) ≡ true)
          × All (λ item. approved item ≡ true) items)
unfolding assert_approval_or_internal_draft
assert_approval_lem section items h = elim (Bool-cases (is_internal_draft section)) [
  | inl internal ↦ inl internal
  | inr external ↦ elim (Bool-cases (maybe (is_word approved_words) (briefing_status section))) [
    | inr bad ↦ absurd (ground arith)
    | inl good ↦ elim (Bool-cases (any (λ item. not (approved item)) items)) [
      | inl bad ↦ absurd (ground arith)
      | inr all ↦ inr (good, all_approved items all)
    ]
  ]
]
