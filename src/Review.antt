-- ===== src/Review.antt =====
-- src/scalping_briefing/review/service.py: the decisions and the amendments of reviewers. The store
-- holds the rows that `session.get` finds by their primary keys; `flush`, which only sends what the
-- call has set, is left out, and so are the read-only views.
pub mod Decisions
pub mod Briefings
pub mod Amendments
pub mod Final
mod Examples
use inno_scalping_crawling.Common.{
  String, Bool, not, ◌||◌, ◌⊎◌, inl, Option, none, some, List, [], ◌∷◌, ◌++◌, Result, ok, err,
  raise_if, if◌then◌else◌, Text, codes, strip, lower, is_filled, text_eq, lookup, insert, ◌>>=◌,
  ◌>>◌,
}
use inno_scalping_crawling.Routing.{CoreField}
use inno_scalping_crawling.StateMachine.{StateRef, enum, text, value, InvalidTransition, transition}

-- What a caller gives as the name of a field: one of `CORE_FIELDS` (pipeline/validate.py), or not.
pub data FieldName : Type 0 where
  core : CoreField → FieldName
  no_core_field : Text → FieldName

-- The values of the fields are of any type `V`.
module _ (V : Type 0) where
  pub record Amendment : Type 0 where
    pub amended_at : Text
    pub reviewer_id : Text
    pub field_name : CoreField
    pub previous_value : V
    pub proposed_value : V
    pub reason : Text

  -- `metadata_json["review_amendments"]`: not there, no list, or a list, whose entries can also be
  -- what others have left there.
  pub data History : Type 0 where
    absent not_list : History
    entries : List (Amendment ⊎ V) → History

  -- `metadata_json`: `None`, no mapping, or a mapping, with its other keys.
  pub data Metadata : Type 0 where
    null not_mapping : Metadata
    mapping : List (Text × V) → History → Metadata

  pub record StrategyCandidate : Type 0 where
    pub review_status : String
    pub field_value : CoreField → V
    pub metadata_json : Metadata

pub record ReviewRow : Type 0 where
  pub strategy_candidate_id : Text
  pub reviewer_id : Text
  pub decision : String
  pub comment : Option Text

-- `publication_status` of a `Briefing` is text or `None`.
module _ (V : Type 0) where
  pub record Store : Type 0 where
    pub candidates : List (Text × StrategyCandidate V)
    pub briefings : List (Text × Option Text)
    pub reviews : List ReviewRow

pub data ReviewError : Type 0 where
  reviewer_missing candidate_not_found briefing_not_found : ReviewError
  unknown_decision not_decidable unknown_field : ReviewError
  metadata_not_mapping amendments_not_list : ReviewError
  invalid_transition : InvalidTransition → ReviewError

-- The reviewer's name, `none` for what is no text.
abbrev pub check_reviewer : Option Text → Result ReviewError Text
check_reviewer none = err reviewer_missing
check_reviewer (some s) = if is_filled s then ok s else err reviewer_missing

abbrev pub found_or : {A : Type 0} → ReviewError → Option A → Result ReviewError A
found_or e none = err e
found_or e (some a) = ok a

-- `getattr(decision, "value", decision)`
abbrev pub ref_value : StateRef → String
ref_value (enum s) = value s
ref_value (text t) = t

abbrev pub check_transition :
    {A : Type 0} → Result InvalidTransition A → Result ReviewError (Unit {0})
check_transition (ok _) = ok tt
check_transition (err e) = err (invalid_transition e)

abbrev pub check_field : FieldName → Result ReviewError CoreField
check_field (core f) = ok f
check_field (no_core_field _) = err unknown_field

module _ {V : Type 0} where
  unfoldable pub record_decision :
      Store V
      → Text
      → Option Text
      → StateRef
      → Option Text
      → Result ReviewError (ReviewRow × Store V)
  record_decision s candidate_id reviewer_id decision comment = do
    reviewer ← check_reviewer reviewer_id
    candidate ← found_or candidate_not_found (lookup candidate_id s.candidates)
    let target = ref_value decision
    check_transition (transition (text candidate.review_status) (text target))
    let review : ReviewRow = record {
      strategy_candidate_id = candidate_id;
      reviewer_id = reviewer;
      decision = target;
      comment = comment;
    }
    ok (
      review,
      record s {
        candidates = insert candidate_id (record candidate { review_status = target }) s.candidates;
        reviews = s.reviews ++ (review ∷ []);
      },
    )

-- `BRIEFING_PUBLICATION_DECISIONS` and `BRIEFING_DECIDABLE_STATUSES`
unfoldable pub is_publication_decision : Text → Bool
is_publication_decision t =
    text_eq t (codes "approved") || text_eq t (codes "rejected") || text_eq t (codes "archived")

unfoldable pub is_decidable : Text → Bool
is_decidable t = text_eq t (codes "draft") || text_eq t (codes "pending_approval")

-- `str(value or "")`
abbrev pub or_empty : Option Text → Text
or_empty none = []
or_empty (some t) = t

pub record BriefingDecision : Type 0 where
  pub briefing_id : Text
  pub reviewer_id : Text
  pub decision : Text
  pub previous_publication_status : Text
  pub comment : Option Text
  pub decided_at : Text

module _ {V : Type 0} where
  -- `now` is `utc_now().isoformat()`. The decision is given as a text, or as `None`.
  unfoldable pub record_briefing_decision :
      Text
      → Store V
      → Text
      → Option Text
      → Option Text
      → Option Text
      → Result ReviewError (BriefingDecision × Store V)
  record_briefing_decision now s briefing_id reviewer_id decision comment = do
    reviewer ← check_reviewer reviewer_id
    let target = lower (strip (or_empty decision))
    raise_if (not (is_publication_decision target)) unknown_decision
    status ← found_or briefing_not_found (lookup briefing_id s.briefings)
    let previous = or_empty status
    raise_if (not (is_decidable previous)) not_decidable
    let made : BriefingDecision = record {
      briefing_id = briefing_id;
      reviewer_id = strip reviewer;
      decision = target;
      previous_publication_status = previous;
      comment = comment;
      decided_at = now;
    }
    ok (made, record s { briefings = insert briefing_id (some target) s.briefings })

  -- The mapping's other keys, and the amendments so far.
  abbrev pub other_keys : Metadata V → Result ReviewError (List (Text × V))
  other_keys null = ok []
  other_keys not_mapping = err metadata_not_mapping
  other_keys (mapping others _) = ok others

  abbrev pub history : Metadata V → Result ReviewError (List (Amendment V ⊎ V))
  history (mapping _ (entries l)) = ok l
  history (mapping _ not_list) = err amendments_not_list
  history _ = ok []

  unfoldable pub amend_field :
      Text
      → Store V
      → Text
      → Option Text
      → FieldName
      → V
      → Text
      → Result ReviewError (Amendment V × Store V)
  amend_field now s candidate_id reviewer_id field_name proposed reason = do
    reviewer ← check_reviewer reviewer_id
    field ← check_field field_name
    candidate ← found_or candidate_not_found (lookup candidate_id s.candidates)
    others ← other_keys candidate.metadata_json
    existing ← history candidate.metadata_json
    let amendment : Amendment V = record {
      amended_at = now;
      reviewer_id = reviewer;
      field_name = field;
      previous_value = candidate.field_value field;
      proposed_value = proposed;
      reason = reason;
    }
    let metadata = mapping others (entries (existing ++ (inl amendment ∷ [])))
    ok (
      amendment,
      record s {
        candidates =
            insert candidate_id (record candidate { metadata_json = metadata }) s.candidates;
      },
    )
