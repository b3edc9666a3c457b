-- ===== src/Routing.antt =====
-- src/scalping_briefing/pipeline/routing.py: a validated candidate goes to review or is rejected.
-- Finite numbers are whole thousandths, so a threshold of 60 is 60 000 and a confidence of 0.7 is
-- 700. The candidate and its document version are the two objects that the call changes; they are
-- given apart, as `_unpack_candidate` leaves them.
pub mod Decision
pub mod Effect
mod Examples
use inno_scalping_crawling.Common.{
  ℕ, ◌+◌, String, Bool, true, false, ◌&&◌, ◌||◌, Option, none, some, List, [], ◌∷◌, ◌++◌, Result,
  ok, err, str_eq, if◌then◌else◌, Text, codes, strip, text_eq, keep, between, ◌==◌, ◌>>=◌, ◌>>◌,
}
use inno_scalping_crawling.Common.Int.{ℤ, pos, ◌+ℤ◌, ◌-ℤ◌, ltb_ℤ, leb_ℤ}
use inno_scalping_crawling.StateMachine.{
  PipelineState, needs_review, rejected, value, InvalidTransition, transition,
}
use inno_scalping_crawling.StateMachine

-- A value of a field: not there, `None`, a boolean, a finite number, an infinity or NaN, a text with
-- the finite number that `float` reads in it, or anything else.
pub data PyValue : Type 0 where
  missing null not_finite other : PyValue
  boolean : Bool → PyValue
  finite : ℤ → PyValue
  text : Option ℤ → PyValue

-- `_number`
unfoldable pub number : PyValue → Option ℤ
number (finite n) = some n
number (text n) = n
number _ = none

abbrev pub is_missing : PyValue → Bool
is_missing missing = true
is_missing _ = false

abbrev pub is_none : PyValue → Bool
is_none null = true
is_none _ = false

-- The status of a core field as the candidate has it in `<field>_status` and in `field_status`;
-- `none` for what is no text.
pub record FieldStatus : Type 0 where
  pub direct : Option Text
  pub mapped : Option Text

pub data CoreField : Type 0 where
  core_hypothesis signal_inputs entry_logic exit_logic required_data risk_notes : CoreField

-- `CORE_CONFLICT_FIELDS`
abbrev pub core_conflict_fields : List CoreField
core_conflict_fields =
    core_hypothesis ∷ signal_inputs ∷ entry_logic ∷ exit_logic ∷ required_data ∷ risk_notes ∷ []

pub record Candidate : Type 0 where
  pub status_of : CoreField → FieldStatus
  pub value_score : PyValue
  pub extraction_confidence : PyValue
  pub review_status : Option PipelineState

-- The first of `processing_status`, `state` and `status` that is there and not `None`.
pub record DocumentVersion : Type 0 where
  pub processing_status : Option String
  pub state : Option String
  pub status : Option String

-- `str.casefold` as far as it can give the letters of "conflicting": capitals, and the ligature fl.
abbrev casefold_code : ℕ → Text
casefold_code c =
    if between 65 90 c then (c + 32) ∷ [] else if c == 64258 then codes "fl" else c ∷ []

unfoldable pub casefold : Text → Text
casefold [] = []
casefold (c ∷ s) = casefold_code c ++ casefold s

unfoldable pub is_conflicting : Option Text → Bool
unfolding casefold strip text_eq
is_conflicting none = false
is_conflicting (some s) = text_eq (casefold (strip s)) (codes "conflicting")

-- `_status_is_conflicting`
unfoldable pub status_is_conflicting : Candidate → CoreField → Bool
status_is_conflicting c field =
    is_conflicting (c.status_of field).direct || is_conflicting (c.status_of field).mapped

-- `_conflicting_fields`
unfoldable pub conflicting_fields : Candidate → List CoreField
unfolding status_is_conflicting
conflicting_fields c = keep (status_is_conflicting c) core_conflict_fields

pub data Reason : Type 0 where
  borderline_score missing_value_score low_extraction_confidence conflicting_core_field : Reason

pub data RoutingError : Type 0 where
  threshold_not_finite confidence_min_not_finite no_state : RoutingError
  invalid_transition : InvalidTransition → RoutingError

-- What the caller gives beside the two objects. `source` is the object that the candidate came in.
-- The `TypeError` for two names of one argument is left out.
pub record Call : Type 0 where
  pub candidate_score_threshold : PyValue
  pub extraction_confidence_min : PyValue
  pub threshold_setting : PyValue
  pub confidence_min_setting : PyValue
  pub value_score : PyValue
  pub score : PyValue
  pub extraction_confidence : PyValue
  pub source_value_score : PyValue
  pub source_score : PyValue
  pub source_confidence : PyValue

abbrev pub unless_none : PyValue → PyValue → PyValue
unless_none v later = if is_none v then later else v

abbrev unless_missing : PyValue → PyValue → PyValue
unless_missing v later = if is_missing v then later else v

unfoldable pub selected_score : Call → Candidate → PyValue
selected_score call c =
    unless_none (unless_none call.value_score call.score)
      (unless_missing c.value_score (unless_missing call.source_value_score call.source_score))

unfoldable pub selected_confidence : Call → Candidate → PyValue
selected_confidence call c =
    unless_none call.extraction_confidence
      (unless_missing c.extraction_confidence call.source_confidence)

abbrev pub ten : ℤ
ten = pos 10_000

abbrev pub score_reasons : ℤ → Option ℤ → List Reason
score_reasons threshold none = missing_value_score ∷ []
score_reasons threshold (some score) =
    if leb_ℤ (threshold -ℤ ten) score && leb_ℤ score (threshold +ℤ ten)
    then borderline_score ∷ []
    else []

abbrev pub confidence_reasons : ℤ → Option ℤ → List Reason
confidence_reasons minimum none = low_extraction_confidence ∷ []
confidence_reasons minimum (some confidence) =
    if ltb_ℤ confidence minimum then low_extraction_confidence ∷ [] else []

abbrev pub conflict_reasons : List CoreField → List Reason
conflict_reasons [] = []
conflict_reasons (_ ∷ _) = conflicting_core_field ∷ []

unfoldable pub reasons_for : ℤ → ℤ → Option ℤ → Option ℤ → List CoreField → List Reason
reasons_for threshold minimum score confidence conflicts =
    score_reasons threshold score
    ++ (confidence_reasons minimum confidence ++ conflict_reasons conflicts)

abbrev pub target_for : List Reason → PipelineState
target_for [] = rejected
target_for (_ ∷ _) = needs_review

abbrev first_some : Option String → Option String → Option String
first_some (some s) _ = some s
first_some none later = later

-- `_state`
unfoldable pub state_of : DocumentVersion → Option String
state_of v = first_some v.processing_status (first_some v.state v.status)

abbrev pub check_transition :
    {A : Type 0} → Result InvalidTransition A → Result RoutingError (Unit {0})
check_transition (ok _) = ok tt
check_transition (err e) = err (invalid_transition e)

abbrev pub move_state :
    DocumentVersion → PipelineState → Option String → Result RoutingError DocumentVersion
move_state v target none = err no_state
move_state v target (some current) = if str_eq current (value target) then ok v else (do
  check_transition
      (transition (StateMachine.StateRef.text current) (StateMachine.StateRef.text (value target)))
  ok (record v { processing_status = some (value target) }))

-- `_set_state`
unfoldable pub set_state : DocumentVersion → PipelineState → Result RoutingError DocumentVersion
unfolding state_of
set_state v target = move_state v target (state_of v)

pub record RoutingResult : Type 0 where
  pub candidate : Candidate
  pub document_version : DocumentVersion
  pub processing_status : PipelineState
  pub reasons : List Reason
  pub conflicting_fields : List CoreField
  pub value_score : Option ℤ
  pub extraction_confidence : Option ℤ

abbrev pub or_raise : Option ℤ → RoutingError → Result RoutingError ℤ
or_raise none e = err e
or_raise (some n) e = ok n

unfoldable pub route_candidate :
    Call → Candidate → DocumentVersion → Result RoutingError RoutingResult
route_candidate call c v = do
  threshold ←
      or_raise (number (unless_none call.candidate_score_threshold call.threshold_setting))
        threshold_not_finite
  minimum ←
      or_raise (number (unless_none call.extraction_confidence_min call.confidence_min_setting))
        confidence_min_not_finite
  let score = number (selected_score call c)
  let confidence = number (selected_confidence call c)
  let conflicts = conflicting_fields c
  let reasons = reasons_for threshold minimum score confidence conflicts
  let target = target_for reasons
  v' ← set_state v target
  ok (record {
    candidate = record c { review_status = some target };
    document_version = v';
    processing_status = target;
    reasons = reasons;
    conflicting_fields = conflicts;
    value_score = score;
    extraction_confidence = confidence;
  })
