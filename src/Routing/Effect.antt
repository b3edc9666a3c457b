-- ===== src/Routing/Effect.antt =====
-- What a call of routing.py's `route_candidate` does to its two objects.
use mathlib.Core.Path.{subst}
use inno_scalping_crawling.Common.{
  ◌≡◌, refl, sym, ap, ◌∙◌, ◌⊎◌, inl, inr, true, String, some, List, [], ◌∷◌, arith, ok,
  Result-cases, Option-cases, Bool-cases, str_eq, eq_iff,
}
use inno_scalping_crawling.Common.Int.{ℤ}
use inno_scalping_crawling.StateMachine.{
  PipelineState, validated, value, is_listed, transition, StateRef, text, state_value, find_state,
}
use inno_scalping_crawling.StateMachine.Names.{state_value-value, value-state_value}
use inno_scalping_crawling.Routing.{
  Candidate, DocumentVersion, Call, Reason, RoutingResult, number, unless_none, state_of, set_state,
  route_candidate, target_for, reasons_for, selected_score, selected_confidence, conflicting_fields,
}
use inno_scalping_crawling.Routing.Decision.{route_inversion}

-- Where the version was before it moved to `target`: there, or in a state from which the table of
-- transitions leads there.
abbrev pub CameFrom : PipelineState → String → Type 0
CameFrom target old =
    (old ≡ value target) ⊎ ((s : PipelineState) × (old ≡ value s) × (is_listed s target ≡ true))

transition_listed :
    (old : String) (target : PipelineState) (t : StateRef)
    → transition (text old) (text (value target)) ≡ ok t
    → (s : PipelineState) × (old ≡ value s) × (is_listed s target ≡ true)
unfolding transition
transition_listed old target t h = elim (Result-cases (state_value (text old))) [
  | inr (x, bad) ↦ absurd (ground arith)
  | inl (s, e) ↦ (s, sym (value-state_value old s e), ground (arith, state_value-value target))
]

-- `_set_state` leaves the version in the target's state.
abbrev pub Moved : DocumentVersion → PipelineState → DocumentVersion → Type 0
Moved v target v' =
    (state_of v' ≡ some (value target))
    × ((old : String) × (state_of v ≡ some old) × CameFrom target old)

set_state_name :
    (v : DocumentVersion) (target : PipelineState)
    → state_of (record v { processing_status = some (value target) }) ≡ some (value target)
unfolding state_of
set_state_name v target = refl

set_state-Moved :
    (v v' : DocumentVersion) (target : PipelineState)
    → set_state v target ≡ ok v'
    → Moved v target v'
unfolding set_state
set_state-Moved v v' target h = elim (Option-cases (state_of v)) [
  | inl bad ↦ absurd (ground arith)
  | inr (old, e) ↦ elim (Bool-cases (str_eq old (value target))) [
    | inl same ↦
        let name = (eq_iff old (value target)).0 same in
        let stays : v ≡ v' = ground arith in
        (subst (λ x. state_of x ≡ some (value target)) stays (e ∙ ap some name), (old, e, inl name))
    | inr other ↦ elim (Result-cases (transition (text old) (text (value target)))) [
      | inr (x, bad) ↦ absurd (ground arith)
      | inl (t, fine) ↦
          let moves : (record v { processing_status = some (value target) }) ≡ v' = ground arith in
          (
            subst (λ x. state_of x ≡ some (value target)) moves (set_state_name v target),
            (old, e, inr (transition_listed old target t fine)),
          )
    ]
  ]
]

-- A call of `route_candidate` that returns leaves the document version in the target's state and
-- marks the candidate with the same status; the version was there before, or in a state from which
-- the table of transitions leads there.
pub route_candidate-moves :
    (call : Call) (c : Candidate) (v : DocumentVersion) (r : RoutingResult)
    → route_candidate call c v ≡ ok r
    → (r.candidate ≡ record c { review_status = some r.processing_status })
      × Moved v r.processing_status r.document_version
route_candidate-moves call c v r h =
    let q = route_inversion call c v r h in
    (q.marked, set_state-Moved v r.document_version r.processing_status q.moved)

set_state-validated :
    (v : DocumentVersion) (reasons : List Reason)
    → state_of v ≡ some (value validated)
    → (v' : DocumentVersion) × (set_state v (target_for reasons) ≡ ok v')
unfolding set_state transition state_value find_state is_listed value
set_state-validated v [] h = (record v { processing_status = some "rejected" }, rw h refl)
set_state-validated v (r ∷ reasons) h =
    (record v { processing_status = some "needs_review" }, rw h refl)

-- A validated version is always routed: with a finite threshold and a finite minimum the call
-- returns a result.
pub route_candidate_returns :
    (call : Call) (c : Candidate) (v : DocumentVersion) (threshold minimum : ℤ)
    → number (unless_none call.candidate_score_threshold call.threshold_setting) ≡ some threshold
    → number (unless_none call.extraction_confidence_min call.confidence_min_setting) ≡ some minimum
    → state_of v ≡ some (value validated)
    → (r : RoutingResult) × (route_candidate call c v ≡ ok r)
unfolding route_candidate
route_candidate_returns call c v threshold minimum et em es =
    let reasons =
      reasons_for threshold minimum (number (selected_score call c))
        (number (selected_confidence call c)) (conflicting_fields c) in
    elim (Result-cases (route_candidate call c v)) [
      | inl done ↦ done
      | inr (x, bad) ↦
          let (v', moved) = set_state-validated v reasons es in absurd (ground (arith, moved))
    ]
