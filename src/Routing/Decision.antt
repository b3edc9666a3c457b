-- ===== src/Routing/Decision.antt =====
-- When routing.py rejects a candidate without a review.
use mathlib.Core.Path.{subst}
use inno_scalping_crawling.Common.{
  ◌≢◌, sym, ap, ◌∙◌, Option-cases, ltb→lt, ◌&&◌, ◌≡◌, refl, ◌↔◌, ◌⊎◌, Bool, false, Option, none,
  some, List, [], ◌∷◌, arith, ok, Result-cases, inl, inr, Bool-cases,
}
use inno_scalping_crawling.Common.Int.{ℤ, ◌+ℤ◌, ◌-ℤ◌, ◌≤ℤ◌, ◌<ℤ◌, leb_ℤ, ltb_ℤ, +ℤ_parts, -ℤ_parts}
use inno_scalping_crawling.StateMachine.{needs_review, rejected}
use inno_scalping_crawling.Routing.{
  Candidate, CoreField, DocumentVersion, Call, Reason, RoutingResult, number, ten, conflict_reasons,
  reasons_for, target_for, route_candidate, conflicting_fields, set_state, selected_score,
  selected_confidence, unless_none,
}

-- The score is known and more than ten away from the threshold, the confidence is known and not
-- below its minimum, and no core field is conflicting.
abbrev pub IsClear : ℤ → ℤ → Option ℤ → Option ℤ → List CoreField → Type 0
IsClear threshold minimum (some score) (some confidence) conflicts =
    ((score +ℤ ten <ℤ threshold) ⊎ (threshold +ℤ ten <ℤ score))
    × (minimum ≤ℤ confidence)
    × (conflicts ≡ [])
IsClear threshold minimum _ _ conflicts = ⊥

abbrev is_borderline : ℤ → ℤ → Bool
is_borderline threshold score = leb_ℤ (threshold -ℤ ten) score && leb_ℤ score (threshold +ℤ ten)

far_of_not_borderline :
    (threshold score : ℤ)
    → is_borderline threshold score ≡ false
    → (score +ℤ ten <ℤ threshold) ⊎ (threshold +ℤ ten <ℤ score)
far_of_not_borderline threshold score h = ground (arith, -ℤ_parts threshold ten, +ℤ_parts score ten)

not_borderline :
    (threshold score : ℤ)
    → (score +ℤ ten <ℤ threshold) ⊎ (threshold +ℤ ten <ℤ score)
    → is_borderline threshold score ≡ false
not_borderline threshold score h = ground (arith, -ℤ_parts threshold ten, +ℤ_parts score ten)

module _ (threshold minimum : ℤ) where
  target-IsClear :
      (score confidence : Option ℤ) (conflicts : List CoreField)
      → (target_for (reasons_for threshold minimum score confidence conflicts) ≡ rejected)
        ↔ IsClear threshold minimum score confidence conflicts
  unfolding reasons_for
  target-IsClear none confidence conflicts = (λ h. cc h, λ h. absurd h)
  target-IsClear (some score) none conflicts = (ground arith, λ h. absurd h)
  target-IsClear (some score) (some confidence) conflicts =
      elim (Bool-cases (is_borderline threshold score)) [
        | inl near ↦ (
          rw near (λ h. cc h),
          λ (far, _, _). absurd (cc (near, not_borderline threshold score far)),
        )
        | inr far ↦ elim (Bool-cases (ltb_ℤ confidence minimum)) [
          | inl low ↦
              (rw (far, low) (λ h. cc h), λ (_, enough, _). absurd (omega (arith, ltb→lt _ _ low)))
          | inr enough ↦
              rw (far, enough)
                (clear_conflicts conflicts (far_of_not_borderline threshold score far)
                  (ground arith))
        ]
      ]
    where
      clear_conflicts :
          (l : List CoreField)
          → (score +ℤ ten <ℤ threshold) ⊎ (threshold +ℤ ten <ℤ score)
          → minimum ≤ℤ confidence
          → (target_for (conflict_reasons l) ≡ rejected) ↔ (
              ((score +ℤ ten <ℤ threshold) ⊎ (threshold +ℤ ten <ℤ score))
              × (minimum ≤ℤ confidence)
              × (l ≡ []))
      clear_conflicts [] far enough = (λ _. (far, enough, refl), λ _. refl)
      clear_conflicts (f ∷ l) far enough = (λ h. cc h, λ h. absurd (cc h.2))

-- How a call of `route_candidate` that returns came to its result.
pub record Routed (call : Call) (c : Candidate) (v : DocumentVersion) (r : RoutingResult)
    : Type 0 where
  pub threshold : ℤ
  pub minimum : ℤ
  pub threshold_given :
      number (unless_none call.candidate_score_threshold call.threshold_setting) ≡ some threshold
  pub minimum_given :
      number (unless_none call.extraction_confidence_min call.confidence_min_setting) ≡ some minimum
  pub reasons :
      r.reasons
      ≡ reasons_for threshold minimum r.value_score r.extraction_confidence r.conflicting_fields
  pub target : r.processing_status ≡ target_for r.reasons
  pub score : r.value_score ≡ number (selected_score call c)
  pub confidence : r.extraction_confidence ≡ number (selected_confidence call c)
  pub conflicts : r.conflicting_fields ≡ conflicting_fields c
  pub moved : set_state v r.processing_status ≡ ok r.document_version
  pub marked : r.candidate ≡ record c { review_status = some r.processing_status }

pub route_inversion :
    (call : Call) (c : Candidate) (v : DocumentVersion) (r : RoutingResult)
    → route_candidate call c v ≡ ok r
    → Routed call c v r
unfolding route_candidate
route_inversion call c v r h =
    elim (Option-cases
      (number (unless_none call.candidate_score_threshold call.threshold_setting))) [
        | inl bad ↦ absurd (ground arith)
        | inr (threshold, et) ↦
            elim (Option-cases
              (number (unless_none call.extraction_confidence_min call.confidence_min_setting))) [
                | inl bad ↦ absurd (ground arith)
                | inr (minimum, em) ↦
                    let reasons =
                      reasons_for threshold minimum (number (selected_score call c))
                        (number (selected_confidence call c)) (conflicting_fields c) in
                    elim (Result-cases (set_state v (target_for reasons))) [
                      | inr (x, e) ↦ absurd (ground arith)
                      | inl (v', e) ↦ record {
                        threshold = threshold;
                        minimum = minimum;
                        threshold_given = et;
                        minimum_given = em;
                        reasons = ground arith;
                        target = ground arith;
                        score = ground arith;
                        confidence = ground arith;
                        conflicts = ground arith;
                        moved = ground arith;
                        marked = ground arith;
                      }
                    ]
              ]
      ]

-- A call of `route_candidate` that returns has a finite threshold and a finite minimum, from the
-- arguments or else the settings, and with these it rejects the candidate without a review exactly
-- if the score is known and more than ten points away from the threshold, the confidence is known
-- and not below the minimum, and none of the core fields is conflicting; and it sends the candidate
-- to review exactly if it gives a reason.
pub route_candidate-decision :
    (call : Call) (c : Candidate) (v : DocumentVersion) (r : RoutingResult)
    → route_candidate call c v ≡ ok r
    → (threshold : ℤ) × ((minimum : ℤ) × (number
            (unless_none call.candidate_score_threshold call.threshold_setting)
          ≡ some threshold)
        × (number (unless_none call.extraction_confidence_min call.confidence_min_setting)
            ≡ some minimum)
        × ((r.processing_status ≡ rejected)
            ↔ IsClear threshold minimum
                (number (selected_score call c))
                (number (selected_confidence call c))
                (conflicting_fields c))
        × ((r.processing_status ≡ needs_review) ↔ (r.reasons ≢ [])))
route_candidate-decision call c v r h =
    let q = route_inversion call c v r h in
    let e = q.target ∙ ap target_for (q.reasons ∙ same_inputs q) in
    (
      q.threshold,
      (
        q.minimum,
        q.threshold_given,
        q.minimum_given,
        subst
            (λ t.
              (t ≡ rejected)
              ↔ IsClear q.threshold q.minimum (number (selected_score call c))
                  (number (selected_confidence call c)) (conflicting_fields c))
            (sym e)
            (target-IsClear q.threshold q.minimum (number (selected_score call c))
              (number (selected_confidence call c)) (conflicting_fields c)),
        subst (λ t. (t ≡ needs_review) ↔ (r.reasons ≢ [])) (sym q.target) (reviewed r.reasons),
      ),
    )
  where
    same_inputs :
        (q : Routed call c v r)
        → reasons_for q.threshold q.minimum r.value_score r.extraction_confidence
            r.conflicting_fields
          ≡ reasons_for q.threshold q.minimum
              (number (selected_score call c))
              (number (selected_confidence call c))
              (conflicting_fields c)
    same_inputs q = cc (q.score, q.confidence, q.conflicts)

    reviewed : (l : List Reason) → (target_for l ≡ needs_review) ↔ (l ≢ [])
    reviewed [] = (λ e. absurd (cc e), λ ne. absurd (ne refl))
    reviewed (x ∷ l) = (λ _ e. cc e, λ _. refl)
