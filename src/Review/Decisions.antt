-- ===== src/Review/Decisions.antt =====
-- What `record_decision` of review/service.py does to a candidate and to the reviews.
use inno_scalping_crawling.Common.{
  ◌≡◌, true, false, Option, some, [], ◌∷◌, ◌++◌, arith, ok, inl, inr, Option-cases, Result-cases,
  Bool-cases, ap, ◌∙◌, Text, is_filled, lookup, insert, lookup-insert_ne, text_eq,
}
use inno_scalping_crawling.StateMachine.{
  PipelineState, StateRef, text, state_value, is_listed, transition,
}
use inno_scalping_crawling.Review.{
  StrategyCandidate, ReviewRow, Store, record_decision, check_reviewer, ref_value,
}

module _ {V : Type 0} where
  -- The candidate and the two states of a decision that was taken.
  pub record Decided (s : Store V) (candidate_id : Text) (reviewer_id : Option Text)
      (decision : StateRef) (review : ReviewRow) (s' : Store V) : Type 0 where
    pub candidate : StrategyCandidate V
    pub current : PipelineState
    pub target : PipelineState
    pub there : lookup candidate_id s.candidates ≡ some candidate
    pub named : reviewer_id ≡ some review.reviewer_id
    pub filled : is_filled review.reviewer_id ≡ true
    pub from_state : state_value (text candidate.review_status) ≡ ok current
    pub to_state : state_value (text (ref_value decision)) ≡ ok target
    pub listed : is_listed current target ≡ true
    pub about : review.strategy_candidate_id ≡ candidate_id
    pub decided : review.decision ≡ ref_value decision
    pub appended : s'.reviews ≡ s.reviews ++ (review ∷ [])
    pub marked :
        s'.candidates
        ≡ insert candidate_id (record candidate { review_status = review.decision }) s.candidates
    pub same_briefings : s'.briefings ≡ s.briefings

  -- A decision that is taken comes from a named reviewer, moves the candidate along the table of
  -- transitions, and appends one review of it; the earlier reviews and the briefings are kept.
  pub record_decision_lem :
      (s s' : Store V) (candidate_id : Text) (reviewer_id comment : Option Text)
      (decision : StateRef) (review : ReviewRow)
      → record_decision s candidate_id reviewer_id decision comment ≡ ok (review, s')
      → Decided s candidate_id reviewer_id decision review s'
  unfolding record_decision transition
  record_decision_lem s s' candidate_id reviewer_id comment decision review h =
      elim (Result-cases (check_reviewer reviewer_id)) [
        | inr (x, bad) ↦ absurd (ground arith)
        | inl (reviewer, er) ↦ elim (Option-cases (lookup candidate_id s.candidates)) [
          | inl bad ↦ absurd (ground arith)
          | inr (candidate, ec) ↦ elim (Result-cases (state_value (text candidate.review_status))) [
            | inr (x, bad) ↦ absurd (ground arith)
            | inl (current, ef) ↦ elim (Result-cases (state_value (text (ref_value decision)))) [
              | inr (x, bad) ↦ absurd (ground arith)
              | inl (target, et) ↦ elim (Bool-cases (is_listed current target)) [
                | inr bad ↦ absurd (ground arith)
                | inl listed ↦ record {
                  candidate = candidate;
                  current = current;
                  target = target;
                  there = ec;
                  named = ground arith;
                  filled = ground arith;
                  from_state = ef;
                  to_state = et;
                  listed = listed;
                  about = ground arith;
                  decided = ground arith;
                  appended = ground arith;
                  marked = ground arith;
                  same_briefings = ground arith;
                }
              ]
            ]
          ]
        ]
      ]

  -- A decision that is taken leaves every other candidate as it was.
  pub record_decision-others :
      (s s' : Store V) (candidate_id other : Text) (reviewer_id comment : Option Text)
      (decision : StateRef) (review : ReviewRow)
      → record_decision s candidate_id reviewer_id decision comment ≡ ok (review, s')
      → text_eq candidate_id other ≡ false
      → lookup other s'.candidates ≡ lookup other s.candidates
  record_decision-others s s' candidate_id other reviewer_id comment decision review h ne =
      let d = record_decision_lem s s' candidate_id reviewer_id comment decision review h in
      ap (lookup other) d.marked ∙ lookup-insert_ne other candidate_id _ s.candidates ne
