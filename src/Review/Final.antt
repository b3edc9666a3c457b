-- ===== src/Review/Final.antt =====
-- What stays of a decision on a briefing while review/service.py works on (review/service.py).
use inno_scalping_crawling.Common.{
  ◌≡◌, sym, ap, ◌∙◌, true, false, Option, some, arith, ok, inl, inr, Result-cases, Bool-cases,
  succeeds, Text, lookup, lookup-insert_self, lookup-insert_ne, text_eq, text_eq_sound,
}
use inno_scalping_crawling.StateMachine.{StateRef}
use inno_scalping_crawling.Review.{
  Store, ReviewRow, BriefingDecision, Amendment, FieldName, record_decision,
  record_briefing_decision, amend_field, is_publication_decision,
}
use inno_scalping_crawling.Review.Decisions.{record_decision_lem}
use inno_scalping_crawling.Review.Briefings.{record_briefing_decision_lem, decisions_not_decidable}
use inno_scalping_crawling.Review.Amendments.{amend_field_lem}

module _ {V : Type 0} where
  -- Operations of the service that succeed, one after the other, on any candidates and briefings.
  pub data Steps : Store V → Store V → Type 0 where
    no_more : (s : Store V) → Steps s s
    candidate_decided :
        (s t u : Store V) (candidate_id : Text) (reviewer_id comment : Option Text)
        (decision : StateRef) (review : ReviewRow)
        → record_decision s candidate_id reviewer_id decision comment ≡ ok (review, t)
        → Steps t u
        → Steps s u
    briefing_decided :
        (s t u : Store V) (now briefing_id : Text) (reviewer_id decision comment : Option Text)
        (made : BriefingDecision)
        → record_briefing_decision now s briefing_id reviewer_id decision comment ≡ ok (made, t)
        → Steps t u
        → Steps s u
    field_amended :
        (s t u : Store V) (now candidate_id : Text) (reviewer_id : Option Text)
        (field_name : FieldName) (proposed : V) (reason : Text) (made : Amendment V)
        → amend_field now s candidate_id reviewer_id field_name proposed reason ≡ ok (made, t)
        → Steps t u
        → Steps s u

  -- The briefing is there, with this decision as its status.
  pub record IsSettled (briefing_id decision : Text) (s : Store V) : Type 0 where
    pub status : lookup briefing_id s.briefings ≡ some (some decision)
    pub final : is_publication_decision decision ≡ true

  settled_refuses :
      (now briefing_id d : Text) (s : Store V) (reviewer_id decision comment : Option Text)
      → IsSettled briefing_id d s
      → succeeds (record_briefing_decision now s briefing_id reviewer_id decision comment) ≡ false
  settled_refuses now briefing_id d s reviewer_id decision comment settled =
      elim (Result-cases
        (record_briefing_decision now s briefing_id reviewer_id decision comment)) [
          | inr (x, failed) ↦ ground arith
          | inl ((again, t), done) ↦
              let p =
                record_briefing_decision_lem now s t briefing_id reviewer_id decision comment again
                  done in
              let there = sym p.there ∙ settled.status in
              let same : again.previous_publication_status ≡ d =
                ground (arith, p.previous, there) in
              ground (arith, p.decidable, same, decisions_not_decidable d settled.final)
        ]

  same_briefings-IsSettled :
      (briefing_id d : Text) (s t : Store V)
      → t.briefings ≡ s.briefings
      → IsSettled briefing_id d s
      → IsSettled briefing_id d t
  same_briefings-IsSettled briefing_id d s t same settled = record {
    status = ap (lookup briefing_id) same ∙ settled.status;
    final = settled.final;
  }

  briefing_decided-IsSettled :
      (now other briefing_id d : Text) (s t : Store V) (reviewer_id decision comment : Option Text)
      (made : BriefingDecision)
      → record_briefing_decision now s other reviewer_id decision comment ≡ ok (made, t)
      → IsSettled briefing_id d s
      → IsSettled briefing_id d t
  briefing_decided-IsSettled now other briefing_id d s t reviewer_id decision comment made h
        settled =
      let p = record_briefing_decision_lem now s t other reviewer_id decision comment made h in
      elim (Bool-cases (text_eq other briefing_id)) [
        | inr ne ↦ record {
          status =
              ap (lookup briefing_id) p.marked
              ∙ lookup-insert_ne briefing_id other (some made.decision) s.briefings ne
              ∙ settled.status;
          final = settled.final;
        }
        | inl same ↦
            let there =
              sym p.there
              ∙ ap (λ k. lookup k s.briefings) (text_eq_sound other briefing_id same)
              ∙ settled.status in
            let previous : made.previous_publication_status ≡ d =
              ground (arith, p.previous, there) in
            absurd (ground (arith, p.decidable, previous, decisions_not_decidable d settled.final))
      ]

  Steps-IsSettled :
      (briefing_id d : Text) (s t : Store V)
      → Steps s t
      → IsSettled briefing_id d s
      → IsSettled briefing_id d t
  Steps-IsSettled briefing_id d s t (no_more _) settled = settled
  Steps-IsSettled briefing_id d s t
        (candidate_decided _ m _ id reviewer_id comment decision review h rest) settled =
      Steps-IsSettled briefing_id d m t rest (
        same_briefings-IsSettled briefing_id d s m
          (record_decision_lem s m id reviewer_id comment decision review h).same_briefings settled)
  Steps-IsSettled briefing_id d s t
        (briefing_decided _ m _ now other reviewer_id decision comment made h rest) settled =
      Steps-IsSettled briefing_id d m t rest (
        briefing_decided-IsSettled now other briefing_id d s m reviewer_id decision comment made h
          settled)
  Steps-IsSettled briefing_id d s t
        (field_amended _ m _ now id reviewer_id name proposed reason made h rest) settled =
      Steps-IsSettled briefing_id d m t rest (
        same_briefings-IsSettled briefing_id d s m
          (amend_field_lem now s m id reviewer_id name proposed reason made h).same_briefings
          settled)

  -- After a decision on a briefing is taken, and after any further decisions on candidates or
  -- briefings and any amendments that the service takes, the briefing still has the status that was
  -- decided, and every other decision on it fails. What other parts of the program write, such as
  -- a rebuild of the briefing, is not among these operations.
  pub record_briefing_decision-final :
      (now : Text) (s s' t : Store V) (briefing_id : Text)
      (reviewer_id decision comment : Option Text) (made : BriefingDecision)
      → record_briefing_decision now s briefing_id reviewer_id decision comment ≡ ok (made, s')
      → Steps s' t
      → (lookup briefing_id t.briefings ≡ some (some made.decision))
        × ((later : Text) (later_reviewer later_decision later_comment : Option Text)
            → succeeds (
                record_briefing_decision later t briefing_id later_reviewer later_decision
                  later_comment)
              ≡ false)
  record_briefing_decision-final now s s' t briefing_id reviewer_id decision comment made h steps =
      let p =
        record_briefing_decision_lem now s s' briefing_id reviewer_id decision comment made h in
      let settled = Steps-IsSettled briefing_id made.decision s' t steps (record {
        status =
            ap (lookup briefing_id) p.marked
            ∙ lookup-insert_self briefing_id (some made.decision) s.briefings;
        final = p.allowed;
      }) in
      (
        settled.status,
        λ later r d c. settled_refuses later briefing_id made.decision t r d c settled,
      )
