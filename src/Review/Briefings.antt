-- ===== src/Review/Briefings.antt =====
-- What `record_briefing_decision` of review/service.py does to the status of a briefing.
use inno_scalping_crawling.Common.{
  ◌≡◌, refl, ap, true, false, Option, some, arith, ok, inl, inr, Option-cases, Result-cases,
  Bool-cases, Text, codes, strip, lower, lookup, insert, text_eq, text_eq_sound,
}
use inno_scalping_crawling.Review.{
  Store, BriefingDecision, record_briefing_decision, is_publication_decision, is_decidable,
  or_empty, check_reviewer,
}

decided_unless :
    (t u : Text) → text_eq t u ≡ true → is_publication_decision t ≡ is_publication_decision u
decided_unless t u e = ap is_publication_decision (text_eq_sound t u e)

draft_not_decided : is_publication_decision (codes "draft") ≡ false
unfolding is_publication_decision text_eq
draft_not_decided = refl

pending_not_decided : is_publication_decision (codes "pending_approval") ≡ false
unfolding is_publication_decision text_eq
pending_not_decided = refl

pub decisions_not_decidable : (t : Text) → is_publication_decision t ≡ true → is_decidable t ≡ false
unfolding is_decidable
decisions_not_decidable t h = elim (Bool-cases (text_eq t (codes "draft"))) [
  | inl e ↦ absurd (ground (arith, decided_unless t (codes "draft") e, draft_not_decided))
  | inr n ↦ elim (Bool-cases (text_eq t (codes "pending_approval"))) [
    | inl e ↦
        absurd (ground (arith, decided_unless t (codes "pending_approval") e, pending_not_decided))
    | inr m ↦ ground arith
  ]
]

module _ {V : Type 0} where
  pub record Published (s : Store V) (briefing_id : Text) (reviewer_id decision : Option Text)
      (made : BriefingDecision) (s' : Store V) : Type 0 where
    pub status : Option Text
    pub there : lookup briefing_id s.briefings ≡ some status
    pub previous : made.previous_publication_status ≡ or_empty status
    pub decidable : is_decidable made.previous_publication_status ≡ true
    pub decided : made.decision ≡ lower (strip (or_empty decision))
    pub allowed : is_publication_decision made.decision ≡ true
    pub marked : s'.briefings ≡ insert briefing_id (some made.decision) s.briefings
    pub same_candidates : s'.candidates ≡ s.candidates
    pub same_reviews : s'.reviews ≡ s.reviews

  -- A decision on a briefing that is taken is one of the three that a reviewer can take, finds the
  -- briefing in a status that can be decided, sets the status of this briefing and changes nothing
  -- else.
  pub record_briefing_decision_lem :
      (now : Text) (s s' : Store V) (briefing_id : Text)
      (reviewer_id decision comment : Option Text) (made : BriefingDecision)
      → record_briefing_decision now s briefing_id reviewer_id decision comment ≡ ok (made, s')
      → Published s briefing_id reviewer_id decision made s'
  unfolding record_briefing_decision
  record_briefing_decision_lem now s s' briefing_id reviewer_id decision comment made h =
      elim (Result-cases (check_reviewer reviewer_id)) [
        | inr (x, bad) ↦ absurd (ground arith)
        | inl (reviewer, er) ↦
            elim (Bool-cases (is_publication_decision (lower (strip (or_empty decision))))) [
              | inr bad ↦ absurd (ground arith)
              | inl allowed ↦ elim (Option-cases (lookup briefing_id s.briefings)) [
                | inl bad ↦ absurd (ground arith)
                | inr (status, es) ↦ elim (Bool-cases (is_decidable (or_empty status))) [
                  | inr bad ↦ absurd (ground arith)
                  | inl decidable ↦ record {
                    status = status;
                    there = es;
                    previous = ground arith;
                    decidable = ground arith;
                    decided = ground arith;
                    allowed = ground arith;
                    marked = ground arith;
                    same_candidates = ground arith;
                    same_reviews = ground arith;
                  }
                ]
              ]
            ]
      ]
