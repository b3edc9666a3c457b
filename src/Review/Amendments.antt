-- ===== src/Review/Amendments.antt =====
-- What `amend_field` of review/service.py does to a candidate and its history.
use inno_scalping_crawling.Common.{
  ◌≡◌, refl, sym, ap, ◌∙◌, Option, some, List, [], ◌∷◌, ◌++◌, ◌⊎◌, arith, ok, inl, inr,
  Option-cases, Result-cases, Text, lookup, insert, lookup-insert_self,
}
use inno_scalping_crawling.Review.{
  Store, StrategyCandidate, Amendment, FieldName, amend_field, history, other_keys, mapping,
  entries, check_reviewer, check_field,
}

module _ {V : Type 0} where
  pub record Amended (s : Store V) (candidate_id : Text) (proposed : V) (made : Amendment V)
      (s' : Store V) : Type 0 where
    pub before : StrategyCandidate V
    pub after : StrategyCandidate V
    pub earlier : List (Amendment V ⊎ V)
    pub there : lookup candidate_id s.candidates ≡ some before
    pub kept_there : lookup candidate_id s'.candidates ≡ some after
    pub had : history before.metadata_json ≡ ok earlier
    pub has : history after.metadata_json ≡ ok (earlier ++ (inl made ∷ []))
    pub other_metadata : other_keys after.metadata_json ≡ other_keys before.metadata_json
    pub same_fields : after.field_value ≡ before.field_value
    pub same_status : after.review_status ≡ before.review_status
    pub previous : made.previous_value ≡ before.field_value made.field_name
    pub proposal : made.proposed_value ≡ proposed
    pub same_reviews : s'.reviews ≡ s.reviews
    pub same_briefings : s'.briefings ≡ s.briefings

  -- An amendment that is taken is appended to the candidate's history, with the value that the field
  -- has and the value that is proposed for it; the fields, the status, the other metadata, the
  -- reviews and the briefings stay as they were.
  pub amend_field_lem :
      (now : Text) (s s' : Store V) (candidate_id : Text) (reviewer_id : Option Text)
      (field_name : FieldName) (proposed : V) (reason : Text) (made : Amendment V)
      → amend_field now s candidate_id reviewer_id field_name proposed reason ≡ ok (made, s')
      → Amended s candidate_id proposed made s'
  unfolding amend_field
  amend_field_lem now s s' candidate_id reviewer_id field_name proposed reason made h =
      elim (Result-cases (check_reviewer reviewer_id)) [
        | inr (x, bad) ↦ absurd (ground arith)
        | inl (reviewer, er) ↦ elim (Result-cases (check_field field_name)) [
          | inr (x, bad) ↦ absurd (ground arith)
          | inl (field, ef) ↦ elim (Option-cases (lookup candidate_id s.candidates)) [
            | inl bad ↦ absurd (ground arith)
            | inr (candidate, ec) ↦ elim (Result-cases (other_keys candidate.metadata_json)) [
              | inr (x, bad) ↦ absurd (ground arith)
              | inl (others, eo) ↦ elim (Result-cases (history candidate.metadata_json)) [
                | inr (x, bad) ↦ absurd (ground arith)
                | inl (existing, eh) ↦
                    let after : StrategyCandidate V = record candidate {
                      metadata_json = mapping others (entries (existing ++ (inl made ∷ [])));
                    } in
                    let stored : s'.candidates ≡ insert candidate_id after s.candidates =
                      ground arith in
                    record {
                      before = candidate;
                      after = after;
                      earlier = existing;
                      there = ec;
                      kept_there =
                          ap (lookup candidate_id) stored
                          ∙ lookup-insert_self candidate_id after s.candidates;
                      had = eh;
                      has = refl;
                      other_metadata = sym eo;
                      same_fields = refl;
                      same_status = refl;
                      previous = ground arith;
                      proposal = ground arith;
                      same_reviews = ground arith;
                      same_briefings = ground arith;
                    }
              ]
            ]
          ]
        ]
      ]
