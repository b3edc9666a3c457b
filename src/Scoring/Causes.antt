-- ===== src/Scoring/Causes.antt =====
-- The causes for which `score_candidate` of scoring.py fails.
use mathlib.Core.Path.{subst}
use inno_scalping_crawling.Common.{
  sym, ◌∙◌, ◌≢◌, ℕ, ◌≡◌, refl, inl, inr, Bool, true, false, not, ◌&&◌, if◌then◌else◌, Option, none,
  some, arith, codes, ok, err, Result-cases, Bool-cases,
}
use inno_scalping_crawling.Publication.{
  Value, null, boolean, scalar, text, mapping, sequence, field,
}
use inno_scalping_crawling.Scoring.{
  ScoringError, candidate_required, not_iterable, exceeds_breakdown, two_documents, two_times,
  two_related, not_writable, Reading,
}
use inno_scalping_crawling.Scoring.Novelty.{NoveltyScore, novelty_score, raw_related_ids}
use inno_scalping_crawling.Scoring.Candidate.{
  Breakdown, ValueScoreResult, required, unwrapped, unwrap_candidate, score_candidate,
}
use inno_scalping_crawling.Scoring.Call.{Arguments, is_null, either_name, store_score}
use inno_scalping_crawling.Scoring.Totals.{scored_ends}

-- Both names of an argument are used, for two different objects.
abbrev pub AreTwo : Value → Value → Bool → Type 0
AreTwo first second same = (is_null first ≡ false) × (is_null second ≡ false) × (same ≡ false)

-- Why a scoring fails with an error.
unfoldable pub IsCause : Value → Arguments → ScoringError → Type 0
IsCause candidate args two_documents = AreTwo args.document_version args.document args.same_document
IsCause candidate args two_times = AreTwo args.as_of args.now false
IsCause candidate args two_related =
    AreTwo args.existing_candidates args.related_candidates args.same_related
IsCause candidate args candidate_required = candidate ≡ null
IsCause candidate args not_iterable =
    (version inner of_inner : Value) × (unwrap_candidate candidate version ≡ ok (inner, of_inner))
    × (raw_related_ids (field inner (codes "related_strategy_ids")) ≡ err not_iterable)
IsCause candidate args not_writable = (args.persist ≡ true) × (args.writable ≡ false)
IsCause candidate args exceeds_breakdown = ⊥

pub either_name_fails :
    (e x : ScoringError) (first second : Value) (same : Bool)
    → either_name e first second same ≡ err x
    → (x ≡ e) × AreTwo first second same
unfolding either_name
either_name_fails e x first second same h = elim (Bool-cases (is_null second)) [
  | inl missing ↦ absurd (ground arith)
  | inr given ↦ elim (Bool-cases (not (is_null first) && not same)) [
    | inr fine ↦ absurd (ground arith)
    | inl both ↦ let (a, b) = apart (is_null first) same both in (ground arith, (a, given, b))
  ]
]
  where
    apart : (a b : Bool) → (not a && not b) ≡ true → (a ≡ false) × (b ≡ false)
    apart a b h = ground arith

unwrap_fails :
    (candidate version : Value) (e : ScoringError)
    → unwrap_candidate candidate version ≡ err e
    → (e ≡ candidate_required) × (candidate ≡ null)
unfolding unwrap_candidate field
unwrap_fails null version e h = (ground arith, refl)
unwrap_fails (boolean b) version e h = absurd (ground arith)
unwrap_fails (scalar s b m) version e h = absurd (ground arith)
unwrap_fails (text s) version e h = absurd (ground arith)
unwrap_fails (sequence m) version e h = absurd (ground arith)
unwrap_fails (mapping m) version e h = absurd (by_inner (field (mapping m) (codes "candidate")) h)
  where
    by_inner : (o : Option Value) → required (unwrapped o (mapping m) version) ≡ err e → ⊥
    by_inner none h = ground arith
    by_inner (some null) h = ground arith
    by_inner (some (boolean _)) h = ground arith
    by_inner (some (scalar _ _ _)) h = ground arith
    by_inner (some (text _)) h = ground arith
    by_inner (some (mapping _)) h = ground arith
    by_inner (some (sequence _)) h = ground arith

novelty_fails :
    (reading : Reading) (candidate existing : Value) (e : ScoringError)
    → novelty_score reading candidate existing ≡ err e
    → (e ≡ not_iterable)
      × (raw_related_ids (field candidate (codes "related_strategy_ids")) ≡ err not_iterable)
unfolding novelty_score
novelty_fails reading candidate existing e h =
    elim (Result-cases (raw_related_ids (field candidate (codes "related_strategy_ids")))) [
      | inl (raw, good) ↦ absurd (ground arith)
      | inr (x, bad) ↦
          let same = ids_lem (field candidate (codes "related_strategy_ids")) x bad in
          (ground (arith, same), ground (arith, same))
    ]
  where
    ids_lem :
        (ids : Option Value) (e : ScoringError) → raw_related_ids ids ≡ err e → e ≡ not_iterable
    ids_lem ids e h = unfold raw_related_ids in ground arith

-- The candidate that is scored does not depend on the version that is given.
inner_unique :
    (candidate version other inner inner' of_inner of_inner' : Value)
    → unwrap_candidate candidate version ≡ ok (inner, of_inner)
    → unwrap_candidate candidate other ≡ ok (inner', of_inner')
    → inner ≡ inner'
unfolding unwrap_candidate
inner_unique candidate version other inner inner' of_inner of_inner' h h' =
    by_inner (field candidate (codes "candidate")) h h'
  where
    itself : (c v i o : Value) → required (c, v) ≡ ok (i, o) → i ≡ c
    itself null v i o h = absurd (ground arith)
    itself (boolean _) v i o h = ground arith
    itself (scalar _ _ _) v i o h = ground arith
    itself (text _) v i o h = ground arith
    itself (mapping _) v i o h = ground arith
    itself (sequence _) v i o h = ground arith

    by_inner :
        (x : Option Value)
        → required (unwrapped x candidate version) ≡ ok (inner, of_inner)
        → required (unwrapped x candidate other) ≡ ok (inner', of_inner')
        → inner ≡ inner'
    by_inner none h h' = itself candidate _ _ _ h ∙ sym (itself candidate _ _ _ h')
    by_inner (some null) h h' = itself candidate _ _ _ h ∙ sym (itself candidate _ _ _ h')
    by_inner (some (boolean b)) h h' =
        itself (boolean b) _ _ _ h ∙ sym (itself (boolean b) _ _ _ h')
    by_inner (some (scalar a b c)) h h' =
        itself (scalar a b c) _ _ _ h ∙ sym (itself (scalar a b c) _ _ _ h')
    by_inner (some (text s)) h h' = itself (text s) _ _ _ h ∙ sym (itself (text s) _ _ _ h')
    by_inner (some (mapping m)) h h' =
        itself (mapping m) _ _ _ h ∙ sym (itself (mapping m) _ _ _ h')
    by_inner (some (sequence m)) h h' =
        itself (sequence m) _ _ _ h ∙ sym (itself (sequence m) _ _ _ h')

pub either_name_not_two :
    (e : ScoringError) (x first second : Value) (same : Bool)
    → either_name e first second same ≡ ok x
    → ¬ AreTwo first second same
unfolding either_name
either_name_not_two e x first second same h (a, b, c) = ground arith

pub scored_no_cause :
    (reading : Reading) (candidate version existing : Value) (as_of : ℕ) (last : Value)
    (r : ValueScoreResult)
    → score_candidate reading candidate version existing as_of last ≡ ok r
    → (candidate ≢ null)
      × ((other inner of_inner : Value)
          → unwrap_candidate candidate other ≡ ok (inner, of_inner)
          → raw_related_ids (field inner (codes "related_strategy_ids")) ≢ err not_iterable)
scored_no_cause reading candidate version existing as_of last r h =
    elim (scored_ends reading candidate version existing as_of last) [
      | inl (x, bad, _) ↦ absurd (ground arith)
      | inr (inner, of_inner, n, taken, scored, _) ↦ (
        λ e.
            nothing version inner of_inner
              (subst (λ c. unwrap_candidate c version ≡ ok (inner, of_inner)) e taken),
        λ other inner' of_inner' u bad. iterated reading inner existing n scored (
            subst (λ c. raw_related_ids (field c (codes "related_strategy_ids")) ≡ err not_iterable)
              (inner_unique candidate other version inner' inner of_inner' of_inner u taken) bad),
      )
    ]
  where
    nothing : (v i o : Value) → unwrap_candidate null v ≡ ok (i, o) → ⊥
    nothing v i o h = unfold unwrap_candidate field in ground arith

    iterated :
        (reading : Reading) (inner existing : Value) (n : NoveltyScore)
        → novelty_score reading inner existing ≡ ok n
        → raw_related_ids (field inner (codes "related_strategy_ids")) ≡ err not_iterable
        → ⊥
    iterated reading inner existing n h bad = unfold novelty_score in ground arith

pub scored_fails :
    (reading : Reading) (candidate version existing : Value) (as_of : ℕ) (args : Arguments)
    (e : ScoringError)
    → score_candidate reading candidate version existing as_of args.last_successful_briefing_at
      ≡ err e
    → IsCause candidate args e
unfolding IsCause
scored_fails reading candidate version existing as_of args e h =
    elim (scored_ends reading candidate version existing as_of args.last_successful_briefing_at) [
      | inr (_, _, _, _, _, good) ↦ absurd (ground arith)
      | inl (x, bad, cause) ↦
          let same : x ≡ e = ground arith in
          subst (IsCause candidate args) same (elim cause [
            | inl no_candidate ↦
                let (e, is_null) = unwrap_fails candidate version x no_candidate in rw e is_null
            | inr (inner, of_inner, unwrapped, no_ids) ↦
                let (e, raw) = novelty_fails reading inner existing x no_ids in
                rw e (version, inner, of_inner, unwrapped, raw)
          ])
    ]

pub store_fails :
    (persist writable : Bool) (r : ValueScoreResult) (e : ScoringError)
    → store_score persist writable r ≡ err e
    → (e ≡ not_writable) × ((persist ≡ true) × (writable ≡ false))
unfolding store_score
store_fails persist writable r e h = elim (Bool-cases (persist && not writable)) [
  | inr fine ↦ absurd (ground arith)
  | inl closed ↦ (ground arith, both persist writable closed)
]
  where
    both : (a b : Bool) → (a && not b) ≡ true → (a ≡ true) × (b ≡ false)
    both a b h = ground arith

pub store_lem :
    (persist writable : Bool) (r : ValueScoreResult) (o : Option (ℕ × Breakdown))
    → store_score persist writable r ≡ ok o
    → (o ≡ (if persist then some (r.value_score, r.value_score_breakdown) else none))
      × ¬ ((persist ≡ true) × (writable ≡ false))
unfolding store_score
store_lem persist writable r o h = elim (Bool-cases (persist && not writable)) [
  | inr fine ↦ (ground arith, λ (p, w). open_or_not persist writable fine p w)
  | inl closed ↦ absurd (ground arith)
]
  where
    open_or_not : (a b : Bool) → (a && not b) ≡ false → a ≡ true → b ≡ false → ⊥
    open_or_not a b h p w = ground arith
