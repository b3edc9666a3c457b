-- ===== src/Scoring/Newness.antt =====
-- What scoring.py means by a new candidate.
use native.Mathlib.Nat.{le_of_mul-le-mul_left, mul-le-mul_left}
use mathlib.Core.Path.{subst}
use mathlib.Core.Bool.{true≢false}
use inno_scalping_crawling.Common.{
  ℕ, ◌*◌, ◌≤◌, ◌<◌, ◌≡◌, inl, inr, refl, sym, ◌∙◌, Bool, true, false, not, ◌&&◌, ◌||◌,
  if◌then◌else◌, none, List, [], ◌∷◌, arith, ltb, In, keep, Text, codes, text_lt, ok, Bool-cases,
  Result-cases, ok_inj, length-keep, keep_nil, leb→le, le→leb, map, join_spaces,
}
use inno_scalping_crawling.Publication.{Value, field, one_of}
use inno_scalping_crawling.Scoring.{Reading, field_text, text_of}
use inno_scalping_crawling.Scoring.Novelty.{
  NoveltyScore, scored, one_id, strategy_id, given_or, novelty_score, novelty_named,
  raw_related_ids, sorted_set, present_texts, comparisons, new, variant, compare_with, is_exact,
  compare_exact, by_similarity, Fraction, at_least, less, fraction, candidate_similarity, before,
  best_of, token_set, comparison_fields,
}

at_least_le :
    (h fp fw gp gw : ℕ) → fp * gw ≤ gp * fw → 0 < fw → h * fw ≤ 100 * fp → h * gw ≤ 100 * gp
at_least_le h fp fw gp gw le positive fits =
    le_of_mul-le-mul_left {m = h * gw} {n = 100 * gp} {k = fw}
      (omega (arith, mul-le-mul_left gw fits, mul-le-mul_left 100 le)) positive

whole_positive : (left right : List Text) → 0 < (fraction left right).whole
unfolding fraction
whole_positive [] right = omega arith
whole_positive (t ∷ left) [] = omega arith
whole_positive (t ∷ left) (u ∷ right) = omega (arith, length-keep (one_of (u ∷ right)) (t ∷ left))

at_least_lem :
    (h : ℕ) (f g : Fraction)
    → f.part * g.whole ≤ g.part * f.whole
    → 0 < f.whole
    → at_least h f ≡ true
    → at_least h g ≡ true
at_least_lem h f g le positive fits = le→leb (h * g.whole) (100 * g.part) (
    at_least_le h f.part f.whole g.part g.whole le positive
      (leb→le (h * f.whole) (100 * f.part) fits))

ordered :
    (a b : ℕ) (tie : Bool)
    → (ltb a b || (not (ltb b a) && tie) ≡ true → a ≤ b)
      × (ltb a b || (not (ltb b a) && tie) ≡ false → b ≤ a)
ordered a b tie = (λ h. ground arith, λ h. ground arith)

ranked :
    (f g : Fraction) (tie : Bool)
    → less f g || (not (less g f) && tie) ≡ true
    → f.part * g.whole ≤ g.part * f.whole
ranked f g tie = (ordered (f.part * g.whole) (g.part * f.whole) tie).0

not_ranked :
    (f g : Fraction) (tie : Bool)
    → less f g || (not (less g f) && tie) ≡ false
    → g.part * f.whole ≤ f.part * g.whole
not_ranked f g tie = (ordered (f.part * g.whole) (g.part * f.whole) tie).1

not_close :
    (b c : Bool) (ids : List Text)
    → (if b
        then scored 3 variant ids
        else if c
        then scored 6 variant ids
        else scored 10 new []).status
      ≡ new
    → c ≡ false
not_close true c ids h = absurd (ground arith)
not_close false true ids h = absurd (ground arith)
not_close false false ids h = refl

module _ (reading : Reading) where
  abbrev similarity : Value → Value → Fraction
  similarity candidate other = candidate_similarity reading candidate other

  positive : (candidate other : Value) → 0 < (similarity candidate other).whole
  unfolding candidate_similarity
  positive candidate other =
      whole_positive
        (token_set reading (join_spaces (map (field_text candidate) comparison_fields)))
        (token_set reading (join_spaces (map (field_text other) comparison_fields)))

  abbrev tie : Value → Value → Value → Bool
  tie candidate a b =
      text_lt (field_text a (codes "candidate_id")) (field_text b (codes "candidate_id"))

  before_lem :
      (candidate a b : Value)
      → before reading candidate a b
        ≡ less (similarity candidate b) (similarity candidate a)
          || (not (less (similarity candidate a) (similarity candidate b)) && tie candidate a b)
  unfolding before
  before_lem candidate a b = refl

  keeps_better :
      (h : ℕ) (candidate best other : Value)
      → at_least h (similarity candidate best) ≡ true
      → at_least h
          (similarity candidate (if before reading candidate other best then other else best))
        ≡ true
  keeps_better h candidate best other fits =
      elim (Bool-cases (before reading candidate other best)) [
        | inr stays ↦ rw stays fits
        | inl better ↦ rw better (
            at_least_lem h (similarity candidate best) (similarity candidate other)
              (ranked (similarity candidate best) (similarity candidate other)
                (tie candidate other best) (sym (before_lem candidate other best) ∙ better))
              (positive candidate best) fits)
      ]

  takes_better :
      (h : ℕ) (candidate best other : Value)
      → at_least h (similarity candidate other) ≡ true
      → at_least h
          (similarity candidate (if before reading candidate other best then other else best))
        ≡ true
  takes_better h candidate best other fits =
      elim (Bool-cases (before reading candidate other best)) [
        | inl better ↦ rw better fits
        | inr stays ↦ rw stays (
            at_least_lem h (similarity candidate other) (similarity candidate best)
              (not_ranked (similarity candidate best) (similarity candidate other)
                (tie candidate other best) (sym (before_lem candidate other best) ∙ stays))
              (positive candidate other) fits)
      ]

  best_of-keeps :
      (h : ℕ) (candidate best : Value) (others : List Value)
      → at_least h (similarity candidate best) ≡ true
      → at_least h (similarity candidate (best_of reading candidate best others)) ≡ true
  unfolding best_of
  best_of-keeps h candidate best [] fits = fits
  best_of-keeps h candidate best (other ∷ others) fits =
      best_of-keeps h candidate (if before reading candidate other best then other else best) others
        (keeps_better h candidate best other fits)

  -- If any of the compared candidates is so similar, the best one is.
  pub best_of-In :
      (h : ℕ) (candidate best other : Value) (others : List Value)
      → In other (best ∷ others)
      → at_least h (similarity candidate other) ≡ true
      → at_least h (similarity candidate (best_of reading candidate best others)) ≡ true
  unfolding best_of
  best_of-In h candidate best other others (inl e) fits =
      best_of-keeps h candidate best others
        (subst (λ x. at_least h (similarity candidate x) ≡ true) e fits)
  best_of-In h candidate best other [] (inr m) fits = absurd m
  best_of-In h candidate best other (next ∷ others) (inr (inl e)) fits =
      best_of-keeps h candidate (if before reading candidate next best then next else best) others (
        takes_better h candidate best next
          (subst (λ x. at_least h (similarity candidate x) ≡ true) e fits))
  best_of-In h candidate best other (next ∷ others) (inr (inr m)) fits =
      best_of-In h candidate (if before reading candidate next best then next else best) other
        others (inr m) fits

  exact_lem :
      (candidate : Value) (exact : List Value) (otherwise : NoveltyScore)
      → (compare_exact reading candidate exact otherwise).status ≡ new
      → (exact ≡ []) × (otherwise.status ≡ new)
  unfolding compare_exact
  exact_lem candidate [] otherwise h = (refl, h)
  exact_lem candidate (e ∷ exact) otherwise h = absurd (ground arith)

  by_similarity_lem :
      (candidate best : Value)
      → (by_similarity reading candidate best).status ≡ new
      → at_least 35 (similarity candidate best) ≡ false
  unfolding by_similarity
  by_similarity_lem candidate best h =
      not_close (at_least 65 (similarity candidate best)) (at_least 35 (similarity candidate best))
        (one_id (text_of (strategy_id reading best))) h

  compare_with-new :
      (candidate other : Value) (others : List Value) (ids : List Text)
      → (compare_with reading candidate others ids).status ≡ new
      → In other others
      → (is_exact reading candidate other ≡ false)
        × (at_least 35 (similarity candidate other) ≡ false)
  unfolding compare_with
  compare_with-new candidate other [] ids h m = absurd m
  compare_with-new candidate other (first ∷ others) ids h m =
      let best = best_of reading candidate first others in
      let (nothing, similar) =
        exact_lem candidate (keep (is_exact reading candidate) (first ∷ others))
          (by_similarity reading candidate best) h in
      let far = by_similarity_lem candidate best similar in
      (
        keep_nil (is_exact reading candidate) other (first ∷ others) nothing m,
        elim (Bool-cases (at_least 35 (similarity candidate other))) [
          | inr below ↦ below
          | inl close ↦
              absurd (true≢false (sym (best_of-In 35 candidate first other others m close) ∙ far))
        ],
      )

  -- A candidate without a novelty status of its own that scoring finds to be new has nothing close to
  -- it: no existing candidate that it is compared with has its name, and with none it shares 35 or
  -- more of 100 words of their compared fields.
  pub novelty_score-new :
      (candidate existing other : Value) (n : NoveltyScore)
      → novelty_named (reading.casefold (field_text candidate (codes "novelty_status"))) ≡ none
      → novelty_score reading candidate existing ≡ ok n
      → n.status ≡ new
      → In other (comparisons reading candidate existing)
      → (is_exact reading candidate other ≡ false)
        × (at_least 35 (candidate_similarity reading candidate other) ≡ false)
  unfolding novelty_score given_or
  novelty_score-new candidate existing other n unnamed h is_new m =
      elim (Result-cases (raw_related_ids (field candidate (codes "related_strategy_ids")))) [
        | inr (e, bad) ↦ absurd (ground arith)
        | inl (raw, good) ↦
            let ids = sorted_set (present_texts raw) in
            let others = comparisons reading candidate existing in
            let same =
              ok_inj (compare_with reading candidate others ids) n
                (novelty_score reading candidate existing) (rw (good, unnamed) refl) h in
            compare_with-new candidate other others ids
              (subst (λ (x : NoveltyScore). x.status ≡ new) (sym same) is_new) m
      ]
