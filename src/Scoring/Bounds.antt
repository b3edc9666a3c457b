-- ===== src/Scoring/Bounds.antt =====
-- The points of the criteria of scoring.py and their sum: no limit is ever passed.
use mathlib.Core.Path.{subst}
use inno_scalping_crawling.Common.{
  ℕ, ◌≤◌, ◌≡◌, inl, inr, refl, Bool, true, false, if◌then◌else◌, Option, none, some, List, [], ◌∷◌,
  Text, codes, keep, map, leb, arith, ok, Result-cases, ok_inj,
}
use inno_scalping_crawling.Common.Int.{ℤ, pos, negsuc}
use inno_scalping_crawling.Publication.{Value, field}
use inno_scalping_crawling.Scoring.{Reading, criterion, clamp_score, points, text_of, field_text}
use inno_scalping_crawling.Scoring.Criteria.{
  by_quality, rated, unrated, round_hundreds, completeness, horizon_points, relevance_status_points,
  reliability_points, reproducibility_points, relevance_points,
}
use inno_scalping_crawling.Scoring.Novelty.{
  NoveltyScore, Novelty, unknown, new, variant, duplicate, scored, novelty_score, compare_with,
  by_similarity, compare_exact, given_or, comparisons, is_exact, best_of, strategy_id, sorted_set,
  present_texts, at_least, candidate_similarity, one_id, novelty_points, novelty_named,
  raw_related_ids,
}
use inno_scalping_crawling.Scoring.Recency.{timing_points, change_points, recency_points}

pub clamp_at_most : (n maximum : ℕ) → clamp_score n maximum ≤ maximum
unfolding clamp_score
clamp_at_most n maximum = ground arith

pub clamp_small : (n maximum : ℕ) → n ≤ maximum → clamp_score n maximum ≡ n
unfolding clamp_score
clamp_small n maximum h = ground arith

choice_at_most : (n : ℕ) (b : Bool) (x y : ℕ) → x ≤ n → y ≤ n → (if b then x else y) ≤ n
choice_at_most n true x y hx hy = hx
choice_at_most n false x y hx hy = hy

points_at_most : (n : ℕ) (b : Bool) → points n b ≤ n
unfolding points
points_at_most n b = ground arith

module _ (reading : Reading) (candidate document_version : Value) where
  quality_at_most :
      (one two q : ℕ) → one ≤ two → by_quality reading candidate document_version one two q ≤ two
  unfolding by_quality
  quality_at_most one two q h = ground arith

  unrated_at_most : unrated reading candidate document_version ≤ 10
  unfolding unrated
  unrated_at_most = ground arith

  rated_at_most : (confidence : Option ℤ) → rated reading candidate document_version confidence ≤ 10
  unfolding rated
  rated_at_most none = unrated_at_most
  rated_at_most (some (negsuc n)) = unrated_at_most
  rated_at_most (some (pos n)) =
      choice_at_most 10 (leb n 1000) (clamp_score (round_hundreds n) 10)
        (unrated reading candidate document_version) (clamp_at_most (round_hundreds n) 10)
        unrated_at_most

  completeness_at_most : completeness reading candidate document_version ≤ 4
  unfolding completeness
  completeness_at_most = ground arith

  horizon_at_most : horizon_points reading candidate document_version ≤ 6
  unfolding horizon_points
  horizon_at_most = ground arith

  status_at_most :
      (status : Text) → relevance_status_points reading candidate document_version status ≤ 2
  unfolding relevance_status_points
  status_at_most status = ground arith

  pub reliability_at_most : reliability_points reading candidate document_version ≤ 30
  unfolding reliability_points
  reliability_at_most = grind (arith, points_at_most, rated_at_most)

  pub reproducibility_at_most : reproducibility_points reading candidate document_version ≤ 25
  unfolding reproducibility_points
  reproducibility_at_most = grind (arith, points_at_most, quality_at_most, completeness_at_most)

  pub relevance_at_most : relevance_points reading candidate document_version ≤ 20
  unfolding relevance_points
  relevance_at_most =
      grind (arith, points_at_most, quality_at_most, horizon_at_most, status_at_most)

pub recency_at_most :
    (as_of : ℕ) (latest comparison : Option ℕ) → recency_points as_of latest comparison ≤ 15
unfolding recency_points timing_points change_points points
recency_at_most as_of none comparison = omega arith
recency_at_most as_of (some latest) none = ground arith
recency_at_most as_of (some latest) (some c) = ground arith

choice_score :
    (b : Bool) (x y : NoveltyScore)
    → x.criterion.score ≤ 10
    → y.criterion.score ≤ 10
    → (if b then x else y).criterion.score ≤ 10
choice_score true x y hx hy = hx
choice_score false x y hx hy = hy

scored_at_most :
    (n : ℕ) (status : Novelty) (ids : List Text) → (scored n status ids).criterion.score ≤ 10
unfolding criterion
scored_at_most n status ids = clamp_at_most n 10

module _ (reading : Reading) where
  by_similarity_at_most :
      (candidate best : Value) → (by_similarity reading candidate best).criterion.score ≤ 10
  unfolding by_similarity
  by_similarity_at_most candidate best =
      let similarity = candidate_similarity reading candidate best in
      let ids = one_id (text_of (strategy_id reading best)) in
      choice_score (at_least 65 similarity) (scored 3 variant ids)
        (if at_least 35 similarity then scored 6 variant ids else scored 10 new [])
        (scored_at_most 3 variant ids)
        (choice_score (at_least 35 similarity) (scored 6 variant ids) (scored 10 new [])
          (scored_at_most 6 variant ids) (scored_at_most 10 new []))

  compare_exact_at_most :
      (candidate : Value) (exact : List Value) (otherwise : NoveltyScore)
      → otherwise.criterion.score ≤ 10
      → (compare_exact reading candidate exact otherwise).criterion.score ≤ 10
  unfolding compare_exact
  compare_exact_at_most candidate [] otherwise h = h
  compare_exact_at_most candidate (e ∷ exact) otherwise h =
      scored_at_most 0 duplicate
        (sorted_set (present_texts (map (strategy_id reading) (e ∷ exact))))

  compare_with_at_most :
      (candidate : Value) (others : List Value) (ids : List Text)
      → (compare_with reading candidate others ids).criterion.score ≤ 10
  unfolding compare_with
  compare_with_at_most candidate [] [] = scored_at_most 5 unknown []
  compare_with_at_most candidate [] (i ∷ ids) = scored_at_most 4 unknown (i ∷ ids)
  compare_with_at_most candidate (other ∷ others) ids =
      compare_exact_at_most candidate (keep (is_exact reading candidate) (other ∷ others))
        (by_similarity reading candidate (best_of reading candidate other others))
        (by_similarity_at_most candidate (best_of reading candidate other others))

  given_or_at_most :
      (status : Option Novelty) (candidate existing : Value) (ids : List Text)
      → (given_or reading status candidate existing ids).criterion.score ≤ 10
  unfolding given_or
  given_or_at_most (some status) candidate existing ids =
      scored_at_most (novelty_points status) status ids
  given_or_at_most none candidate existing ids =
      compare_with_at_most candidate (comparisons reading candidate existing) ids

  pub novelty_at_most :
      (candidate existing : Value) (n : NoveltyScore)
      → novelty_score reading candidate existing ≡ ok n
      → n.criterion.score ≤ 10
  unfolding novelty_score
  novelty_at_most candidate existing n h =
      elim (Result-cases (raw_related_ids (field candidate (codes "related_strategy_ids")))) [
        | inr (e, bad) ↦ absurd (ground arith)
        | inl (raw, good) ↦
            let status =
              novelty_named (reading.casefold (field_text candidate (codes "novelty_status"))) in
            let ids = sorted_set (present_texts raw) in
            subst (λ (m : NoveltyScore). m.criterion.score ≤ 10)
              (ok_inj (given_or reading status candidate existing ids) n
                (novelty_score reading candidate existing) (rw good refl) h)
              (given_or_at_most status candidate existing ids)
      ]
