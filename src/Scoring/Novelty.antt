-- ===== src/Scoring/Novelty.antt =====
-- The novelty criterion of scoring.py, which compares a candidate with the existing ones.
use inno_scalping_crawling.Common.{
  ℕ, ◌+◌, ◌-◌, ◌*◌, Bool, true, false, not, ◌&&◌, ◌||◌, if◌then◌else◌, leb, ltb, Option, none, some,
  List, [], ◌∷◌, keep, map, length, Text, codes, between, is_empty, join_spaces, text_eq, text_lt,
  Result, ok, err, ◌>>=◌,
}
use inno_scalping_crawling.Publication.{
  Value, Entries, null, boolean, scalar, text, mapping, sequence, end, entry, field, values, one_of,
  get,
}
use inno_scalping_crawling.Scoring.{
  ScoringError, not_iterable, Reading, Criterion, criterion, is_present, text_of, field_text,
}

-- `sorted` of a set: in order, and each text once.
unfoldable pub insert_text : Text → List Text → List Text
insert_text t [] = t ∷ []
insert_text t (s ∷ texts) =
    let rest = insert_text t texts in
    if text_eq s t then s ∷ texts else if text_lt t s then t ∷ (s ∷ texts) else s ∷ rest

unfoldable pub sorted_set : List Text → List Text
sorted_set [] = []
sorted_set (t ∷ texts) = insert_text t (sorted_set texts)

abbrev keys : Entries → List Value
keys end = []
keys (entry k _ rest) = text k ∷ keys rest

-- `_field(candidate, "related_strategy_ids", []) or []`, a text made a list, and what iterating over
-- it gives.
unfoldable pub raw_related_ids : Option Value → Result ScoringError (List Value)
raw_related_ids none = ok []
raw_related_ids (some null) = ok []
raw_related_ids (some (boolean b)) = if b then err not_iterable else ok []
raw_related_ids (some (scalar _ truth _)) = if truth then err not_iterable else ok []
raw_related_ids (some (text [])) = ok []
raw_related_ids (some (text (c ∷ s))) = ok (text (c ∷ s) ∷ [])
raw_related_ids (some (mapping entries)) = ok (keys entries)
raw_related_ids (some (sequence entries)) = ok (values entries)

unfoldable pub present_texts : List Value → List Text
present_texts l = map text_of (keep (λ v. is_present (some v)) l)

-- A character of the pattern `[a-z0-9가-힣]`
abbrev pub is_token_code : ℕ → Bool
is_token_code c = between 97 122 c || between 48 57 c || between 44032 55203 c

abbrev onto_token : ℕ → Bool → List Text → List Text
onto_token c true tokens = (c ∷ []) ∷ tokens
onto_token c false [] = (c ∷ []) ∷ []
onto_token c false (t ∷ tokens) = (c ∷ t) ∷ tokens

abbrev ends_token : Text → Bool
ends_token [] = true
ends_token (c ∷ _) = not (is_token_code c)

-- `re.findall(r"[a-z0-9가-힣]+", ...)`
unfoldable pub tokens : Text → List Text
tokens [] = []
tokens (c ∷ s) =
    let rest = tokens s in if is_token_code c then onto_token c (ends_token s) rest else rest

-- `len(set(...))` and `len(left & right)`, for lists without repetition
unfoldable pub distinct : List Text → List Text
distinct [] = []
distinct (t ∷ texts) = let rest = distinct texts in if one_of rest t then rest else t ∷ rest

unfoldable pub comparison_fields : List Text
comparison_fields =
    codes "canonical_name"
    ∷ codes "strategy_families"
    ∷ codes "asset_classes"
    ∷ codes "holding_horizon"
    ∷ codes "core_hypothesis"
    ∷ codes "signal_inputs"
    ∷ codes "entry_logic"
    ∷ codes "exit_logic"
    ∷ codes "required_data"
    ∷ []

-- `left / right`
pub record Fraction : Type 0 where
  pub part : ℕ
  pub whole : ℕ

-- Whether the fraction is at least so many hundredths.
abbrev pub at_least : ℕ → Fraction → Bool
at_least hundredths f = leb (hundredths * f.whole) (100 * f.part)

abbrev pub less : Fraction → Fraction → Bool
less f g = ltb (f.part * g.whole) (g.part * f.whole)

unfoldable pub fraction : List Text → List Text → Fraction
fraction [] right = record { part = 0; whole = 1 }
fraction (t ∷ left) [] = record { part = 0; whole = 1 }
fraction (t ∷ left) (u ∷ right) =
    let common = length (keep (one_of (u ∷ right)) (t ∷ left)) in
    record { part = common; whole = length (t ∷ left) + length (u ∷ right) - common }

pub data Novelty : Type 0 where
  unknown new changed new_evidence variant duplicate : Novelty

pub record NoveltyScore : Type 0 where
  pub criterion : Criterion
  pub status : Novelty
  pub related_ids : List Text

-- `_NOVELTY_SCORES`
abbrev pub novelty_points : Novelty → ℕ
novelty_points new = 10
novelty_points new_evidence = 8
novelty_points changed = 8
novelty_points variant = 6
novelty_points duplicate = 0
novelty_points unknown = 5

unfoldable pub novelty_named : Text → Option Novelty
novelty_named s =
    if text_eq s (codes "new")
    then some new
    else if text_eq s (codes "new_evidence")
    then some new_evidence
    else if text_eq s (codes "changed")
    then some changed
    else if text_eq s (codes "variant")
    then some variant
    else if text_eq s (codes "duplicate")
    then some duplicate
    else if text_eq s (codes "unknown")
    then some unknown
    else none

abbrev pub scored : ℕ → Novelty → List Text → NoveltyScore
scored n status ids = record { criterion = criterion 10 n; status = status; related_ids = ids }

abbrev pub one_id : Text → List Text
one_id [] = []
one_id (c ∷ s) = (c ∷ s) ∷ []

module _ (reading : Reading) where
  -- `_normalise_name`: what is no token becomes one space, and none at the ends.
  unfoldable pub normalise_name : Text → Text
  normalise_name s = join_spaces (tokens (reading.casefold s))

  -- `_token_set`
  unfoldable pub token_set : Text → List Text
  token_set s = distinct (tokens (reading.casefold s))

  -- `_candidate_similarity`
  unfoldable pub candidate_similarity : Value → Value → Fraction
  candidate_similarity left right =
      fraction (token_set (join_spaces (map (field_text left) comparison_fields)))
        (token_set (join_spaces (map (field_text right) comparison_fields)))

  abbrev list_at : List Text → Entries → List Value
  list_at [] entries = mapping entries ∷ []
  list_at (name ∷ names) entries = listed (get name entries) (list_at names entries)
    where
      listed : Option Value → List Value → List Value
      listed (some (sequence l)) rest = values l
      listed _ rest = rest

  -- `_candidate_list`
  unfoldable pub candidate_list : Value → List Value
  candidate_list null = []
  candidate_list (mapping entries) =
      list_at (codes "candidates" ∷ codes "items" ∷ codes "related_candidates" ∷ []) entries
  candidate_list (sequence entries) = values entries
  candidate_list v = v ∷ []

  abbrev same_text : Text → Text → Bool
  same_text s t = not (is_empty s) && (not (is_empty t) && text_eq s t)

  unfoldable pub comparisons : Value → Value → List Value
  comparisons candidate existing =
      keep
        (λ other. not (
          same_text (field_text candidate (codes "candidate_id"))
            (field_text other (codes "candidate_id"))))
        (candidate_list existing)

  unfoldable pub is_exact : Value → Value → Bool
  is_exact candidate other =
      let name = normalise_name (field_text candidate (codes "canonical_name")) in
      not (is_empty name)
      && text_eq name (normalise_name (field_text other (codes "canonical_name")))

  -- `_field(other, "strategy_id", _field(other, "candidate_id", ""))`
  unfoldable pub strategy_id : Value → Value
  strategy_id other =
      first_of (field other (codes "strategy_id")) (field other (codes "candidate_id"))
    where
      first_of : Option Value → Option Value → Value
      first_of (some v) _ = v
      first_of none (some v) = v
      first_of none none = text []

  -- The first in the order of `sorted`: the most similar, and among these the least id.
  unfoldable pub before : Value → Value → Value → Bool
  before candidate a b =
      let fa = candidate_similarity candidate a in
      let fb = candidate_similarity candidate b in
      less fb fa
      || (not (less fa fb)
          && text_lt (field_text a (codes "candidate_id")) (field_text b (codes "candidate_id")))

  unfoldable pub best_of : Value → Value → List Value → Value
  best_of candidate best [] = best
  best_of candidate best (other ∷ others) =
      best_of candidate (if before candidate other best then other else best) others

  unfoldable pub by_similarity : Value → Value → NoveltyScore
  by_similarity candidate best =
      let similarity = candidate_similarity candidate best in
      let ids = one_id (text_of (strategy_id best)) in
      if at_least 65 similarity
      then scored 3 variant ids
      else if at_least 35 similarity
      then scored 6 variant ids
      else scored 10 new []

  unfoldable pub compare_exact : Value → List Value → NoveltyScore → NoveltyScore
  compare_exact candidate [] otherwise = otherwise
  compare_exact candidate (e ∷ exact) otherwise =
      scored 0 duplicate (sorted_set (present_texts (map strategy_id (e ∷ exact))))

  unfoldable pub compare_with : Value → List Value → List Text → NoveltyScore
  compare_with candidate [] [] = scored 5 unknown []
  compare_with candidate [] (i ∷ ids) = scored 4 unknown (i ∷ ids)
  compare_with candidate (other ∷ others) ids =
      compare_exact candidate (keep (is_exact candidate) (other ∷ others))
        (by_similarity candidate (best_of candidate other others))

  unfoldable pub given_or : Option Novelty → Value → Value → List Text → NoveltyScore
  given_or (some status) candidate existing ids = scored (novelty_points status) status ids
  given_or none candidate existing ids = compare_with candidate (comparisons candidate existing) ids

  -- `_novelty_score`
  unfoldable pub novelty_score : Value → Value → Result ScoringError NoveltyScore
  novelty_score candidate existing =
      raw_related_ids (field candidate (codes "related_strategy_ids")) >>= λ raw. ok (
        given_or (novelty_named (reading.casefold (field_text candidate (codes "novelty_status"))))
          candidate existing (sorted_set (present_texts raw)))
