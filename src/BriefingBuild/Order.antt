-- ===== src/BriefingBuild/Order.antt =====
-- The order of the candidates in `build_briefing` of briefing_build.py.
use inno_scalping_crawling.Common.{
  ℕ, zero, suc, Bool, true, false, not, ◌&&◌, ◌||◌, if◌then◌else◌, ltb, Option, none, some, List,
  [], ◌∷◌, ◌++◌, keep, Text, codes, is_empty, text_eq, text_lt,
}
use inno_scalping_crawling.Common.Int.{ℤ, ltb_ℤ}
use inno_scalping_crawling.Publication.{
  Value, null, boolean, scalar, text, mapping, sequence, end, field, one_of, or_null,
}
use inno_scalping_crawling.BriefingGate.{own_records, str}
use inno_scalping_crawling.BriefingBuild.{
  Readers, final_review_states, excluded_queue_states, queue_review_states, has_status,
  candidate_timestamp, in_window, identifier, score_of,
}

-- `-1`, `0` or `1` as the first key is smaller, the same or larger.
pub data Ordering : Type 0 where
  smaller same larger : Ordering

-- The larger score comes first, and a candidate without one last.
abbrev by_score : Option ℤ → Option ℤ → Ordering
by_score none none = same
by_score none (some b) = larger
by_score (some a) none = smaller
by_score (some a) (some b) = if ltb_ℤ b a then smaller else if ltb_ℤ a b then larger else same

-- No time is the earliest.
abbrev by_time : Option ℕ → Option ℕ → Ordering
by_time none none = same
by_time none (some b) = smaller
by_time (some a) none = larger
by_time (some a) (some b) = if ltb a b then smaller else if ltb b a then larger else same

abbrev then_by : Ordering → Bool → Bool
then_by smaller rest = true
then_by same rest = rest
then_by larger rest = false

abbrev pub truthy : Value → Bool
truthy null = false
truthy (boolean b) = b
truthy (scalar _ truth _) = truth
truthy (text []) = false
truthy (mapping end) = false
truthy (sequence end) = false
truthy v = true

module _ (readers : Readers) where
  -- Whether `_candidate_sort_key` of the first is the smaller one.
  unfoldable pub sorts_before : Value → Value → Bool
  sorts_before a b = then_by (by_score (score_of readers a) (score_of readers b)) (
      then_by (by_time (candidate_timestamp readers a) (candidate_timestamp readers b))
        (text_lt (identifier readers a) (identifier readers b)))

  -- `list.sort`, which keeps the order of equal keys.
  unfoldable pub insert_sorted : Value → List Value → List Value
  insert_sorted a [] = a ∷ []
  insert_sorted a (b ∷ rest) =
      let later = insert_sorted a rest in if sorts_before b a then b ∷ later else a ∷ (b ∷ rest)

  unfoldable pub sort_candidates : List Value → List Value
  sort_candidates [] = []
  sort_candidates (a ∷ rest) = insert_sorted a (sort_candidates rest)

  -- `current_candidates`
  unfoldable pub current_candidates : ℕ → ℕ → List Value → List Value
  current_candidates start stop = keep (λ candidate.
      not (has_status excluded_queue_states candidate) && in_window readers start stop candidate)

  abbrev pub id_text : Option Value → Text
  id_text none = codes "None"
  id_text (some v) = str readers.repr v

  unfoldable pub find_candidate : Text → List Value → Option Value
  find_candidate id [] = none
  find_candidate id (row ∷ rows) =
      let rest = find_candidate id rows in
      if text_eq (id_text (field row (codes "candidate_id"))) id then some row else rest

  abbrev pub by_id : List Value → Option Value → Option Value
  by_id candidates none = none
  by_id candidates (some id) =
      if truthy id then find_candidate (str readers.repr id) candidates else none

  -- The candidate of an earlier item, itself or by its id.
  unfoldable pub old_candidate : List Value → Value → Option Value
  old_candidate candidates item =
      let with_id = by_id candidates (field item (codes "strategy_candidate_id")) in
      given_or (field item (codes "strategy_candidate")) with_id
    where
      given_or : Option Value → Option Value → Option Value
      given_or none other = other
      given_or (some null) other = other
      given_or (some v) other = some v

  abbrev pub identifiers : List Value → List Text
  identifiers [] = []
  identifiers (c ∷ rest) = identifier readers c ∷ identifiers rest

  -- What one earlier item adds to the candidates carried over.
  unfoldable pub carry_one : Option Value → List Value → List Value
  carry_one none carried = carried
  carry_one (some candidate) carried =
      if is_empty (identifier readers candidate)
        || (one_of (identifiers carried) (identifier readers candidate)
            || has_status final_review_states candidate)
      then carried
      else candidate ∷ carried

  -- `carried`, with the last one first; it is sorted later.
  unfoldable pub carry : List Value → List Value → List Value → List Value
  carry candidates [] carried = carried
  carry candidates (item ∷ items) carried =
      carry candidates items (carry_one (old_candidate candidates item) carried)

-- `reason_included`
pub data Reason : Type 0 where
  is_approved is_pending_carried is_pending : Reason

pub record Selected : Type 0 where
  pub candidate : Value
  pub carried_over : Bool
  pub reason : Reason

pub record BriefingItem : Type 0 where
  pub selected : Selected
  pub rank : ℕ

-- The items of the earlier briefings, those of the latest briefing first.
unfoldable pub old_items : List Value → List Value
old_items [] = []
old_items (briefing ∷ previous) =
    old_items previous ++ own_records (or_null (field briefing (codes "items")))

abbrev pub approved_state : List Text
approved_state = codes "approved" ∷ []

module _ (readers : Readers) where
  abbrev pub selected_as : List Text → Value → Selected
  selected_as carried_ids candidate =
      let carried_over = one_of carried_ids (identifier readers candidate) in
      record {
        candidate = candidate;
        carried_over = carried_over;
        reason =
            if has_status approved_state candidate
            then is_approved
            else if carried_over
            then is_pending_carried
            else is_pending;
      }

  -- The loop that fills `candidate_order`.
  unfoldable pub select : List Text → List Value → List Text → List Selected
  select carried_ids [] seen = []
  select carried_ids (candidate ∷ candidates) seen =
      let id = identifier readers candidate in
      let skipped = is_empty id || one_of seen id in
      let rest = select carried_ids candidates (if skipped then seen else id ∷ seen) in
      if skipped then rest else selected_as carried_ids candidate ∷ rest

  -- `candidate_order`, for the window of the briefing, the candidates and the earlier briefings.
  unfoldable pub candidate_order : ℕ → ℕ → List Value → List Value → List Selected
  candidate_order start stop candidates previous =
      let current = current_candidates readers start stop candidates in
      let carried = carry readers candidates (old_items previous) [] in
      select (identifiers readers carried)
        (sort_candidates readers (keep (has_status approved_state) current)
          ++ (sort_candidates readers (keep (has_status queue_review_states) current)
              ++ sort_candidates readers carried))
        []

  abbrev has_evidence : Selected → Bool
  has_evidence s = some_record (own_records (or_null (field s.candidate (codes "evidence"))))
    where
      some_record : List Value → Bool
      some_record [] = false
      some_record (_ ∷ _) = true

  unfoldable pub ranked : ℕ → ℕ → List Selected → List BriefingItem
  ranked rank zero order = []
  ranked rank (suc limit) [] = []
  ranked rank (suc limit) (s ∷ order) =
      record { selected = s; rank = rank } ∷ ranked (suc rank) limit order

  -- The items of the briefing, at most `limit`; a candidate without evidence is skipped.
  unfoldable pub briefing_items : ℕ → List Selected → List BriefingItem
  briefing_items limit order = ranked 1 limit (keep has_evidence order)
