-- ===== src/BriefingBuild/Carried.antt =====
-- Which candidates `build_briefing` of briefing_build.py carries over.
use inno_scalping_crawling.Common.{
  ◌≡◌, ◌⊎◌, inl, inr, refl, Bool, true, false, ◌||◌, Option, none, some, List, [], ◌∷◌, arith, In,
  In-append_cases, All, All-In, Text, codes, is_empty, text_eq, Bool-cases,
}
use inno_scalping_crawling.Publication.{
  Value, null, boolean, scalar, text, mapping, sequence, field, one_of, or_null,
}
use inno_scalping_crawling.BriefingGate.{own_records, str}
use inno_scalping_crawling.BriefingBuild.{Readers, final_review_states, has_status, identifier}
use inno_scalping_crawling.BriefingBuild.Order.{
  find_candidate, old_candidate, carry, carry_one, old_items, identifiers, id_text, truthy, by_id,
}

module _ (readers : Readers) where
  -- The item holds the candidate, or has its identifier.
  abbrev pub Names : List Value → Value → Value → Type 0
  Names candidates item c =
      (field item (codes "strategy_candidate") ≡ some c)
      ⊎ ((id : Value) × (field item (codes "strategy_candidate_id") ≡ some id)
          × In c candidates
          × (text_eq (id_text readers (field c (codes "candidate_id"))) (str readers.repr id)
              ≡ true))

  -- One of the earlier briefings has an item for the candidate.
  pub record StoodIn (candidates previous : List Value) (c : Value) : Type 0 where
    pub briefing : Value
    pub item : Value
    pub among : In briefing previous
    pub inside : In item (own_records (or_null (field briefing (codes "items"))))
    pub named : Names candidates item c

  find_candidate-In :
      (id : Text) (rows : List Value) (c : Value)
      → find_candidate readers id rows ≡ some c
      → In c rows × (text_eq (id_text readers (field c (codes "candidate_id"))) id ≡ true)
  unfolding find_candidate
  find_candidate-In id [] c h = absurd (ground arith)
  find_candidate-In id (row ∷ rows) c h =
      elim (Bool-cases (text_eq (id_text readers (field row (codes "candidate_id"))) id)) [
        | inl here ↦ let same : c ≡ row = ground arith in rw same (inl refl, here)
        | inr other ↦ let (m, e) = find_candidate-In id rows c (ground arith) in (inr m, e)
      ]

  by_id-Names :
      (candidates : List Value) (item c : Value) (o : Option Value)
      → field item (codes "strategy_candidate_id") ≡ o
      → by_id readers candidates o ≡ some c
      → Names candidates item c
  by_id-Names candidates item c none e h = absurd (ground arith)
  by_id-Names candidates item c (some id) e h = elim (Bool-cases (truthy id)) [
    | inr nothing ↦ absurd (ground arith)
    | inl there ↦
        let (m, same) = find_candidate-In (str readers.repr id) candidates c (ground arith) in
        inr (id, e, m, same)
  ]

  old_candidate-Names :
      (candidates : List Value) (item c : Value)
      → old_candidate readers candidates item ≡ some c
      → Names candidates item c
  unfolding old_candidate
  old_candidate-Names candidates item c h = by_item (field item (codes "strategy_candidate")) refl
    where
      with_id :
          by_id readers candidates (field item (codes "strategy_candidate_id")) ≡ some c
          → Names candidates item c
      with_id = by_id-Names candidates item c _ refl

      by_item :
          (o : Option Value) → field item (codes "strategy_candidate") ≡ o → Names candidates item c
      by_item none e = with_id (ground arith)
      by_item (some null) e = with_id (ground arith)
      by_item (some (boolean b)) e = inl (ground arith)
      by_item (some (scalar s b m)) e = inl (ground arith)
      by_item (some (text s)) e = inl (ground arith)
      by_item (some (mapping m)) e = inl (ground arith)
      by_item (some (sequence m)) e = inl (ground arith)

  carry_one-All :
      (P : Value → Type 0) (o : Option Value) (carried : List Value)
      → ((c : Value) → o ≡ some c → has_status final_review_states c ≡ false → P c)
      → All P carried
      → All P (carry_one readers o carried)
  unfolding carry_one
  carry_one-All P none carried one all = all
  carry_one-All P (some c) carried one all =
      elim (Bool-cases (
        is_empty (identifier readers c)
        || (one_of (identifiers readers carried) (identifier readers c)
            || has_status final_review_states c))) [
              | inl skipped ↦ rw skipped all
              | inr taken ↦ rw taken (
                one c refl (
                    neither (is_empty (identifier readers c))
                      (one_of (identifiers readers carried) (identifier readers c))
                      (has_status final_review_states c) taken),
                all,
              )
            ]
    where
      neither : (a b c : Bool) → (a || (b || c)) ≡ false → c ≡ false
      neither a b c h = ground arith

  carry-All :
      (P : Value → Type 0) (candidates items carried : List Value)
      → ((item c : Value)
          → In item items
          → old_candidate readers candidates item ≡ some c
          → has_status final_review_states c ≡ false
          → P c)
      → All P carried
      → All P (carry readers candidates items carried)
  unfolding carry
  carry-All P candidates [] carried each all = all
  carry-All P candidates (item ∷ items) carried each all =
      carry-All P candidates items
        (carry_one readers (old_candidate readers candidates item) carried)
        (λ other c m. each other c (inr m))
        (carry_one-All P (old_candidate readers candidates item) carried
          (λ c. each item c (inl refl)) all)

  old_items-In :
      (item : Value) (previous : List Value)
      → In item (old_items previous)
      → (briefing : Value) × In briefing previous
        × In item (own_records (or_null (field briefing (codes "items"))))
  unfolding old_items
  old_items-In item [] m = absurd m
  old_items-In item (briefing ∷ previous) m =
      elim (In-append_cases item (old_items previous)
        (own_records (or_null (field briefing (codes "items")))) m) [
          | inl earlier ↦ let (b, k, i) = old_items-In item previous earlier in (b, inr k, i)
          | inr here ↦ (briefing, inl refl, here)
        ]

  -- A candidate that is carried over stood in an earlier briefing and has had no final decision.
  pub carry-StoodIn :
      (candidates previous : List Value) (c : Value)
      → In c (carry readers candidates (old_items previous) [])
      → StoodIn candidates previous c × (has_status final_review_states c ≡ false)
  carry-StoodIn candidates previous c m =
      All-In (λ c. StoodIn candidates previous c × (has_status final_review_states c ≡ false)) c
        (carry readers candidates (old_items previous) [])
        (carry-All (λ c. StoodIn candidates previous c × (has_status final_review_states c ≡ false))
          candidates (old_items previous) [] each tt)
        m
    where
      each :
          (item c : Value)
          → In item (old_items previous)
          → old_candidate readers candidates item ≡ some c
          → has_status final_review_states c ≡ false
          → StoodIn candidates previous c × (has_status final_review_states c ≡ false)
      each item c m e undecided =
          let (briefing, among, inside) = old_items-In item previous m in
          (
            record {
              briefing = briefing;
              item = item;
              among = among;
              inside = inside;
              named = old_candidate-Names candidates item c e;
            },
            undecided,
          )
