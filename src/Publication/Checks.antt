-- ===== src/Publication/Checks.antt =====
-- The order of the checks in gate.py, and what their tests mean.
use inno_scalping_crawling.Common.{
  ℕ, ◌≤◌, ◌<◌, ◌≡◌, ◌⊎◌, inl, inr, refl, Bool, true, false, not, ◌||◌, ◌&&◌, List, [], ◌∷◌, arith,
  ok, Result, raise_if, Bool-cases, Result-cases, length, ltb, ◌>>=◌, ◌>>◌,
}
use inno_scalping_crawling.Publication.{Value}
use inno_scalping_crawling.Publication.Item.{
  GateError, max_evidence_quotes, max_quote_length, is_nil, limits_too_wide, limits_not_positive,
  full_text, missing_evidence, too_many_quotes, unsafe_link, no_source_link, banned_phrase,
}

pub within_limits :
    (max_quotes max_chars : ℕ)
    → ltb max_evidence_quotes max_quotes || ltb max_quote_length max_chars ≡ false
    → (max_quotes ≤ 2) × (max_chars ≤ 300)
within_limits max_quotes max_chars h = ground arith

pub not_more : (most n : ℕ) → ltb most n ≡ false → n ≤ most
not_more most n h = ground arith

pub evidence_or_claimless :
    (evidence : List Value) (nothing : Bool)
    → (is_nil evidence && not (is_nil evidence && nothing)) ≡ false
    → (0 < length evidence) ⊎ (nothing ≡ true)
evidence_or_claimless [] nothing h = inr (ground arith)
evidence_or_claimless (r ∷ evidence) nothing h = inl (omega arith)

pub link_or_claimless :
    (found own no_evidence nothing : Bool)
    → (not (found || own) && not (no_evidence && nothing)) ≡ false
    → (found ≡ true) ⊎ ((own ≡ true) ⊎ (nothing ≡ true))
link_or_claimless true own no_evidence nothing h = inl refl
link_or_claimless false true no_evidence nothing h = inr (inl refl)
link_or_claimless false false no_evidence nothing h = inr (inr (ground arith))

-- The checks of an item, one after the other: each of them passed.
pub passed :
    (b1 b2 b3 b4 b5 : Bool) (checked : Result GateError Bool) (b6 : Bool) (b7 : Bool → Bool)
    (b8 : Bool) (item accepted : Value)
    → (do
      raise_if b1 limits_too_wide
      raise_if b2 limits_not_positive
      raise_if b3 full_text
      raise_if b4 missing_evidence
      raise_if b5 too_many_quotes
      found ← checked
      raise_if b6 unsafe_link
      raise_if (b7 found) no_source_link
      raise_if b8 banned_phrase
      ok item)
      ≡ ok accepted
    → (b1 ≡ false)
      × (b2 ≡ false)
      × (b3 ≡ false)
      × (b4 ≡ false)
      × (b5 ≡ false)
      × ((found : Bool) × (checked ≡ ok found) × (b6 ≡ false) × (b7 found ≡ false) × (b8 ≡ false))
      × (item ≡ accepted)
passed false false false false false (ok found) false b7 false item accepted h =
    elim (Bool-cases (b7 found)) [
      | inl bad ↦ absurd (ground arith)
      | inr good ↦ (refl, refl, refl, refl, refl, (found, refl, refl, good, refl), ground arith)
    ]
passed _ _ _ _ _ _ _ _ _ _ _ h = absurd (ground arith)

pub passed_all :
    (b1 : Bool) (items : Result GateError (List Value))
    (check : List Value → Result GateError (Unit {0})) (b2 : Bool) (publication accepted : Value)
    → (do raise_if b1 full_text; l ← items; check l; raise_if b2 banned_phrase; ok publication)
      ≡ ok accepted
    → (l : List Value) × (items ≡ ok l) × (check l ≡ ok tt) × (publication ≡ accepted)
passed_all false (ok l) check b2 publication accepted h = elim (Result-cases (check l)) [
  | inr (x, bad) ↦ absurd (ground arith)
  | inl (t, fine) ↦ (l, refl, fine, ground arith)
]
passed_all _ _ _ _ _ _ h = absurd (ground arith)
