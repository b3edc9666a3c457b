-- ===== src/Publication/Accepted.antt =====
-- What holds of an item that gate.py accepts.
use inno_scalping_crawling.Common.{
  ℕ, ◌≤◌, ◌<◌, ◌≡◌, ◌⊎◌, inl, inr, refl, sym, ◌∙◌, Bool, true, false, not, ◌||◌, ◌&&◌, Option, none,
  some, List, [], ◌∷◌, arith, ok, Bool-cases, Result-cases, Option-cases, Text, codes, any, length,
  In, All, ltb,
}
use inno_scalping_crawling.Publication.{
  Value, null, boolean, scalar, text, mapping, sequence, field, or_null, filled, is_full_text_key,
  has_full_text, records, asserts_nothing, SplitResult, safe_source_link, present, link_names,
  source_link_values,
}
use inno_scalping_crawling.Publication.Item.{
  quote_error, is_unsafe_link, check_evidence, check_all, validate_briefing_item, validate_items,
  validate_publication, publication_items, max_evidence_quotes, max_quote_length, is_nil,
}
use inno_scalping_crawling.Publication.FullText.{HasKey, HasKey-has_full_text}
use inno_scalping_crawling.Publication.Checks.{
  within_limits, not_more, evidence_or_claimless, link_or_claimless, passed, passed_all,
}

module _ (urlsplit : Text → Option SplitResult) (lint : Value → Bool) where
  -- The evidence names its document version, quotes at most so many characters and at least one,
  -- and no link of it is unsafe.
  abbrev pub IsQuoted : ℕ → Value → Type 0
  IsQuoted max_chars r =
      (filled (or_null (field r (codes "document_version_id"))) ≡ true)
      × ((quote : Text) × (field r (codes "quote") ≡ some (text quote))
          × (0 < length quote)
          × (length quote ≤ max_chars))
      × (any (is_unsafe_link urlsplit lint) (source_link_values r) ≡ false)

  quote_lem :
      (max_chars : ℕ) (q : Option Value)
      → quote_error max_chars q ≡ none
      → (quote : Text) × (q ≡ some (text quote)) × (0 < length quote) × (length quote ≤ max_chars)
  quote_lem max_chars none h = absurd (ground arith)
  quote_lem max_chars (some null) h = absurd (ground arith)
  quote_lem max_chars (some (boolean _)) h = absurd (ground arith)
  quote_lem max_chars (some (scalar _ _ _)) h = absurd (ground arith)
  quote_lem max_chars (some (mapping _)) h = absurd (ground arith)
  quote_lem max_chars (some (sequence _)) h = absurd (ground arith)
  quote_lem max_chars (some (text [])) h = absurd (ground arith)
  quote_lem max_chars (some (text (c ∷ s))) h = (c ∷ s, refl, omega arith, ground arith)

  check_evidence_lem :
      (max_chars : ℕ) (r : Value) (linked : Bool)
      → check_evidence urlsplit lint max_chars r ≡ ok linked
      → IsQuoted max_chars r × (linked ≡ any (safe_source_link urlsplit) (source_link_values r))
  unfolding check_evidence
  check_evidence_lem max_chars r linked h =
      elim (Bool-cases (filled (or_null (field r (codes "document_version_id"))))) [
        | inr bad ↦ absurd (ground arith)
        | inl named ↦ elim (Option-cases (quote_error max_chars (field r (codes "quote")))) [
          | inr (x, bad) ↦ absurd (ground arith)
          | inl fine ↦
              elim (Bool-cases (any (is_unsafe_link urlsplit lint) (source_link_values r))) [
                | inl bad ↦ absurd (ground arith)
                | inr safe ↦ (
                  (named, quote_lem max_chars (field r (codes "quote")) fine, safe),
                  ground arith,
                )
              ]
        ]
      ]

  -- Some evidence has a safe link.
  abbrev pub HasLink : List Value → Type 0
  HasLink evidence =
      (r : Value) × In r evidence × (any (safe_source_link urlsplit) (source_link_values r) ≡ true)

  check_all_lem :
      (max_chars : ℕ) (evidence : List Value) (linked : Bool)
      → check_all urlsplit lint max_chars evidence ≡ ok linked
      → All (IsQuoted max_chars) evidence × (linked ≡ true → HasLink evidence)
  unfolding check_all
  check_all_lem max_chars [] linked h = (tt, λ e. absurd (ground arith))
  check_all_lem max_chars (r ∷ rest) linked h =
      elim (Result-cases (check_evidence urlsplit lint max_chars r)) [
        | inr (x, bad) ↦ absurd (ground arith)
        | inl (found, ef) ↦ elim (Result-cases (check_all urlsplit lint max_chars rest)) [
          | inr (x, bad) ↦ absurd (ground arith)
          | inl (later, el) ↦
              let (quoted, e) = check_evidence_lem max_chars r found ef in
              let (all, link) = check_all_lem max_chars rest later el in
              (
                (quoted, all),
                λ yes. elim (Bool-cases found) [
                  | inl here ↦ (r, inl refl, sym e ∙ here)
                  | inr gone ↦ let (x, m, k) = link (ground arith) in (x, inr m, k)
                ],
              )
        ]
      ]

  -- What the limits, the evidence and the links of an item are like that can be published.
  pub record IsPublishable (max_quotes max_chars : ℕ) (item : Value) : Type 0 where
    pub limits : (max_quotes ≤ 2) × (max_chars ≤ 300)
    pub clean : (key : Text) → HasKey key item → is_full_text_key key ≡ false
    pub few : length (records (or_null (field item (codes "evidence")))) ≤ max_quotes
    pub quoted : All (IsQuoted max_chars) (records (or_null (field item (codes "evidence"))))
    pub supported :
        (0 < length (records (or_null (field item (codes "evidence")))))
        ⊎ (asserts_nothing item ≡ true)
    pub safe : any (is_unsafe_link urlsplit lint) (present item link_names) ≡ false
    pub linked :
        (any (safe_source_link urlsplit) (present item link_names) ≡ true)
        ⊎ (HasLink (records (or_null (field item (codes "evidence"))))
            ⊎ (asserts_nothing item ≡ true))
    pub linted : lint item ≡ false

  -- An item that the publication gate accepts comes back as it was. It has no key of a full text at
  -- any depth; it has at most two pieces of evidence, each with its document version and a quote of
  -- at most 300 characters, or fewer if the limits are narrower; it has at least one of them, or
  -- states nothing; none of its links is unsafe; it has a safe link back to its source, in itself or
  -- in its evidence, or states nothing; and the phrase lint finds nothing in it.
  pub validate_briefing_item-IsPublishable :
      (max_quotes max_chars : ℕ) (item accepted : Value)
      → validate_briefing_item urlsplit lint max_quotes max_chars item ≡ ok accepted
      → (accepted ≡ item) × IsPublishable max_quotes max_chars item
  unfolding validate_briefing_item
  validate_briefing_item-IsPublishable max_quotes max_chars item accepted h =
      let evidence = records (or_null (field item (codes "evidence"))) in
      let claimless = is_nil evidence && asserts_nothing item in
      let links = present item link_names in
      let (
        narrow,
        positive,
        clean,
        has_evidence,
        few,
        (found, checked, safe, linked, linted),
        same,
      ) =
        passed (ltb max_evidence_quotes max_quotes || ltb max_quote_length max_chars)
          (ltb max_quotes 1 || ltb max_chars 1) (has_full_text item)
          (is_nil evidence && not claimless) (ltb max_quotes (length evidence))
          (check_all urlsplit lint max_chars evidence) (any (is_unsafe_link urlsplit lint) links)
          (λ found. not (found || any (safe_source_link urlsplit) links) && not claimless)
          (lint item) item accepted h in
      let (quoted, link) = check_all_lem max_chars evidence found checked in
      (
        sym same,
        record {
          limits = within_limits max_quotes max_chars narrow;
          clean = λ key k. HasKey-has_full_text key item k clean;
          few = not_more max_quotes (length evidence) few;
          quoted = quoted;
          supported = evidence_or_claimless evidence (asserts_nothing item) has_evidence;
          safe = safe;
          linked =
              elim (link_or_claimless found (any (safe_source_link urlsplit) links)
                (is_nil evidence) (asserts_nothing item) linked) [
                  | inl some_link ↦ inr (inl (link some_link))
                  | inr (inl own) ↦ inl own
                  | inr (inr nothing) ↦ inr (inr nothing)
                ];
          linted = linted;
        },
      )

  validate_items_lem :
      (max_quotes max_chars : ℕ) (items : List Value)
      → validate_items urlsplit lint max_quotes max_chars items ≡ ok tt
      → All (IsPublishable max_quotes max_chars) items
  unfolding validate_items
  validate_items_lem max_quotes max_chars [] h = tt
  validate_items_lem max_quotes max_chars (item ∷ items) h =
      elim (Result-cases (validate_briefing_item urlsplit lint max_quotes max_chars item)) [
        | inr (x, bad) ↦ absurd (ground arith)
        | inl (accepted, e) ↦ (
          (validate_briefing_item-IsPublishable max_quotes max_chars item accepted e).1,
          validate_items_lem max_quotes max_chars items (ground arith),
        )
      ]

  -- A publication that the gate accepts comes back as it was, and every one of its items can be
  -- published: there is no way to an item past the checks of `validate_briefing_item`.
  pub validate_publication-IsPublishable :
      (max_quotes max_chars : ℕ) (publication accepted : Value)
      → validate_publication urlsplit lint max_quotes max_chars publication ≡ ok accepted
      → (accepted ≡ publication)
        × ((items : List Value) × (publication_items publication ≡ ok items)
            × All (IsPublishable max_quotes max_chars) items)
  unfolding validate_publication
  validate_publication-IsPublishable max_quotes max_chars publication accepted h =
      let (items, found, valid, same) =
        passed_all (has_full_text publication) (publication_items publication)
          (validate_items urlsplit lint max_quotes max_chars) (lint publication) publication
          accepted h in
      (sym same, (items, found, validate_items_lem max_quotes max_chars items valid))
