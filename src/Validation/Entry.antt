-- ===== src/Validation/Entry.antt =====
-- What holds of one row of evidence that validate.py lets through.
use mathlib.Core.Path.{subst}
use inno_scalping_crawling.Common.{
  ℕ, ◌+◌, ◌≤◌, ◌≡◌, inl, inr, refl, Bool, true, false, not, ◌||◌, ltb, Option, none, some, List,
  arith, length, Text, codes, contains, text_eq, Result, ok, raise_if, Result-cases, Bool-cases,
  ◌>>=◌, ◌>>◌,
}
use inno_scalping_crawling.Publication.{Entries, one_of, get}
use inno_scalping_crawling.Validation.{
  ValidationError, core_fields, field_unsupported, quote_too_long, not_in_source, other_version,
  other_candidate, too_many_quotes, quote_missing, field_missing, locator_missing,
}
use inno_scalping_crawling.Validation.Rows.{
  Evidence, Surroundings, compact, quote_in_source, validated_entry, seen, given_or, filled_text,
  normalise_datetime, check_metadata, or_new,
}

-- A row of evidence for this version and candidate.
pub record IsTrusted (version candidate : Text) (source : Option Text) (limit : ℕ) (row : Evidence)
    : Type 0 where
  pub on_core_field : one_of core_fields row.field_name ≡ true
  pub short : length row.quote ≤ limit
  pub quoted :
      (s : Text) × (source ≡ some s)
      × ((contains row.quote s || contains (compact row.quote) (compact s)) ≡ true)
  pub of_version : row.document_version_id ≡ version
  pub of_candidate : row.strategy_candidate_id ≡ candidate

entry_chain :
    (f : Result ValidationError Text) (b1 : Text → Bool) (q : Result ValidationError Text)
    (b2 : Text → Bool) (found : Text → Result ValidationError Bool) (b4 b5 : Bool)
    (loc : Result ValidationError Text) (b6 : Text → Bool) (time : Result ValidationError ℕ)
    (meta : Result ValidationError (Unit {0})) (make : Text → Text → Text → ℕ → Evidence)
    (row : Evidence)
    → (do
      field_name ← f
      raise_if (b1 field_name) field_unsupported
      quote ← q
      raise_if (b2 quote) quote_too_long
      in_source ← found quote
      raise_if (not in_source) not_in_source
      raise_if b4 other_version
      raise_if b5 other_candidate
      locator ← loc
      raise_if (b6 field_name) too_many_quotes
      captured_at ← time
      meta
      ok (make field_name quote locator captured_at))
      ≡ ok row
    → (field_name quote locator : Text) × (captured_at : ℕ) × (make field_name quote locator
          captured_at
        ≡ row)
      × (b1 field_name ≡ false)
      × (b2 quote ≡ false)
      × (found quote ≡ ok true)
      × (b6 field_name ≡ false)
entry_chain (ok n) b1 (ok q) b2 found false false (ok l) b6 (ok t) (ok u) make row h =
    elim (Bool-cases (b1 n)) [
      | inl bad ↦ absurd (ground arith)
      | inr e1 ↦ elim (Bool-cases (b2 q)) [
        | inl bad ↦ absurd (ground arith)
        | inr e2 ↦ elim (Result-cases (found q)) [
          | inr (e, bad) ↦ absurd (ground arith)
          | inl (true, e3) ↦ elim (Bool-cases (b6 n)) [
            | inl bad ↦ absurd (ground arith)
            | inr e6 ↦ (n, q, l, t, ground arith, e1, e2, e3, e6)
          ]
          | inl (false, e3) ↦ absurd (ground arith)
        ]
      ]
    ]
entry_chain _ _ _ _ _ _ _ _ _ _ _ _ _ h = absurd (ground arith)

quote_lem :
    (quote : Text) (source : Option Text)
    → quote_in_source quote source ≡ ok true
    → (s : Text) × (source ≡ some s)
      × ((contains quote s || contains (compact quote) (compact s)) ≡ true)
unfolding quote_in_source
quote_lem quote none h = absurd (ground arith)
quote_lem quote (some s) h = (s, refl, ground arith)

module _ (env : Surroundings) (version candidate : Text) (source : Option Text) (limit : ℕ) where
  pub validated_entry_lem :
      (counts : List (Text × ℕ)) (item : Entries) (row : Evidence)
      → validated_entry env version candidate source limit counts item ≡ ok row
      → IsTrusted version candidate source limit row × (seen env row.field_name counts + 1 ≤ 2)
  unfolding validated_entry
  validated_entry_lem counts item row h =
      let (n, q, l, t, same, e1, e2, e3, e6) =
        entry_chain (filled_text field_missing (get (codes "field_name") item))
          (λ name. not (one_of core_fields name))
          (filled_text quote_missing (get (codes "quote") item)) (λ quote. ltb limit (length quote))
          (λ quote. quote_in_source quote source)
          (not (text_eq (given_or env (get (codes "document_version_id") item) version) version))
          (not
            (text_eq (given_or env (get (codes "strategy_candidate_id") item) candidate) candidate))
          (filled_text locator_missing (get (codes "section_or_locator") item))
          (λ name. ltb 2 (seen env name counts + 1))
          (normalise_datetime env (get (codes "captured_at") item))
          (check_metadata env (get (codes "metadata") item) (get (codes "metadata_json") item))
          (λ name quote locator captured_at. record {
            evidence_id = or_new env (get (codes "evidence_id") item);
            document_version_id = version;
            strategy_candidate_id = candidate;
            field_name = name;
            quote = quote;
            section_or_locator = locator;
            captured_at = captured_at;
          })
          row h in
      subst
        (λ (r : Evidence).
          IsTrusted version candidate source limit r × (seen env r.field_name counts + 1 ≤ 2))
        same
        (
          record {
            on_core_field = not_false (one_of core_fields n) e1;
            short = not_above limit (length q) e2;
            quoted = quote_lem q source e3;
            of_version = refl;
            of_candidate = refl;
          },
          not_above 2 (seen env n counts + 1) e6,
        )
    where
      not_false : (b : Bool) → not b ≡ false → b ≡ true
      not_false b h = ground arith

      not_above : (most n : ℕ) → ltb most n ≡ false → n ≤ most
      not_above most n h = ground arith
