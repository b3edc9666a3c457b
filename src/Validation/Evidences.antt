-- ===== src/Validation/Evidences.antt =====
-- What holds of the evidence that validate.py lets through.
use mathlib.Core.Path.{subst}
use inno_scalping_crawling.Common.{
  ℕ, ◌+◌, ◌≤◌, ◌≡◌, ◌≢◌, inl, inr, sym, ap, true, if◌then◌else◌, Option, none, some, List, [], ◌∷◌,
  arith, keep, length, All, Text, text_eq, text_eq_sound, lookup, insert, lookup-insert_self,
  lookup-insert_ne, ok, Result-cases, Bool-cases, then_ok, ◌>>=◌,
}
use inno_scalping_crawling.Common.Int.{ℤ, pos, negsuc}
use inno_scalping_crawling.Publication.{Value, Entries}
use inno_scalping_crawling.Validation.{quote_limit, version_id}
use inno_scalping_crawling.Validation.Quotes.{normalise}
use inno_scalping_crawling.Validation.Rows.{
  Evidence, Surroundings, validated_entry, validated_entries, validated_from, validated_evidence,
  seen,
}
use inno_scalping_crawling.Validation.Entry.{IsTrusted, validated_entry_lem}

module _ (env : Surroundings) (version candidate : Text) (source : Option Text) (limit : ℕ) where
  -- The rows of a field.
  abbrev pub rows_of : Text → List Evidence → ℕ
  rows_of name rows = length (keep (λ row. text_eq row.field_name name) rows)

  rows_of_cons :
      (name : Text) (row : Evidence) (rows : List Evidence)
      → rows_of name (row ∷ rows)
        ≡ (if text_eq row.field_name name then 1 else 0) + rows_of name rows
  rows_of_cons name row rows = elim (Bool-cases (text_eq row.field_name name)) [
    | inl here ↦ rw here (omega arith)
    | inr other ↦ rw other (omega arith)
  ]

  seen_cons :
      (name : Text) (row : Evidence) (counts : List (Text × ℕ))
      → seen env name (insert row.field_name (seen env row.field_name counts + 1) counts)
        ≡ (if text_eq row.field_name name then 1 else 0) + seen env name counts
  seen_cons name row counts = elim (Bool-cases (text_eq row.field_name name)) [
    | inr other ↦
        rw
          (
            lookup-insert_ne name row.field_name (seen env row.field_name counts + 1) counts other,
            other,
          )
          (omega arith)
    | inl same ↦
        let e = text_eq_sound row.field_name name same in
        rw same (
          subst
            (λ k.
              seen env k (insert row.field_name (seen env row.field_name counts + 1) counts)
              ≡ 1 + seen env k counts)
            e
            (rw (lookup-insert_self row.field_name (seen env row.field_name counts + 1) counts)
              (omega arith)))
  ]

  validated_entries_lem :
      (counts : List (Text × ℕ)) (items : List Entries) (rows : List Evidence)
      → validated_entries env version candidate source limit counts items ≡ ok rows
      → All (IsTrusted version candidate source limit) rows
        × ((name : Text) → seen env name counts ≤ 2 → rows_of name rows + seen env name counts ≤ 2)
  unfolding validated_entries
  validated_entries_lem counts [] rows h =
      let e : rows ≡ [] = ground arith in rw e (tt, λ name le. omega arith)
  validated_entries_lem counts (item ∷ items) rows h =
      elim (Result-cases (validated_entry env version candidate source limit counts item)) [
        | inr (e, bad) ↦ absurd (ground arith)
        | inl (row, er) ↦
            let counts' = insert row.field_name (seen env row.field_name counts + 1) counts in
            elim (Result-cases
              (validated_entries env version candidate source limit counts' items)) [
                | inr (e, bad) ↦ absurd (ground arith)
                | inl (rest, es) ↦
                    let (trusted, few) =
                      validated_entry_lem env version candidate source limit counts item row er in
                    let (all, counted) = validated_entries_lem counts' items rest es in
                    let same : rows ≡ row ∷ rest = ground arith in
                    rw same (
                      (trusted, all),
                      λ name le.
                          let more = seen_cons name row counts in
                          let next = counted name (
                            room name row (seen env name counts) (seen env row.field_name counts)
                              (seen env name counts') more few le
                              (λ same.
                                ap (λ k. seen env k counts)
                                  (sym (text_eq_sound row.field_name name same)))) in
                          omega (arith, rows_of_cons name row rest, more, next),
                    )
              ]
      ]
    where
      room :
          (name : Text) (row : Evidence) (count own after : ℕ)
          → after ≡ (if text_eq row.field_name name then 1 else 0) + count
          → own + 1 ≤ 2
          → count ≤ 2
          → (text_eq row.field_name name ≡ true → count ≡ own)
          → after ≤ 2
      room name row count own after e few le link =
          elim (Bool-cases (text_eq row.field_name name)) [
            | inl same ↦ let l = link same in ground arith
            | inr other ↦ ground arith
          ]

module _ (env : Surroundings) where
  none_seen : (name : Text) → seen env name [] ≤ 2
  unfolding lookup
  none_seen name = omega arith

  limit_lem : (limit : Option ℤ) (most : ℕ) → quote_limit limit ≡ ok most → most ≤ 300
  unfolding quote_limit
  limit_lem none most h = absurd (ground arith)
  limit_lem (some (negsuc n)) most h = absurd (ground arith)
  limit_lem (some (pos n)) most h = ground arith

  validated_from_lem :
      (fields : Value) (candidate : Text) (source : Option Text) (limit : Option ℤ)
      (items : List Entries) (rows : List Evidence)
      → validated_from env fields candidate source limit items ≡ ok rows
      → rows ≢ []
      → (version : Text) × (most : ℕ) × (version_id env.repr fields ≡ ok version)
        × (most ≤ 300)
        × All (IsTrusted version candidate source most) rows
        × ((name : Text) → rows_of env version candidate source most name rows ≤ 2)
  unfolding validated_from
  validated_from_lem fields candidate source limit [] rows h some_row =
      absurd (some_row (ground arith))
  validated_from_lem fields candidate source limit (item ∷ items) rows h some_row =
      let (version, ev, later) =
        then_ok (version_id env.repr fields)
          (λ id. do
            most ← quote_limit limit
            validated_entries env id candidate source most [] (item ∷ items))
          rows h in
      let (most, em, last) =
        then_ok (quote_limit limit)
          (λ most. validated_entries env version candidate source most [] (item ∷ items)) rows
          later in
      let (all, counted) =
        validated_entries_lem env version candidate source most [] (item ∷ items) rows last in
      (
        version,
        most,
        ev,
        limit_lem limit most em,
        all,
        λ name. let two = counted name (none_seen name) in omega (arith, two),
      )

  pub validated_evidence_lem :
      (evidence fields : Value) (candidate : Text) (source : Option Text) (limit : Option ℤ)
      (rows : List Evidence)
      → validated_evidence env evidence fields candidate source limit ≡ ok rows
      → rows ≢ []
      → (version : Text) × (most : ℕ) × (version_id env.repr fields ≡ ok version)
        × (most ≤ 300)
        × All (IsTrusted version candidate source most) rows
        × ((name : Text) → rows_of env version candidate source most name rows ≤ 2)
  unfolding validated_evidence
  validated_evidence_lem evidence fields candidate source limit rows h some_row =
      let (items, _, rest) =
        then_ok (normalise none evidence)
          (λ entries. validated_from env fields candidate source limit entries) rows h in
      validated_from_lem fields candidate source limit items rows rest some_row
