-- ===== src/Delivery/Service/Ledger.antt =====
-- What delivery/service.py promises of its rows: a ledger with the number of attempts of each key.
use inno_scalping_crawling.Common.{
  ℕ, ◌+◌, ◌≡◌, refl, ap, ◌∙◌, ◌⊎◌, inl, inr, Bool, true, Option, List, [], ◌∷◌, Text, Bool-cases,
}
use inno_scalping_crawling.Delivery.Guard.{resend_is_approved}
use inno_scalping_crawling.Delivery.Service.{
  Delivery, Briefing, Resend, Connector, has_row, latest_attempt, deliver_briefing,
}
use inno_scalping_crawling.Delivery.Service.Rows.{AreValid}
use inno_scalping_crawling.Delivery.Service.Sends.{
  attempt_number_lem, deliver_cases, rows-send_prepared,
}
use inno_scalping_crawling.Delivery.Service.Once.{deliver_briefing-AreValid}
use inno_scalping_crawling.Delivery.Service.Numbers.{
  latest_none, number_lem, latest-persist, write, ledger_of,
}

-- One call, as the ledger has it: either no number changes, or one key goes to its next number, and
-- it had none before or the call was approved.
pub LedgerStep : Bool → (Text → ℕ) → (Text → ℕ) → Type 0
LedgerStep approved before after =
    ((k : Text) → after k ≡ before k)
    ⊎ ((key : Text) × ((before key ≡ 0) ⊎ (approved ≡ true))
        × ((k : Text) → after k ≡ write key (before key + 1) before k))

abbrev pub approves : Resend → Bool
approves resend = resend_is_approved resend.reason resend.approved_by

module _ {Item E : Type 0} (c : Connector Item E) where
  deliver_briefing-LedgerStep :
      (b : Briefing Item) (mode : Option Text) (resend : Resend) (rows : List Delivery)
      → AreValid rows
      → LedgerStep
          (approves resend)
          (ledger_of rows)
          (ledger_of (deliver_briefing c b mode resend rows).rows)
  unfolding LedgerStep
  deliver_briefing-LedgerStep b mode resend rows v = elim (deliver_cases c b mode resend rows) [
    | inl (_, same, _) ↦ inl (λ k. ap (latest_attempt k) same)
    | inr (p, q, _, e) ↦ elim (rows-send_prepared c b mode resend rows p) [
      | inl (same, _) ↦ inl (λ k. ap (latest_attempt k) (ap (λ d. d.rows) e ∙ same))
      | inr (result, r) ↦
          let n = number_lem rows p.key resend p.attempt_no v q.numbered in
          inr (
            p.key,
            elim (Bool-cases (has_row p.key rows)) [
              | inr fresh ↦ inl (latest_none p.key rows fresh)
              | inl known ↦
                  inr ((attempt_number_lem rows p.key resend p.attempt_no q.numbered).2 known)
            ],
            λ k.
                ap (latest_attempt k) (ap (λ d. d.rows) e ∙ r)
                ∙ latest-persist b.briefing_id p.channel p.key p.content_hash k p.attempt_no resend
                    result rows v n
                ∙ ap (λ m. write p.key m (ledger_of rows) k) n,
          )
    ]
  ]

  -- Calls for any briefings, each with its mode and its resend fields, one after the other.
  abbrev pub Calls : Type 0
  Calls = List (Briefing Item × Option Text × Resend)

  unfoldable pub rows_after : Calls → List Delivery → List Delivery
  rows_after [] rows = rows
  rows_after ((b, mode, resend) ∷ calls) rows =
      rows_after calls (deliver_briefing c b mode resend rows).rows

  -- The same calls on the ledger alone.
  unfoldable pub LedgerRun : Calls → (Text → ℕ) → (Text → ℕ) → Type 0
  LedgerRun [] before after = (k : Text) → after k ≡ before k
  LedgerRun ((b, mode, resend) ∷ calls) before after =
      (middle : Text → ℕ) × LedgerStep (approves resend) before middle
      × LedgerRun calls middle after

  -- The rows of the table refine a ledger that has one number for each key: along any calls for any
  -- briefings, from valid rows, every call leaves all numbers as they are or counts one key up by
  -- one, a key that had none before or else with an approved resend.
  pub rows_after-LedgerRun :
      (calls : Calls) (rows : List Delivery)
      → AreValid rows
      → LedgerRun calls (ledger_of rows) (ledger_of (rows_after calls rows))
  unfolding rows_after LedgerRun
  rows_after-LedgerRun [] rows v = λ k. refl
  rows_after-LedgerRun ((b, mode, resend) ∷ calls) rows v =
      let rows' = (deliver_briefing c b mode resend rows).rows in
      (
        ledger_of rows',
        deliver_briefing-LedgerStep b mode resend rows v,
        rows_after-LedgerRun calls rows' (deliver_briefing-AreValid c b mode resend rows v),
      )
