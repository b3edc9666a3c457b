-- ===== src/Delivery/Examples.antt =====
-- One briefing through the delivery, twice (guard.py and service.py).
use inno_scalping_crawling.Common.{
  ℕ, ◌≡◌, ◌≢◌, ◌≤◌, ◌⊎◌, refl, true, false, Option, some, none, List, [], ◌∷◌, ok, Text, codes,
  strip, drop_spaces, is_space, is_filled, text_eq,
}
use inno_scalping_crawling.Delivery.Guard.{
  component, make_idempotency_key, is_valid_idempotency_key, validate_idempotency_key, split,
  Attempt, next_attempt_no, resend_is_approved, is_success, highest,
}
use inno_scalping_crawling.Delivery.Guard.Keys.{make_idempotency_key-IsInjective}
use inno_scalping_crawling.Delivery.Service.{
  Briefing, Resend, Connector, Prepared, deliver_briefing, delivery_dry_run, prepare, has_row,
  attempt_number,
}
use inno_scalping_crawling.Delivery.Service.Rows.{AreValid}
use inno_scalping_crawling.Delivery.Service.Sends.{IsPrepared}
use inno_scalping_crawling.Delivery.Service.Numbers.{ledger_of}
use inno_scalping_crawling.Delivery.Service.Ledger.{
  Calls, LedgerRun, rows_after, rows_after-LedgerRun,
}
use inno_scalping_crawling.Delivery.Service.Repeats.{deliveries, deliveries_at_most_once}
use inno_scalping_crawling.Delivery.Service.Once.{deliver_briefing-AreValid, deliver_briefing-sent}

abbrev connector : Connector ℕ (Unit {0})
connector = record {
  gate = λ b resend rows. ok tt;
  render = λ b. some (codes "briefing");
  sha256 = λ message. codes "d9";
  channel = codes "slack";
  send = λ message dry_run.
      ok (record { status = none; provider_reference = some (codes "r1"); error = none });
}

abbrev briefing : Briefing ℕ
briefing = record { briefing_id = codes "b1"; items = 1 ∷ [] }

abbrev no_resend : Resend
no_resend = record { reason = none; approved_by = none }

abbrev live : Option Text
live = some (codes "live")

built : make_idempotency_key (codes "b1") (codes "slack") (codes "d9") ≡ ok (codes "b1:slack:d9")
unfolding make_idempotency_key component strip drop_spaces is_space text_eq
built = refl

make_idempotency_key-IsInjective_example :
    (is_valid_idempotency_key (codes "b1:slack:d9") ≡ true)
    × (codes "b1" ≡ codes "b1")
    × (codes "slack" ≡ codes "slack")
    × (codes "d9" ≡ codes "d9")
make_idempotency_key-IsInjective_example =
    make_idempotency_key-IsInjective (codes "b1") (codes "slack") (codes "d9") (codes "b1")
      (codes "slack") (codes "d9") (codes "b1:slack:d9") built built

abbrev sent_once : List Attempt
sent_once = record { status = codes "Success"; attempt_no = some 1 } ∷ []

approved_resend : next_attempt_no sent_once (some (codes "typo")) (some (codes "kim")) ≡ ok 2
unfolding next_attempt_no highest is_success resend_is_approved is_filled strip drop_spaces is_space
approved_resend = refl

no_approval : resend_is_approved none (some (codes "kim")) ≡ false
unfolding resend_is_approved
no_approval = refl

delivers : (deliver_briefing connector briefing live no_resend []).result ≡ ok true
unfolding deliver_briefing prepare attempt_number make_idempotency_key component
    validate_idempotency_key split is_filled strip drop_spaces is_space text_eq
delivers = refl

sends : (deliver_briefing connector briefing live no_resend []).sent ≢ []
unfolding deliver_briefing prepare attempt_number make_idempotency_key component
    validate_idempotency_key split is_filled strip drop_spaces is_space text_eq
sends e = cc e

not_approved : resend_is_approved no_resend.reason no_resend.approved_by ≡ false
unfolding resend_is_approved
not_approved = refl

deliver_briefing-AreValid_example :
    AreValid (deliver_briefing connector briefing live no_resend []).rows
deliver_briefing-AreValid_example =
    deliver_briefing-AreValid connector briefing live no_resend [] tt

abbrev one_call : Calls connector
one_call = (briefing, live, no_resend) ∷ []

rows_after-LedgerRun_example :
    LedgerRun connector one_call (ledger_of []) (ledger_of (rows_after connector one_call []))
rows_after-LedgerRun_example = rows_after-LedgerRun connector one_call [] tt

deliver_briefing-sent_example :
    (p : Prepared) × IsPrepared connector briefing no_resend [] p
    × (connector.gate briefing no_resend [] ≡ ok tt)
    × ((deliver_briefing connector briefing live no_resend []).sent
        ≡ (p.message, delivery_dry_run live) ∷ [])
    × ((has_row p.key [] ≡ false)
        ⊎ (resend_is_approved no_resend.reason no_resend.approved_by ≡ true))
deliver_briefing-sent_example = deliver_briefing-sent connector briefing live no_resend [] sends

abbrev three_calls : List (Option Text × Resend)
three_calls = (live, no_resend) ∷ (none, no_resend) ∷ (live, no_resend) ∷ []

deliveries_at_most_once_example : deliveries connector briefing three_calls [] ≤ 1
deliveries_at_most_once_example =
    deliveries_at_most_once connector briefing three_calls []
      (not_approved, (not_approved, (not_approved, tt)))
