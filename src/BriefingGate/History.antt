-- ===== src/BriefingGate/History.antt =====
-- The delivery history in briefing_gate.py: `_delivery_values`, `_matching_history` and
-- `_assert_delivery_history`.
use inno_scalping_crawling.Common.{
  Bool, true, false, not, ◌&&◌, if◌then◌else◌, Option, none, some, List, [], ◌∷◌, keep, map, Text,
  codes, text_eq, Result, ok, err, raise_if, ◌>>=◌, ◌>>◌,
}
use inno_scalping_crawling.Common.Int.{ℤ}
use inno_scalping_crawling.Publication.{Value, text}
use inno_scalping_crawling.Delivery.Guard.{
  Attempt, GuardError, make_idempotency_key, validate_idempotency_key, next_attempt_no,
}
use inno_scalping_crawling.BriefingGate.{
  BriefingError, guard, key_mismatch, first, or_else, or_empty, is_given, str,
}

-- `int(_setting(settings, "quote_max_chars", ...))`: the setting is missing, no integer, or one.
pub data QuoteSetting : Type 0 where
  missing no_integer : QuoteSetting
  integer : ℤ → QuoteSetting

pub record Settings : Type 0 where
  pub quote_max_chars : QuoteSetting
  pub delivery_channel : Option Value

-- An earlier delivery: its key is missing (`none`), `None` (`some none`) or a text.
pub record Past : Type 0 where
  pub idempotency_key : Option (Option Text)
  pub attempt : Attempt

pub record DeliveryValues : Type 0 where
  pub briefing_id : Option Value
  pub channel : Option Value
  pub content_hash : Option Value
  pub idempotency_key : Option Value
  pub resend_reason : Option Value
  pub resend_approved_by : Option Value

-- `_delivery_values`
unfoldable pub delivery_values : Value → Settings → DeliveryValues
delivery_values section settings =
    let delivery = or_empty (first section (codes "delivery" ∷ [])) in
    let read = λ (name : Text). or_else (first section (name ∷ [])) (first delivery (name ∷ [])) in
    record {
      briefing_id = first section (codes "briefing_id" ∷ []);
      channel = or_else (first section (codes "channel" ∷ [])) settings.delivery_channel;
      content_hash = read (codes "content_hash");
      idempotency_key = read (codes "idempotency_key");
      resend_reason = read (codes "resend_reason");
      resend_approved_by = read (codes "resend_approved_by");
    }

abbrev pub has_key : Text → Past → Bool
has_key expected past = same past.idempotency_key
  where
    same : Option (Option Text) → Bool
    same none = true
    same (some none) = false
    same (some (some key)) = text_eq key expected

-- `_matching_history`; one record alone is the list with that record.
unfoldable pub matching_history : Option Text → List Past → List Past
matching_history none history = history
matching_history (some expected) history = keep (has_key expected) history

abbrev pub raise_guard : {A : Type 0} → Result GuardError A → Result BriefingError A
raise_guard (ok a) = ok a
raise_guard (err e) = err (guard e)

abbrev pub text_only : Option Value → Option Text
text_only (some (text s)) = some s
text_only _ = none

module _ (repr : Value → Text) where
  abbrev shown : Option Value → Text
  shown none = []
  shown (some v) = str repr v

  -- The `if` that sets `expected_key`.
  unfoldable pub expected_key : DeliveryValues → Result BriefingError (Option Text)
  expected_key values =
      let from_parts = (do
        key ← raise_guard (
            make_idempotency_key (shown values.briefing_id) (shown values.channel)
              (shown values.content_hash))
        raise_if
            (is_given values.idempotency_key && not (text_eq (shown values.idempotency_key) key))
            key_mismatch
        ok (some key)) in
      let checked = (do
        raise_guard (validate_idempotency_key (shown values.idempotency_key))
        ok none) in
      if is_given values.briefing_id && (is_given values.channel && is_given values.content_hash)
      then from_parts
      else if is_given values.idempotency_key
      then checked
      else ok none

  -- `_assert_delivery_history`
  unfoldable pub assert_delivery_history :
      Value → Settings → List Past → Result BriefingError (Unit {0})
  assert_delivery_history section settings history =
      let values = delivery_values section settings in
      expected_key values >>= λ expected.
      raise_guard (
        next_attempt_no (map (λ past. past.attempt) (matching_history expected history))
          (text_only values.resend_reason) (text_only values.resend_approved_by))
      >>= λ _. ok tt
