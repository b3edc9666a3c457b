-- ===== src/Delivery/Service.antt =====
-- src/scalping_briefing/delivery/service.py: one delivery attempt of a briefing. The publication
-- gate, the connector's rendering and sending, and the SHA-256 digest are parameters. The rows of
-- the briefing are the state, and what is sent is a list.
pub mod Rows
pub mod Sends
pub mod Once
pub mod Repeats
pub mod Numbers
pub mod Ledger
use inno_scalping_crawling.Common.{
  ℕ, Bool, true, false, not, ◌&&◌, ◌||◌, Option, none, some, List, [], ◌∷◌, ◌++◌, Result, ok, err,
  raise_if, ltb, ◌==◌, if◌then◌else◌, Text, codes, is_filled, strip, text_eq, lower, keep, map,
  ◌>>=◌, ◌>>◌,
}
use inno_scalping_crawling.Delivery.Guard.{
  GuardError, make_idempotency_key, validate_idempotency_key, Attempt, next_attempt_no, can_resend,
  resend_is_approved,
}

-- A row of the table of deliveries (models/delivery.py), its identifier and timestamps left out.
pub record Delivery : Type 0 where
  pub briefing_id : Text
  pub channel : Text
  pub idempotency_key : Text
  pub content_hash : Text
  pub attempt_no : ℕ
  pub resend_reason : Option Text
  pub resend_approved_by : Option Text
  pub status : Text
  pub provider_reference : Option Text
  pub error : Option Text

-- The `str` of the status, which is "None" if the status is `None`, and `none` if there is no such
-- attribute or key.
pub record SendResult : Type 0 where
  pub status : Option Text
  pub provider_reference : Option Text
  pub error : Option Text

pub data DeliveryError (E : Type 0) : Type 0 where
  gate_refused send_failed : E → DeliveryError E
  render_not_text channel_empty : DeliveryError E
  guard : GuardError → DeliveryError E

-- What the gate and the connector are given beside the briefing: its items and the resend fields.
pub record Briefing (Item : Type 0) : Type 0 where
  pub briefing_id : Text
  pub items : List Item

pub record Resend : Type 0 where
  pub reason : Option Text
  pub approved_by : Option Text

pub record Connector (Item E : Type 0) : Type 0 where
  pub gate : Briefing Item → Resend → List Delivery → Result E (Unit {0})
  pub render : Briefing Item → Option Text
  pub sha256 : Text → Text
  pub channel : Text
  pub send : Text → Bool → Result E SendResult

-- `_delivery_dry_run`
unfoldable pub delivery_dry_run : Option Text → Bool
unfolding strip lower text_eq
delivery_dry_run none = not (text_eq (lower (strip (codes "dry_run"))) (codes "live"))
delivery_dry_run (some mode) = not (text_eq (lower (strip mode)) (codes "live"))

abbrev pub as_attempt : Delivery → Attempt
as_attempt d = record { status = d.status; attempt_no = some d.attempt_no }

abbrev pub has_key : Text → Delivery → Bool
has_key key d = text_eq d.idempotency_key key

-- `_attempt_number`; both of its last branches make the same call in the source too.
unfoldable pub attempt_number : List Delivery → Text → Resend → Result GuardError ℕ
unfolding next_attempt_no can_resend text_eq
attempt_number history key resend =
    let matching = map as_attempt (keep (has_key key) history) in
    elim matching [
      | [] ↦ ok 1
      | r ∷ records ↦
          if not (can_resend (r ∷ records) resend.reason resend.approved_by)
            || not (resend_is_approved resend.reason resend.approved_by)
          then next_attempt_no (r ∷ records) resend.reason resend.approved_by
          else next_attempt_no (r ∷ records) resend.reason resend.approved_by
    ]

-- The highest attempt number of the rows with the key, 0 if there are none.
unfoldable pub latest_attempt : Text → List Delivery → ℕ
unfolding text_eq
latest_attempt key [] = 0
latest_attempt key (d ∷ rows) =
    let rest = latest_attempt key rows in
    if has_key key d then (if ltb rest d.attempt_no then d.attempt_no else rest) else rest

-- The update of the row that `_existing_delivery` returns, the first with that number.
unfoldable pub update_row : Text → ℕ → (Delivery → Delivery) → List Delivery → List Delivery
unfolding text_eq
update_row key n change [] = []
update_row key n change (d ∷ rows) =
    if has_key key d && d.attempt_no == n then change d ∷ rows else d ∷ update_row key n change rows

unfoldable pub has_row : Text → List Delivery → Bool
unfolding text_eq
has_row key [] = false
has_row key (d ∷ rows) = if has_key key d then true else has_row key rows

abbrev status_or_success : Option Text → Text
status_or_success none = codes "success"
status_or_success (some s) = s

unfoldable pub new_delivery : Text → Text → Text → Text → ℕ → Resend → SendResult → Delivery
new_delivery briefing_id channel key content_hash attempt_no resend result = record {
  briefing_id = briefing_id;
  channel = channel;
  idempotency_key = key;
  content_hash = content_hash;
  attempt_no = attempt_no;
  resend_reason = resend.reason;
  resend_approved_by = resend.approved_by;
  status = status_or_success result.status;
  provider_reference = result.provider_reference;
  error = result.error;
}

-- An approved resend writes over the row of its key.
unfoldable pub resent : Text → ℕ → Resend → SendResult → Delivery → Delivery
resent content_hash attempt_no resend result d = record d {
  attempt_no = attempt_no;
  resend_reason = resend.reason;
  resend_approved_by = resend.approved_by;
  status = status_or_success result.status;
  content_hash = content_hash;
  provider_reference = result.provider_reference;
  error = result.error;
}

unfoldable pub persist :
    Text → Text → Text → Text → ℕ → Resend → SendResult → List Delivery → List Delivery
unfolding has_row latest_attempt update_row new_delivery resent
persist briefing_id channel key content_hash attempt_no resend result rows =
    if has_row key rows
    then update_row key (latest_attempt key rows) (resent content_hash attempt_no resend result)
        rows
    else rows ++ new_delivery briefing_id channel key content_hash attempt_no resend result ∷ []

-- The message that a call is about to send, with its key, its digest and its attempt number.
pub record Prepared : Type 0 where
  pub message : Text
  pub content_hash : Text
  pub channel : Text
  pub key : Text
  pub attempt_no : ℕ

abbrev pub lift_guard : {E A : Type 0} → Result GuardError A → Result (DeliveryError E) A
lift_guard (ok a) = ok a
lift_guard (err e) = err (guard e)

abbrev pub rendered : {E : Type 0} → Option Text → Result (DeliveryError E) Text
rendered none = err render_not_text
rendered (some message) = ok message

module _ {Item E : Type 0} (c : Connector Item E) where
  -- `deliver_briefing` after the gate, up to the call of `send`.
  unfoldable pub prepare :
      Briefing Item → Resend → List Delivery → Result (DeliveryError E) Prepared
  prepare b resend rows = do
    message ← rendered (c.render b)
    raise_if (not (is_filled c.channel)) channel_empty
    let content_hash = c.sha256 message
    key ← lift_guard (make_idempotency_key b.briefing_id (strip c.channel) content_hash)
    lift_guard (validate_idempotency_key key)
    attempt_no ← lift_guard (attempt_number rows key resend)
    ok (record {
      message = message;
      content_hash = content_hash;
      channel = strip c.channel;
      key = key;
      attempt_no = attempt_no;
    })

  -- The result of a call, the messages sent with their dry-run flag, and the rows after it.
  pub record Delivered : Type 0 where
    pub result : Result (DeliveryError E) Bool
    pub sent : List (Text × Bool)
    pub rows : List Delivery

  abbrev pub send_prepared :
      Briefing Item
      → Option Text
      → Resend
      → List Delivery
      → Result (DeliveryError E) Prepared
      → Delivered
  send_prepared b mode resend rows (err e) = record { result = err e; sent = []; rows = rows }
  send_prepared b mode resend rows (ok p) =
      let message : Text × Bool = (p.message, delivery_dry_run mode) in
      elim (c.send p.message (delivery_dry_run mode)) [
        | err e ↦ record { result = err (send_failed e); sent = message ∷ []; rows = rows }
        | ok result ↦ record {
          result = ok true;
          sent = message ∷ [];
          rows =
              persist b.briefing_id p.channel p.key p.content_hash p.attempt_no resend result rows;
        }
      ]

  abbrev pub deliver_gated :
      Briefing Item
      → Option Text
      → Resend
      → List Delivery
      → Result E (Unit {0})
      → List Item
      → Delivered
  deliver_gated b mode resend rows (err e) items = record {
    result = err (gate_refused e);
    sent = [];
    rows = rows;
  }
  deliver_gated b mode resend rows (ok _) [] = record { result = ok false; sent = []; rows = rows }
  deliver_gated b mode resend rows (ok _) (_ ∷ _) =
      send_prepared b mode resend rows (prepare b resend rows)

  -- `deliver_briefing`; `ok false` stands for the result `None`, where there is nothing to deliver.
  unfoldable pub deliver_briefing : Briefing Item → Option Text → Resend → List Delivery → Delivered
  deliver_briefing b mode resend rows =
      deliver_gated b mode resend rows (c.gate b resend rows) b.items
