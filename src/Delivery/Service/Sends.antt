-- ===== src/Delivery/Service/Sends.antt =====
-- When `deliver_briefing` of service.py sends a message.
use mathlib.Core.Path.{subst}
use inno_scalping_crawling.Common.{
  ℕ, ◌<◌, ◌≡◌, ◌≢◌, refl, sym, ◌∙◌, ◌⊎◌, inl, inr, true, not, Option, some, List, [], ◌∷◌, arith,
  ok, Text, Bool-cases, Result-cases, Option-cases, keep, map, is_filled, strip,
}
use inno_scalping_crawling.Delivery.Guard.{
  make_idempotency_key, validate_idempotency_key, resend_is_approved, next_attempt_no, Attempt,
}
use inno_scalping_crawling.Delivery.Guard.Attempts.{next_attempt_no-approved}
use inno_scalping_crawling.Delivery.Service.{
  Delivery, Briefing, Resend, Connector, SendResult, has_key, has_row, as_attempt, attempt_number,
  Prepared, prepare, deliver_briefing, send_prepared, persist, delivery_dry_run,
}

pub attempt_number-next_attempt_no :
    (rows : List Delivery) (key : Text) (resend : Resend) (matching : List Attempt)
    → map as_attempt (keep (has_key key) rows) ≡ matching
    → attempt_number rows key resend ≡ next_attempt_no matching resend.reason resend.approved_by
unfolding attempt_number
attempt_number-next_attempt_no rows key resend [] e = rw (e, attempt_number) refl
attempt_number-next_attempt_no rows key resend (r ∷ records) e = ground arith

pub keep-has_row :
    (key : Text) (rows : List Delivery) → has_row key rows ≡ true → keep (has_key key) rows ≢ []
unfolding has_row
keep-has_row key [] h = ground arith
keep-has_row key (d ∷ rows) h = ground (arith, keep-has_row key rows)

next_attempt_no_lem :
    (matching : List Attempt) (reason approver : Option Text) (n : ℕ)
    → next_attempt_no matching reason approver ≡ ok n
    → (0 < n)
      × ((n < 2) ⊎ (resend_is_approved reason approver ≡ true))
      × (matching ≢ [] → resend_is_approved reason approver ≡ true)
next_attempt_no_lem [] reason approver n h =
    let e : n ≡ 1 = unfold next_attempt_no in ground arith in
    (omega arith, inl (omega arith), λ ne. absurd (ne refl))
next_attempt_no_lem (r ∷ records) reason approver n h =
    let (pos, _, approved) = next_attempt_no-approved (r ∷ records) reason approver n h in
    elim approved [
      | inl e ↦ absurd (cc e)
      | inr yes_approved ↦ (pos, inr yes_approved, λ _. yes_approved)
    ]

-- A repeated key has an attempt number only with approval.
pub attempt_number_lem :
    (rows : List Delivery) (key : Text) (resend : Resend) (n : ℕ)
    → attempt_number rows key resend ≡ ok n
    → (0 < n)
      × ((n < 2) ⊎ (resend_is_approved resend.reason resend.approved_by ≡ true))
      × (has_row key rows ≡ true → resend_is_approved resend.reason resend.approved_by ≡ true)
attempt_number_lem rows key resend n h =
    let matching = map as_attempt (keep (has_key key) rows) in
    let (pos, small, repeated) =
      next_attempt_no_lem matching resend.reason resend.approved_by n
        (sym (attempt_number-next_attempt_no rows key resend matching refl) ∙ h) in
    (
      pos,
      small,
      λ known. repeated (λ e. keep-has_row key rows known (map-nil (keep (has_key key) rows) e)),
    )
  where
    map-nil : (l : List Delivery) → map as_attempt l ≡ [] → l ≡ []
    map-nil [] e = refl
    map-nil (d ∷ l) e = absurd (cc e)

List-cases : {A : Type 0} (l : List A) → (l ≡ []) ⊎ ((a : A) × ((rest : List A) × (l ≡ a ∷ rest)))
List-cases [] = inl refl
List-cases (a ∷ rest) = inr (a, (rest, refl))

module _ {Item E : Type 0} (c : Connector Item E) where
  -- What `prepare` has established of the message that it returns.
  pub record IsPrepared (b : Briefing Item) (resend : Resend) (rows : List Delivery) (p : Prepared)
      : Type 0 where
    pub from_render : c.render b ≡ some p.message
    pub hashed : p.content_hash ≡ c.sha256 p.message
    pub on_channel : p.channel ≡ strip c.channel
    pub made : make_idempotency_key b.briefing_id p.channel p.content_hash ≡ ok p.key
    pub numbered : attempt_number rows p.key resend ≡ ok p.attempt_no

  pub prepare_lem :
      (b : Briefing Item) (resend : Resend) (rows : List Delivery) (p : Prepared)
      → prepare c b resend rows ≡ ok p
      → IsPrepared b resend rows p
  unfolding prepare
  prepare_lem b resend rows p h = elim (Option-cases (c.render b)) [
    | inl bad ↦ absurd (ground arith)
    | inr (message, er) ↦ elim (Bool-cases (not (is_filled c.channel))) [
      | inl empty ↦ absurd (ground arith)
      | inr filled_channel ↦
          elim (Result-cases
            (make_idempotency_key b.briefing_id (strip c.channel) (c.sha256 message))) [
              | inr (x, e) ↦ absurd (ground arith)
              | inl (key, ek) ↦ elim (Result-cases (validate_idempotency_key key)) [
                | inr (x, e) ↦ absurd (ground arith)
                | inl (valid, ev) ↦ elim (Result-cases (attempt_number rows key resend)) [
                  | inr (x, e) ↦ absurd (ground arith)
                  | inl (n, en) ↦
                      let q : p ≡ record {
                        message = message;
                        content_hash = c.sha256 message;
                        channel = strip c.channel;
                        key = key;
                        attempt_no = n;
                      } =
                        ground arith in
                      subst (IsPrepared b resend rows) (sym q) (record {
                        from_render = er;
                        hashed = refl;
                        on_channel = refl;
                        made = ek;
                        numbered = en;
                      })
                ]
              ]
            ]
    ]
  ]

  -- Either a call sends nothing and writes nothing, or its gate accepted and it sends what it
  -- prepared.
  pub deliver_cases :
      (b : Briefing Item) (mode : Option Text) (resend : Resend) (rows : List Delivery)
      → ((deliver_briefing c b mode resend rows).sent ≡ [])
          × ((deliver_briefing c b mode resend rows).rows ≡ rows)
          × ((deliver_briefing c b mode resend rows).result ≢ ok true)
        ⊎ ((p : Prepared) × IsPrepared b resend rows p
            × (c.gate b resend rows ≡ ok tt)
            × (deliver_briefing c b mode resend rows ≡ send_prepared c b mode resend rows (ok p)))
  unfolding deliver_briefing
  deliver_cases b mode resend rows = elim (Result-cases (c.gate b resend rows)) [
    | inr (x, e) ↦ inl (ground arith, ground arith, λ r. ground arith)
    | inl (u, e) ↦ elim (List-cases b.items) [
      | inl none_left ↦ inl (ground arith, ground arith, λ r. ground arith)
      | inr (item, (items, ei)) ↦ elim (Result-cases (prepare c b resend rows)) [
        | inr (x, ep) ↦ inl (ground arith, ground arith, λ r. ground arith)
        | inl (p, ep) ↦ inr (p, prepare_lem b resend rows p ep, e, ground arith)
      ]
    ]
  ]

  -- What a call may write once it has prepared its message.
  pub rows-send_prepared :
      (b : Briefing Item) (mode : Option Text) (resend : Resend) (rows : List Delivery)
      (p : Prepared)
      → let d = send_prepared c b mode resend rows (ok p) in
        ((d.rows ≡ rows) × (d.result ≢ ok true))
        ⊎ ((result : SendResult) × (d.rows
              ≡ persist b.briefing_id p.channel p.key p.content_hash p.attempt_no resend result
                  rows))
  rows-send_prepared b mode resend rows p =
      elim (Result-cases (c.send p.message (delivery_dry_run mode))) [
        | inr (x, e) ↦ inl (ground arith, λ r. ground arith)
        | inl (result, e) ↦ inr (result, ground arith)
      ]

  pub sent-send_prepared :
      (b : Briefing Item) (mode : Option Text) (resend : Resend) (rows : List Delivery)
      (p : Prepared)
      → (send_prepared c b mode resend rows (ok p)).sent ≡ (p.message, delivery_dry_run mode) ∷ []
  sent-send_prepared b mode resend rows p =
      elim (Result-cases (c.send p.message (delivery_dry_run mode))) [
        | inr (x, e) ↦ ground arith
        | inl (result, e) ↦ ground arith
      ]
