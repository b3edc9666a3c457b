-- ===== src/Delivery/Service/Once.antt =====
-- A message is sent once unless a resend is approved, and the rows keep their constraints
-- (`deliver_briefing` of service.py).
use mathlib.Core.Path.{subst}
use inno_scalping_crawling.Common.{
  Bool-cases, ◌≡◌, ◌≢◌, sym, ap, ◌∙◌, inl, inr, ◌⊎◌, true, false, Option, List, [], ◌∷◌, ok, Text,
}
use inno_scalping_crawling.Delivery.Guard.{resend_is_approved}
use inno_scalping_crawling.Delivery.Service.{
  Delivery, Briefing, Resend, Connector, has_row, Prepared, deliver_briefing, delivery_dry_run,
  persist,
}
use inno_scalping_crawling.Delivery.Service.Rows.{AreValid, persist-AreValid, has_row-persist}
use inno_scalping_crawling.Delivery.Service.Sends.{
  IsPrepared, deliver_cases, rows-send_prepared, sent-send_prepared, attempt_number_lem,
}

module _ {Item E : Type 0} (c : Connector Item E) where
  -- Every call keeps the constraints of the table of deliveries: the keys are unique and made from
  -- their rows, and an attempt after the first is approved.
  pub deliver_briefing-AreValid :
      (b : Briefing Item) (mode : Option Text) (resend : Resend) (rows : List Delivery)
      → AreValid rows
      → AreValid (deliver_briefing c b mode resend rows).rows
  deliver_briefing-AreValid b mode resend rows v = elim (deliver_cases c b mode resend rows) [
    | inl (_, same, _) ↦ subst AreValid (sym same) v
    | inr (p, q, _, e) ↦ elim (rows-send_prepared c b mode resend rows p) [
      | inl (same, _) ↦ subst AreValid (sym (ap (λ d. d.rows) e ∙ same)) v
      | inr (result, r) ↦
          let (pos, small, _) = attempt_number_lem rows p.key resend p.attempt_no q.numbered in
          subst AreValid (sym (ap (λ d. d.rows) e ∙ r)) (
            persist-AreValid b.briefing_id p.channel p.key p.content_hash p.attempt_no resend result
              rows q.made pos small v)
    ]
  ]

  -- A call that sends anything sends one message, the rendering that the gate accepted, with the
  -- dry-run flag of the settings; and if the key of that message has a row already, then the resend
  -- was approved.
  pub deliver_briefing-sent :
      (b : Briefing Item) (mode : Option Text) (resend : Resend) (rows : List Delivery)
      → (deliver_briefing c b mode resend rows).sent ≢ []
      → (p : Prepared) × IsPrepared c b resend rows p
        × (c.gate b resend rows ≡ ok tt)
        × ((deliver_briefing c b mode resend rows).sent ≡ (p.message, delivery_dry_run mode) ∷ [])
        × ((has_row p.key rows ≡ false)
            ⊎ (resend_is_approved resend.reason resend.approved_by ≡ true))
  deliver_briefing-sent b mode resend rows h = elim (deliver_cases c b mode resend rows) [
    | inl (nothing, _, _) ↦ absurd (h nothing)
    | inr (p, q, g, e) ↦ (
      p,
      q,
      g,
      ap (λ d. d.sent) e ∙ sent-send_prepared c b mode resend rows p,
      elim (Bool-cases (has_row p.key rows)) [
        | inr fresh ↦ inl fresh
        | inl known ↦ inr ((attempt_number_lem rows p.key resend p.attempt_no q.numbered).2 known)
      ],
    )
  ]

  -- After a call that delivered, the same briefing is not sent again without an approved resend,
  -- whatever the mode: no message goes out, the rows stay as they are, and the call does not report
  -- a delivery.
  pub deliver_briefing-again :
      (b : Briefing Item) (mode mode' : Option Text) (resend resend' : Resend)
      (rows : List Delivery)
      → (deliver_briefing c b mode resend rows).result ≡ ok true
      → resend_is_approved resend'.reason resend'.approved_by ≡ false
      → let rows' = (deliver_briefing c b mode resend rows).rows in
        ((deliver_briefing c b mode' resend' rows').sent ≡ [])
        × ((deliver_briefing c b mode' resend' rows').rows ≡ rows')
        × ((deliver_briefing c b mode' resend' rows').result ≢ ok true)
  deliver_briefing-again b mode mode' resend resend' rows done refused =
      elim (deliver_cases c b mode' resend' (deliver_briefing c b mode resend rows).rows) [
        | inl (nothing, same, failed) ↦ (nothing, same, failed)
        | inr (p', q', _, _) ↦ elim (deliver_cases c b mode resend rows) [
          | inl (_, _, failed) ↦ absurd (failed done)
          | inr (p, q, _, e) ↦ elim (rows-send_prepared c b mode resend rows p) [
            | inl (_, failed) ↦ absurd (failed (sym (ap (λ d. d.result) e) ∙ done))
            | inr (result, r) ↦
                let same_key = same_prepared p p' rows _ q q' in
                let written : (deliver_briefing c b mode resend rows).rows
                    ≡ persist b.briefing_id p.channel p.key p.content_hash p.attempt_no resend
                        result rows =
                  ap (λ d. d.rows) e ∙ r in
                let known =
                  ap (λ k. has_row k (deliver_briefing c b mode resend rows).rows) same_key
                  ∙ ap (has_row p.key) written
                  ∙ has_row-persist b.briefing_id p.channel p.key p.content_hash p.attempt_no resend
                      result rows in
                let approved =
                  (attempt_number_lem (deliver_briefing c b mode resend rows).rows p'.key resend'
                      p'.attempt_no q'.numbered).2
                    known in
                absurd (cc (approved, refused))
          ]
        ]
      ]
    where
      same_prepared :
          (p p' : Prepared) (r r' : List Delivery)
          → IsPrepared c b resend r p
          → IsPrepared c b resend' r' p'
          → p'.key ≡ p.key
      same_prepared p p' r r' q q' = cc (
        q.made, q'.made, q.on_channel, q'.on_channel, q.hashed, q'.hashed, q.from_render,
        q'.from_render,
      )
