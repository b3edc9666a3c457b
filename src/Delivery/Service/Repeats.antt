-- ===== src/Delivery/Service/Repeats.antt =====
-- Repeated calls of `deliver_briefing` (service.py) for one briefing.
use inno_scalping_crawling.Common.{
  ℕ, ◌+◌, ◌≤◌, ◌≡◌, refl, sym, ap, ◌∙◌, inl, inr, true, false, Bool, Option, List, [], ◌∷◌, arith,
  ok, err, Text, Result, All, ◌⊎◌,
}
use inno_scalping_crawling.Delivery.Guard.{resend_is_approved}
use inno_scalping_crawling.Delivery.Service.{
  Delivery, Briefing, Resend, Connector, DeliveryError, deliver_briefing,
}
use inno_scalping_crawling.Delivery.Service.Once.{deliver_briefing-again}

abbrev IsUnapproved : Option Text × Resend → Type 0
IsUnapproved call = resend_is_approved call.1.reason call.1.approved_by ≡ false

-- 1 for a call that delivered.
abbrev count : {E : Type 0} → Result (DeliveryError E) Bool → ℕ
count (ok true) = 1
count (ok false) = 0
count (err _) = 0

count-cases : {E : Type 0} (r : Result (DeliveryError E) Bool) → (r ≡ ok true) ⊎ (count r ≡ 0)
count-cases (ok true) = inl refl
count-cases (ok false) = inr refl
count-cases (err e) = inr refl

module _ {Item E : Type 0} (c : Connector Item E) where
  -- How many of some calls, each with its mode and its resend fields, deliver the briefing. Every
  -- call finds the rows that the call before it left.
  unfoldable pub deliveries : Briefing Item → List (Option Text × Resend) → List Delivery → ℕ
  deliveries b [] rows = 0
  deliveries b ((mode, resend) ∷ calls) rows =
      count (deliver_briefing c b mode resend rows).result
      + deliveries b calls (deliver_briefing c b mode resend rows).rows

  -- The rows are those after a call that delivered.
  record IsAfter (b : Briefing Item) (rows : List Delivery) : Type 0 where
    mode : Option Text
    resend : Resend
    earlier : List Delivery
    delivered : (deliver_briefing c b mode resend earlier).result ≡ ok true
    left : rows ≡ (deliver_briefing c b mode resend earlier).rows

  -- After a delivery there is no other.
  deliveries-IsAfter :
      (b : Briefing Item) (calls : List (Option Text × Resend)) (rows : List Delivery)
      → IsAfter b rows
      → All IsUnapproved calls
      → deliveries b calls rows ≡ 0
  unfolding deliveries
  deliveries-IsAfter b [] rows after all = refl
  deliveries-IsAfter b ((mode, resend) ∷ calls) rows after (refused, all) =
      let (_, kept, failed) =
        deliver_briefing-again c b after.mode mode after.resend resend after.earlier after.delivered
          refused in
      let here : (deliver_briefing c b mode resend rows)
          ≡ deliver_briefing c b mode resend
              (deliver_briefing c b after.mode after.resend after.earlier).rows =
        ap (deliver_briefing c b mode resend) after.left in
      let same : (deliver_briefing c b mode resend rows).rows ≡ rows =
        ap (λ d. d.rows) here ∙ (kept ∙ sym after.left) in
      elim (count-cases (deliver_briefing c b mode resend rows).result) [
        | inl done ↦ absurd (failed (sym (ap (λ d. d.result) here) ∙ done))
        | inr none_here ↦
            rw (none_here, same) (omega (arith, deliveries-IsAfter b calls rows after all))
      ]

  -- Without an approved resend a briefing is delivered at most once, however often it is tried and
  -- whatever the mode of each call and the rows at the start; the connector's rendering depends on
  -- the briefing alone.
  pub deliveries_at_most_once :
      (b : Briefing Item) (calls : List (Option Text × Resend)) (rows : List Delivery)
      → All IsUnapproved calls
      → deliveries b calls rows ≤ 1
  unfolding deliveries
  deliveries_at_most_once b [] rows all = omega arith
  deliveries_at_most_once b ((mode, resend) ∷ calls) rows (refused, all) =
      let rows' = (deliver_briefing c b mode resend rows).rows in
      elim (count-cases (deliver_briefing c b mode resend rows).result) [
        | inl done ↦
            let rest =
              deliveries-IsAfter b calls rows'
                (record {
                  mode = mode;
                  resend = resend;
                  earlier = rows;
                  delivered = done;
                  left = refl;
                })
                all in
            rw (done, rest) (omega arith)
        | inr none_here ↦ rw none_here (omega (arith, deliveries_at_most_once b calls rows' all))
      ]
