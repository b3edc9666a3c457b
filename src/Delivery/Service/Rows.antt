-- ===== src/Delivery/Service/Rows.antt =====
-- The rows that service.py writes, against the constraints of their table (models/delivery.py).
use mathlib.Core.Path.{subst}
use inno_scalping_crawling.Common.{
  ℕ, ◌<◌, ◌≡◌, refl, sym, ap, ◌∙◌, ◌⊎◌, inl, inr, true, false, List, [], ◌∷◌, ◌++◌, arith, ok, Text,
  text_eq, text_eq_sound, Bool-cases, text_eq_refl, ◌&&◌, ◌==◌, if◌then◌else◌,
}
use inno_scalping_crawling.Delivery.Guard.{make_idempotency_key, resend_is_approved}
use inno_scalping_crawling.Delivery.Guard.Keys.{make_idempotency_key-IsInjective}
use inno_scalping_crawling.Delivery.Service.{
  Delivery, Resend, SendResult, has_key, has_row, latest_attempt, update_row, new_delivery, resent,
  persist,
}

-- `ck_deliveries_attempt_no`, `ck_deliveries_resend_approval` and the derivation of the key.
pub record IsValidRow (d : Delivery) : Type 0 where
  pub positive : 0 < d.attempt_no
  pub approved :
      (d.attempt_no < 2) ⊎ (resend_is_approved d.resend_reason d.resend_approved_by ≡ true)
  pub derived : make_idempotency_key d.briefing_id d.channel d.content_hash ≡ ok d.idempotency_key

-- `uq_deliveries_idempotency_key` beside the constraints on each row.
abbrev pub AreValid : List Delivery → Type 0
AreValid [] = Unit
AreValid (d ∷ rows) = IsValidRow d × (has_row d.idempotency_key rows ≡ false) × AreValid rows

-- Whether a list has a row of a key depends on the keys alone.
has_row-append :
    (key : Text) (rows : List Delivery) (d : Delivery)
    → has_row key (rows ++ d ∷ []) ≡ (if has_row key rows then true else has_key key d)
unfolding has_row
has_row-append key [] d = ground arith
has_row-append key (x ∷ rows) d = ground (arith, has_row-append key rows d)

has_row-update_row :
    (key other : Text) (n : ℕ) (change : Delivery → Delivery) (rows : List Delivery)
    → ((d : Delivery) → (change d).idempotency_key ≡ d.idempotency_key)
    → has_row other (update_row key n change rows) ≡ has_row other rows
unfolding has_row update_row
has_row-update_row key other n change [] keeps = refl
has_row-update_row key other n change (d ∷ rows) keeps =
    ground (arith, keeps d, has_row-update_row key other n change rows keeps)

text_eq_comm : (s t : Text) → text_eq s t ≡ false → text_eq t s ≡ false
text_eq_comm s t h = elim (Bool-cases (text_eq t s)) [
  | inl same ↦ cc (h, text_eq_refl s, text_eq_sound t s same)
  | inr other ↦ other
]

has_row_ne :
    (key : Text) (x : Delivery) (rows : List Delivery)
    → has_row key (x ∷ rows) ≡ false
    → (text_eq x.idempotency_key key ≡ false) × (has_row key rows ≡ false)
unfolding has_row
has_row_ne key x rows h = ground arith

AreValid-append :
    (rows : List Delivery) (d : Delivery)
    → AreValid rows
    → IsValidRow d
    → has_row d.idempotency_key rows ≡ false
    → AreValid (rows ++ d ∷ [])
AreValid-append [] d v w h = (w, unfold has_row in refl, tt)
AreValid-append (x ∷ rows) d (vx, nx, vr) w h =
    let (other, rest) = has_row_ne d.idempotency_key x rows h in
    (
      vx,
      has_row-append x.idempotency_key rows d
          ∙ rw nx (text_eq_comm x.idempotency_key d.idempotency_key other),
      AreValid-append rows d vr w rest,
    )

pub update_here :
    (key : Text) (n : ℕ) (change : Delivery → Delivery) (d : Delivery) (rows : List Delivery)
    → (has_key key d && d.attempt_no == n) ≡ true
    → update_row key n change (d ∷ rows) ≡ change d ∷ rows
unfolding update_row
update_here key n change d rows h = ground arith

pub update_later :
    (key : Text) (n : ℕ) (change : Delivery → Delivery) (d : Delivery) (rows : List Delivery)
    → (has_key key d && d.attempt_no == n) ≡ false
    → update_row key n change (d ∷ rows) ≡ d ∷ update_row key n change rows
unfolding update_row
update_later key n change d rows h = ground arith

module _ (briefing_id channel key content_hash : Text) (n : ℕ) (resend : Resend)
    (result : SendResult) where
  pub persist_known :
      (rows : List Delivery)
      → has_row key rows ≡ true
      → persist briefing_id channel key content_hash n resend result rows
        ≡ update_row key (latest_attempt key rows) (resent content_hash n resend result) rows
  unfolding persist
  persist_known rows h = ground arith

  pub persist_fresh :
      (rows : List Delivery)
      → has_row key rows ≡ false
      → persist briefing_id channel key content_hash n resend result rows
        ≡ rows ++ new_delivery briefing_id channel key content_hash n resend result ∷ []
  unfolding persist
  persist_fresh rows h = ground arith

  new-IsValidRow :
      make_idempotency_key briefing_id channel content_hash ≡ ok key
      → 0 < n
      → (n < 2) ⊎ (resend_is_approved resend.reason resend.approved_by ≡ true)
      → IsValidRow (new_delivery briefing_id channel key content_hash n resend result)
  unfolding new_delivery
  new-IsValidRow made pos approved = record { positive = pos; approved = approved; derived = made }

  new_has_row :
      (rows : List Delivery)
      → has_row key rows ≡ false
      → has_row
          (new_delivery briefing_id channel key content_hash n resend result).idempotency_key
          rows
        ≡ false
  unfolding new_delivery
  new_has_row rows h = h

  -- After a call its key has a row.
  pub has_row-persist :
      (rows : List Delivery)
      → has_row key (persist briefing_id channel key content_hash n resend result rows) ≡ true
  has_row-persist rows = elim (Bool-cases (has_row key rows)) [
    | inl known ↦
        ap (has_row key) (persist_known rows known)
        ∙ has_row-update_row key key (latest_attempt key rows) (resent content_hash n resend result)
            rows (λ d. unfold resent in refl)
        ∙ known
    | inr fresh ↦
        ap (has_row key) (persist_fresh rows fresh)
        ∙ has_row-append key rows
            (new_delivery briefing_id channel key content_hash n resend result)
        ∙ rw fresh (unfold new_delivery in text_eq_refl key)
  ]

AreValid-update_row :
    (key : Text) (n : ℕ) (change : Delivery → Delivery) (rows : List Delivery)
    → ((d : Delivery) → (change d).idempotency_key ≡ d.idempotency_key)
    → ((d : Delivery) → has_key key d ≡ true → IsValidRow d → IsValidRow (change d))
    → AreValid rows
    → AreValid (update_row key n change rows)
AreValid-update_row key n change [] keeps valid v = unfold update_row in tt
AreValid-update_row key n change (d ∷ rows) keeps valid (vd, nd, vr) =
    elim (Bool-cases (has_key key d && d.attempt_no == n)) [
      | inl here ↦
          subst AreValid (sym (update_here key n change d rows here))
            (valid d (ground arith) vd, ap (λ k. has_row k rows) (keeps d) ∙ nd, vr)
      | inr later ↦ subst AreValid (sym (update_later key n change d rows later)) (
        vd,
        has_row-update_row key d.idempotency_key n change rows keeps ∙ nd,
        AreValid-update_row key n change rows keeps valid vr,
      )
    ]

IsValidRow-resent :
    (briefing_id channel key content_hash : Text) (n : ℕ) (resend : Resend) (result : SendResult)
    (d : Delivery)
    → make_idempotency_key briefing_id channel content_hash ≡ ok key
    → 0 < n
    → (n < 2) ⊎ (resend_is_approved resend.reason resend.approved_by ≡ true)
    → has_key key d ≡ true
    → IsValidRow d
    → IsValidRow (resent content_hash n resend result d)
unfolding resent
IsValidRow-resent briefing_id channel key content_hash n resend result d made pos approved same v =
    let e = text_eq_sound d.idempotency_key key same in
    let (_, eb, ec, eh) =
      make_idempotency_key-IsInjective briefing_id channel content_hash d.briefing_id d.channel
        d.content_hash key made (v.derived ∙ ap ok e) in
    record { positive = pos; approved = approved; derived = cc (v.derived, eh) }

-- What a call writes keeps the constraints of the table, if its key was made from its components
-- and its attempt number is 1 or approved.
pub persist-AreValid :
    (briefing_id channel key content_hash : Text) (n : ℕ) (resend : Resend) (result : SendResult)
    (rows : List Delivery)
    → make_idempotency_key briefing_id channel content_hash ≡ ok key
    → 0 < n
    → (n < 2) ⊎ (resend_is_approved resend.reason resend.approved_by ≡ true)
    → AreValid rows
    → AreValid (persist briefing_id channel key content_hash n resend result rows)
persist-AreValid briefing_id channel key content_hash n resend result rows made pos approved v =
    elim (Bool-cases (has_row key rows)) [
      | inl known ↦
          subst AreValid
            (sym (persist_known briefing_id channel key content_hash n resend result rows known))
            (AreValid-update_row key (latest_attempt key rows) (resent content_hash n resend result)
              rows (λ d. unfold resent in refl)
              (λ d same w.
                IsValidRow-resent briefing_id channel key content_hash n resend result d made pos
                  approved same w)
              v)
      | inr fresh ↦
          subst AreValid
            (sym (persist_fresh briefing_id channel key content_hash n resend result rows fresh))
            (AreValid-append rows
              (new_delivery briefing_id channel key content_hash n resend result) v
              (new-IsValidRow briefing_id channel key content_hash n resend result made pos
                approved)
              (new_has_row briefing_id channel key content_hash n resend result rows fresh))
    ]
