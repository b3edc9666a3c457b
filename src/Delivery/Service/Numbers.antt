-- ===== src/Delivery/Service/Numbers.antt =====
-- The attempt numbers that delivery/service.py gives to the rows of a key.
use mathlib.Core.Path.{subst}
use inno_scalping_crawling.Common.{
  ℕ, zero, suc, ◌+◌, ◌<◌, ◌≡◌, refl, sym, ap, ◌∙◌, inl, inr, Bool, true, false, ◌&&◌, ◌==◌, ltb,
  if◌then◌else◌, Option, some, List, [], ◌∷◌, ◌++◌, arith, ok, Text, text_eq, text_eq_sound,
  Bool-cases, keep, map,
}
use inno_scalping_crawling.Delivery.Guard.{Attempt, max, number, highest, next_attempt_no}
use inno_scalping_crawling.Delivery.Service.{
  Delivery, Resend, SendResult, has_key, has_row, latest_attempt, update_row, as_attempt,
  attempt_number, new_delivery, resent, persist,
}
use inno_scalping_crawling.Delivery.Service.Rows.{
  AreValid, persist_known, persist_fresh, update_here, update_later,
}
use inno_scalping_crawling.Delivery.Service.Sends.{attempt_number-next_attempt_no}

maximum : (n rest : ℕ) → 0 < n → max (number (some n)) rest ≡ (if ltb rest n then n else rest)
maximum (zero) rest h = absurd (omega arith)
maximum (suc n) rest h = ground arith

-- The larger number, where the test holds.
abbrev bigger : Bool → ℕ → ℕ → ℕ
bigger test n rest = if test then (if ltb rest n then n else rest) else rest

bigger_comm : (p q : Bool) (x d r : ℕ) → bigger p x (bigger q d r) ≡ bigger q d (bigger p x r)
bigger_comm true true x d r = ground arith
bigger_comm true false x d r = refl
bigger_comm false q x d r = refl

pub latest_none :
    (key : Text) (rows : List Delivery) → has_row key rows ≡ false → latest_attempt key rows ≡ 0
unfolding has_row latest_attempt
latest_none key [] h = refl
latest_none key (d ∷ rows) h = ground (arith, latest_none key rows)

highest-latest_attempt :
    (key : Text) (rows : List Delivery)
    → AreValid rows
    → highest (map as_attempt (keep (has_key key) rows)) ≡ latest_attempt key rows
unfolding highest latest_attempt
highest-latest_attempt key [] v = refl
highest-latest_attempt key (d ∷ rows) (vd, nd, vr) =
    let positive = vd.positive in
    let rest = highest-latest_attempt key rows vr in
    elim (Bool-cases (has_key key d)) [
      | inr other ↦ rw other rest
      | inl same ↦ rw (same, rest) (maximum d.attempt_no (latest_attempt key rows) positive)
    ]

next_number :
    (matching : List Attempt) (reason by : Option Text) (n : ℕ)
    → next_attempt_no matching reason by ≡ ok n
    → n ≡ highest matching + 1
unfolding next_attempt_no
next_number [] reason by n h = unfold highest in ground arith
next_number (r ∷ records) reason by n h = ground arith

latest-append :
    (k : Text) (rows : List Delivery) (d : Delivery)
    → latest_attempt k (rows ++ d ∷ []) ≡ (
        if has_key k d
        then (if ltb (latest_attempt k rows) d.attempt_no
            then d.attempt_no
            else latest_attempt k rows)
        else latest_attempt k rows)
unfolding latest_attempt
latest-append k [] d = ground arith
latest-append k (x ∷ rows) d =
    ap (bigger (has_key k x) x.attempt_no) (latest-append k rows d)
    ∙ bigger_comm (has_key k x) (has_key k d) x.attempt_no d.attempt_no (latest_attempt k rows)

-- The ledger with another number for a key.
abbrev pub write : Text → ℕ → (Text → ℕ) → Text → ℕ
write key n ledger k = if text_eq key k then n else ledger k

abbrev pub ledger_of : List Delivery → Text → ℕ
ledger_of rows key = latest_attempt key rows

first_number : (n : ℕ) → 0 < n → (if ltb 0 n then n else 0) ≡ n
first_number n h = ground arith

==_refl : (n : ℕ) → (n == n) ≡ true
==_refl n = ground arith

hit :
    (key : Text) (d : Delivery) (n : ℕ)
    → has_key key d ≡ true
    → n ≡ d.attempt_no
    → (has_key key d && d.attempt_no == n) ≡ true
hit key d n same top = rw (same, top) (==_refl d.attempt_no)

above : (n rest : ℕ) → n ≡ rest + 1 → (if ltb rest n then n else rest) ≡ n
above n rest h = ground arith

top_here :
    (key : Text) (d : Delivery) (rows : List Delivery)
    → has_key key d ≡ true
    → has_row key rows ≡ false
    → 0 < d.attempt_no
    → latest_attempt key (d ∷ rows) ≡ d.attempt_no
unfolding latest_attempt
top_here key d rows same gone positive =
    rw (same, latest_none key rows gone) (first_number d.attempt_no positive)

top_later :
    (key : Text) (d : Delivery) (rows : List Delivery)
    → has_key key d ≡ false
    → latest_attempt key (d ∷ rows) ≡ latest_attempt key rows
unfolding latest_attempt
top_later key d rows other = rw other refl

has_later :
    (key : Text) (d : Delivery) (rows : List Delivery)
    → has_row key (d ∷ rows) ≡ true
    → has_key key d ≡ false
    → has_row key rows ≡ true
unfolding has_row
has_later key d rows h other = ground arith

module _ (key content_hash : Text) (n : ℕ) (resend : Resend) (result : SendResult) where
  latest_here :
      (k : Text) (d : Delivery) (rows : List Delivery)
      → has_key key d ≡ true
      → has_row key rows ≡ false
      → 0 < n
      → latest_attempt k (resent content_hash n resend result d ∷ rows)
        ≡ write key n (ledger_of (d ∷ rows)) k
  unfolding latest_attempt resent
  latest_here k d rows same gone positive = elim (Bool-cases (text_eq key k)) [
    | inl e ↦
        let on_k =
          subst (λ x. text_eq x k ≡ true) (sym (text_eq_sound d.idempotency_key key same)) e in
        let nothing =
          subst (λ x. latest_attempt x rows ≡ 0) (text_eq_sound key k e)
            (latest_none key rows gone) in
        rw (on_k, nothing, e) (first_number n positive)
    | inr other ↦
        let not_k =
          subst (λ x. text_eq x k ≡ false) (sym (text_eq_sound d.idempotency_key key same)) other in
        rw (not_k, other) refl
  ]

  latest_later :
      (k : Text) (d : Delivery) (after rows : List Delivery)
      → has_key key d ≡ false
      → latest_attempt k after ≡ write key n (ledger_of rows) k
      → latest_attempt k (d ∷ after) ≡ write key n (ledger_of (d ∷ rows)) k
  unfolding latest_attempt
  latest_later k d after rows other h = elim (Bool-cases (text_eq key k)) [
    | inl e ↦
        let not_k =
          subst (λ x. text_eq d.idempotency_key x ≡ false) (text_eq_sound key k e) other in
        rw (not_k, e) (h ∙ rw e refl)
    | inr differs ↦ rw differs (ap (bigger (has_key k d) d.attempt_no) (h ∙ rw differs refl))
  ]

  latest-update_row :
      (k : Text) (rows : List Delivery)
      → AreValid rows
      → has_row key rows ≡ true
      → 0 < n
      → latest_attempt k
          (update_row key (latest_attempt key rows) (resent content_hash n resend result) rows)
        ≡ write key n (ledger_of rows) k
  unfolding latest_attempt has_row
  latest-update_row k [] v h positive = absurd (ground arith)
  latest-update_row k (d ∷ rows) (vd, nd, vr) h positive = elim (Bool-cases (has_key key d)) [
    | inl same ↦
        let gone =
          subst (λ x. has_row x rows ≡ false) (text_eq_sound d.idempotency_key key same) nd in
        let top = top_here key d rows same gone vd.positive in
        ap (latest_attempt k) (
          update_here key (latest_attempt key (d ∷ rows)) (resent content_hash n resend result) d
            rows (hit key d (latest_attempt key (d ∷ rows)) same top))
        ∙ latest_here k d rows same gone positive
    | inr other ↦
        let change = resent content_hash n resend result in
        let top = top_later key d rows other in
        ap (latest_attempt k) (
          update_later key (latest_attempt key (d ∷ rows)) change d rows (rw other refl)
          ∙ ap (λ m. d ∷ update_row key m change rows) top)
        ∙ latest_later k d (update_row key (latest_attempt key rows) change rows) rows other
            (latest-update_row k rows vr (has_later key d rows h other) positive)
  ]

write_fresh :
    (key k : Text) (n : ℕ) (rows : List Delivery)
    → n ≡ latest_attempt key rows + 1
    → bigger (text_eq key k) n (latest_attempt k rows) ≡ write key n (ledger_of rows) k
write_fresh key k n rows h = elim (Bool-cases (text_eq key k)) [
  | inr other ↦ rw other refl
  | inl e ↦ rw e (
      above n (latest_attempt k rows)
        (subst (λ x. n ≡ latest_attempt x rows + 1) (text_eq_sound key k e) h))
]

pub number_lem :
    (rows : List Delivery) (key : Text) (resend : Resend) (n : ℕ)
    → AreValid rows
    → attempt_number rows key resend ≡ ok n
    → n ≡ latest_attempt key rows + 1
number_lem rows key resend n v h =
    let matching = map as_attempt (keep (has_key key) rows) in
    next_number matching resend.reason resend.approved_by n
      (sym (attempt_number-next_attempt_no rows key resend matching refl) ∙ h)
    ∙ ap (λ m. m + 1) (highest-latest_attempt key rows v)

pub latest-persist :
    (briefing_id channel key content_hash k : Text) (n : ℕ) (resend : Resend) (result : SendResult)
    (rows : List Delivery)
    → AreValid rows
    → n ≡ latest_attempt key rows + 1
    → latest_attempt k (persist briefing_id channel key content_hash n resend result rows)
      ≡ write key n (ledger_of rows) k
latest-persist briefing_id channel key content_hash k n resend result rows v e =
    elim (Bool-cases (has_row key rows)) [
      | inl known ↦
          ap (latest_attempt k)
            (persist_known briefing_id channel key content_hash n resend result rows known)
          ∙ latest-update_row key content_hash n resend result k rows v known (omega arith)
      | inr fresh ↦
          ap (latest_attempt k)
            (persist_fresh briefing_id channel key content_hash n resend result rows fresh)
          ∙ latest-append k rows (new_delivery briefing_id channel key content_hash n resend result)
          ∙ unfold new_delivery in write_fresh key k n rows e
    ]
