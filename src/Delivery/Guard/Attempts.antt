-- ===== src/Delivery/Guard/Attempts.antt =====
-- The numbers of attempts of guard.py.
use inno_scalping_crawling.Common.{
  ℕ, ◌+◌, ◌≤◌, ◌<◌, ◌≡◌, refl, ◌⊎◌, true, false, Option, List, [], ◌∷◌, arith, ok, err, Text, any,
  All, if◌then◌else◌, Bool-cases, inl, inr,
}
use inno_scalping_crawling.Delivery.Guard.{
  Attempt, number, highest, is_success, resend_is_approved, next_attempt_no, approval_required,
  resend_rejected, can_resend,
}

All-highest :
    (n : ℕ) (records : List Attempt)
    → highest records ≤ n
    → All (λ r. number r.attempt_no ≤ n) records
unfolding highest
All-highest n [] h = tt
All-highest n (r ∷ records) h = (ground arith, All-highest n records (ground arith))

All-lt :
    (n top : ℕ) (records : List Attempt)
    → n ≡ top + 1
    → All (λ r. number r.attempt_no ≤ top) records
    → All (λ r. number r.attempt_no < n) records
All-lt n top [] e h = tt
All-lt n top (r ∷ records) e h = (omega arith, All-lt n top records e h.1)

-- With a reason and an approver the next attempt is numbered above every earlier one.
pub next_attempt_no-approved :
    (history : List Attempt) (reason approver : Option Text) (n : ℕ)
    → next_attempt_no history reason approver ≡ ok n
    → (0 < n)
      × All (λ r. number r.attempt_no < n) history
      × ((history ≡ []) ⊎ (resend_is_approved reason approver ≡ true))
unfolding next_attempt_no
next_attempt_no-approved [] reason approver n h = (ground arith, tt, inl refl)
next_attempt_no-approved (r ∷ records) reason approver n h =
    elim (Bool-cases (resend_is_approved reason approver)) [
      | inr refused ↦ absurd (ground arith)
      | inl approved ↦
          let e : n ≡ highest (r ∷ records) + 1 = ground arith in
          (
            omega arith,
            All-lt n (highest (r ∷ records)) (r ∷ records) e
                (All-highest _ (r ∷ records) (omega arith)),
            inr approved,
          )
    ]

-- Without both a reason and an approver no delivery is repeated, whatever became of the earlier
-- ones; the error tells whether one of them succeeded. `can_resend` agrees.
pub next_attempt_no-unapproved :
    (r : Attempt) (records : List Attempt) (reason approver : Option Text)
    → resend_is_approved reason approver ≡ false
    → (next_attempt_no (r ∷ records) reason approver
        ≡ err (if any is_success (r ∷ records) then approval_required else resend_rejected))
      × (can_resend (r ∷ records) reason approver ≡ false)
unfolding next_attempt_no can_resend
next_attempt_no-unapproved r records reason approver h = (ground arith, ground arith)
