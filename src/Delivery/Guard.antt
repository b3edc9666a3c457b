-- ===== src/Delivery/Guard.antt =====
-- src/scalping_briefing/delivery/guard.py: idempotency keys and the numbers of attempts.
pub mod Keys
pub mod Attempts
use inno_scalping_crawling.Common.{
  ℕ, zero, suc, ◌+◌, Bool, false, not, ◌&&◌, ◌||◌, Option, none, some, List, [], ◌∷◌, ◌++◌, Result,
  ok, err, raise_if, succeeds, leb, ◌==◌, if◌then◌else◌, Text, codes, is_empty, is_space, strip,
  is_filled, text_eq, lower, any, ◌>>=◌, ◌>>◌,
}

pub data GuardError : Type 0 where
  component_not_plain component_not_safe key_not_three_parts : GuardError
  approval_required resend_rejected : GuardError

abbrev pub colon : ℕ
colon = b':'

abbrev pub is_unsafe : ℕ → Bool
is_unsafe c = c == colon || is_space c

-- `_component`
unfoldable pub component : Text → Result GuardError Text
unfolding strip is_space text_eq
component value = do
  raise_if (is_empty value || not (text_eq (strip value) value)) component_not_plain
  raise_if (any is_unsafe value) component_not_safe
  ok value

abbrev pub join3 : Text → Text → Text → Text
join3 a b c = a ++ (colon ∷ (b ++ (colon ∷ c)))

unfoldable pub make_idempotency_key : Text → Text → Text → Result GuardError Text
unfolding component
make_idempotency_key briefing_id channel content_hash = do
  a ← component briefing_id
  b ← component channel
  c ← component content_hash
  ok (join3 a b c)

abbrev onto_first : ℕ → List Text → List Text
onto_first c [] = (c ∷ []) ∷ []
onto_first c (part ∷ parts) = (c ∷ part) ∷ parts

-- `value.split(":")`
unfoldable pub split : Text → List Text
split [] = [] ∷ []
split (c ∷ s) = let parts = split s in if c == colon then [] ∷ parts else onto_first c parts

abbrev pub check_parts : Text → List Text → Result GuardError Text
check_parts value (a ∷ b ∷ c ∷ []) = do make_idempotency_key a b c; ok value
check_parts value _ = err key_not_three_parts

unfoldable pub validate_idempotency_key : Text → Result GuardError Text
unfolding split make_idempotency_key
validate_idempotency_key value = check_parts value (split value)

unfoldable pub is_valid_idempotency_key : Text → Bool
unfolding validate_idempotency_key
is_valid_idempotency_key value = succeeds (validate_idempotency_key value)

-- An earlier delivery; an attempt number may be missing.
pub record Attempt : Type 0 where
  pub status : Text
  pub attempt_no : Option ℕ

-- `int(_field(record, "attempt_no", 1) or 1)`
abbrev pub number : Option ℕ → ℕ
number none = 1
number (some zero) = 1
number (some (suc n)) = suc n

abbrev pub max : ℕ → ℕ → ℕ
max a b = if leb a b then b else a

unfoldable pub highest : List Attempt → ℕ
highest [] = 0
highest (r ∷ records) = max (number r.attempt_no) (highest records)

unfoldable pub is_success : Attempt → Bool
unfolding lower text_eq
is_success r = text_eq (lower r.status) (codes "success")

abbrev pub filled : Option Text → Bool
filled none = false
filled (some s) = is_filled s

unfoldable pub resend_is_approved : Option Text → Option Text → Bool
resend_is_approved resend_reason resend_approved_by =
    filled resend_reason && filled resend_approved_by

unfoldable pub next_attempt_no : List Attempt → Option Text → Option Text → Result GuardError ℕ
unfolding highest is_success resend_is_approved
next_attempt_no [] resend_reason resend_approved_by = ok 1
next_attempt_no (r ∷ records) resend_reason resend_approved_by =
    if not (resend_is_approved resend_reason resend_approved_by)
    then err (if any is_success (r ∷ records) then approval_required else resend_rejected)
    else ok (highest (r ∷ records) + 1)

-- Only the two rejections are caught, and no other is raised.
unfoldable pub can_resend : List Attempt → Option Text → Option Text → Bool
unfolding next_attempt_no
can_resend history resend_reason resend_approved_by =
    succeeds (next_attempt_no history resend_reason resend_approved_by)
