-- ===== src/Delivery/Guard/Keys.antt =====
-- The idempotency keys of guard.py: making one, and reading it back.
use inno_scalping_crawling.Common.{
  ℕ, ◌≡◌, ◌≢◌, refl, sym, ap, ◌∙◌, Bool, true, false, not, ◌||◌, ◌↔◌, succeeds, List, [], ◌∷◌, ◌++◌,
  arith, ok, Text, any, is_empty, strip, text_eq, Result-cases, Bool-cases, inl, inr, ◌==◌,
}
use inno_scalping_crawling.Delivery.Guard.{
  component, join3, make_idempotency_key, split, onto_first, check_parts, validate_idempotency_key,
  is_valid_idempotency_key, colon, is_unsafe,
}

-- A text without a colon is one part, and one before a colon is the first part.
abbrev has_colon : Text → Bool
has_colon = any (λ c. c == colon)

split-plain : (a : Text) → has_colon a ≡ false → split a ≡ a ∷ []
unfolding split
split-plain [] h = refl
split-plain (c ∷ a) h = ground (arith, split-plain a)

split-append : (a rest : Text) → has_colon a ≡ false → split (a ++ (colon ∷ rest)) ≡ a ∷ split rest
unfolding split
split-append [] rest h = refl
split-append (c ∷ a) rest h = ground (arith, split-append a rest)

any_colon : (a : Text) → any is_unsafe a ≡ false → has_colon a ≡ false
any_colon [] h = refl
any_colon (c ∷ a) h = ground (arith, any_colon a)

component_lem : (a v : Text) → component a ≡ ok v → (v ≡ a) × (has_colon a ≡ false)
unfolding component
component_lem a v h = elim (Bool-cases (is_empty a || not (text_eq (strip a) a))) [
  | inl spaced ↦ absurd (ground arith)
  | inr plain ↦ elim (Bool-cases (any is_unsafe a)) [
    | inl unsafe ↦ absurd (ground arith)
    | inr safe ↦ (ground arith, any_colon a safe)
  ]
]

make_inversion :
    (a b c key : Text)
    → make_idempotency_key a b c ≡ ok key
    → (key ≡ join3 a b c) × (has_colon a ≡ false) × (has_colon b ≡ false) × (has_colon c ≡ false)
unfolding make_idempotency_key
make_inversion a b c key h = elim (Result-cases (component a)) [
  | inr (x, e) ↦ absurd (ground arith)
  | inl (a', ea) ↦ elim (Result-cases (component b)) [
    | inr (x, e) ↦ absurd (ground arith)
    | inl (b', eb) ↦ elim (Result-cases (component c)) [
      | inr (x, e) ↦ absurd (ground arith)
      | inl (c', ec) ↦
          let (pa, qa) = component_lem a a' ea in
          let (pb, qb) = component_lem b b' eb in
          let (pc, qc) = component_lem c c' ec in (ground arith, qa, qb, qc)
    ]
  ]
]

split-make : (a b c key : Text) → make_idempotency_key a b c ≡ ok key → split key ≡ a ∷ b ∷ c ∷ []
split-make a b c key h =
    let (e, qa, qb, qc) = make_inversion a b c key h in
    ap split e
    ∙ split-append a (b ++ (colon ∷ c)) qa
    ∙ ap (λ parts. a ∷ parts) (split-append b c qb ∙ ap (λ parts. b ∷ parts) (split-plain c qc))

-- The parts, joined by colons.
unfoldable pub join : List Text → Text
join [] = []
join (part ∷ []) = part
join (part ∷ next ∷ parts) = part ++ (colon ∷ join (next ∷ parts))

join-three : (a b c : Text) → join3 a b c ≡ join (a ∷ b ∷ c ∷ [])
unfolding join
join-three a b c = refl

join-onto_first :
    (c : ℕ) (parts : List Text) → parts ≢ [] → join (onto_first c parts) ≡ c ∷ join parts
unfolding join
join-onto_first c [] h = absurd (h refl)
join-onto_first c (part ∷ []) h = refl
join-onto_first c (part ∷ next ∷ parts) h = refl

split-ne-nil : (s : Text) → split s ≢ []
unfolding split
split-ne-nil [] h = ground arith
split-ne-nil (c ∷ s) h = ground arith

join-empty : (parts : List Text) → parts ≢ [] → join ([] ∷ parts) ≡ colon ∷ join parts
unfolding join
join-empty [] h = absurd (h refl)
join-empty (part ∷ parts) h = refl

join-split_step : (c : ℕ) (s : Text) → join (split s) ≡ s → join (split (c ∷ s)) ≡ c ∷ s
unfolding split
join-split_step c s ih = elim (Bool-cases (c == colon)) [
  | inl at_colon ↦ ground (arith, join-empty (split s) (split-ne-nil s))
  | inr other ↦ ground (arith, join-onto_first c (split s) (split-ne-nil s))
]

join-split : (s : Text) → join (split s) ≡ s
join-split [] = unfold join split in refl
join-split (c ∷ s) = join-split_step c s (join-split s)

-- A key that `make_idempotency_key` builds is valid, and it determines the three components that it
-- was built from.
pub make_idempotency_key-IsInjective :
    (a b c a' b' c' key : Text)
    → make_idempotency_key a b c ≡ ok key
    → make_idempotency_key a' b' c' ≡ ok key
    → (is_valid_idempotency_key key ≡ true) × (a ≡ a') × (b ≡ b') × (c ≡ c')
unfolding is_valid_idempotency_key validate_idempotency_key
make_idempotency_key-IsInjective a b c a' b' c' key h k =
    let parts = split-make a b c key h in
    let same = sym parts ∙ split-make a' b' c' key k in
    (rw (parts, h) refl, cc same, cc same, cc same)

validate_inversion :
    (key : Text) (parts : List Text)
    → split key ≡ parts
    → succeeds (check_parts key parts) ≡ true
    → (a : Text) × (b : Text) × (c : Text) × (make_idempotency_key a b c ≡ ok key)
validate_inversion key [] e h = absurd (ground arith)
validate_inversion key (a ∷ []) e h = absurd (ground arith)
validate_inversion key (a ∷ b ∷ []) e h = absurd (ground arith)
validate_inversion key (a ∷ b ∷ c ∷ d ∷ parts) e h = absurd (ground arith)
validate_inversion key (a ∷ b ∷ c ∷ []) e h = elim (Result-cases (make_idempotency_key a b c)) [
  | inr (x, raised) ↦ absurd (ground arith)
  | inl (made, built) ↦
      let (joined, _, _, _) = make_inversion a b c made built in
      let rejoined : join3 a b c ≡ key = join-three a b c ∙ ap join (sym e) ∙ join-split key in
      (a, b, c, built ∙ ap ok (joined ∙ rejoined))
]

-- A text is a valid key exactly if `make_idempotency_key` builds it from some three components.
pub is_valid_iff_made :
    (key : Text)
    → (is_valid_idempotency_key key ≡ true)
      ↔ ((a : Text) × (b : Text) × (c : Text) × (make_idempotency_key a b c ≡ ok key))
unfolding is_valid_idempotency_key validate_idempotency_key
is_valid_iff_made key = (
  λ h. validate_inversion key (split key) refl h,
  λ (a, b, c, built). (make_idempotency_key-IsInjective a b c a b c key built built).0,
)
