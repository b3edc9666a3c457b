-- ===== src/BriefingGate/Groups.antt =====
-- The groups of briefing_gate.py hold each item under each of its identities.
use mathlib.Core.Path.{subst}
use mathlib.Core.List.{append-nil, append_assoc}
use mathlib.Core.Bool.{true≢false}
use inno_scalping_crawling.Common.{
  ◌+◌, ◌≤◌, ◌<◌, ◌≡◌, inl, inr, refl, sym, ap, ◌∙◌, Bool, true, false, List, [], ◌∷◌, ◌++◌, arith,
  any, length, if◌then◌else◌, In, Text, text_eq_sound, text_eq_refl, Bool-cases, In-append_cases,
  any-In, length-append,
}
use inno_scalping_crawling.Publication.{Value}
use inno_scalping_crawling.BriefingGate.Related.{
  Kind, Identity, candidate_field, candidate, strategy_field, strategy, name, item, kind_eq,
  identity_eq, identities, Groups, add, add_all, group, is_unrelated, has_relationship,
}

kind_eq_refl : (k : Kind) → kind_eq k k ≡ true
kind_eq_refl candidate_field = refl
kind_eq_refl candidate = refl
kind_eq_refl strategy_field = refl
kind_eq_refl strategy = refl
kind_eq_refl name = refl
kind_eq_refl item = refl

identity_eq_refl : (i : Identity) → identity_eq i i ≡ true
identity_eq_refl (k, s) = ground (arith, kind_eq_refl k, text_eq_refl s)

kind_eq_sound : (k l : Kind) → kind_eq k l ≡ true → k ≡ l
kind_eq_sound candidate_field candidate_field h = refl
kind_eq_sound candidate candidate h = refl
kind_eq_sound strategy_field strategy_field h = refl
kind_eq_sound strategy strategy h = refl
kind_eq_sound name name h = refl
kind_eq_sound item item h = refl
kind_eq_sound _ _ h = absurd (ground arith)

pub identity_eq_sound : (i j : Identity) → identity_eq i j ≡ true → i ≡ j
identity_eq_sound (k, s) (l, t) h =
    let ek = kind_eq_sound k l (ground arith) in
    let es = text_eq_sound s t (ground arith) in ap (λ x. (x, s)) ek ∙ ap (λ x. (l, x)) es

others_apart :
    (i j k : Identity) → identity_eq j i ≡ true → identity_eq j k ≡ false → identity_eq k i ≡ false
others_apart i j k same differs = elim (Bool-cases (identity_eq k i)) [
  | inr other ↦ other
  | inl mine ↦ absurd (
      true≢false (
        sym (
          subst (λ x. identity_eq j x ≡ true)
            (identity_eq_sound j i same ∙ sym (identity_eq_sound k i mine)) (identity_eq_refl j))
        ∙ differs))
]

if_append :
    (b : Bool) (r : Value) (l : List Value)
    → (if b then r ∷ [] else []) ++ l ≡ (if b then r ∷ l else l)
if_append true r l = refl
if_append false r l = refl

In-length : (x : Value) (l : List Value) → In x l → 0 < length l
In-length x [] h = absurd h
In-length x (y ∷ l) h = omega arith

module _ (repr : Value → Text) (lower_all : Text → Text) where
  -- The members of the group of an identity.
  unfoldable members : Identity → Groups repr lower_all → List Value
  members i [] = []
  members i ((j, rs) ∷ groups) = if identity_eq j i then rs else members i groups

  -- `r` once for each of the identities that is `i`.
  unfoldable times : Identity → List Identity → Value → List Value
  times i [] r = []
  times i (j ∷ is) r = let rest = times i is r in if identity_eq j i then r ∷ rest else rest

  unfoldable carrying : Identity → List Value → List Value
  carrying i [] = []
  carrying i (r ∷ items) = times i (identities repr lower_all r) r ++ carrying i items

  members-add :
      (i k : Identity) (r : Value) (groups : Groups repr lower_all)
      → members i (add repr lower_all k r groups)
        ≡ members i groups ++ (if identity_eq k i then r ∷ [] else [])
  unfolding members add
  members-add i k r [] = refl
  members-add i k r ((j, rs) ∷ groups) = elim (Bool-cases (identity_eq j k)) [
    | inl same ↦ elim (Bool-cases (identity_eq k i)) [
      | inl mine ↦
          rw
            (
              same,
              mine,
              subst (λ x. identity_eq x i ≡ true) (sym (identity_eq_sound j k same)) mine,
            )
            refl
      | inr other ↦
          rw
            (
              same,
              other,
              subst (λ x. identity_eq x i ≡ false) (sym (identity_eq_sound j k same)) other,
            )
            (sym (append-nil (members i groups)))
    ]
    | inr differs ↦ elim (Bool-cases (identity_eq j i)) [
      | inl mine ↦ rw (differs, mine, others_apart i j k mine differs) (sym (append-nil rs))
      | inr other ↦ rw (differs, other) (members-add i k r groups)
    ]
  ]

  members-add_all :
      (i : Identity) (is : List Identity) (r : Value) (groups : Groups repr lower_all)
      → members i (add_all repr lower_all is r groups) ≡ members i groups ++ times i is r
  unfolding add_all times
  members-add_all i [] r groups = sym (append-nil (members i groups))
  members-add_all i (k ∷ is) r groups =
      members-add_all i is r (add repr lower_all k r groups)
      ∙ ap (λ l. l ++ times i is r) (members-add i k r groups)
      ∙ append_assoc (members i groups) (if identity_eq k i then r ∷ [] else []) (times i is r)
      ∙ ap (λ l. members i groups ++ l) (if_append (identity_eq k i) r (times i is r))

  -- The groups of the items are those with the identity, in their order.
  members-group :
      (i : Identity) (items : List Value) (groups : Groups repr lower_all)
      → members i (group repr lower_all items groups) ≡ members i groups ++ carrying i items
  unfolding group carrying
  members-group i [] groups = sym (append-nil (members i groups))
  members-group i (r ∷ items) groups =
      members-group i items (add_all repr lower_all (identities repr lower_all r) r groups)
      ∙ ap (λ l. l ++ carrying i items) (members-add_all i (identities repr lower_all r) r groups)
      ∙ append_assoc (members i groups) (times i (identities repr lower_all r) r) (carrying i items)

  times-In : (i : Identity) (is : List Identity) (r : Value) → In i is → In r (times i is r)
  unfolding times
  times-In i [] r h = absurd h
  times-In i (j ∷ is) r (inl e) =
      rw (subst (λ x. identity_eq x i ≡ true) e (identity_eq_refl i)) (inl refl)
  times-In i (j ∷ is) r (inr h) = elim (Bool-cases (identity_eq j i)) [
    | inl mine ↦ rw mine (inl refl)
    | inr other ↦ rw other (times-In i is r h)
  ]

  In-times :
      (i : Identity) (is : List Identity) (r x : Value) → In x (times i is r) → (x ≡ r) × In i is
  unfolding times
  In-times i [] r x h = absurd h
  In-times i (j ∷ is) r x h = elim (Bool-cases (identity_eq j i)) [
    | inl mine ↦ elim (subst (λ b. In x (if b then r ∷ times i is r else times i is r)) mine h) [
      | inl e ↦ (e, inl (sym (identity_eq_sound j i mine)))
      | inr later ↦ let (e, m) = In-times i is r x later in (e, inr m)
    ]
    | inr other ↦
        let (e, m) =
          In-times i is r x
            (subst (λ b. In x (if b then r ∷ times i is r else times i is r)) other h) in
        (e, inr m)
  ]

  In-carrying :
      (i : Identity) (items : List Value) (x : Value)
      → In x (carrying i items)
      → In x items × In i (identities repr lower_all x)
  unfolding carrying
  In-carrying i [] x h = absurd h
  In-carrying i (r ∷ items) x h =
      elim (In-append_cases x (times i (identities repr lower_all r) r) (carrying i items) h) [
        | inl here ↦
            let (e, m) = In-times i (identities repr lower_all r) r x here in
            (inl e, subst (λ y. In i (identities repr lower_all y)) (sym e) m)
        | inr later ↦ let (m, k) = In-carrying i items x later in (inr m, k)
      ]

  length-carrying_append :
      (i : Identity) (xs ys : List Value)
      → length (carrying i (xs ++ ys)) ≡ length (carrying i xs) + length (carrying i ys)
  unfolding carrying
  length-carrying_append i [] ys = omega arith
  length-carrying_append i (x ∷ xs) ys = omega (
    arith,
    length-carrying_append i xs ys,
    length-append (times i (identities repr lower_all x) x) (carrying i (xs ++ ys)),
    length-append (times i (identities repr lower_all x) x) (carrying i xs),
  )

  length-carrying_cons :
      (i : Identity) (a : Value) (rest : List Value)
      → In i (identities repr lower_all a)
      → 1 + length (carrying i rest) ≤ length (carrying i (a ∷ rest))
  unfolding carrying
  length-carrying_cons i a rest h = omega (
    arith,
    length-append (times i (identities repr lower_all a) a) (carrying i rest),
    In-length a (times i (identities repr lower_all a) a)
        (times-In i (identities repr lower_all a) a h),
  )

  -- Two items with the same identity.
  two_carriers :
      (i : Identity) (a b : Value) (before within after : List Value)
      → In i (identities repr lower_all a)
      → In i (identities repr lower_all b)
      → 1 < length (carrying i (before ++ (a ∷ (within ++ (b ∷ after)))))
  two_carriers i a b before within after ha hb = omega (
    arith,
    length-carrying_append i before (a ∷ (within ++ (b ∷ after))),
    length-carrying_cons i a (within ++ (b ∷ after)) ha,
    length-carrying_append i within (b ∷ after),
    length-carrying_cons i b after hb,
  )

  related_members :
      (section : Value) (i : Identity) (groups : Groups repr lower_all)
      → any (is_unrelated repr lower_all section) groups ≡ false
      → 1 < length (members i groups)
      → any (has_relationship section) (members i groups) ≡ true
  unfolding members
  related_members section i [] h many = absurd (omega arith)
  related_members section i ((j, rs) ∷ groups) h many = elim (Bool-cases (identity_eq j i)) [
    | inl mine ↦ rw mine (ground arith)
    | inr other ↦ rw other (related_members section i groups (ground arith) (ground arith))
  ]

  pub group_lem :
      (section : Value) (i : Identity) (a b : Value) (before within after : List Value)
      → any
          (is_unrelated repr lower_all section)
          (group repr lower_all (before ++ (a ∷ (within ++ (b ∷ after)))) [])
        ≡ false
      → In i (identities repr lower_all a)
      → In i (identities repr lower_all b)
      → (r : Value) × In r (before ++ (a ∷ (within ++ (b ∷ after))))
        × In i (identities repr lower_all r)
        × (has_relationship section r ≡ true)
  unfolding members
  group_lem section i a b before within after h ha hb =
      let items = before ++ (a ∷ (within ++ (b ∷ after))) in
      let same = members-group i items [] in
      let (r, m, e) =
        any-In (has_relationship section) (members i (group repr lower_all items [])) (
          related_members section i (group repr lower_all items []) h (
            subst (λ l. 1 < length l) (sym same) (two_carriers i a b before within after ha hb))) in
      let (inside, carries) = In-carrying i items r (subst (In r) same m) in (r, inside, carries, e)
