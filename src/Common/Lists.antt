-- ===== src/Common/Lists.antt =====
-- Lists over the native numbers, and predicates on lists by recursion.
use Prim.Native.Nat.{ℕ, suc, ◌+◌, ◌≤◌}
use mathlib.Core.Path.{◌≡◌, refl, sym, subst}
use mathlib.Core.Logic.{◌⊎◌, inl, inr}
use mathlib.Core.Bool.{Bool, true, false, ◌||◌}
use mathlib.Core.List.{List, [], ◌∷◌, ◌++◌}
use native.Mathlib.Omega.{arith}
use inno_scalping_crawling.Common.Tests.{if◌then◌else◌, Bool-cases}

module _ {ℓ} {A : Type ℓ} where
  abbrev pub length : List A → ℕ
  length [] = 0
  length (x ∷ xs) = suc (length xs)

  pub length-append : (xs ys : List A) → length (xs ++ ys) ≡ length xs + length ys
  length-append [] ys = omega arith
  length-append (x ∷ xs) ys = omega (arith, length-append xs ys)

  -- `any(test(x) for x in xs)`
  abbrev pub any : (A → Bool) → List A → Bool
  any test [] = false
  any test (x ∷ xs) = test x || any test xs

  -- `[x for x in xs if test(x)]`
  abbrev pub keep : (A → Bool) → List A → List A
  keep test [] = []
  keep test (x ∷ xs) = let rest = keep test xs in if test x then x ∷ rest else rest

  pub length-keep : (test : A → Bool) (xs : List A) → length (keep test xs) ≤ length xs
  length-keep test [] = omega arith
  length-keep test (x ∷ xs) = ground (arith, length-keep test xs)

  pub keep-append :
      (test : A → Bool) (xs ys : List A) → keep test (xs ++ ys) ≡ keep test xs ++ keep test ys
  keep-append test [] ys = refl
  keep-append test (x ∷ xs) ys = ground (arith, keep-append test xs ys)

module _ {ℓ κ} {A : Type ℓ} where
  abbrev pub All : (A → Type κ) → List A → Type κ
  All P [] = Unit
  All P (x ∷ xs) = P x × All P xs

module _ {A : Type 0} where
  -- `x` stands in the list.
  abbrev pub In : A → List A → Type 0
  In x [] = ⊥
  In x (y ∷ ys) = (x ≡ y) ⊎ In x ys

  pub In-append_left : (x : A) (xs ys : List A) → In x xs → In x (xs ++ ys)
  In-append_left x [] ys h = absurd h
  In-append_left x (y ∷ xs) ys (inl e) = inl e
  In-append_left x (y ∷ xs) ys (inr h) = inr (In-append_left x xs ys h)

  pub In-append_right : (x : A) (xs ys : List A) → In x ys → In x (xs ++ ys)
  In-append_right x [] ys h = h
  In-append_right x (y ∷ xs) ys h = inr (In-append_right x xs ys h)

  pub In-append_cases : (x : A) (xs ys : List A) → In x (xs ++ ys) → In x xs ⊎ In x ys
  In-append_cases x [] ys h = inr h
  In-append_cases x (y ∷ xs) ys (inl e) = inl (inl e)
  In-append_cases x (y ∷ xs) ys (inr h) = elim (In-append_cases x xs ys h) [
    | inl left ↦ inl (inr left)
    | inr right ↦ inr right
  ]

  pub All-In : (P : A → Type 0) (x : A) (xs : List A) → All P xs → In x xs → P x
  All-In P x [] all h = absurd h
  All-In P x (y ∷ xs) all (inl e) = rw e all.0
  All-In P x (y ∷ xs) all (inr h) = All-In P x xs all.1 h

  pub keep_nil :
      (test : A → Bool) (x : A) (xs : List A) → keep test xs ≡ [] → In x xs → test x ≡ false
  keep_nil test x [] h m = absurd m
  keep_nil test x (y ∷ xs) h (inl e) = rw e (ground arith)
  keep_nil test x (y ∷ xs) h (inr m) = keep_nil test x xs (ground arith) m

  pub In-keep :
      (test : A → Bool) (x : A) (xs : List A) → In x xs → test x ≡ true → In x (keep test xs)
  In-keep test x [] m h = absurd m
  In-keep test x (y ∷ xs) (inl e) h = rw (sym e, h) (inl refl)
  In-keep test x (y ∷ xs) (inr m) h = put (test y) y (keep test xs) (In-keep test x xs m h)
    where
      put : (b : Bool) (y : A) (rest : List A) → In x rest → In x (if b then y ∷ rest else rest)
      put true y rest k = inr k
      put false y rest k = k

  pub any-In :
      (test : A → Bool) (xs : List A) → any test xs ≡ true → (x : A) × In x xs × (test x ≡ true)
  any-In test [] h = absurd (ground arith)
  any-In test (x ∷ xs) h = elim (Bool-cases (test x)) [
    | inl here ↦ (x, inl refl, here)
    | inr other ↦ let (y, m, e) = any-In test xs (ground arith) in (y, inr m, e)
  ]

  pub keep-In :
      (test : A → Bool) (x : A) (xs : List A) → In x (keep test xs) → In x xs × (test x ≡ true)
  keep-In test x [] m = absurd m
  keep-In test x (y ∷ xs) m = elim (Bool-cases (test y)) [
    | inl here ↦ elim (subst (λ b. In x (if b then y ∷ keep test xs else keep test xs)) here m) [
      | inl e ↦ (inl e, rw e here)
      | inr later ↦ let (k, t) = keep-In test x xs later in (inr k, t)
    ]
    | inr other ↦
        let (k, t) =
          keep-In test x xs
            (subst (λ b. In x (if b then y ∷ keep test xs else keep test xs)) other m) in
        (inr k, t)
  ]
