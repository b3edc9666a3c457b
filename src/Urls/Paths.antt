-- ===== src/Urls/Paths.antt =====
-- The segments of the paths that urls.py returns.
use mathlib.Core.List.{reverse_aux}
use inno_scalping_crawling.Common.{
  ℕ, ◌≡◌, refl, inl, inr, Bool, false, ◌||◌, List, [], ◌∷◌, arith, ◌==◌, Text, codes, is_empty,
  text_eq, any, All, Bool-cases,
}
use inno_scalping_crawling.Urls.{slash, onto_first, split_slash, pop, push_segment, resolve}

-- A segment that is neither empty nor a dot segment, and holds no slash.
abbrev pub IsPlain : Text → Type 0
IsPlain s =
    (is_empty s ≡ false)
    × (text_eq s (codes ".") ≡ false)
    × (text_eq s (codes "..") ≡ false)
    × (any (λ c. c == slash) s ≡ false)

abbrev pub HasNoSlash : Text → Type 0
HasNoSlash s = any (λ c. c == slash) s ≡ false

All-onto_first :
    (c : ℕ) (parts : List Text)
    → (c == slash) ≡ false
    → All HasNoSlash parts
    → All HasNoSlash (onto_first c parts)
All-onto_first c [] h all = (ground arith, tt)
All-onto_first c (part ∷ parts) h (one, all) = (ground arith, all)

pub split-HasNoSlash : (s : Text) → All HasNoSlash (split_slash s)
unfolding split_slash
split-HasNoSlash [] = (refl, tt)
split-HasNoSlash (c ∷ s) = elim (Bool-cases (c == slash)) [
  | inl at_slash ↦ rw at_slash (refl, split-HasNoSlash s)
  | inr other ↦ rw other (All-onto_first c (split_slash s) other (split-HasNoSlash s))
]

pub push-IsPlain :
    (stack : List Text) (segment : Text)
    → HasNoSlash segment
    → All IsPlain stack
    → All IsPlain (push_segment stack segment)
unfolding push_segment
push-IsPlain stack segment h all =
    elim (Bool-cases (is_empty segment || text_eq segment (codes "."))) [
      | inl skipped ↦ rw skipped all
      | inr kept ↦ elim (Bool-cases (text_eq segment (codes ".."))) [
        | inl up ↦ rw (kept, up) (popped stack all)
        | inr other ↦
            let (filled, no_dot) = neither (is_empty segment) (text_eq segment (codes ".")) kept in
            rw (kept, other) ((filled, no_dot, other, h), all)
      ]
    ]
  where
    popped : (l : List Text) → All IsPlain l → All IsPlain (pop l)
    popped [] plain = tt
    popped (s ∷ l) plain = plain.1

    neither : (a b : Bool) → a || b ≡ false → (a ≡ false) × (b ≡ false)
    neither a b e = ground arith

pub resolve-IsPlain :
    (stack segments : List Text)
    → All HasNoSlash segments
    → All IsPlain stack
    → All IsPlain (resolve stack segments)
unfolding resolve
resolve-IsPlain stack [] no_slash all = all
resolve-IsPlain stack (segment ∷ segments) (h, no_slash) all =
    resolve-IsPlain (push_segment stack segment) segments no_slash
      (push-IsPlain stack segment h all)

pub All-reverse_aux :
    (l k : List Text) → All IsPlain l → All IsPlain k → All IsPlain (reverse_aux l k)
All-reverse_aux [] k all more = more
All-reverse_aux (s ∷ l) k (p, all) more = All-reverse_aux l (s ∷ k) all (p, more)
