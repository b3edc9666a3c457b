-- ===== src/Urls/Reduced.antt =====
-- What `_normalize_path` of urls.py makes of a path.
use mathlib.Core.List.{reverse, reverse_aux, reverse_aux-eq}
use mathlib.Core.Path.{subst}
use inno_scalping_crawling.Common.{
  ◌≡◌, refl, sym, inl, inr, Bool, true, false, ◌||◌, List, [], ◌∷◌, ◌++◌, arith, Text, codes,
  is_empty, text_eq, text_eq_sound, All, Bool-cases,
}
use inno_scalping_crawling.Urls.{
  slash, pop, split_slash, join_slash, push_segment, resolve, finish, normalize_path, rooted,
  or_root, normalize_percent_encoding, ends_with_slash,
}
use inno_scalping_crawling.Urls.Paths.{
  IsPlain, HasNoSlash, push-IsPlain, split-HasNoSlash, resolve-IsPlain, All-reverse_aux,
}

-- One list of segments comes out of another by leaving out empty segments and `.`, a `..` with the
-- plain segment before it, and a `..` at the start.
pub data Reduces : List Text → List Text → Type 0 where
  done : (l : List Text) → Reduces l l
  skip :
      (before after out : List Text) (s : Text)
      → (is_empty s || text_eq s (codes ".")) ≡ true
      → Reduces (before ++ after) out
      → Reduces (before ++ (s ∷ after)) out
  up :
      (before after out : List Text) (s : Text)
      → IsPlain s
      → Reduces (before ++ after) out
      → Reduces (before ++ (s ∷ codes ".." ∷ after)) out
  up_from_root : (after out : List Text) → Reduces after out → Reduces (codes ".." ∷ after) out

skip_one :
    (stack rest out : List Text) (s : Text)
    → (is_empty s || text_eq s (codes ".")) ≡ true
    → Reduces (reverse_aux stack rest) out
    → Reduces (reverse_aux stack (s ∷ rest)) out
skip_one stack rest out s skipped r =
    subst (λ l. Reduces l out) (sym (reverse_aux-eq stack (s ∷ rest)))
      (skip (reverse stack) rest out s skipped
        (subst (λ l. Reduces l out) (reverse_aux-eq stack rest) r))

up_one :
    (stack rest out : List Text)
    → All IsPlain stack
    → Reduces (reverse_aux (pop stack) rest) out
    → Reduces (reverse_aux stack (codes ".." ∷ rest)) out
up_one [] rest out all r = up_from_root rest out r
up_one (s ∷ stack) rest out all r =
    subst (λ l. Reduces l out) (sym (reverse_aux-eq stack (s ∷ codes ".." ∷ rest)))
      (up (reverse stack) rest out s all.0
        (subst (λ l. Reduces l out) (reverse_aux-eq stack rest) r))

resolve-Reduces :
    (stack segments : List Text)
    → All HasNoSlash segments
    → All IsPlain stack
    → Reduces (reverse_aux stack segments) (reverse (resolve stack segments))
unfolding resolve push_segment
resolve-Reduces stack [] no_slash all = done _
resolve-Reduces stack (s ∷ rest) (h, no_slash) all =
    let next = resolve-Reduces (push_segment stack s) rest no_slash (push-IsPlain stack s h all) in
    let out = reverse (resolve (push_segment stack s) rest) in
    elim (Bool-cases (is_empty s || text_eq s (codes "."))) [
      | inl skipped ↦
          let same : push_segment stack s ≡ stack = rw skipped refl in
          skip_one stack rest out s skipped
            (subst (λ k. Reduces (reverse_aux k rest) out) same next)
      | inr kept ↦ elim (Bool-cases (text_eq s (codes ".."))) [
        | inl dots ↦
            let same : push_segment stack s ≡ pop stack = rw (kept, dots) refl in
            subst (λ x. Reduces (reverse_aux stack (x ∷ rest)) out)
              (sym (text_eq_sound s (codes "..") dots))
              (up_one stack rest out all (subst (λ k. Reduces (reverse_aux k rest) out) same next))
        | inr other ↦
            let same : push_segment stack s ≡ s ∷ stack = rw (kept, other) refl in
            subst (λ k. Reduces (reverse_aux k rest) out) same next
      ]
    ]

join_filled :
    (s : Text) (rest : List Text) → is_empty s ≡ false → is_empty (join_slash (s ∷ rest)) ≡ false
unfolding join_slash
join_filled [] rest h = absurd (ground arith)
join_filled (c ∷ s) [] h = refl
join_filled (c ∷ s) (t ∷ rest) h = refl

-- The path of plain segments, with a slash at the end if this is asked for and there is a segment.
abbrev pub path_of : List Text → Bool → Text
path_of [] trailing = slash ∷ []
path_of (s ∷ rest) true = slash ∷ (join_slash (s ∷ rest) ++ (slash ∷ []))
path_of (s ∷ rest) false = slash ∷ join_slash (s ∷ rest)

finish-path_of :
    (segments : List Text) (trailing : Bool)
    → All IsPlain segments
    → finish (join_slash segments) trailing ≡ path_of segments trailing
unfolding join_slash
finish-path_of [] true all = refl
finish-path_of [] false all = refl
finish-path_of (s ∷ rest) false all = refl
finish-path_of (s ∷ rest) true all = rw (join_filled s rest all.0.0) refl

-- The path that `_normalize_path` returns has the segments of the path that it is given, with its
-- percent-encoding normalised and a slash in front, after empty segments and `.` are left out, every
-- `..` has taken away the segment before it, and a `..` at the root has been dropped. None of the
-- segments that stay is empty, `.` or `..`, or holds a slash, there is one slash between each two,
-- and a slash ends the path exactly if no segment is left or one ends the given path.
pub normalize_path-Reduces :
    (path : Text)
    → let given = rooted (normalize_percent_encoding (or_root path)) in
      (segments : List Text) × All IsPlain segments
      × Reduces (split_slash given) segments
      × (normalize_path path ≡ path_of segments (ends_with_slash given))
unfolding normalize_path
normalize_path-Reduces path =
    let given = rooted (normalize_percent_encoding (or_root path)) in
    let plain =
      All-reverse_aux (resolve [] (split_slash given)) []
        (resolve-IsPlain [] (split_slash given) (split-HasNoSlash given) tt) tt in
    (
      reverse (resolve [] (split_slash given)),
      plain,
      resolve-Reduces [] (split_slash given) (split-HasNoSlash given) tt,
      finish-path_of (reverse (resolve [] (split_slash given))) (ends_with_slash given) plain,
    )
