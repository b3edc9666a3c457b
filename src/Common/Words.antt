-- ===== src/Common/Words.antt =====
-- The words of a text.
use Prim.Native.Nat.{ℕ}
use mathlib.Core.Bool.{Bool, true, false, ◌&&◌, ◌||◌}
use mathlib.Core.List.{List, [], ◌∷◌, ◌++◌}
use inno_scalping_crawling.Common.Tests.{ltb, ◌==◌, if◌then◌else◌}
use inno_scalping_crawling.Common.Texts.{Text, is_space}

abbrev pub onto_word : ℕ → Bool → List Text → List Text
onto_word c true words = (c ∷ []) ∷ words
onto_word c false [] = (c ∷ []) ∷ []
onto_word c false (word ∷ words) = (c ∷ word) ∷ words

abbrev starts_with_space : Text → Bool
starts_with_space [] = true
starts_with_space (c ∷ _) = is_space c

-- `str.split()`
unfoldable pub words : Text → List Text
words [] = []
words (c ∷ s) =
    let rest = words s in if is_space c then rest else onto_word c (starts_with_space s) rest

unfoldable pub join_spaces : List Text → Text
join_spaces [] = []
join_spaces (word ∷ []) = word
join_spaces (word ∷ next ∷ rest) = word ++ (b' ' ∷ join_spaces (next ∷ rest))

-- `t in s`
abbrev pub starts_with : Text → Text → Bool
starts_with [] s = true
starts_with (c ∷ t) [] = false
starts_with (c ∷ t) (d ∷ s) = c == d && starts_with t s

unfoldable pub contains : Text → Text → Bool
contains t [] = starts_with t []
contains t (c ∷ s) = starts_with t (c ∷ s) || contains t s

-- `s < t`
unfoldable pub text_lt : Text → Text → Bool
text_lt s [] = false
text_lt [] (d ∷ t) = true
text_lt (c ∷ s) (d ∷ t) = ltb c d || (c == d && text_lt s t)
