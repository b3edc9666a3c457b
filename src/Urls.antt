-- ===== src/Urls.antt =====
-- src/scalping_briefing/normalize/urls.py: the normal form of percent-encoding and of a path.
pub mod Percent
pub mod Paths
pub mod Reduced
mod Examples
use mathlib.Core.List.{reverse}
use inno_scalping_crawling.Common.{
  ℕ, ◌+◌, ◌-◌, ◌*◌, Bool, false, not, ◌&&◌, ◌||◌, List, [], ◌∷◌, ◌++◌, ◌==◌, if◌then◌else◌, Text,
  codes, between, is_empty, text_eq,
}

abbrev pub percent : ℕ
percent = b'%'

-- `[0-9A-Fa-f]`
unfoldable pub is_hex : ℕ → Bool
is_hex c = between 48 57 c || between 65 70 c || between 97 102 c

-- `int(digit, 16)` and `digit.upper()`
unfoldable pub hex_value : ℕ → ℕ
hex_value c = if between 48 57 c then c - 48 else if between 65 70 c then c - 55 else c - 87

unfoldable pub upper : ℕ → ℕ
upper c = if between 97 122 c then c - 32 else c

-- `_UNRESERVED`
unfoldable pub is_unreserved : ℕ → Bool
is_unreserved c =
    between 65 90 c
    || between 97 122 c
    || between 48 57 c
    || c == 45
    || c == 46
    || c == 95
    || c == 126

-- What an escape with these two digits becomes.
unfoldable pub escape : ℕ → ℕ → Text
escape h l =
    if is_unreserved (16 * hex_value h + hex_value l)
    then (16 * hex_value h + hex_value l) ∷ []
    else percent ∷ upper h ∷ upper l ∷ []

abbrev pub stray : Text
stray = percent ∷ 50 ∷ 53 ∷ []

-- `_normalize_percent_encoding`
unfoldable pub normalize_percent_encoding : Text → Text
normalize_percent_encoding [] = []
normalize_percent_encoding (c ∷ []) = if c == percent then stray else c ∷ []
normalize_percent_encoding (c ∷ d ∷ []) =
    let rest = normalize_percent_encoding (d ∷ []) in
    if c == percent then stray ++ rest else c ∷ rest
normalize_percent_encoding (c ∷ h ∷ l ∷ s) =
    let rest = normalize_percent_encoding (h ∷ l ∷ s) in
    let after = normalize_percent_encoding s in
    if c == percent
    then (if is_hex h && is_hex l then escape h l ++ after else stray ++ rest)
    else c ∷ rest

abbrev pub slash : ℕ
slash = b'/'

abbrev pub onto_first : ℕ → List Text → List Text
onto_first c [] = (c ∷ []) ∷ []
onto_first c (part ∷ parts) = (c ∷ part) ∷ parts

-- `normalized.split("/")` and `"/".join(segments)`
unfoldable pub split_slash : Text → List Text
split_slash [] = [] ∷ []
split_slash (c ∷ s) =
    let parts = split_slash s in if c == slash then [] ∷ parts else onto_first c parts

unfoldable pub join_slash : List Text → Text
join_slash [] = []
join_slash (s ∷ []) = s
join_slash (s ∷ t ∷ rest) = s ++ (slash ∷ join_slash (t ∷ rest))

abbrev pub pop : List Text → List Text
pop [] = []
pop (_ ∷ stack) = stack

-- The loop over the segments; the last of those that are kept comes first.
unfoldable pub push_segment : List Text → Text → List Text
push_segment stack segment =
    if is_empty segment || text_eq segment (codes ".")
    then stack
    else if text_eq segment (codes "..")
    then pop stack
    else segment ∷ stack

unfoldable pub resolve : List Text → List Text → List Text
resolve stack [] = stack
resolve stack (segment ∷ segments) = resolve (push_segment stack segment) segments

abbrev pub rooted : Text → Text
rooted [] = slash ∷ []
rooted (c ∷ s) = if c == slash then c ∷ s else slash ∷ c ∷ s

abbrev pub or_root : Text → Text
or_root [] = slash ∷ []
or_root (c ∷ s) = c ∷ s

unfoldable pub ends_with_slash : Text → Bool
ends_with_slash [] = false
ends_with_slash (c ∷ []) = c == slash
ends_with_slash (c ∷ d ∷ s) = ends_with_slash (d ∷ s)

abbrev pub finish : Text → Bool → Text
finish joined trailing =
    if trailing && not (is_empty joined) then slash ∷ (joined ++ (slash ∷ [])) else slash ∷ joined

-- `_normalize_path`; the test of an empty result is never met.
unfoldable pub normalize_path : Text → Text
normalize_path path =
    let normalized = rooted (normalize_percent_encoding (or_root path)) in
    finish (join_slash (reverse (resolve [] (split_slash normalized)))) (ends_with_slash normalized)
