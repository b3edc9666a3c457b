-- ===== src/Publication.antt =====
-- src/scalping_briefing/publishing/gate.py: what an item must have to be published. A record is a
-- mapping, and an object is the mapping of its public attributes; a value is a finite tree, so that
-- the sets of objects already seen change nothing. Bytes are left out.
pub mod Item
pub mod FullText
pub mod Checks
pub mod Accepted
mod Examples
use inno_scalping_crawling.Common.{
  ℕ, Bool, true, false, not, ◌&&◌, ◌||◌, Option, none, some, List, [], ◌∷◌, ◌++◌, if◌then◌else◌,
  Text, codes, between, strip, is_filled, is_empty, text_eq, lower, any, keep,
}

-- The instant of a `datetime` (in UTC where it has no offset), or of the start of a `date`.
pub data Moment : Type 0 where
  date_time date : ℕ → Moment

-- `null` is `None`. A `scalar` is any other value that is no text and holds no values: its `str`,
-- its truth value, and the moment if it is a date or a date-time. The entries of a sequence have
-- the key "".
mutual
  pub data Value : Type 0 where
    null : Value
    boolean : Bool → Value
    scalar : Text → Bool → Option Moment → Value
    text : Text → Value
    mapping sequence : Entries → Value

  pub data Entries : Type 0 where
    end : Entries
    entry : Text → Value → Entries → Entries

-- `_field`, with `none` for a field that is missing.
unfoldable pub get : Text → Entries → Option Value
get key end = none
get key (entry k v rest) = if text_eq k key then some v else get key rest

unfoldable pub field : Value → Text → Option Value
field (mapping entries) name = get name entries
field _ name = none

abbrev pub or_null : Option Value → Value
or_null none = null
or_null (some v) = v

unfoldable pub values : Entries → List Value
values end = []
values (entry k v rest) = v ∷ values rest

-- `_filled`
unfoldable pub filled : Value → Bool
filled (text s) = is_filled s
filled _ = false

abbrev pub one_of : List Text → Text → Bool
one_of names t = any (text_eq t) names

-- `_FULL_TEXT_KEYS`
unfoldable pub full_text_keys : List Text
full_text_keys =
    codes "body"
    ∷ codes "bodytext"
    ∷ codes "content"
    ∷ codes "documentbody"
    ∷ codes "documentcontent"
    ∷ codes "documenttext"
    ∷ codes "fullbody"
    ∷ codes "fulltext"
    ∷ codes "html"
    ∷ codes "htmlbody"
    ∷ codes "normalizedbody"
    ∷ codes "normalizedhtml"
    ∷ codes "normalizedtext"
    ∷ codes "originaldocument"
    ∷ codes "originaldocumentbody"
    ∷ codes "originalbody"
    ∷ codes "originalfulltext"
    ∷ codes "originaltext"
    ∷ codes "rawbody"
    ∷ codes "rawhtml"
    ∷ codes "rawtext"
    ∷ codes "sourcebody"
    ∷ codes "sourcetext"
    ∷ []

-- `_key_name`: the letters and digits of the key in lower case.
unfoldable pub key_name : Text → Text
key_name key = keep (λ c. between 97 122 c || between 48 57 c) (lower key)

unfoldable pub is_full_text_key : Text → Bool
is_full_text_key key = one_of full_text_keys (key_name key)

-- Whether `_reject_full_text` raises.
unfoldable mutual
  pub has_full_text : Value → Bool
  has_full_text (mapping entries) = entries_full_text entries
  has_full_text (sequence entries) = entries_full_text entries
  has_full_text _ = false

  pub entries_full_text : Entries → Bool
  entries_full_text end = false
  entries_full_text (entry key v rest) =
      is_full_text_key key || (has_full_text v || entries_full_text rest)

abbrev characters : Text → List Value
characters [] = []
characters (c ∷ s) = text (c ∷ []) ∷ characters s

-- `_records`
unfoldable pub records : Value → List Value
records null = []
records (boolean b) = boolean b ∷ []
records (scalar s truth moment) = scalar s truth moment ∷ []
records (mapping entries) = mapping entries ∷ []
records (sequence entries) = values entries
records (text s) = characters s

-- `_empty_claim`
unfoldable pub empty_claim : Value → Bool
empty_claim null = true
empty_claim (boolean _) = false
empty_claim (scalar _ _ _) = false
empty_claim (text s) = not (is_filled s)
empty_claim (mapping end) = true
empty_claim (mapping (entry _ _ _)) = false
empty_claim (sequence end) = true
empty_claim (sequence (entry _ _ _)) = false

-- `str(status).strip().lower() in _CLAIMLESS_STATUSES`
abbrev pub claimless_status : Option Value → Bool
claimless_status (some (text s)) =
    one_of (codes "unknown" ∷ codes "not_applicable" ∷ []) (lower (strip s))
claimless_status (some (scalar s _ _)) =
    one_of (codes "unknown" ∷ codes "not_applicable" ∷ []) (lower (strip s))
claimless_status _ = false

abbrev status_or : Option Value → Value → Text → Option Value
status_or (some v) statuses name = some v
status_or none statuses name = field statuses name

abbrev field_status : Value → Value → Bool
field_status item (text name) =
    is_filled name
    && claimless_status (
        status_or (field item (strip name ++ codes "_status"))
          (or_null (field item (codes "field_status"))) (strip name))
field_status item _ = false

abbrev is_empty_claim : Option Value → Bool
is_empty_claim none = false
is_empty_claim (some v) = empty_claim v

-- `_asserts_nothing`
unfoldable pub asserts_nothing : Value → Bool
asserts_nothing item =
    is_empty_claim (field item (codes "claim"))
    && field_status item (or_null (field item (codes "field_name")))

-- The two parts of `urlsplit` that are read.
pub record SplitResult : Type 0 where
  pub scheme : Text
  pub netloc : Text

-- `_safe_source_link`; `urlsplit` gives `none` where Python's raises `ValueError`.
unfoldable pub safe_source_link : (Text → Option SplitResult) → Value → Bool
safe_source_link urlsplit (text s) = is_filled s && is_safe (urlsplit (strip s))
  where
    is_safe : Option SplitResult → Bool
    is_safe none = false
    is_safe (some parts) =
        not (one_of (codes "javascript" ∷ codes "data" ∷ []) (lower parts.scheme))
        && (not (is_empty parts.scheme)
            && (not (is_empty parts.netloc)
                || one_of (codes "doi" ∷ codes "fixture" ∷ codes "mailto" ∷ [])
                    (lower parts.scheme)))
safe_source_link urlsplit _ = false

unfoldable pub present : Value → List Text → List Value
present record_value [] = []
present record_value (name ∷ names) =
    some_first (field record_value name) (present record_value names)
  where
    some_first : Option Value → List Value → List Value
    some_first none rest = rest
    some_first (some v) rest = v ∷ rest

-- The names of the links of an item and of its evidence, in the order in which they are read.
unfoldable pub link_names : List Text
link_names =
    codes "source_url"
    ∷ codes "original_url"
    ∷ codes "source_link"
    ∷ codes "original_source_url"
    ∷ codes "original_source_link"
    ∷ codes "original_link"
    ∷ []

unfoldable pub nested_link_names : List Text
nested_link_names = codes "source_url" ∷ codes "original_url" ∷ codes "canonical_url" ∷ []

-- `_source_link_values`
unfoldable pub source_link_values : Value → List Value
source_link_values r =
    let version = or_null (field r (codes "document_version")) in
    let document = or_null (field version (codes "document")) in
    present r link_names
    ++ (present version nested_link_names ++ present document nested_link_names)
