-- ===== src/Validation/Quotes.antt =====
-- The shapes of the evidence that validate.py reads: `_normalise_evidence`.
use inno_scalping_crawling.Common.{
  Bool, true, false, ◌||◌, if◌then◌else◌, Option, none, some, List, [], ◌∷◌, ◌++◌, Text, codes,
  Result, ok, err, ◌>>=◌,
}
use inno_scalping_crawling.Publication.{
  Value, Entries, null, boolean, scalar, text, mapping, sequence, end, entry, get, one_of,
}
use inno_scalping_crawling.Validation.{ValidationError, field_missing, container_keys}

abbrev pub is_there : Option Value → Bool
is_there none = false
is_there (some _) = true

abbrev added : Option Value → Text → Entries → Entries
added none name entries = entry (codes "field_name") (text name) entries
added (some _) name entries = entries

-- `item.setdefault("field_name", default_field)`, if there is a default.
unfoldable pub set_default : Option Text → Entries → Entries
set_default none entries = entries
set_default (some name) entries = added (get (codes "field_name") entries) name entries

abbrev quoted : Text → Text → Entries
quoted name quote = entry (codes "field_name") (text name) (entry (codes "quote") (text quote) end)

abbrev pub has_quote : Entries → Bool
has_quote entries =
    is_there (get (codes "field_name") entries) || is_there (get (codes "quote") entries)

abbrev with_entry : Option Text → Value → Entries
with_entry default (mapping entries) = set_default default entries
with_entry none (text s) = end
with_entry (some name) (text s) = quoted name s
with_entry default v = set_default default end

-- The loop over a sequence.
unfoldable pub listed : Option Text → Entries → List Entries
listed default end = []
listed default (entry _ v rest) = with_entry default v ∷ listed default rest

abbrev pub under : Option Text → Text → Option Text
under default key = if one_of container_keys key then default else some key

-- `_normalise_evidence_value`
unfoldable mutual
  pub normalise : Option Text → Value → Result ValidationError (List Entries)
  normalise default null = ok []
  normalise default (mapping entries) =
      let nested = normalise_entries default entries in
      if has_quote entries then ok (set_default default entries ∷ []) else nested
  normalise default (sequence entries) = ok (listed default entries)
  normalise none (text s) = err field_missing
  normalise (some name) (text s) = ok (quoted name s ∷ [])
  normalise default (boolean _) = ok (set_default default end ∷ [])
  normalise default (scalar _ _ _) = ok (set_default default end ∷ [])

  pub normalise_entries : Option Text → Entries → Result ValidationError (List Entries)
  normalise_entries default end = ok []
  normalise_entries default (entry key v rest) =
      let here = normalise (under default key) v in
      let later = normalise_entries default rest in here >>= λ a. later >>= λ b. ok (a ++ b)
