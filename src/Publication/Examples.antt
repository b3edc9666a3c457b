-- ===== src/Publication/Examples.antt =====
-- An item with one quote through the publication gate (gate.py).
use inno_scalping_crawling.Common.{
  ◌≡◌, refl, false, Option, some, List, [], ok, All, Text, codes, strip, drop_spaces, is_space,
  is_filled, text_eq, lower,
}
use inno_scalping_crawling.Publication.{
  Value, text, mapping, sequence, end, entry, SplitResult, get, field, values, filled,
  full_text_keys, key_name, is_full_text_key, has_full_text, records, asserts_nothing,
  safe_source_link, present, link_names, nested_link_names, source_link_values,
}
use inno_scalping_crawling.Publication.Item.{
  check_evidence, check_all, validate_briefing_item, publication_items, validate_items,
  validate_publication,
}
use inno_scalping_crawling.Publication.Accepted.{IsPublishable, validate_publication-IsPublishable}

-- Every text is read as a link to a host.
abbrev https : Text → Option SplitResult
https s = some (record { scheme = codes "https"; netloc = codes "example.org" })

abbrev evidence : Value
evidence = mapping (
    entry (codes "document_version_id") (text (codes "v1")) (
      entry (codes "quote") (text (codes "buy the dip"))
        (entry (codes "source_url") (text (codes "https://example.org/a")) end)))

abbrev item : Value
item = mapping (entry (codes "evidence") (sequence (entry [] evidence end)) end)

abbrev publication : Value
publication = mapping (entry (codes "items") (sequence (entry [] item end)) end)

accepted : validate_briefing_item https (λ v. false) 2 300 item ≡ ok item
unfolding validate_briefing_item check_all check_evidence field get values records filled
    has_full_text is_full_text_key key_name full_text_keys asserts_nothing safe_source_link present
    link_names nested_link_names source_link_values is_filled strip drop_spaces is_space text_eq
    lower
accepted = refl

all_accepted : validate_publication https (λ v. false) 2 300 publication ≡ ok publication
unfolding validate_publication publication_items validate_items validate_briefing_item check_all
    check_evidence field get values records filled has_full_text is_full_text_key key_name
    full_text_keys asserts_nothing safe_source_link present link_names nested_link_names
    source_link_values is_filled strip drop_spaces is_space text_eq lower
all_accepted = refl

validate_publication-IsPublishable_example :
    (publication ≡ publication)
    × ((items : List Value) × (publication_items publication ≡ ok items)
        × All (IsPublishable https (λ v. false) 2 300) items)
validate_publication-IsPublishable_example =
    validate_publication-IsPublishable https (λ v. false) 2 300 publication publication all_accepted
