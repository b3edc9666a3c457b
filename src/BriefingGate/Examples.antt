-- ===== src/BriefingGate/Examples.antt =====
-- A briefing with two items about one candidate through briefing_gate.py.
use inno_scalping_crawling.Common.{
  ℕ, ◌≤◌, ◌≡◌, ◌⊎◌, refl, inl, inr, true, false, ◌&&◌, none, some, List, [], ◌∷◌, ◌++◌, All, In, ok,
  codes, words, join_spaces, strip, drop_spaces, is_space, is_filled, text_eq, lower,
}
use inno_scalping_crawling.Publication.{
  Value, null, boolean, date_time, scalar, text, mapping, sequence, end, entry, get, field, values,
  filled, full_text_keys, key_name, is_full_text_key, has_full_text, records, asserts_nothing,
  safe_source_link, present, link_names, nested_link_names, source_link_values, one_of,
}
use inno_scalping_crawling.Publication.Item.{
  check_evidence, check_all, validate_briefing_item, publication_items, validate_items,
  validate_publication,
}
use inno_scalping_crawling.Delivery.Guard.{
  make_idempotency_key, component, next_attempt_no, highest, is_success, resend_is_approved,
}
use inno_scalping_crawling.BriefingGate.{
  first, section_of, items_of, is_false, value_present, is_word,
}
use inno_scalping_crawling.BriefingGate.Sources.{
  assert_sources_allowed, denied, marker_denied, is_bad_status, source_boolean_keys,
  source_container_keys, source_status_keys, policy_keys, scoped_keys,
}
use inno_scalping_crawling.BriefingGate.Sensitive.{
  assert_no_sensitive_information, is_sensitive, is_sensitive_key, sensitive_keys,
  has_sensitive_value,
}
use inno_scalping_crawling.BriefingGate.DataWindow.{require_data_window, data_window, as_datetime}
use inno_scalping_crawling.BriefingGate.Related.{
  assert_deduplicated_or_related, group, add_all, add, identities, candidate, has_relationship,
  relation_value, first_present, relation_keys,
}
use inno_scalping_crawling.BriefingGate.Approval.{
  assert_approval_or_internal_draft, is_internal_draft, any_internal, is_internal,
  internal_marker_keys, approved, maybe, approved_words, briefing_status,
}
use inno_scalping_crawling.BriefingGate.History.{
  Settings, missing, Past, assert_delivery_history, expected_key, matching_history, delivery_values,
  text_only,
}
use inno_scalping_crawling.BriefingGate.Whole.{
  Imports, quote_limit, validate_each, validate_publication_contract, gate_briefing,
}
use inno_scalping_crawling.BriefingGate.Pairs.{HasPair}
use inno_scalping_crawling.BriefingGate.Safe.{
  gate_briefing-approved, gate_briefing-not_sensitive, gate_briefing-sources,
}
use inno_scalping_crawling.BriefingGate.Recorded.{
  gate_briefing-window, gate_briefing-related, gate_briefing-history,
}

abbrev imports : Imports
imports = record {
  urlsplit = λ s. some (record { scheme = codes "https"; netloc = codes "example.org" });
  lint = λ v. false;
  fromisoformat = λ s. none;
  repr = λ v. [];
  lower_all = lower;
}

abbrev quoted : Value
quoted = mapping (
    entry (codes "document_version_id") (text (codes "v1")) (
      entry (codes "quote") (text (codes "buy the dip"))
        (entry (codes "source_url") (text (codes "https://example.org/a")) end)))

abbrev first_item : Value
first_item = mapping (
    entry (codes "evidence") (sequence (entry [] quoted end)) (
      entry (codes "approved") (boolean true)
        (entry (codes "candidate_id") (text (codes "c1")) end)))

abbrev second_item : Value
second_item = mapping (
    entry (codes "evidence") (sequence (entry [] quoted end)) (
      entry (codes "status") (text (codes "Published")) (
        entry (codes "candidate_id") (text (codes "c1"))
          (entry (codes "duplicate_of") (text (codes "c0")) end))))

abbrev active_source : Value
active_source = mapping (entry (codes "active") (boolean true) end)

abbrev briefing : Value
briefing = mapping (
    entry (codes "items") (sequence (entry [] first_item (entry [] second_item end))) (
      entry (codes "status") (text (codes "approved")) (
        entry (codes "window_start") (scalar (codes "t5") true (some (date_time 5))) (
          entry (codes "window_end") (scalar (codes "t9") true (some (date_time 9))) (
            entry (codes "password") null (
              entry (codes "source") active_source (
                entry (codes "briefing_id") (text (codes "b1")) (
                  entry (codes "channel") (text (codes "c")) (
                    entry (codes "content_hash") (text (codes "h")) (
                      entry (codes "resend_reason") (text (codes "typo"))
                        (entry (codes "resend_approved_by") (text (codes "kim")) end)))))))))))

abbrev settings : Settings
settings = record { quote_max_chars = missing; delivery_channel = none }

abbrev sent : List Past
sent =
    record {
      idempotency_key = some (some (codes "b1:c:h"));
      attempt = record { status = codes "success"; attempt_no = some 1 };
    }
    ∷ []

passes : gate_briefing imports briefing settings sent ≡ ok briefing
unfolding gate_briefing quote_limit validate_publication_contract validate_each
    validate_briefing_item validate_publication publication_items validate_items check_all
    check_evidence field get values records filled has_full_text is_full_text_key key_name
    full_text_keys asserts_nothing safe_source_link present link_names nested_link_names
    source_link_values is_filled strip drop_spaces is_space text_eq lower section_of items_of first
    is_false value_present assert_sources_allowed denied marker_denied is_bad_status
    source_boolean_keys source_container_keys source_status_keys assert_no_sensitive_information
    is_sensitive sensitive_keys has_sensitive_value require_data_window data_window as_datetime
    assert_deduplicated_or_related group add_all add identities words join_spaces has_relationship
    relation_value first_present relation_keys assert_approval_or_internal_draft is_internal_draft
    any_internal is_internal internal_marker_keys approved assert_delivery_history expected_key
    matching_history delivery_values make_idempotency_key component next_attempt_no highest
    is_success resend_is_approved
passes = refl

gate_briefing-approved_example :
    (briefing ≡ briefing)
    × ((is_internal_draft (section_of briefing) ≡ true)
        ⊎ ((maybe (is_word approved_words) (briefing_status (section_of briefing)) ≡ true)
            × All (λ item. approved item ≡ true) (items_of briefing)))
gate_briefing-approved_example =
    gate_briefing-approved imports briefing settings sent briefing passes

gate_briefing-not_sensitive_example :
    (is_sensitive_key (codes "password") && has_sensitive_value null) ≡ false
unfolding HasPair source_container_keys key_name lower text_eq
gate_briefing-not_sensitive_example =
    gate_briefing-not_sensitive imports briefing settings sent briefing (codes "password") null
      false false passes (inr (inr (inr (inr (inr (inr (inr (inr (inl (refl, refl, refl))))))))))

gate_briefing-sources_example :
    ((one_of source_boolean_keys (key_name (codes "active")) && is_false (boolean true)) ≡ false)
    × ((one_of policy_keys (key_name (codes "active")) && is_bad_status (boolean true)) ≡ false)
    × ((one_of source_status_keys (key_name (codes "active")) && is_bad_status (boolean true))
        ≡ false)
    × ((true && (one_of scoped_keys (key_name (codes "active")) && is_false (boolean true)))
        ≡ false)
unfolding HasPair source_container_keys key_name lower text_eq section_of field get
gate_briefing-sources_example =
    gate_briefing-sources imports briefing settings sent briefing briefing (codes "active")
      (boolean true) true passes (inl refl)
      (inr
        (inr (inr (inr (inr (inr (inr (inr (inr (inr (inr (inl (inl (refl, refl, refl))))))))))))))

gate_briefing-window_example :
    (start stop : Value) × (i j : ℕ) × (data_window (section_of briefing) ≡ (some start, some stop))
    × (as_datetime imports.fromisoformat start ≡ some i)
    × (as_datetime imports.fromisoformat stop ≡ some j)
    × (i ≤ j)
gate_briefing-window_example = gate_briefing-window imports briefing settings sent briefing passes

two_items : items_of briefing ≡ [] ++ (first_item ∷ ([] ++ (second_item ∷ [])))
unfolding items_of section_of first field get values text_eq
two_items = refl

same_candidate :
    In (candidate, codes "c1") (identities imports.repr imports.lower_all first_item)
    × In (candidate, codes "c1") (identities imports.repr imports.lower_all second_item)
unfolding identities first field get text_eq is_filled strip drop_spaces is_space
same_candidate = (inl refl, inl refl)

gate_briefing-related_example :
    (r : Value) × In r (items_of briefing)
    × In (candidate, codes "c1") (identities imports.repr imports.lower_all r)
    × (has_relationship (section_of briefing) r ≡ true)
gate_briefing-related_example =
    gate_briefing-related imports briefing settings sent briefing (candidate, codes "c1") first_item
      second_item [] [] [] passes two_items same_candidate.0 same_candidate.1

key_of_briefing :
    expected_key imports.repr (delivery_values (section_of briefing) settings)
    ≡ ok (some (codes "b1:c:h"))
unfolding expected_key delivery_values section_of field get text_eq first is_filled strip
    drop_spaces is_space make_idempotency_key component
key_of_briefing = refl

abbrev earlier : Past
earlier = record {
  idempotency_key = some (some (codes "b1:c:h"));
  attempt = record { status = codes "success"; attempt_no = some 1 };
}

gate_briefing-history_example :
    resend_is_approved
      (text_only (delivery_values (section_of briefing) settings).resend_reason)
      (text_only (delivery_values (section_of briefing) settings).resend_approved_by)
    ≡ true
gate_briefing-history_example =
    gate_briefing-history imports briefing settings sent briefing (some (codes "b1:c:h")) earlier
      passes key_of_briefing (inl refl) (inr refl)
