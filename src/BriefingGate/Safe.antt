-- ===== src/BriefingGate/Safe.antt =====
-- What never leaves `gate_briefing` of briefing_gate.py.
use inno_scalping_crawling.Common.{
  ℕ, zero, suc, ◌≤◌, ◌≡◌, ◌⊎◌, inl, inr, sym, Bool, true, false, ◌&&◌, List, [], ◌∷◌, arith, any,
  All, In, Text, ok, then_ok, raise_if_ok, Result-cases, ◌>>◌,
}
use inno_scalping_crawling.Common.Int.{pos, negsuc}
use inno_scalping_crawling.Publication.{Value, key_name, one_of}
use inno_scalping_crawling.Publication.Item.{
  validate_briefing_item, validate_publication, max_evidence_quotes,
}
use inno_scalping_crawling.Publication.Accepted.{
  IsPublishable, validate_briefing_item-IsPublishable,
}
use inno_scalping_crawling.BriefingGate.{
  section_of, items_of, disallowed_source, sensitive_information, is_word, is_false,
}
use inno_scalping_crawling.BriefingGate.Sources.{
  assert_sources_allowed, denied, source_boolean_keys, source_status_keys, policy_keys, scoped_keys,
  is_bad_status,
}
use inno_scalping_crawling.BriefingGate.Sensitive.{
  assert_no_sensitive_information, is_sensitive, is_sensitive_key, has_sensitive_value,
}
use inno_scalping_crawling.BriefingGate.Approval.{
  assert_approval_lem, is_internal_draft, approved, maybe, approved_words, briefing_status,
}
use inno_scalping_crawling.BriefingGate.History.{
  Settings, Past, QuoteSetting, missing, no_integer, integer,
}
use inno_scalping_crawling.BriefingGate.Whole.{
  Imports, quote_limit, raise_gate, validate_each, validate_publication_contract, gate_briefing,
}
use inno_scalping_crawling.BriefingGate.Pairs.{
  HasPair, HasPair-is_sensitive, HasPair-denied, marker_lem,
}
use inno_scalping_crawling.BriefingGate.Chain.{gate_briefing-Passed}

-- Nothing that is not approved leaves the gate for an external delivery: a briefing that it accepts
-- comes back as it was, and either is marked as an internal draft, or its own status is approved or
-- published and each of its items is approved.
pub gate_briefing-approved :
    (imports : Imports) (payload : Value) (settings : Settings) (history : List Past)
    (accepted : Value)
    → gate_briefing imports payload settings history ≡ ok accepted
    → (accepted ≡ payload)
      × ((is_internal_draft (section_of payload) ≡ true)
          ⊎ ((maybe (is_word approved_words) (briefing_status (section_of payload)) ≡ true)
              × All (λ item. approved item ≡ true) (items_of payload)))
gate_briefing-approved imports payload settings history accepted h =
    let (same, all) = gate_briefing-Passed imports payload settings history accepted h in
    (sym same, assert_approval_lem (section_of payload) (items_of payload) all.approval)

sensitive_lem :
    (payload : Value)
    → assert_no_sensitive_information payload ≡ ok tt
    → is_sensitive payload ≡ false
unfolding assert_no_sensitive_information
sensitive_lem payload h = raise_if_ok (is_sensitive payload) sensitive_information tt h

-- No sensitive key stands in an accepted briefing, at any depth, in front of a value that is there:
-- whatever stands behind a key like `password`, `token` or `chat_id` is false, empty or `None`.
pub gate_briefing-not_sensitive :
    (imports : Imports) (payload : Value) (settings : Settings) (history : List Past)
    (accepted : Value) (key : Text) (v : Value) (found scope : Bool)
    → gate_briefing imports payload settings history ≡ ok accepted
    → HasPair key v found scope payload
    → (is_sensitive_key key && has_sensitive_value v) ≡ false
gate_briefing-not_sensitive imports payload settings history accepted key v found scope h pair =
    let (same, all) = gate_briefing-Passed imports payload settings history accepted h in
    HasPair-is_sensitive key v found scope payload pair (sensitive_lem payload all.insensitive)

any_left :
    (test : Value → Bool) (x : Value) (l : List Value)
    → any test (x ∷ l) ≡ false
    → (test x ≡ false) × ((y : Value) → In y l → test y ≡ false)
any_left test x [] h = (ground arith, λ y m. absurd m)
any_left test x (z ∷ l) h =
    let (here, later) = any_left test z l (ground arith) in
    (ground arith, λ y m. elim m [ inl e ↦ rw e here | inr n ↦ later y n ])

sources_lem :
    (payload root : Value) (items : List Value)
    → assert_sources_allowed payload items ≡ ok tt
    → In root (section_of payload ∷ items)
    → denied false root ≡ false
unfolding assert_sources_allowed
sources_lem payload root items h m =
    let (here, later) =
      any_left (denied false) (section_of payload) items
        (raise_if_ok (any (denied false) (section_of payload ∷ items)) disallowed_source tt h) in
    elim m [ inl e ↦ rw e here | inr n ↦ later root n ]

-- No pair in an accepted briefing or in one of its items, at any depth, denies its source: neither
-- one of the keys about a source's permission, policy or status, nor one of the words `active`,
-- `enabled` and `allowed` below the key of a source.
pub gate_briefing-sources :
    (imports : Imports) (payload : Value) (settings : Settings) (history : List Past)
    (accepted root : Value) (key : Text) (v : Value) (found : Bool)
    → gate_briefing imports payload settings history ≡ ok accepted
    → In root (section_of payload ∷ items_of payload)
    → HasPair key v found false root
    → ((one_of source_boolean_keys (key_name key) && is_false v) ≡ false)
      × ((one_of policy_keys (key_name key) && is_bad_status v) ≡ false)
      × ((one_of source_status_keys (key_name key) && is_bad_status v) ≡ false)
      × ((found && (one_of scoped_keys (key_name key) && is_false v)) ≡ false)
gate_briefing-sources imports payload settings history accepted root key v found h m pair =
    let (same, all) = gate_briefing-Passed imports payload settings history accepted h in
    marker_lem found (key_name key) v (
      HasPair-denied key v found false root pair
        (sources_lem payload root (items_of payload) all.sources m))

quote_limit_lem :
    (setting : QuoteSetting) (limit : ℕ) → quote_limit setting ≡ ok limit → limit ≤ 300
unfolding quote_limit
quote_limit_lem missing limit h = ground arith
quote_limit_lem no_integer limit h = absurd (ground arith)
quote_limit_lem (integer (negsuc _)) limit h = absurd (ground arith)
quote_limit_lem (integer (pos zero)) limit h = absurd (ground arith)
quote_limit_lem (integer (pos (suc n))) limit h = ground arith

validate_each_lem :
    (imports : Imports) (limit : ℕ) (items : List Value)
    → validate_each imports limit items ≡ ok tt
    → All (IsPublishable imports.urlsplit imports.lint 2 limit) items
unfolding validate_each
validate_each_lem imports limit [] h = tt
validate_each_lem imports limit (item ∷ items) h =
    elim (Result-cases (validate_briefing_item imports.urlsplit imports.lint 2 limit item)) [
      | inr (x, bad) ↦ absurd (ground arith)
      | inl (accepted, e) ↦ (
        (validate_briefing_item-IsPublishable imports.urlsplit imports.lint 2 limit item accepted
            e).1,
        validate_each_lem imports limit items (ground arith),
      )
    ]

contract_lem :
    (imports : Imports) (payload : Value) (items : List Value) (limit : ℕ)
    → validate_publication_contract imports payload items limit ≡ ok tt
    → validate_each imports limit items ≡ ok tt
unfolding validate_publication_contract
contract_lem imports payload items limit h =
    let validated =
      raise_gate
        (validate_publication imports.urlsplit imports.lint max_evidence_quotes limit payload) in
    let (v, _, rest) =
      then_ok validated (λ _. do validate_each imports limit items; validated; ok tt) tt h in
    let (t, each, _) =
      then_ok (validate_each imports limit items) (λ _. do validated; ok tt) tt rest in
    each

-- Whatever limit of the quotes' length is configured, each item of an accepted briefing can be
-- published under the publication gate with two quotes of at most 300 characters: the briefing gate
-- never widens the contract of the publication gate, and passes no item by.
pub gate_briefing-IsPublishable :
    (imports : Imports) (payload : Value) (settings : Settings) (history : List Past)
    (accepted : Value)
    → gate_briefing imports payload settings history ≡ ok accepted
    → (limit : ℕ) × (quote_limit settings.quote_max_chars ≡ ok limit)
      × (limit ≤ 300)
      × All (IsPublishable imports.urlsplit imports.lint 2 limit) (items_of payload)
gate_briefing-IsPublishable imports payload settings history accepted h =
    let (same, all) = gate_briefing-Passed imports payload settings history accepted h in
    (
      all.limit,
      all.limit_ok,
      quote_limit_lem settings.quote_max_chars all.limit all.limit_ok,
      validate_each_lem imports all.limit (items_of payload)
          (contract_lem imports payload (items_of payload) all.limit all.contract),
    )
