-- ===== src/BriefingGate/Chain.antt =====
-- The chain of checks in `gate_briefing` of briefing_gate.py.
use inno_scalping_crawling.Common.{
  ℕ, ◌≡◌, inl, inr, refl, List, arith, Result, ok, Result-cases, ◌>>=◌, ◌>>◌,
}
use inno_scalping_crawling.Publication.{Value}
use inno_scalping_crawling.BriefingGate.{BriefingError, section_of, items_of}
use inno_scalping_crawling.BriefingGate.Sources.{assert_sources_allowed}
use inno_scalping_crawling.BriefingGate.Sensitive.{assert_no_sensitive_information}
use inno_scalping_crawling.BriefingGate.DataWindow.{require_data_window}
use inno_scalping_crawling.BriefingGate.Related.{assert_deduplicated_or_related}
use inno_scalping_crawling.BriefingGate.Approval.{assert_approval_or_internal_draft}
use inno_scalping_crawling.BriefingGate.History.{Settings, Past, assert_delivery_history}
use inno_scalping_crawling.BriefingGate.Whole.{
  Imports, quote_limit, validate_publication_contract, gate_briefing,
}

-- Every check of the chain has passed.
pub record Passed (imports : Imports) (payload : Value) (settings : Settings) (history : List Past)
    : Type 0 where
  pub limit : ℕ
  pub limit_ok : quote_limit settings.quote_max_chars ≡ ok limit
  pub contract : validate_publication_contract imports payload (items_of payload) limit ≡ ok tt
  pub sources : assert_sources_allowed payload (items_of payload) ≡ ok tt
  pub window : require_data_window imports.fromisoformat (section_of payload) ≡ ok tt
  pub related :
      assert_deduplicated_or_related imports.repr imports.lower_all
        (section_of payload)
        (items_of payload)
      ≡ ok tt
  pub approval : assert_approval_or_internal_draft (section_of payload) (items_of payload) ≡ ok tt
  pub insensitive : assert_no_sensitive_information payload ≡ ok tt
  pub delivery : assert_delivery_history imports.repr (section_of payload) settings history ≡ ok tt

passed_chain :
    (l : Result BriefingError ℕ) (c : ℕ → Result BriefingError (Unit {0}))
    (s w r a i d : Result BriefingError (Unit {0})) (payload accepted : Value)
    → (do limit ← l; c limit; s; w; r; a; i; d; ok payload) ≡ ok accepted
    → (payload ≡ accepted)
      × ((limit : ℕ) × (l ≡ ok limit) × (c limit ≡ ok tt))
      × (s ≡ ok tt)
      × (w ≡ ok tt)
      × (r ≡ ok tt)
      × (a ≡ ok tt)
      × (i ≡ ok tt)
      × (d ≡ ok tt)
passed_chain (ok limit) c (ok s) (ok w) (ok r) (ok a) (ok i) (ok d) payload accepted h =
    elim (Result-cases (c limit)) [
      | inl (t, e) ↦ (ground arith, (limit, refl, e), refl, refl, refl, refl, refl, refl)
      | inr (x, e) ↦ absurd (ground arith)
    ]
passed_chain _ c _ _ _ _ _ _ payload accepted h = absurd (ground arith)

pub gate_briefing-Passed :
    (imports : Imports) (payload : Value) (settings : Settings) (history : List Past)
    (accepted : Value)
    → gate_briefing imports payload settings history ≡ ok accepted
    → (payload ≡ accepted) × Passed imports payload settings history
unfolding gate_briefing
gate_briefing-Passed imports payload settings history accepted h =
    let section = section_of payload in
    let items = items_of payload in
    let (same, (limit, el, ec), s, w, r, a, i, d) =
      passed_chain (quote_limit settings.quote_max_chars)
        (validate_publication_contract imports payload items) (assert_sources_allowed payload items)
        (require_data_window imports.fromisoformat section)
        (assert_deduplicated_or_related imports.repr imports.lower_all section items)
        (assert_approval_or_internal_draft section items) (assert_no_sensitive_information payload)
        (assert_delivery_history imports.repr section settings history) payload accepted h in
    (
      same,
      record {
        limit = limit;
        limit_ok = el;
        contract = ec;
        sources = s;
        window = w;
        related = r;
        approval = a;
        insensitive = i;
        delivery = d;
      },
    )
