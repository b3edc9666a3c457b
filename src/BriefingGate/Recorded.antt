-- ===== src/BriefingGate/Recorded.antt =====
-- What a briefing has recorded that `gate_briefing` of briefing_gate.py lets through.
use mathlib.Core.Path.{subst}
use inno_scalping_crawling.Common.{
  ℕ, ◌≤◌, ◌≡◌, ◌⊎◌, inl, inr, refl, sym, ap, ◌∙◌, true, false, not, ◌||◌, ltb, Option, none, some,
  List, [], ◌∷◌, ◌++◌, arith, map, any, In, Text, Result, ok, err, raise_if, ◌>>=◌, then_ok, ok_inj,
  text_eq_refl, In-keep, raise_if_ok, Bool-cases, Option-cases,
}
use inno_scalping_crawling.Publication.{Value}
use inno_scalping_crawling.Delivery.Guard.{Attempt, GuardError, next_attempt_no, resend_is_approved}
use inno_scalping_crawling.BriefingGate.{
  section_of, items_of, is_given, window_missing, window_reversed, unrelated_duplicates,
  not_deduplicated,
}
use inno_scalping_crawling.BriefingGate.DataWindow.{
  require_data_window, data_window, check_window, instant, as_datetime,
}
use inno_scalping_crawling.BriefingGate.Related.{
  Identity, assert_deduplicated_or_related, is_incomplete, is_unrelated, group, identities,
  has_relationship,
}
use inno_scalping_crawling.BriefingGate.Approval.{approved}
use inno_scalping_crawling.BriefingGate.History.{
  Settings, Past, assert_delivery_history, expected_key, matching_history, has_key, delivery_values,
  raise_guard, text_only,
}
use inno_scalping_crawling.BriefingGate.Whole.{Imports, gate_briefing}
use inno_scalping_crawling.BriefingGate.Groups.{group_lem}
use inno_scalping_crawling.BriefingGate.Chain.{gate_briefing-Passed}

instant_lem :
    (fromisoformat : Text → Option ℕ) (o : Option Value) (i : ℕ)
    → instant fromisoformat o ≡ ok i
    → (v : Value) × (o ≡ some v) × (as_datetime fromisoformat v ≡ some i)
instant_lem fromisoformat none i h = absurd (ground arith)
instant_lem fromisoformat (some v) i h = elim (Option-cases (as_datetime fromisoformat v)) [
  | inl e ↦ absurd (ground arith)
  | inr (j, e) ↦ (v, refl, ground arith)
]

check_window_lem :
    (fromisoformat : Text → Option ℕ) (start stop : Option Value)
    → check_window fromisoformat start stop ≡ ok tt
    → (i j : ℕ) × (instant fromisoformat start ≡ ok i)
      × (instant fromisoformat stop ≡ ok j)
      × (i ≤ j)
check_window_lem fromisoformat start stop h =
    let (t, given, rest) =
      then_ok (raise_if (not (is_given start) || not (is_given stop)) window_missing)
        (λ _. do
          parsed_start ← instant fromisoformat start
          parsed_end ← instant fromisoformat stop
          raise_if (ltb parsed_end parsed_start) window_reversed)
        tt h in
    let (i, ei, later) =
      then_ok (instant fromisoformat start)
        (λ i. do
          parsed_end ← instant fromisoformat stop
          raise_if (ltb parsed_end i) window_reversed)
        tt rest in
    let (j, ej, last) =
      then_ok (instant fromisoformat stop) (λ j. raise_if (ltb j i) window_reversed) tt later in
    let ordered = raise_if_ok (ltb j i) window_reversed tt last in (i, j, ei, ej, ground arith)

-- An accepted briefing records both ends of its data window, both are read as instants, and the
-- window does not end before it starts.
pub gate_briefing-window :
    (imports : Imports) (payload : Value) (settings : Settings) (history : List Past)
    (accepted : Value)
    → gate_briefing imports payload settings history ≡ ok accepted
    → (start stop : Value) × (i j : ℕ) × (data_window (section_of payload)
        ≡ (some start, some stop))
      × (as_datetime imports.fromisoformat start ≡ some i)
      × (as_datetime imports.fromisoformat stop ≡ some j)
      × (i ≤ j)
unfolding require_data_window
gate_briefing-window imports payload settings history accepted h =
    let (same, all) = gate_briefing-Passed imports payload settings history accepted h in
    let (start, stop) = data_window (section_of payload) in
    let (i, j, ei, ej, le) = check_window_lem imports.fromisoformat start stop all.window in
    let (v, ev, iv) = instant_lem imports.fromisoformat start i ei in
    let (w, ew, iw) = instant_lem imports.fromisoformat stop j ej in
    (v, w, i, j, ap (λ x. (x, stop)) ev ∙ ap (λ x. (some v, x)) ew, iv, iw, le)

related_lem :
    (repr : Value → Text) (lower_all : Text → Text) (section : Value) (items : List Value)
    → assert_deduplicated_or_related repr lower_all section items ≡ ok tt
    → any (is_unrelated repr lower_all section) (group repr lower_all items []) ≡ false
unfolding assert_deduplicated_or_related
related_lem repr lower_all section items h =
    let (t, unmarked, rest) =
      then_ok (raise_if (any (is_incomplete repr lower_all) (section ∷ items)) not_deduplicated)
        (λ _.
          raise_if (any (is_unrelated repr lower_all section) (group repr lower_all items []))
            unrelated_duplicates)
        tt h in
    raise_if_ok (any (is_unrelated repr lower_all section) (group repr lower_all items []))
      unrelated_duplicates tt rest

-- If two items of an accepted briefing have an identity in common (a candidate or a strategy, with
-- the field name if there is one, or else a name or an item's id), then one of the items with that
-- identity says how it is related, or the briefing does.
pub gate_briefing-related :
    (imports : Imports) (payload : Value) (settings : Settings) (history : List Past)
    (accepted : Value) (i : Identity) (a b : Value) (before within after : List Value)
    → gate_briefing imports payload settings history ≡ ok accepted
    → items_of payload ≡ before ++ (a ∷ (within ++ (b ∷ after)))
    → In i (identities imports.repr imports.lower_all a)
    → In i (identities imports.repr imports.lower_all b)
    → (r : Value) × In r (items_of payload)
      × In i (identities imports.repr imports.lower_all r)
      × (has_relationship (section_of payload) r ≡ true)
gate_briefing-related imports payload settings history accepted i a b before within after h e ha
      hb =
    let (same, all) = gate_briefing-Passed imports payload settings history accepted h in
    let section = section_of payload in
    let clean = related_lem imports.repr imports.lower_all section (items_of payload) all.related in
    let (r, m, c, k) =
      group_lem imports.repr imports.lower_all section i a b before within after
        (subst
          (λ l.
            any (is_unrelated imports.repr imports.lower_all section)
              (group imports.repr imports.lower_all l [])
            ≡ false)
          e clean)
        ha hb in
    (r, subst (In r) (sym e) m, c, k)

next_lem :
    (attempts : List Attempt) (reason by : Option Text) (n : ℕ)
    → next_attempt_no attempts reason by ≡ ok n
    → (attempts ≡ []) ⊎ (resend_is_approved reason by ≡ true)
unfolding next_attempt_no
next_lem [] reason by n h = inl refl
next_lem (r ∷ attempts) reason by n h = elim (Bool-cases (resend_is_approved reason by)) [
  | inl approved ↦ inr approved
  | inr not_approved ↦ absurd (ground arith)
]

raise_guard_lem : {A : Type 0} (r : Result GuardError A) (a : A) → raise_guard r ≡ ok a → r ≡ ok a
raise_guard_lem (ok b) a h = ground arith
raise_guard_lem (err e) a h = absurd (ground arith)

map_nil : (history : List Past) → map (λ past. past.attempt) history ≡ [] → history ≡ []
map_nil [] h = refl
map_nil (p ∷ history) h = absurd (ground arith)

-- Both ends of `_assert_delivery_history`.
history_lem :
    (imports : Imports) (payload : Value) (settings : Settings) (history : List Past)
    (accepted : Value)
    → gate_briefing imports payload settings history ≡ ok accepted
    → let given = delivery_values (section_of payload) settings in
      (expected : Option Text) × (expected_key imports.repr given ≡ ok expected)
      × ((matching_history expected history ≡ [])
          ⊎ (resend_is_approved (text_only given.resend_reason) (text_only given.resend_approved_by)
              ≡ true))
unfolding assert_delivery_history
history_lem imports payload settings history accepted h =
    let (same, all) = gate_briefing-Passed imports payload settings history accepted h in
    let given = delivery_values (section_of payload) settings in
    let attempts =
      λ (expected : Option Text). map (λ past. past.attempt) (matching_history expected history) in
    let next = λ (expected : Option Text).
      next_attempt_no (attempts expected) (text_only given.resend_reason)
        (text_only given.resend_approved_by) in
    let (expected, ek, rest) =
      then_ok (expected_key imports.repr given)
        (λ expected. raise_guard (next expected) >>= λ _. ok tt) tt all.delivery in
    let (n, en, _) = then_ok (raise_guard (next expected)) (λ _. ok tt) tt rest in
    (
      expected,
      ek,
      elim (next_lem (attempts expected) (text_only given.resend_reason)
          (text_only given.resend_approved_by) n (raise_guard_lem (next expected) n en)) [
            | inl nothing ↦ inl (map_nil (matching_history expected history) nothing)
            | inr approved ↦ inr approved
          ],
    )

-- The earlier delivery counts for a briefing with this key: there is no key to compare with, or the
-- delivery has none, or both are the same.
abbrev pub Concerns : Option Text → Past → Type 0
Concerns none past = Unit
Concerns (some key) past = (past.idempotency_key ≡ none) ⊎ (past.idempotency_key ≡ some (some key))

has_key_lem : (key : Text) (past : Past) → Concerns (some key) past → has_key key past ≡ true
has_key_lem key past (inl e) = rw e refl
has_key_lem key past (inr e) = rw e (text_eq_refl key)

matching-In :
    (expected : Option Text) (past : Past) (history : List Past)
    → In past history
    → Concerns expected past
    → In past (matching_history expected history)
unfolding matching_history
matching-In none past history m h = m
matching-In (some key) past history m h =
    In-keep (has_key key) past history m (has_key_lem key past h)

-- A briefing that was delivered before is accepted only with a reason and an approver of the resend.
-- An earlier delivery counts if it has no key or the briefing's, which is made of the briefing's id,
-- the channel and the content's hash; and every one counts where one of the three is not given.
pub gate_briefing-history :
    (imports : Imports) (payload : Value) (settings : Settings) (history : List Past)
    (accepted : Value) (expected : Option Text) (past : Past)
    → gate_briefing imports payload settings history ≡ ok accepted
    → expected_key imports.repr (delivery_values (section_of payload) settings) ≡ ok expected
    → In past history
    → Concerns expected past
    → let given = delivery_values (section_of payload) settings in
      resend_is_approved (text_only given.resend_reason) (text_only given.resend_approved_by) ≡ true
gate_briefing-history imports payload settings history accepted expected past h key m counts =
    let given = delivery_values (section_of payload) settings in
    let (found, found_key, ends) = history_lem imports payload settings history accepted h in
    let same = ok_inj found expected (expected_key imports.repr given) found_key key in
    elim ends [
      | inr approved ↦ approved
      | inl nothing ↦ absurd (
          subst (In past) (subst (λ x. matching_history x history ≡ []) same nothing)
            (matching-In expected past history m counts))
    ]
