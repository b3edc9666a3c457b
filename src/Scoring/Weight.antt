-- ===== src/Scoring/Weight.antt =====
-- The loop of `_lookup` in scoring.py ends.
use inno_scalping_crawling.Common.{
  ℕ, zero, suc, ◌+◌, ◌*◌, ◌≤◌, ◌≡◌, refl, ap, Option, none, some, List, [], ◌∷◌, ◌++◌, arith,
  length, Text, text_eq, Bool-cases, inl, inr,
}
use inno_scalping_crawling.Publication.{
  Value, Entries, null, boolean, scalar, text, mapping, sequence, end, entry, field, get,
}
use inno_scalping_crawling.Scoring.Lookup.{
  nested_names, mappings_at, mapping_or, mapping_values, added, nested_records, collect, weight,
  entries_weight, queue_weight,
}

queue_weight-append :
    (xs ys : List Value) → queue_weight (xs ++ ys) ≡ queue_weight xs + queue_weight ys
unfolding queue_weight
queue_weight-append [] ys = omega arith
queue_weight-append (x ∷ xs) ys = omega (arith, queue_weight-append xs ys)

weight_positive : (v : Value) → 1 ≤ weight v
unfolding weight
weight_positive null = omega arith
weight_positive (boolean _) = omega arith
weight_positive (scalar _ _ _) = omega arith
weight_positive (text _) = omega arith
weight_positive (mapping es) = omega arith
weight_positive (sequence es) = omega arith

-- The weight of what a name leads to, if it is there.
abbrev found : Option Value → ℕ
found none = 0
found (some v) = weight v

found_get : (name : Text) (entries : Entries) → found (get name entries) ≤ entries_weight entries
unfolding get entries_weight
found_get name end = omega arith
found_get name (entry k v rest) = elim (Bool-cases (text_eq k name)) [
  | inl same ↦ rw same (omega arith)
  | inr other ↦ rw other (omega (arith, found_get name rest))
]

mapping_or_weight :
    (o : Option Value) (rest : List Value)
    → queue_weight (mapping_or o rest) ≤ found o + queue_weight rest
unfolding queue_weight
mapping_or_weight none rest = omega arith
mapping_or_weight (some null) rest = omega arith
mapping_or_weight (some (boolean _)) rest = omega arith
mapping_or_weight (some (scalar _ _ _)) rest = omega arith
mapping_or_weight (some (text _)) rest = omega arith
mapping_or_weight (some (sequence _)) rest = omega arith
mapping_or_weight (some (mapping es)) rest = omega arith

mappings_at_weight :
    (names : List Text) (entries : Entries)
    → queue_weight (mappings_at names (mapping entries)) ≤ length names * entries_weight entries
unfolding mappings_at field queue_weight
mappings_at_weight [] entries = omega arith
mappings_at_weight (name ∷ names) entries = omega (
  arith,
  mapping_or_weight (get name entries) (mappings_at names (mapping entries)),
  mappings_at_weight names entries,
  found_get name entries,
)

queue_weight-mapping_values : (v : Value) → queue_weight (mapping_values v) ≤ 8 * weight v
unfolding mapping_values queue_weight weight nested_names
queue_weight-mapping_values null = omega arith
queue_weight-mapping_values (boolean _) = omega arith
queue_weight-mapping_values (scalar _ _ _) = omega arith
queue_weight-mapping_values (text _) = omega arith
queue_weight-mapping_values (sequence es) = omega arith
queue_weight-mapping_values (mapping es) = omega (arith, mappings_at_weight nested_names es)

added_weight : (o : Option Value) → queue_weight (added o) ≤ 9 * found o
unfolding queue_weight
added_weight none = omega arith
added_weight (some null) = omega arith
added_weight (some (boolean b)) = omega (arith, queue_weight-mapping_values (boolean b))
added_weight (some (scalar s t m)) = omega (arith, queue_weight-mapping_values (scalar s t m))
added_weight (some (text s)) = omega (arith, queue_weight-mapping_values (text s))
added_weight (some (sequence es)) = omega (arith, queue_weight-mapping_values (sequence es))
added_weight (some (mapping es)) = omega (arith, queue_weight-mapping_values (mapping es))

nested_records_weight :
    (names : List Text) (entries : Entries)
    → queue_weight (nested_records names (mapping entries))
      ≤ length names * (9 * entries_weight entries)
unfolding nested_records field queue_weight
nested_records_weight [] entries = omega arith
nested_records_weight (name ∷ names) entries = omega (
  arith,
  queue_weight-append (added (get name entries)) (nested_records names (mapping entries)),
  added_weight (get name entries),
  nested_records_weight names entries,
  found_get name entries,
)

no_records :
    (names : List Text) (r : Value)
    → ((name : Text) → field r name ≡ none)
    → queue_weight (nested_records names r) ≡ 0
unfolding nested_records queue_weight
no_records [] r h = refl
no_records (name ∷ names) r h = rw (h name) (no_records names r h)

nested_weight : (r : Value) → 1 + queue_weight (nested_records nested_names r) ≤ weight r
unfolding weight field nested_names
nested_weight (mapping es) = omega (arith, nested_records_weight nested_names es)
nested_weight null = omega (arith, no_records nested_names null (λ name. refl))
nested_weight (boolean b) = omega (arith, no_records nested_names (boolean b) (λ name. refl))
nested_weight (scalar s t m) = omega (arith, no_records nested_names (scalar s t m) (λ name. refl))
nested_weight (text s) = omega (arith, no_records nested_names (text s) (λ name. refl))
nested_weight (sequence es) = omega (arith, no_records nested_names (sequence es) (λ name. refl))

same_records :
    (f g : ℕ) (queue : List Value)
    → queue_weight queue ≤ f
    → queue_weight queue ≤ g
    → collect f queue ≡ collect g queue
unfolding collect queue_weight
same_records zero zero [] hf hg = refl
same_records zero (suc g) [] hf hg = refl
same_records (suc f) zero [] hf hg = refl
same_records (suc f) (suc g) [] hf hg = refl
same_records zero g (r ∷ queue) hf hg = absurd (omega (arith, weight_positive r))
same_records (suc f) zero (r ∷ queue) hf hg = absurd (omega (arith, weight_positive r))
same_records (suc f) (suc g) (r ∷ queue) hf hg =
    let rest = queue ++ nested_records nested_names r in
    ap (λ l. r ∷ l)
      (same_records f g rest
        (omega (arith, nested_weight r, queue_weight-append queue (nested_records nested_names r)))
        (omega (arith, nested_weight r, queue_weight-append queue (nested_records nested_names r))))

-- The loop that collects the records ends: with the weight of its queue as fuel it has gone through
-- them all, so that more fuel changes nothing.
pub collect_ends :
    (more : ℕ) (queue : List Value)
    → collect (queue_weight queue + more) queue ≡ collect (queue_weight queue) queue
collect_ends more queue =
    same_records (queue_weight queue + more) (queue_weight queue) queue (omega arith) (omega arith)
