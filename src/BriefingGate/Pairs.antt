-- ===== src/BriefingGate/Pairs.antt =====
-- What the two walks of briefing_gate.py see: the pairs of a key and a value at any depth.
use mathlib.Core.Path.{subst}
use inno_scalping_crawling.Common.{◌≡◌, ◌⊎◌, inl, inr, Bool, false, ◌&&◌, ◌||◌, arith, Text}
use inno_scalping_crawling.Publication.{
  Value, Entries, null, boolean, scalar, text, mapping, sequence, end, entry, key_name, one_of,
}
use inno_scalping_crawling.BriefingGate.{is_false}
use inno_scalping_crawling.BriefingGate.Sources.{
  in_scope, denied, entries_denied, marker_denied, source_boolean_keys, source_status_keys,
  policy_keys, scoped_keys, is_bad_status,
}
use inno_scalping_crawling.BriefingGate.Sensitive.{
  is_sensitive_key, has_sensitive_value, is_sensitive, entries_sensitive,
}

-- The key stands in front of the value somewhere in the last argument, at any depth; `found` says
-- whether it or a key around it is that of a source, or `scope` was true.
unfoldable mutual
  pub HasPair : (key : Text) (v : Value) (found scope : Bool) → Value → Type 0
  HasPair key v found scope (mapping entries) = HasPairIn key v found scope entries
  HasPair key v found scope (sequence entries) = HasPairIn key v found scope entries
  HasPair key v found scope _ = ⊥

  pub HasPairIn : (key : Text) (v : Value) (found scope : Bool) → Entries → Type 0
  HasPairIn key v found scope end = ⊥
  HasPairIn key v found scope (entry k w rest) =
      ((k ≡ key) × (w ≡ v) × (in_scope scope k ≡ found))
      ⊎ (HasPair key v found (in_scope scope k) w ⊎ HasPairIn key v found scope rest)

none_of : (a b c : Bool) → (a || (b || c)) ≡ false → (a ≡ false) × (b ≡ false) × (c ≡ false)
none_of a b c h = ground arith

mutual
  unfolding HasPair HasPairIn denied entries_denied

  pub HasPair-denied :
      (key : Text) (v : Value) (found scope : Bool) (w : Value)
      → HasPair key v found scope w
      → denied scope w ≡ false
      → marker_denied found (key_name key) v ≡ false
  HasPair-denied key v found scope (mapping entries) h clean =
      HasPairIn-entries_denied key v found scope entries h clean
  HasPair-denied key v found scope (sequence entries) h clean =
      HasPairIn-entries_denied key v found scope entries h clean
  HasPair-denied key v found scope null h clean = absurd h
  HasPair-denied key v found scope (boolean _) h clean = absurd h
  HasPair-denied key v found scope (scalar _ _ _) h clean = absurd h
  HasPair-denied key v found scope (text _) h clean = absurd h

  HasPairIn-entries_denied :
      (key : Text) (v : Value) (found scope : Bool) (entries : Entries)
      → HasPairIn key v found scope entries
      → entries_denied scope entries ≡ false
      → marker_denied found (key_name key) v ≡ false
  HasPairIn-entries_denied key v found scope end h clean = absurd h
  HasPairIn-entries_denied key v found scope (entry k w rest) h clean =
      let (here, inside, later) =
        none_of (marker_denied (in_scope scope k) (key_name k) w) (denied (in_scope scope k) w)
          (entries_denied scope rest) clean in
      elim h [
        | inl (ek, ew, es) ↦
            subst (λ x. marker_denied x (key_name key) v ≡ false) es
              (subst (λ x. marker_denied (in_scope scope k) (key_name x) v ≡ false) ek
                (subst (λ x. marker_denied (in_scope scope k) (key_name k) x ≡ false) ew here))
        | inr (inl below) ↦ HasPair-denied key v found (in_scope scope k) w below inside
        | inr (inr after) ↦ HasPairIn-entries_denied key v found scope rest after later
      ]

mutual
  unfolding HasPair HasPairIn is_sensitive entries_sensitive

  pub HasPair-is_sensitive :
      (key : Text) (v : Value) (found scope : Bool) (w : Value)
      → HasPair key v found scope w
      → is_sensitive w ≡ false
      → (is_sensitive_key key && has_sensitive_value v) ≡ false
  HasPair-is_sensitive key v found scope (mapping entries) h clean =
      HasPairIn-entries_sensitive key v found scope entries h clean
  HasPair-is_sensitive key v found scope (sequence entries) h clean =
      HasPairIn-entries_sensitive key v found scope entries h clean
  HasPair-is_sensitive key v found scope null h clean = absurd h
  HasPair-is_sensitive key v found scope (boolean _) h clean = absurd h
  HasPair-is_sensitive key v found scope (scalar _ _ _) h clean = absurd h
  HasPair-is_sensitive key v found scope (text _) h clean = absurd h

  HasPairIn-entries_sensitive :
      (key : Text) (v : Value) (found scope : Bool) (entries : Entries)
      → HasPairIn key v found scope entries
      → entries_sensitive entries ≡ false
      → (is_sensitive_key key && has_sensitive_value v) ≡ false
  HasPairIn-entries_sensitive key v found scope end h clean = absurd h
  HasPairIn-entries_sensitive key v found scope (entry k w rest) h clean =
      let (here, inside, later) =
        none_of (is_sensitive_key k && has_sensitive_value w) (is_sensitive w)
          (entries_sensitive rest) clean in
      elim h [
        | inl (ek, ew, es) ↦
            subst (λ x. (is_sensitive_key x && has_sensitive_value v) ≡ false) ek
              (subst (λ x. (is_sensitive_key k && has_sensitive_value x) ≡ false) ew here)
        | inr (inl below) ↦ HasPair-is_sensitive key v found (in_scope scope k) w below inside
        | inr (inr after) ↦ HasPairIn-entries_sensitive key v found scope rest after later
      ]

-- A pair that the loop of `_assert_sources_allowed` passes over: no key of a policy, a status or a
-- decision about a source stands in front of a denial.
pub marker_lem :
    (scope : Bool) (name : Text) (v : Value)
    → marker_denied scope name v ≡ false
    → ((one_of source_boolean_keys name && is_false v) ≡ false)
      × ((one_of policy_keys name && is_bad_status v) ≡ false)
      × ((one_of source_status_keys name && is_bad_status v) ≡ false)
      × ((scope && (one_of scoped_keys name && is_false v)) ≡ false)
unfolding marker_denied
marker_lem scope name v h =
    none_of4 (one_of source_boolean_keys name && is_false v)
      (one_of policy_keys name && is_bad_status v)
      (one_of source_status_keys name && is_bad_status v)
      (scope && (one_of scoped_keys name && is_false v)) h
  where
    none_of4 :
        (a b c d : Bool)
        → (a || (b || (c || d))) ≡ false
        → (a ≡ false) × (b ≡ false) × (c ≡ false) × (d ≡ false)
    none_of4 a b c d h = ground arith
