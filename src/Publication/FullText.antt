-- ===== src/Publication/FullText.antt =====
-- What `_reject_full_text` of gate.py looks for.
use mathlib.Core.Path.{subst}
use inno_scalping_crawling.Common.{◌≡◌, ◌⊎◌, inl, inr, Bool, false, ◌||◌, arith, Text}
use inno_scalping_crawling.Publication.{
  Value, Entries, null, boolean, scalar, text, mapping, sequence, end, entry, is_full_text_key,
  has_full_text, entries_full_text,
}

-- The key stands somewhere in the value, at any depth.
mutual
  pub HasKey : Text → Value → Type 0
  HasKey key (mapping entries) = HasEntry key entries
  HasKey key (sequence entries) = HasEntry key entries
  HasKey key _ = ⊥

  pub HasEntry : Text → Entries → Type 0
  HasEntry key end = ⊥
  HasEntry key (entry k v rest) = (k ≡ key) ⊎ (HasKey key v ⊎ HasEntry key rest)

none_of : (a b c : Bool) → (a || (b || c)) ≡ false → (a ≡ false) × (b ≡ false) × (c ≡ false)
none_of a b c h = ground arith

mutual
  unfolding HasKey HasEntry has_full_text entries_full_text

  pub HasKey-has_full_text :
      (key : Text) (v : Value)
      → HasKey key v
      → has_full_text v ≡ false
      → is_full_text_key key ≡ false
  HasKey-has_full_text key (mapping entries) h clean =
      HasEntry-entries_full_text key entries h clean
  HasKey-has_full_text key (sequence entries) h clean =
      HasEntry-entries_full_text key entries h clean
  HasKey-has_full_text key null h clean = absurd h
  HasKey-has_full_text key (boolean _) h clean = absurd h
  HasKey-has_full_text key (scalar _ _ _) h clean = absurd h
  HasKey-has_full_text key (text s) h clean = absurd h

  HasEntry-entries_full_text :
      (key : Text) (entries : Entries)
      → HasEntry key entries
      → entries_full_text entries ≡ false
      → is_full_text_key key ≡ false
  HasEntry-entries_full_text key end h clean = absurd h
  HasEntry-entries_full_text key (entry k v rest) (inl e) clean =
      subst (λ x. is_full_text_key x ≡ false) e
        (none_of (is_full_text_key k) (has_full_text v) (entries_full_text rest) clean).0
  HasEntry-entries_full_text key (entry k v rest) (inr (inl h)) clean =
      let (_, inside, _) =
        none_of (is_full_text_key k) (has_full_text v) (entries_full_text rest) clean in
      HasKey-has_full_text key v h inside
  HasEntry-entries_full_text key (entry k v rest) (inr (inr h)) clean =
      let (_, _, later) =
        none_of (is_full_text_key k) (has_full_text v) (entries_full_text rest) clean in
      HasEntry-entries_full_text key rest h later
