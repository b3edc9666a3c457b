-- ===== src/Validation/Notes.antt =====
-- What stands on a document version after `_set_state` and `_store_metadata` of validate.py.
use inno_scalping_crawling.Common.{
  Option, ◌≡◌, refl, ap, ◌∙◌, Bool, true, false, inl, inr, some, Text, codes, text_eq,
  text_eq_sound, text_eq_refl, Bool-cases, Option-cases, String, ok, err, if◌then◌else◌,
}
use inno_scalping_crawling.StateMachine.{transition, state_value, find_state, value, is_listed}
use inno_scalping_crawling.Publication.{Value, Entries, mapping, end, entry, get}
use inno_scalping_crawling.Validation.Recording.{
  DocumentVersion, not_writable, set_state, set_entry, metadata_of, is_there, stored,
}

pub get-set_self :
    (key : Text) (value : Value) (es : Entries) → get key (set_entry key value es) ≡ some value
unfolding get set_entry
get-set_self key value end = rw (text_eq_refl key) refl
get-set_self key value (entry k v rest) = elim (Bool-cases (text_eq k key)) [
  | inl same ↦ rw (same, same) refl
  | inr other ↦ rw (other, other) (get-set_self key value rest)
]

pub get-set_other :
    (key name : Text) (value : Value) (es : Entries)
    → text_eq key name ≡ false
    → get name (set_entry key value es) ≡ get name es
unfolding get set_entry
get-set_other key name value end ne = rw ne refl
get-set_other key name value (entry k v rest) ne = elim (Bool-cases (text_eq k key)) [
  | inl same ↦
      let apart : text_eq k name ≡ false =
        ap (λ x. text_eq x name) (text_eq_sound k key same) ∙ ne in
      rw (same, apart) refl
  | inr other ↦
      rw other
        (ap (λ o. if text_eq k name then some v else o) (get-set_other key name value rest ne))
]

-- The metadata that is stored is the metadata that is read afterwards.
pub metadata_of-stored :
    (is_mapping : Bool) (payload entries : Entries)
    → metadata_of (stored is_mapping payload entries) ≡ payload
unfolding metadata_of stored
metadata_of-stored false payload entries =
    rw (get-set_self (codes "metadata_json") (mapping payload) entries) refl
metadata_of-stored true payload entries =
    let first = set_entry (codes "metadata") (mapping payload) entries in
    elim (Option-cases (get (codes "metadata_json") first)) [
      | inl missing ↦
          rw (missing, missing, get-set_self (codes "metadata") (mapping payload) entries) refl
      | inr (v, there) ↦
          rw (there, get-set_self (codes "metadata_json") (mapping payload) first) refl
    ]

-- Nothing but the two names of the metadata is written.
pub get-stored :
    (is_mapping : Bool) (payload entries : Entries) (name : Text)
    → text_eq (codes "metadata") name ≡ false
    → text_eq (codes "metadata_json") name ≡ false
    → get name (stored is_mapping payload entries) ≡ get name entries
unfolding stored
get-stored false payload entries name ne ne' =
    get-set_other (codes "metadata_json") name (mapping payload) entries ne'
get-stored true payload entries name ne ne' =
    let first = set_entry (codes "metadata") (mapping payload) entries in
    let kept = get-set_other (codes "metadata") name (mapping payload) entries ne in
    elim (Bool-cases (is_there (get (codes "metadata_json") first))) [
      | inr missing ↦ rw missing kept
      | inl there ↦
          rw there (get-set_other (codes "metadata_json") name (mapping payload) first ne' ∙ kept)
    ]

-- Beside the state and the metadata, every entry is kept, and in the metadata every entry but the
-- two that the validation writes.
pub record IsKept (v w : DocumentVersion) : Type 0 where
  pub other_entries :
      (name : Text)
      → text_eq (codes "metadata") name ≡ false
      → text_eq (codes "metadata_json") name ≡ false
      → get name w.entries ≡ get name v.entries
  pub other_notes :
      (name : Text)
      → text_eq (codes "validation") name ≡ false
      → text_eq (codes "error_class") name ≡ false
      → get name (metadata_of w.entries) ≡ get name (metadata_of v.entries)

pub moves_to_validated :
    (v : DocumentVersion)
    → v.processing_status ≡ "extracted"
    → v.writable ≡ true
    → set_state v "validated" ≡ ok (record v { processing_status = "validated" })
unfolding set_state transition state_value find_state value is_listed
moves_to_validated v e w = rw (e, w) refl

pub moves_to_failed :
    (v : DocumentVersion)
    → v.processing_status ≡ "extracted"
    → v.writable ≡ true
    → set_state v "failed" ≡ ok (record v { processing_status = "failed" })
unfolding set_state transition state_value find_state value is_listed
moves_to_failed v e w = rw (e, w) refl

pub moves_nowhere :
    (v : DocumentVersion)
    → v.processing_status ≡ "extracted"
    → v.writable ≡ false
    → (set_state v "validated" ≡ err not_writable) × (set_state v "failed" ≡ err not_writable)
unfolding set_state transition state_value find_state value is_listed
moves_nowhere v e w = (rw (e, w) refl, rw (e, w) refl)

-- The version with these metadata in a new state.
abbrev pub written : DocumentVersion → String → Entries → DocumentVersion
written v status payload = record v {
  processing_status = status;
  entries = stored v.is_mapping payload v.entries;
}

-- What is read from the metadata is what has been stored.
pub noted_as :
    (v : DocumentVersion) (status : String) (payload : Entries) (name : Text) (o : Option Value)
    → get name payload ≡ o
    → get name (metadata_of (written v status payload).entries) ≡ o
noted_as v status payload name o e =
    ap (get name) (metadata_of-stored v.is_mapping payload v.entries) ∙ e

pub written-IsKept :
    (v : DocumentVersion) (status : String) (payload : Entries)
    → ((name : Text)
        → text_eq (codes "validation") name ≡ false
        → text_eq (codes "error_class") name ≡ false
        → get name payload ≡ get name (metadata_of v.entries))
    → IsKept v (written v status payload)
written-IsKept v status payload same = record {
  other_entries = λ name ne ne'. get-stored v.is_mapping payload v.entries name ne ne';
  other_notes = λ name ne ne'. noted_as v status payload name _ (same name ne ne');
}
