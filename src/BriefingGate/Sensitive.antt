-- ===== src/BriefingGate/Sensitive.antt =====
-- What briefing_gate.py takes for sensitive: `_assert_no_sensitive_information`.
use inno_scalping_crawling.Common.{
  Bool, false, ◌&&◌, ◌||◌, some, List, [], ◌∷◌, Text, codes, Result, raise_if,
}
use inno_scalping_crawling.Publication.{
  Value, Entries, boolean, mapping, sequence, end, entry, one_of, key_name,
}
use inno_scalping_crawling.BriefingGate.{BriefingError, sensitive_information, value_present}

-- `_SENSITIVE_KEYS`
unfoldable pub sensitive_keys : List Text
sensitive_keys =
    codes "sensitive"
    ∷ codes "sensitiveinfo"
    ∷ codes "sensitivedata"
    ∷ codes "sensitiveinformation"
    ∷ codes "containsensitive"
    ∷ codes "containsensitivedata"
    ∷ codes "containsensitiveinformation"
    ∷ codes "hassensitivedata"
    ∷ codes "pii"
    ∷ codes "personalinfo"
    ∷ codes "personalinformation"
    ∷ codes "secret"
    ∷ codes "secrets"
    ∷ codes "token"
    ∷ codes "apikey"
    ∷ codes "accesstoken"
    ∷ codes "authorization"
    ∷ codes "bottoken"
    ∷ codes "chatid"
    ∷ codes "password"
    ∷ codes "privatekey"
    ∷ codes "credential"
    ∷ codes "credentials"
    ∷ []

-- `_has_sensitive_value`
unfoldable pub has_sensitive_value : Value → Bool
has_sensitive_value (boolean b) = b
has_sensitive_value v = value_present (some v)

abbrev pub is_sensitive_key : Text → Bool
is_sensitive_key key = one_of sensitive_keys (key_name key)

-- Whether `walk` raises.
unfoldable mutual
  pub is_sensitive : Value → Bool
  is_sensitive (mapping entries) = entries_sensitive entries
  is_sensitive (sequence entries) = entries_sensitive entries
  is_sensitive _ = false

  pub entries_sensitive : Entries → Bool
  entries_sensitive end = false
  entries_sensitive (entry k v rest) =
      (is_sensitive_key k && has_sensitive_value v) || (is_sensitive v || entries_sensitive rest)

-- `_assert_no_sensitive_information`
unfoldable pub assert_no_sensitive_information : Value → Result BriefingError (Unit {0})
assert_no_sensitive_information payload = raise_if (is_sensitive payload) sensitive_information
