-- ===== src/Urls/Percent.antt =====
-- The normal form of percent-encoding in urls.py.
use mathlib.Core.Path.{subst}
use inno_scalping_crawling.Common.{
  ℕ, ◌+◌, ◌*◌, ◌≡◌, refl, sym, ap, ◌∙◌, Bool, true, false, ◌&&◌, [], ◌∷◌, ◌++◌, arith, ◌==◌, ==_iff,
  Text, Bool-cases, inl, inr,
}
use inno_scalping_crawling.Urls.{
  percent, is_hex, hex_value, upper, is_unreserved, escape, stray, normalize_percent_encoding,
}

-- Every escape has two digits, in upper case, and stands for a reserved character.
pub data Normal : Text → Type 0 where
  done : Normal []
  plain : (c : ℕ) (s : Text) → (c == percent) ≡ false → Normal s → Normal (c ∷ s)
  escaped :
      (h l : ℕ) (s : Text)
      → (is_hex h ≡ true)
      → (is_hex l ≡ true)
      → (upper h ≡ h)
      → (upper l ≡ l)
      → (is_unreserved (16 * hex_value h + hex_value l) ≡ false)
      → Normal s
      → Normal (percent ∷ h ∷ l ∷ s)

plain_step :
    (c : ℕ) (s : Text)
    → (c == percent) ≡ false
    → normalize_percent_encoding (c ∷ s) ≡ c ∷ normalize_percent_encoding s
unfolding normalize_percent_encoding
plain_step c [] h = rw h refl
plain_step c (d ∷ []) h = rw (h, normalize_percent_encoding) refl
plain_step c (d ∷ e ∷ s) h = rw (h, normalize_percent_encoding) refl

escape_step :
    (h l : ℕ) (s : Text)
    → is_hex h && is_hex l ≡ true
    → normalize_percent_encoding (percent ∷ h ∷ l ∷ s) ≡ escape h l ++ normalize_percent_encoding s
unfolding normalize_percent_encoding
escape_step h l s e = rw e refl

stray_step :
    (h l : ℕ) (s : Text)
    → is_hex h && is_hex l ≡ false
    → normalize_percent_encoding (percent ∷ h ∷ l ∷ s)
      ≡ stray ++ normalize_percent_encoding (h ∷ l ∷ s)
unfolding normalize_percent_encoding
stray_step h l s e = rw (e, normalize_percent_encoding) refl

is_hex-upper : (c : ℕ) → is_hex c ≡ true → is_hex (upper c) ≡ true
unfolding is_hex upper
is_hex-upper c h = ground arith

upper-upper : (c : ℕ) → upper (upper c) ≡ upper c
unfolding upper
upper-upper c = ground arith

hex_value-upper : (c : ℕ) → is_hex c ≡ true → hex_value (upper c) ≡ hex_value c
unfolding is_hex upper hex_value
hex_value-upper c h = ground arith

unreserved_not_percent : (c : ℕ) → is_unreserved c ≡ true → (c == percent) ≡ false
unfolding is_unreserved
unreserved_not_percent c h = ground arith

escape_reserved :
    (h l : ℕ)
    → upper h ≡ h
    → upper l ≡ l
    → is_unreserved (16 * hex_value h + hex_value l) ≡ false
    → escape h l ≡ percent ∷ h ∷ l ∷ []
unfolding escape
escape_reserved h l uh ul reserved = rw (reserved, uh, ul) refl

both_hex : (a b : Bool) → a && b ≡ true → (a ≡ true) × (b ≡ true)
both_hex a b h = ground arith

-- A normal text is its own normal form.
normalize-Normal : (s : Text) → Normal s → normalize_percent_encoding s ≡ s
normalize-Normal s done = unfold normalize_percent_encoding in refl
normalize-Normal s (plain c t h n) = plain_step c t h ∙ ap (λ x. c ∷ x) (normalize-Normal t n)
normalize-Normal s (escaped h l t hh hl uh ul reserved n) =
    escape_step h l t (ground arith)
    ∙ (ap (λ x. x ++ normalize_percent_encoding t) (escape_reserved h l uh ul reserved)
        ∙ ap (λ x. percent ∷ h ∷ l ∷ x) (normalize-Normal t n))

Normal-stray : (s : Text) → Normal s → Normal (stray ++ s)
unfolding is_hex upper is_unreserved hex_value
Normal-stray s n = escaped 50 53 s refl refl refl refl refl n

Normal-escape :
    (h l : ℕ) (s : Text) → is_hex h && is_hex l ≡ true → Normal s → Normal (escape h l ++ s)
unfolding escape
Normal-escape h l s e n =
    let (hh, hl) = both_hex (is_hex h) (is_hex l) e in
    let value : 16 * hex_value (upper h) + hex_value (upper l) ≡ 16 * hex_value h + hex_value l =
      omega (arith, hex_value-upper h hh, hex_value-upper l hl) in
    elim (Bool-cases (is_unreserved (16 * hex_value h + hex_value l))) [
      | inl unreserved ↦ rw unreserved (plain _ s (unreserved_not_percent _ unreserved) n)
      | inr reserved ↦ rw reserved (
          escaped (upper h) (upper l) s (is_hex-upper h hh) (is_hex-upper l hl) (upper-upper h)
            (upper-upper l) (ap is_unreserved value ∙ reserved) n)
    ]

Normal-normalize_step :
    (c h l : ℕ) (s : Text)
    → Normal (normalize_percent_encoding (h ∷ l ∷ s))
    → Normal (normalize_percent_encoding s)
    → Normal (normalize_percent_encoding (c ∷ h ∷ l ∷ s))
Normal-normalize_step c h l s rest after = elim (Bool-cases (c == percent)) [
  | inr other ↦ subst Normal (sym (plain_step c (h ∷ l ∷ s) other)) (plain c _ other rest)
  | inl at_percent ↦
      subst (λ x. Normal (normalize_percent_encoding (x ∷ h ∷ l ∷ s)))
        (sym ((==_iff c percent).0 at_percent))
        (elim (Bool-cases (is_hex h && is_hex l)) [
          | inl digits ↦
              subst Normal (sym (escape_step h l s digits)) (Normal-escape h l _ digits after)
          | inr no_digits ↦ subst Normal (sym (stray_step h l s no_digits)) (Normal-stray _ rest)
        ])
]

Normal-nil : Normal (normalize_percent_encoding [])
unfolding normalize_percent_encoding
Normal-nil = done

stray_alone : (c : ℕ) → (c == percent) ≡ true → normalize_percent_encoding (c ∷ []) ≡ stray
unfolding normalize_percent_encoding
stray_alone c h = rw h refl

stray_before :
    (c d : ℕ)
    → (c == percent) ≡ true
    → normalize_percent_encoding (c ∷ d ∷ []) ≡ stray ++ normalize_percent_encoding (d ∷ [])
unfolding normalize_percent_encoding
stray_before c d h = rw (h, normalize_percent_encoding) refl

Normal-one : (c : ℕ) → Normal (normalize_percent_encoding (c ∷ []))
Normal-one c = elim (Bool-cases (c == percent)) [
  | inr other ↦ subst Normal (sym (plain_step c [] other)) (plain c _ other Normal-nil)
  | inl at_percent ↦ subst Normal (sym (stray_alone c at_percent)) (Normal-stray [] done)
]

Normal-two :
    (c d : ℕ)
    → Normal (normalize_percent_encoding (d ∷ []))
    → Normal (normalize_percent_encoding (c ∷ d ∷ []))
Normal-two c d n = elim (Bool-cases (c == percent)) [
  | inr other ↦ subst Normal (sym (plain_step c (d ∷ []) other)) (plain c _ other n)
  | inl at_percent ↦ subst Normal (sym (stray_before c d at_percent)) (Normal-stray _ n)
]

-- What `_normalize_percent_encoding` returns has only escapes of two digits in upper case that stand
-- for reserved characters.
pub Normal-normalize : (s : Text) → Normal (normalize_percent_encoding s)
Normal-normalize [] = Normal-nil
Normal-normalize (c ∷ []) = Normal-one c
Normal-normalize (c ∷ d ∷ []) = Normal-two c d (Normal-normalize (d ∷ []))
Normal-normalize (c ∷ h ∷ l ∷ s) =
    Normal-normalize_step c h l s (Normal-normalize (h ∷ l ∷ s)) (Normal-normalize s)

-- Normalising a percent-encoded text twice is normalising it once.
pub normalize_percent_encoding_idempotent :
    (s : Text)
    → normalize_percent_encoding (normalize_percent_encoding s) ≡ normalize_percent_encoding s
normalize_percent_encoding_idempotent s =
    normalize-Normal (normalize_percent_encoding s) (Normal-normalize s)
