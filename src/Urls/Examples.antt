-- ===== src/Urls/Examples.antt =====
-- Texts and paths through urls.py.
use inno_scalping_crawling.Common.{◌≡◌, refl, List, Text, codes, All, text_eq}
use inno_scalping_crawling.Urls.{
  normalize_percent_encoding, is_hex, hex_value, upper, is_unreserved, escape, join_slash,
  split_slash, push_segment, resolve, ends_with_slash, normalize_path,
}
use inno_scalping_crawling.Urls.Percent.{normalize_percent_encoding_idempotent}
use inno_scalping_crawling.Urls.Paths.{IsPlain}
use inno_scalping_crawling.Urls.Reduced.{Reduces, path_of, normalize_path-Reduces}

decodes : normalize_percent_encoding (codes "a%7e%2f%4") ≡ codes "a~%2F%254"
unfolding normalize_percent_encoding is_hex hex_value upper is_unreserved escape
decodes = refl

normalize_percent_encoding_idempotent_example :
    normalize_percent_encoding (normalize_percent_encoding (codes "a%7e%2f%4"))
    ≡ normalize_percent_encoding (codes "a%7e%2f%4")
normalize_percent_encoding_idempotent_example =
    normalize_percent_encoding_idempotent (codes "a%7e%2f%4")

resolves : normalize_path (codes "/a//b/../c/./") ≡ codes "/a/c/"
unfolding normalize_path normalize_percent_encoding is_hex hex_value upper is_unreserved escape
    split_slash push_segment resolve ends_with_slash join_slash text_eq
resolves = refl

normalize_path-Reduces_example :
    (segments : List Text) × All IsPlain segments
    × Reduces (split_slash (codes "/a//b/../c/./")) segments
    × (normalize_path (codes "/a//b/../c/./")
        ≡ path_of segments (ends_with_slash (codes "/a//b/../c/./")))
unfolding normalize_percent_encoding
normalize_path-Reduces_example = normalize_path-Reduces (codes "/a//b/../c/./")
