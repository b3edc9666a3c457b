-- ===== src/Scoring/Terms.antt =====
-- The tables of words in scoring.py.
use inno_scalping_crawling.Common.{List, [], ◌∷◌, Text, codes}

-- `_OFFICIAL_SOURCE_TERMS` and the other tables of words
unfoldable pub official_source_terms : List Text
official_source_terms =
    codes "official"
    ∷ codes "exchange"
    ∷ codes "broker"
    ∷ codes "government"
    ∷ codes "regulator"
    ∷ codes "university"
    ∷ codes "academic"
    ∷ codes "peer-reviewed"
    ∷ codes "peer reviewed"
    ∷ codes "research institution"
    ∷ []

unfoldable pub microstructure_terms : List Text
microstructure_terms =
    codes "microstructure"
    ∷ codes "order book"
    ∷ codes "orderbook"
    ∷ codes "order flow"
    ∷ codes "order-flow"
    ∷ codes "queue"
    ∷ codes "imbalance"
    ∷ codes "l1"
    ∷ codes "l2"
    ∷ codes "l3"
    ∷ codes "tick"
    ∷ codes "spread"
    ∷ codes "market depth"
    ∷ codes "liquidity"
    ∷ []

unfoldable pub ultra_short_terms : List Text
ultra_short_terms =
    codes "millisecond"
    ∷ codes "milliseconds"
    ∷ codes "sub-second"
    ∷ codes "subsecond"
    ∷ codes "tick"
    ∷ codes "seconds"
    ∷ codes "second"
    ∷ codes "minutes"
    ∷ codes "minute"
    ∷ codes "ultra-short"
    ∷ codes "ultrashort"
    ∷ []

unfoldable pub short_terms : List Text
short_terms =
    codes "intraday"
    ∷ codes "hour"
    ∷ codes "hours"
    ∷ codes "short horizon"
    ∷ codes "short-horizon"
    ∷ []

unfoldable pub fast_frequency_terms : List Text
fast_frequency_terms =
    codes "tick"
    ∷ codes "sub-second"
    ∷ codes "subsecond"
    ∷ codes "millisecond"
    ∷ codes "second"
    ∷ codes "1m"
    ∷ codes "1 min"
    ∷ codes "minute"
    ∷ []
