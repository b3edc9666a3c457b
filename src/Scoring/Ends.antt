-- ===== src/Scoring/Ends.antt =====
-- When `score_candidate` of scoring.py fails, and what it has written when it does not.
