-- ===== src/Lib.antt =====
-- The verification library of the scalping briefing pipeline (src/scalping_briefing).
--
-- The program collects documents about trading strategies from many sources, takes candidates out of
-- them, has people review the candidates, and delivers a briefing twice a week. The parts here are
-- those that decide: when something runs and what it covers, what state a document or a candidate may
-- move to, and what may be sent.
--
-- The files, each with the code that it is about (paths under src/scalping_briefing):
-- * Common and its children: tests on numbers, lists, texts as lists of code points, results for
--   Python's exceptions, signed integers, and a dictionary for `dict` and for tables by primary key.
-- * StateMachine (pipeline/state_machine.py): `transition`, `can_transition`, `is_terminal` and the
--   record that keeps the retry axis beside the state. Names, Table, Paths and Records hold the proofs.
-- * Window (sources/window.py): `calculate_collection_window`. Bounds and Recovery hold the proofs.
-- * Cursor (pipeline/briefing_cursor.py): `_success_run` and `advance_cursor`, which calls Window.
--   Selection, Latest, Advance, Kept and Windows hold the proofs.
-- * Retry (net/retry.py): `RetryPolicy`. Backoff, Run and Ends hold the proofs.
-- * RateLimit (net/rate_limit.py): `SourceRateLimiter`. Buckets, Sources, Grants and Waiting hold the
--   proofs.
-- * Delivery.Guard (delivery/guard.py) and Delivery.Service (delivery/service.py, models/delivery.py):
--   the idempotency policy and `deliver_briefing`, which applies it. Keys, Attempts, Rows, Sends,
--   Once, Repeats, Numbers and Ledger hold the proofs.
-- * Routing (pipeline/routing.py): `route_candidate`, which moves a document version by StateMachine.
--   Decision and Effect hold the proofs.
-- * Review (review/service.py): `record_decision`, which asks StateMachine, `record_briefing_decision`
--   and `amend_field`. Decisions, Briefings, Amendments and Final hold the proofs.
-- * Schedule (pipeline/schedule.py): `parse_schedule`, `next_occurrence` and `occurrences_between`.
--   Parsed, Next and Between hold the proofs.
-- * Publication and Publication.Item (publishing/gate.py): `validate_briefing_item` and
--   `validate_publication`. FullText, Checks and Accepted hold the proofs.
-- * BriefingGate (publishing/briefing_gate.py): `gate_briefing`, in BriefingGate.Whole, which asks the
--   publication gate first and the delivery guard last. Sources, Sensitive, DataWindow, Related,
--   Approval and History hold the checks; Pairs, Groups, Chain, Safe and Recorded hold the proofs.
-- * Scoring (pipeline/scoring.py): `score_candidate`, as `score_and_store` in Scoring.Call with its
--   arguments and the writing of the score, and in Scoring.Candidate what stands between. Lookup holds
--   the search for a field, Terms the tables of words, Criteria, Recency and Novelty the five criteria;
--   Weight, Bounds, Totals, Causes, Ends, Ages and Newness hold the proofs.
-- * Validation (pipeline/validate.py): `validate_extracted_candidate`, in Validation.Outcome.
--   Recording moves the document version by StateMachine and writes its metadata. Quotes reads the
--   shapes of evidence and Rows checks it; Trusted, Entry, Evidences, Notes, Ends and Accepted hold the
--   proofs.
-- * BriefingBuild (publishing/briefing_build.py): the choice, the order and the ranks of the
--   candidates in `build_briefing`, in BriefingBuild.Order. Carried and Sound hold the proofs.
-- * Urls (normalize/urls.py): `_normalize_percent_encoding` and `_normalize_path`. Percent, Paths
--   and Reduced hold the proofs.
-- Every Examples file runs the code of its part on concrete inputs.
--
-- How the code is represented. A function that raises returns a `Result`; an object that a call
-- changes is given and returned; what a call does outside (alerts, sleeps, messages) is a list. A
-- function of Python that takes several shapes of a value takes a data type with a constructor for each
-- shape. Times are whole microseconds. Rates are exact: a token of the rate limiter is 60 000 000
-- parts, so that the divisions by the interval are products; scores are whole thousandths. The source
-- computes them in floating point. Its rounding is not modelled, and neither is the OverflowError of
-- `float` on a very large integer, which the scoring, the routing and a backoff of more than a thousand
-- retries let through. A version or a candidate that a call writes to can be written to as a whole or
-- not at all; the routing takes it to be so.
--
-- Loops. `RetryPolicy.run` loops without a bound of its own and is a recursion on fuel here; the limit
-- of the policy, or 1 if that is 0, is fuel enough for it to end. The loops of `acquire_or_wait`,
-- `next_occurrence` (eight days) and `occurrences_between` (the days from the start to the end) are
-- bounded in the source and recurse on that bound. The breadth-first search of `_lookup` recurses on
-- fuel, the weight of the records that it starts with; Scoring.Weight proves that more changes nothing.
-- It skips no record that it has seen, which does not change what it finds first. The walks of the
-- gates recurse on the value, which is a finite tree.
--
-- Parameters. The gate of a briefing, the rendering, the sending and the digest are arguments of the
-- delivery service, each a function of what it is given; `urlsplit` and the verdict of the phrase
-- lint are arguments of the publication gate and of the briefing gate, which also takes
-- `datetime.fromisoformat`, the `str` of a mapping or a sequence, and `str.lower`; the scoring takes
-- `str.casefold`, `float` and `datetime.fromisoformat`; the validation takes the schema check, the
-- clock, a new identifier and the text of a file; the operation, the clock and the logger are
-- arguments of the retry policy. The texts of times are read before the values reach Window and
-- Cursor, and times are converted into the time zone before they reach Schedule.
--
-- Not modelled: input and output, the database layer, the network, the language models, the
-- connectors of the sources, rendering, the reasons that a score is given with, and, so far, the
-- phrase lint, the linking of evidence, the rows and the text of a new briefing, and the
-- orchestration of a cycle.
pub mod Common
pub mod StateMachine
pub mod Window
pub mod Cursor
pub mod Retry
pub mod Delivery
pub mod RateLimit
pub mod Routing
pub mod Review
pub mod Schedule
pub mod Publication
pub mod BriefingGate
pub mod Scoring
pub mod Validation
pub mod BriefingBuild
pub mod Urls
