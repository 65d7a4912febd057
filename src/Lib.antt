-- ===== src/Lib.antt =====
-- CivicBrain: the operational core of the program, with the theorems that make it correct.
--
-- The program is a civic grievance service. A citizen's intake report leads to observations, and
-- these to incidents; a work order sends a field worker to an incident; a resolution must carry
-- evidence; the citizen confirms or disputes it, or a nightly run confirms it after 72 hours. A
-- worker's phone pushes what was done offline, and what clashes with a dispatcher's decision goes
-- to a review queue. Incidents are linked by cause, and their milestones are published in a hash
-- chain. Administrators import the staff from a file and govern the categories of incidents with
-- their severity rubrics.
--
-- Parts, with the code that they model:
--  - Base, Text, Geo: lists and tables under Boolean tests; texts as code points with the test
--    that `str.strip` gives; points, whose coordinates the dispatch services pass on and never
--    compute with.
--  - Store: the tables that the services share as one record, `Db`, and their errors with the
--    status codes. An operation is a function from `Db` to a result that has the new `Db` only
--    where the call returns, since `get_db` in civicbrain/infra/database.py rolls back a call that
--    raises.
--  - Intake.Models: civicbrain/domain/intake/models.py.
--  - Intake.Status: PROGRESSION_RANK and calculate_intake_status_from_children of
--    civicbrain/domain/intake/services.py; Status.Reference holds the plain description.
--  - Intake.Recompute: recompute_intake_report_status, and _recompute_reports_for_incident and
--    _get_incidents_for_report of civicbrain/domain/dispatch/services.py. Every operation that
--    changes an incident calls these, but for the citizens' decisions.
--  - Intake.Routing: route_and_deduplicate_observation of civicbrain/domain/intake/services.py.
--  - Intake.Similarity, Intake.Dedup: calculate_jaro_winkler_similarity and
--    evaluate_splink_record_linkage of civicbrain/domain/intake/dedup.py, over the exact fractions
--    of Intake.Fractions; Dedup.Votes counts the agreements.
--  - Intake.Vision: the cold-start and the pothole detector of civicbrain/domain/intake/vision.py.
--    Intake.Photo: process_photo_intake of civicbrain/domain/intake/services.py.
--  - Intake.Progress: update_incident_status of civicbrain/api/v1/incidents.py.
--  - Dispatch.Models: civicbrain/domain/dispatch/models.py and civicbrain/schemas/dispatch.py.
--  - Dispatch.WorkOrders: create_work_order, start_work_order, resolve_work_order of
--    civicbrain/domain/dispatch/services.py.
--  - Dispatch.Citizen: citizen_confirm_report, citizen_dispute_report, evaluate_auto_confirm_cron.
--  - Dispatch.Answers: the log entries and answers of process_field_sync. Dispatch.Sync: its loop,
--    one function for each step.
--  - Dispatch.Conflicts: adjudicate_dispatch_conflict.
--  - Dispatch.Evidence: the evidence gate as a predicate on the tables. Dispatch.Lifecycle: all
--    the operations as the steps of one transition system.
--  - Causal: validate_acyclic_addition and find_all_downstream_symptoms of
--    civicbrain/domain/causal/graph.py. Causal.Models: calculate_root_cause_priority of the same
--    file and civicbrain/domain/causal/models.py. Causal.Links: create_causal_link and
--    get_downstream_symptoms of civicbrain/api/v1/causal.py.
--  - Directory.Models: the rows of civicbrain/domain/identity/models.py and the errors of the
--    staff directory. Directory.Cells: sanitize_csv_cell of civicbrain/infra/security.py and
--    EMAIL_REGEX. Directory.Phone: PHONE_REGEX and normalize_indian_phone. Directory.Rows: the
--    tests of one row of an imported file. Directory.Batch: the body of the loop over the rows.
--    Directory.Import: bulk_import_users. Directory.Departments: create_department,
--    get_representative and create_staff_member; all of civicbrain/api/v1/hierarchy.py, with
--    create_staff_user of civicbrain/domain/identity/services.py.
--  - Taxonomy.Rubric: civicbrain/domain/intake/taxonomy.py. Taxonomy.Categories: list_categories,
--    propose_category and approve_category of civicbrain/api/v1/taxonomy.py.
--  - Language: civicbrain/domain/nlp/processor.py. Language.Lexicon holds its tables,
--    Language.Search what it uses of `re`, Language.Processor detect_script and process_text.
--  - Access.Claims: CurrentUserClaims and require_roles of civicbrain/domain/identity/jwt.py.
--    Access.RateLimit: RateLimiter of civicbrain/infra/rate_limit.py.
--  - Transparency.Models: the rows of civicbrain/domain/transparency/models.py and the functions
--    that the ledger takes from elsewhere. Transparency.Ledger: compute_entry_hash,
--    record_ledger_checkpoint and verify_incident_ledger_chain of
--    civicbrain/domain/transparency/services.py.
--  - Tests: the operations run on small data, and the theorems applied there.
--
-- Conventions. A UUID is a number, since the program only compares ids; what `uuid4` draws is an
-- argument. A time is its number of microseconds, and for the ledger, which hashes its printed
-- form, also its offset from UTC; `datetime.now` and the transaction's `now()` are arguments. A
-- row is changed by its key. Columns that are written at most when a row is created, and read by
-- no modelled operation, are left out. Statements of a session see its earlier changes. A version
-- is a number without bound, where the column has 32 bits. The JSON payload of a mutation is a
-- record of the keys that are read, with the types that the client's schema sends.
--
-- Parameters. `ST_DWithin` of PostGIS is the argument `within`. The ledger takes SHA-256, the
-- printed forms and the way of a coordinate through PostGIS from the record `Platform`; that six
-- printed decimals survive this way is the named hypothesis `IsFaithful`, and that a hash has 64
-- characters is one too. The Laplace noise is an argument, and so is the distance that PostGIS
-- measures to a candidate. The scores of the deduplication are computed in exact fractions, where
-- the code has floats. The analysis of a text takes Python's Unicode tables from the record
-- `Alphabet`, of which `IsStandard` states what is relied on. The bulk import takes what it uses
-- of Python's Unicode tables from the record `Unicode`, of which `IsStandard` states what is
-- relied on, and the digest, `csv.DictReader`, the drawn keys and Supabase's users from the record
-- `Platform`. The causal endpoints take the arithmetic of floats, and the taxonomy the database's
-- order of texts, as records of functions.
--
-- Fuel. The two loops of the causal graph run on fuel: one more than the number of links for the
-- check, twice that number for the search. A visit uses up the links of its node, so the queue and
-- the links of unvisited nodes together shrink in every round, and the fuel is never used up.
--
-- Not modelled: the other endpoints, which check roles and call the services; most queries that
-- only read; the model of the pothole detector and the detector of test fixtures; scores in
-- floating point (prioritization, analytics); the noise itself; a milestone time without an
-- offset; the bounds on the length of text columns; a store of the cache or of the rate limiter
-- that cannot be reached, where the program goes on without it; concurrent transactions, since
-- each call is one transaction.
pub mod Base
pub mod Text
pub mod Geo
pub mod Store
pub mod Intake
pub mod Directory
pub mod Dispatch
pub mod Causal
pub mod Taxonomy
pub mod Access
pub mod Language
pub mod Transparency
pub mod Tests
