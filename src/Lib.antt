-- ===== src/Lib.antt =====
-- A model of parts of sippycup, a toolkit for testing SIP and WebRTC services with bounded
-- traffic. Modelled are programs that decide: what traffic a plan may send, how a failing message
-- is reduced, which calls a test matrix makes, what a view shows of a run, and whether a document
-- of observations passes.
--
-- Prelude: Boolean tests and lists over the native numbers, error results with do blocks,
--   dictionaries as association lists, stable sorting.
-- Json: the values that `json.loads` returns, for the validators.
--
-- Torture (lib/sippycup_torture/minimize.py, `HierarchicalMinimizer`). Bytes has the functions on
--   bytes (`_spans`, `_delete_spans`, `_is_subsequence`); Minimize has the class, one function
--   for each method and loop, with the attributes as a record that is passed on. The predicate
--   that sends a candidate is a parameter that takes and returns the state of the outside world,
--   and so is SHA-256. Minimize/Ledger is about the traffic in the trace, Budget about one test,
--   Search and Levels about the loops, Outcome about `minimize`. The loops run on fuel: the
--   partitions of `_reduce_bytes` double up to the number of spans, and every adopted candidate
--   has fewer bytes or dimensions; `out_of_fuel` is never met. The redaction of the command line
--   and the files of `write_bundle` are left out.
--
-- Envelope (lib/sippycup/envelope.py). Arithmetic has the checked operations on 64 bits, Ramp
--   `_levels`, Compile `_step_budget`, `_validate_constraints` and `_compile_normalized`,
--   Simulate the controller of `simulate_envelope_plan`, Manifest the reading of the document
--   that YAML gives, with the overrides of the command line (Manifest/Overrides and Lowered), and
--   Text the tests on characters. The controller runs on fuel: one round for each command group
--   and each step, and two to end. YAML, files, the digest of the manifest and the checks of a
--   stored plan are left out.
--
-- Matrix (lib/sippycup/campaign.py and lib/sippycup/covering.py). Constraint has
--   `_predicate_state` and `_constraint_allows`, Satisfiable `_matrix_satisfiable` and
--   `_minimal_unsat_core`. Cover has the covering array: `_complete_assignment`,
--   `_requested_subsets` and `generate_covering_array`, which calls the constraints of
--   campaign.py; Complete, Tuples, Product, Classify, Subsets and Rows have a lemma layer each,
--   Covers the whole. Sequence has `_valid_action_sequence`, `_ordered_subsequences` and
--   `generate_event_sequences`, with the traces of calls in Traces. The digests of `_stable_key`,
--   SHA-256 over `json.dumps`, are parameters, so that nothing depends on their order; so is the
--   decimal notation of a number. Sets are lists without repetition. The loops `while uncovered`
--   run on fuel for the number of uncovered tuples, of which every round covers one; the loop of
--   the core runs on fuel for the constraints that are left. `_validate_matrix` is left out: the
--   normalized matrix is the input, and `IsNormal` says what is assumed of it.
--
-- Tui (lib/sippycup_tui/state.py). Event has `decode_event`, Reducer `reduce_event` and `replay`,
--   and Buffer `BoundedEventBuffer`, whose threads take steps between the sections under its lock
--   and the calls of its queue. `json.loads` and the printed size of a payload are parameters.
--   The rendering and the records that only copy fields are left out.
--
-- Resilience (lib/sippycup_resilience). Common has the validators of common.py, where an
--   exception is a value; `key_error` and `type_error` are Python's own. Migration, SecureMedia,
--   Lifecycle, Isolation and Overload have the analyses of migration.py, secure_media.py,
--   lifecycle.py, isolation.py and overload.py, from the documents to the report. The parser of
--   IP addresses is a parameter. So are the floating-point operations on the clients' rates of
--   success, with the laws `FloatLaws` that finite numbers follow; Overload/Requests is about the
--   grouping, Retries about the loop over the requests, Clients about the totals, Fairness about
--   the comparison. The rounded slope of the memory, a float, is kept as a fraction. The planner
--   of isolation.py and its watermark audio are left out.
--
-- The other packages under lib/ are left out: they supervise processes and containers, serve
-- protocols, or draw; so are webrtc-peer/, bin/ and tools/.
pub mod Prelude
pub mod Json
pub mod Resilience
pub mod Envelope
pub mod Torture
pub mod Tui
pub mod Matrix
