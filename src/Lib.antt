-- ===== src/Lib.antt =====
-- The container-to-TEE anomaly monitor: the Python programs under cote3mon/ and what must hold of
-- them.
--
-- A client in a container sends requests to a gateway over a local socket (cote3mon/protocol.py).
-- The gateway stores values and writes a line of telemetry for every connection
-- (cote3mon/mock_gateway.py is the gateway without the trusted hardware). A monitor turns the
-- telemetry into windows, scores them, and appends every alert to an audit store whose receipts
-- form a chain of HMACs (cote3mon/audit_store.py is the reference for the trusted application that
-- keeps it).
--
--  Prelude    numbers, tests, lists, texts, dictionaries, and Python's exceptions as values
--  Protocol   cote3mon/protocol.py: Message holds Operation, Status, Request, Response, their
--             encode methods and validate_request; Stream recv_exact; Header and Receive
--             recv_request and recv_response; Call call; Wire the struct formats
--  Gateway    cote3mon/mock_gateway.py: Fingerprint holds _fingerprint; Handler _handle (perform,
--             respond, finish, handle), _emit (emit) and the loop of _serve (serve)
--  Audit      cote3mon/audit_store.py: Store holds register_model, append, verify_receipt
--             (read_receipt, authenticate) and verify_chain (check_record, check_records,
--             is_current); Hex the hexadecimal texts; Crypto the digests and the message
--  Training   cote3mon/training.py: Splits holds split_benign_runs and
--             split_benign_runs_stratified (split_scenario is a round of its loop), Export
--             fit_isolation_forest and export_isolation_forest; Occurrences the lemmas on counting
--  Monitor    cote3mon/monitor.py: Batch holds monitor_batch (monitor_rows is its loop) over an
--             interface of audit backends, and LocalAuditBackend; Optee holds verify_receipt and
--             verify_chain of OpteeAuditBackend (accepts_receipt, accepts_chain), Load
--             load_detector
--  Forest     cote3mon/iforest_runtime.py: Walk holds the descent of score, Score the constructor,
--             average_path_length and the score itself
--  Evaluation cote3mon/evaluation.py: Counts and Metrics hold classification_metrics and
--             average_precision, Bootstrap the bootstrap intervals, Delays attack_detection_delays
--  Features   cote3mon/features.py: Names holds the feature names, Percentile percentile, Events
--             the telemetry events, Buckets and Rows aggregate_events, Tables write_csv and
--             read_feature_csv; Columns gives a row by names, Described says which rows are due
--  Threshold  cote3mon/threshold.py: Model holds PercentileModel
--  Workload   cote3mon/workload.py: Requests holds what each scenario sends, Run run_workload
--  Resource   cote3mon/resource.py: Sampler holds ProcessSampler and sample_to_jsonl
--  Online     scripts/guest-online-monitor.py: State holds ingest, Scoring score_ready, Loop the
--             main loop (turn, watch, monitor) and the summary. The field aggregated of the state is
--             a record of what was aggregated, which the program does not keep
--  Stages     Ablation holds scenario_summary and evaluate of scripts/stage5-feature-ablation.py,
--             Detectors the same of scripts/stage3-train-evaluate.py, Statistics the bootstraps of
--             scripts/stage5-statistical-comparison.py, Performance, Means and
--             Overhead scripts/stage4-analyze-performance.py, Collection the sampling and the loop of
--             scripts/run-qemu-performance.py, Runner the resume check and the loop of
--             scripts/run-qemu-experiments.py
--
-- An exception is a value (Prelude.Exceptions); a function that raises returns a Result. A socket
-- is the list of the pieces that arrive and the failures between them, so that a theorem about
-- every stream is one about every way in which the bytes are split. Python's integers are natural
-- numbers here, and a struct field keeps its width: a value that does not fit is a struct.error.
--
-- Floating-point numbers are a type with the operations that the code applies to them
-- (Prelude.Numbers), of which no law is assumed: a theorem holds of any rounding, and where it
-- needs one fact of a rounding, its hypothesis says so. A random generator is a function from the
-- position in its sequence and the bound to what it draws. A JSON object is a record of the keys
-- that are read. A number of a telemetry event stands as what float makes of the value, a number
-- or an exception; int(round(x)) raises for NaN and infinity. A mean that overflows raises nothing
-- in the model.
--
-- Bounds and fuel. The loop of recv_exact runs on as much fuel as bytes are wanted; each round
-- reads a byte or raises, and the theorems on recv_exact show that the fuel is never used up. The
-- descent in a tree of the forest runs on as much fuel as the tree has nodes, which is enough
-- where children stand after their parent in the table. The loop of the online monitor runs on as
-- much fuel as it takes turns; three more than the turn at which nothing comes any more are
-- enough. The loop of a workload runs on fuel for its rounds, which the clock ends. The loop that
-- gives the exported depths runs on as much fuel as there are nodes. A sequence number is written
-- in 8 bytes, so the theorems on the audit store ask for fewer than 2^64 alerts. All other loops
-- are structural recursion.
--
-- Parameters. BLAKE2b, SHA-256 and HMAC-SHA-256 are functions that the definitions take; of the
-- latter two only that they give 32 bytes is assumed. random.shuffle is a function of which it is
-- assumed that the items stay, as often as they were. The canonical JSON text of an alert is a
-- function of the alert. A detector gives a row a score of any type or an exception, with a
-- threshold and the test of the code. Writing a line of the alerts file and writing the state file
-- of the store (_persist) are functions that may raise an exception, the latter after the state
-- has changed; registration and append of Audit.Store stand for those methods up to _persist. The
-- client of the trusted application is a program that accepts or refuses a receipt and prints the
-- current head. The peer of a socket is a function from the bytes sent to the stream that comes
-- back.
--
-- Not modelled: threads, files and clocks, except for what a program reads from them; the command
-- line; scikit-learn; the main functions of the stage scripts, which read and write files; the
-- control of the emulator; the C code of the trusted applications.
pub mod Prelude
pub mod Protocol
pub mod Gateway
pub mod Features
pub mod Audit
pub mod Training
pub mod Forest
pub mod Evaluation
pub mod Threshold
pub mod Monitor
pub mod Workload
pub mod Resource
pub mod Online
pub mod Stages
