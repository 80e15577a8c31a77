-- ===== src/Lib.antt =====
-- The capability firewall of agperms: delegation tokens that only narrow, revocation of whole subtrees,
-- an audit log chained by hashes, and the guardrails around them; and the checkpoint service, which keeps
-- the same rules over a database and a cache in Redis.
--
-- The parts, each with the file that it models, of agperms/src/agperms where no other path is given, and
-- the functions by their names there:
--
--   Errors              errors.py: every exception as a value of Error
--   Time                _time.py: seconds, and truncate_reason
--   Models              models.py: the types, rank, worst_of; Models.Payload: to_payload, from_payload
--   Config              config.py: Config, __post_init__ as validate_config, the policy questions
--   Tokens              _tokens.py: the claims of mint_root and mint_child, _encode, decode
--   Audit               _audit.py: log_batch, compute_row_hash, verify_integrity; Audit.Rows: AuditEvent
--   Storage             storage/memory.py: MemoryStorage; Storage.Walk: descendants_breadth_first
--   Guardrails.Rate     _guardrails.py: LocalWindowCache and RateLimiter
--   Guardrails.Circuit  _guardrails.py: CircuitBreaker
--   Guardrails.Anomaly  _guardrails.py: AnomalyDetector
--   Firewall            firewall.py: the state of a Firewall, and the calls that it makes on its parts
--   Firewall.Mint       mint_root, _persist_token, _claims_from_metadata, TokenEngine.mint_child
--   Firewall.Delegate   delegate, _decode_live, _assert_root_alive, _park_for_approval
--   Firewall.Verify     verify, require
--   Firewall.Actions    action, _close_action
--   Firewall.Revoke     revoke, _queue_reviews, classify_action, review_priority
--   Firewall.Reviews    pending_reviews, resolve_review
--   Firewall.Approvals  approve, deny, collect, expire_stale_approvals, _load_pending, _decide_approval
--   Firewall.Lineage    chain, reset_circuit, circuit_state, close
--   Firewall.Run        the public methods as calls, and runs of them
--   Risk                risk.py: compute_risk_state and what it is made of
--   Sql.Table           what storage/sql.py takes from SQLAlchemy: a table, and the laws of its keys
--   Sql.Records         storage/sql.py: the rows of actions and reviews, to and from the model
--   Sql.Store           storage/sql.py: the methods of SqlStorage, with Sql.Store.Logs and Sql.Store.Work
--   Sql.Refines         when a database stands for a memory storage; Sql.Runs: sequences of listed calls on both
--   Service.Redis       what checkpoint_service takes from a Redis client; a call may fail
--   Service.Revocation  checkpoint_service/engine/revocation.py: RevocationStore; Events: one process over
--                       time; Subtree: its walk and the edges; Races: two sessions or processes over one
--                       database
--   Service.AuditLogger checkpoint_service/engine/audit_logger.py: AuditLogger
--   Service.Engine      checkpoint_service/engine: the session of a request and the state around it;
--                       Engine.Guards: guardrails.py and subjects.py; Engine.Tokens: token_engine.py;
--                       Engine.Mint, Engine.Delegate, Engine.Verify: delegation_engine.py
--
-- A method is an action of Exec: from a state to a result or an exception, with the state that is left
-- either way, so what was written before a raise stays written. The firewall's state holds the storage,
-- the remembered tail of the audit log, the buckets of the rate limiter, the breaker, the baselines, and
-- how often the clock was read and an id was drawn. Firewall.Run puts the methods together: a run is a
-- list of calls and of guarded actions whose bodies make calls. Firewall.Steps lists the changes that a
-- method may make to the storage, and Firewall.Kept goes through the methods.
--
-- What the program takes from outside is the record Env: clock, uuid4, sha256, json.dumps, isoformat,
-- PyJWT and the texts of floats and exceptions. Nothing is assumed of it, except where a theorem says so.
-- SQLAlchemy and the database behind it are the record Engine of Sql.Store, a table for each mapped class; the record
-- Keys states what SqlStorage relies on: primary keys and unique columns, a commit that adds all rows or
-- none, and assignments to the row under a key.
--
-- The state of Service.Revocation is what one session sees of the two tables, the Redis client, and the
-- process's flag whether to ask it. Service.Engine adds the other tables, what a rollback of the session
-- returns to, the audit logger and the guardrails, whose breaker and detector are those of
-- Guardrails.Circuit and Guardrails.Anomaly, and pydantic's schema of the claims as a parameter.
-- In Service.Revocation.Events, a request whose transaction is rolled back is no event.
--
-- Time is in microseconds. Thresholds and averages are exact fractions where the source has floats. Two
-- loops run on fuel. The walk over delegation edges gets one round for each edge and one more: a round
-- that is not the last sees a token for the first time. The walk from a token to its root, in
-- Firewall.Lineage, gets two rounds more than there are stored tokens, since a round sees one more of
-- them.
--
-- Not modelled: locks, since a call is one step; latencies and log messages; RedisWindowCache; the column
-- declarations and connection options of storage/sql.py; of the checkpoint service the approvals, the
-- routes and the wiring; the adapters, the demos and the scripts.
pub mod Prelude
pub mod Errors
pub mod Exec
pub mod Json
pub mod Time
pub mod Models
pub mod Config
pub mod Guardrails
pub mod Env
pub mod Audit
pub mod Storage
pub mod Tokens
pub mod Firewall
pub mod Risk
pub mod Sql
pub mod Service
pub mod Tests
