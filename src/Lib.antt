-- ===== src/Lib.antt =====
-- The backend of the assistant, backend/src/smeshariki_ai: users log in, hold dialogs with an agent
-- that answers with a language model and tools, and watch the answers arrive as events.
--
-- Common          Boolean tests, lists and Python dicts, shared by all parts.
-- Auth            backend/src/smeshariki_ai/auth
--   Models        users, sessions, claims and errors (models.py)
--   Limiter       InMemoryAttemptLimiter: hit, blocked, record_failure, reset (memory.py)
--   Blacklist     InMemoryTokenBlacklist: add, contains (`jti_revoked`), revoke_family,
--                 family_revoked (memory.py)
--   Users         InMemoryUserStore (memory.py)
--   Sessions      InMemoryRefreshSessionStore: create, get_by_token_hash, rotate, revoke,
--                 revoke_family, revoke_user_sessions (memory.py)
--   Tokens        TokenCodec: encode_access, decode_access (tokens.py)
--   Service       AuthService: register, login, refresh, logout, authenticate, verify_session,
--                 change_password and the limits by address (service.py), over the four stores
-- Dialogs         backend/src/smeshariki_ai/dialogs
--   Models        messages, summaries, transcripts and errors (models.py, errors.py)
--   History       InMemoryHistoryStore (history.py): dialogs, ratings; its child Reports has the
--                 reports of answers and Listing the list of dialogs
-- Agent           backend/src/smeshariki_ai/agent
--   Models        messages, tool calls, events and errors (models.py, errors.py)
--   Tools         ToolRegistry (tools.py)
--   Runtime       Agent.run (runtime.py): `iterate` is one pass of its loop, `run_loop` the passes
--                 that are left
-- Application     backend/src/smeshariki_ai/application
--   Events        events and the queue of one subscription (events.py, event_broker.py)
--   Broker        InMemoryDialogEventBroker (event_broker.py)
--   Service       AgentService (agent_service.py): submit puts a task behind the last one of the
--                 dialog (Queue), `run_after` is its body; it runs the agent, stores the turn in the
--                 history and publishes events to the broker; its child Dialogs has the methods
--                 that pass a call on
-- Rag             backend/src/smeshariki_ai/rag
--   Models        entities, references and names (models.py)
--   Entities      entity_ref, entities_of, references_of (models.py)
--   Integrity     check_integrity (integrity.py): Episodes, Characters and Places have its rules;
--                 Whole says what the entities of a set refer to, their sources included, which
--                 references_of leaves out as the code does
--   Store         InMemoryKnowledgeStore and its transactions (memory.py, ports.py); its child
--                 Finding has `find`
--   Package       issues and file names (package.py); its child Reading has read_package
--   Merging       the merge of a package and the changes that it makes (services.py)
--   Loading       check_package, load_package (services.py)
--   Lookup        KnowledgeLookup (lookup.py), with its cards in Cards
-- Admin           backend/src/smeshariki_ai/admin: AdminStatsService and AdminReportsService over
--                 their stores (service.py, models.py, stores.py)
--
-- State is passed explicitly. A method that holds a lock from its first to its last line is one
-- function on the state; AuthService is a monad over its four stores, in which a failure keeps the
-- state; what other handlers do while `login` or `change_password` awaits Argon2 in a thread is an
-- argument. A task of AgentService may be interrupted at each `await`, and what other tasks do there
-- is an argument too. What can happen in any order is a step relation, with reachable states.
--
-- Identifiers, token hashes and times are given: UUIDs are numbers, new ones and the readings of the
-- clock are arguments. The in-process limiter and the blacklist measure time in microseconds. Numbers
-- are unbounded, as in Python. PyJWT, Argon2, SHA-256, pydantic validation, the language model, the
-- work of a tool, NFC, case folding and `str.split`, `str.join`, `str.rstrip`, `str.replace` are
-- arguments. In Rag, times are whole milliseconds.
--
-- Recursion is structural. Agent.run recurs on `max_iterations`, which bounds its loop in the code.
-- The one loop on fuel is the search for an unused dialog id in `create`, which draws random ids
-- until one is free; the fuel is the number of draws looked at, and with none free among them the
-- store is left as it is. It is enough as soon as one of these draws is free.
--
-- A load of a package is a function on the knowledge store, since a transaction holds the lock of the
-- store. What is read from a package is an argument of a load; `read_package` gives it for a directory
-- of files. Two files of a directory cannot have one name, so that the theorems that need it ask for a
-- package in which no reference is twice. The
-- errors that a store can raise when a transaction is opened or committed are arguments too, none for
-- the store in the process. Search is told apart from loads: the state that it reads first and the
-- state that it reads later are two arguments.
--
-- Not modelled: the parser of YAML files with its resolvers and the schemas of pydantic
-- (rag/yaml_reader.py, `package_schema`), the command line and the tool of the knowledge base
-- (rag/cli.py, rag/tools.py), the PostgreSQL and Redis stores (rag/postgres.py, db, cache) that
-- implement the same interfaces by SQL and by commands of the server, the HTTP interface (api),
-- start-up and configuration, logging, cancellation of tasks and shutdown of
-- AgentService, and the frontend.
pub mod Common
pub mod Auth
pub mod Dialogs
pub mod Application
pub mod Agent
pub mod Rag
pub mod Admin
