-- ===== src/Lib.antt =====
-- Verification of the Python code of the AISS web application firewall: the agent that judges each
-- HTTP request on a Unix socket (agent/), the reverse proxy that asks it (waf-proxy/), and the core of
-- the central server (server/app/).
--
-- How the program works. A web server module sends a request to the agent, which runs it through
-- tiers: CVE patterns, injection patterns, content inspection with a cache of file hashes, and an
-- anomaly score. The first tier that finds a threat decides; in shadow mode the decision is only
-- reported. Events go into a bounded buffer that a thread empties, and all writes of the agent's
-- database into a bounded queue that one thread executes. The reverse proxy asks the agent about
-- each request before it forwards it. The central server offers a similar inspection over HTTP, with
-- signatures that it collects from public feeds, limits the rate of its clients and keeps a
-- hash-chained audit log; agents can report to it over gRPC too.
--
-- The files.
--   Prelude      what all share: tests, lists, texts, dictionaries, orders, printing of numbers
--   RateLimit    server/app/middleware/rate_limit.py: SlidingWindowRateLimiter.is_allowed is
--                `is_allowed`, RateLimitMiddleware.dispatch is `dispatch`; History is the abstract
--                specification, Refines relates the two, Window and Dispatch bound what passes
--   Audit        server/app/middleware/audit.py and server/app/routers/audit.py: `append_to_chain`,
--                `verify_chain`, `purge_old_entries`, `reset_chain`, `list_audit_entries`
--   Agent        agent/security, agent/telemetry, agent/socket_server.py, one module each:
--                Patterns and Injection are tiers 1 and 2, Anomaly is tier 3, MagicBytes, Base64 and
--                Yara are the content inspection, Pipeline puts them together as `check`,
--                Telemetry is the buffer and Socket the connection handler, with
--                Listen the accept loop, its pool and the shutdown; Config is
--                agent/config/config.py; Database is
--                agent/db/duckdb_store.py: `execute` has the meaning of the statements, `call` is one
--                call or one round of `_write_loop`, Reads and Writes relate the reads to the queue,
--                Cache is the file-hash cache of the pipeline
--   Proxy        waf-proxy/main.py: `consult` is _consult_aiss, `handle` the handler, `proxy_headers`
--                the headers to the backend, `register_agent` the registration
--   Deployed     the proxy before the agent: `agent_socket` is one connection of the two, `seen` the
--                answer as the proxy reads it; Lines reads a line in pieces, Guarded has the agent's
--                pipeline
--   Server       Inspect is server/app/routers/inspect.py: the rule tables, `inspect_request` and the
--                background task `persist_inspect_event`; Auth is server/app/auth.py and
--                server/app/routers/auth.py: keys, tokens and roles, and their issue, and
--                Keys the files of the key pair; CveSync is
--                server/app/cve_sync.py: `product_to_pattern`, the entries of each feed,
--                `upsert_patterns` and `sync_all`; Registry is server/app/routers/agents.py,
--                telemetry.py and updates.py, a function for each handler, a run of requests, and of the
--                verdicts that the inspection stores, as `run`;
--                Stats is server/app/routers/stats.py, and Doris the writer of server/app/doris.py;
--                Grpc is server/app/grpc_server.py, Bootstrap the bootstrap key of server/app/main.py,
--                and Gateway its middleware stack: Headers is
--                server/app/middleware/security_headers.py, `serve` one request from the network to
--                its answer, and `step` an event of the whole server over time;
--                Sessions is the lock of server/app/database.py, with `get_db` and the lookup of a
--                key as operations of threads
--   The Tests modules apply the theorems at concrete values, the Samples modules hold those.
--
-- How the code is modelled. Texts and bytes are lists of code points or bytes, upper and lower case
-- are those of ASCII. Stateful objects are records that an operation takes and gives back; what a
-- lock makes atomic is one step. The time is an argument. Exceptions and refusals are results.
--
-- Parameters. What other libraries do is an argument: the `re` engine, URL, UTF-8 and base64
-- decoding and SHA-256 (Agent/Runtime), IEEE floats (Agent/Floats), the HMAC and the ISO form of a
-- datetime, as made and as read back (Library in Audit), HMAC and JWT (Crypto in Server/Auth), the
-- database of file hashes (HashStore), the YARA rules, the answers of the feeds, of the backend and
-- of the agent's socket, `re.compile`, json and the pieces of the socket (Wire in Deployed), the
-- rest of the application behind a middleware, `sendall`, and where a database raises, CORS (Cors
-- in Server/Gateway/Stack), pymysql (Driver in Server/Doris/Upsert), the generated classes of gRPC,
-- Python's float (Floating in Agent/Config) and the files there are. SQL statements are written out
-- as functions on lists of rows.
--
-- Bounds and fuel. Printing a number n takes n + 1 rounds, since each divides it by ten;
-- the streaming decoder takes as many rounds as there are bytes, since each takes one at least;
-- `drain` takes as many rounds as the clock allows, which is its argument; 50 rounds of the
-- database's writer are enough for its queue of 10000, since each takes 200. All else is structural.
--
-- Not modelled: logging, the start of threads, the text of HTTP responses,
-- generated code, offline training, the demo application, and what only declares settings or schemas.
pub mod Prelude
pub mod RateLimit
pub mod Audit
pub mod Agent
pub mod Proxy
pub mod Server
pub mod Deployed
