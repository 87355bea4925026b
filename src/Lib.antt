-- ===== src/Lib.antt =====
-- The verification library of the sandbox service: an API that gives each ticket its own MySQL
-- container with a copy of production databases, keeps the sessions in an SQLite table, and takes
-- them down when their time is over.
--
-- The parts, and the files that model them:
--   * api/state.py: `Session` (the row and its statuses), `Session.Draft` (the dict that a row is
--     made from, with the checks on it), `Sql` (the statements that the store uses) and `Store` (the
--     methods of `SessionStore`). The state is the table, a list of rows in insertion order; each
--     method is one transaction, `tx` undoes one that raises.
--   * api/config.py: `Config`, the settings with their validators and derived properties.
--   * api/docker_ops.py: `Docker` (`allocate_port` and the paths of `make_session_paths`),
--     `Docker.Compose` (`compose`, `up_session`, `down_session`), `Docker.Inspect` and
--     `Docker.Health` (`_read_published_port` and `wait_healthy`), over a world of processes,
--     sockets and a clock; `Docker.Render` (`render_compose`, `render_mysqld_cnf`,
--     `render_grant_sql` with templates/grant_user.sql.j2, `gen_root_password`).
--   * api/tls_ops.py: `Tls`, over what the cryptography library, its random sources and the files do.
--   * api/models.py: `Models` (the names, `DBSpec` and the uniqueness of a request's databases)
--     and `Models.Request` (`CreateSessionRequest`).
--   * api/auth.py, with `constant_time_eq` of api/crypto.py: `Auth`, the checks of the API key, the
--     Access token and the webhook signature, and the cache of the key clients.
--   * api/service.py: `Service` (`view`, `reset_ttl`, `nuke`, `nuke_by_ticket`, `ca_pem`),
--     `Service.Failure` (`_classify_failure`), `Service.Json`, `Service.Calls` (the callables that
--     `create` is given, and `_factory`), `Service.Steps` (the parts of `_do_create`) and
--     `Service.Create` (`create`, `_do_create`, `_cleanup_failed_create`).
--   * api/reaper.py: `Reaper`, `_teardown`, `reap_once` and one round of `reap_loop`.
--   * api/mysql_ops.py: `Mysql` (the commands that run to their end), `Mysql.Clone` (`clone_db`) and
--     `Mysql.Wait` (`wait_ready`), on the machine of `Process`.
--   * api/ssh_tunnel.py: `Tunnel`, where `open_tunnel` takes the body of its `with`.
--   * api/main.py: `Api` (the endpoints, from their dependencies to their exception handlers),
--     `Api.Operations` (`healthz`, `readyz`, `metrics`) and `Api.Wiring` (`_build_service`).
--   * `Store.Refines` has the contract of the store: its operations, `reserve_session` among them, on
--     a map from ids to rows.
--   * The service and the reaper share nothing but the table: `Lifecycle` has their transactions as
--     the steps of one system, in any order and with any interleaving of requests. `reset_ttl` is two
--     steps there, since it reads and writes in two transactions.
-- `Errors` has the exceptions and the result of code that may raise; `Exec` the actions on a world
-- that may raise, where what was done before a raise stays done; `Base` the shared helpers. `Tests`
-- runs the definitions on concrete data.
--
-- A method of the service acts on a `World`: the table, and an environment for all else. The
-- callables that the service is given (docker, MySQL, the tunnel, encryption, the clock, the random
-- sources) are parameters which act on the whole world, so other requests may change the table
-- while one of them runs. Theorems that need more of a callable name it as a hypothesis. Numbers are
-- natural numbers: times are seconds since the epoch and ports are positive in the source, and the
-- only arithmetic on them is addition, the minimum, and the age of the cached keys. The source also
-- accepts negative integers as settings; the model has none. Three loops wait, and have fuel:
-- `wait_healthy` and `wait_ready` a turn for each second of their timeout and one more, where a
-- turn sleeps for two seconds and for one, and `_wait_listening` ten turns for each second and one
-- more, where a turn pauses for a tenth. All other loops run over a list.
--
-- What a process does is its own: `subprocess`, the sockets, the files and the clock are parameters
-- that act on the world and may raise, and a time-out of `communicate` or `wait` is the result none.
-- FastAPI is what it documents: it runs the dependencies of an endpoint, and the first that refuses
-- is the answer; then it validates the parameters; then it runs the body.
--
-- Not modelled: the lifespan of api/main.py, which starts and stops the reaper's task, and the JSON
-- of its responses; Fernet, hmac and the random sources of api/crypto.py; `read_ca_pem` of
-- api/tls_ops.py, the other templates and `replace_port_in_compose` of api/docker_ops.py;
-- logging, the connection to SQLite, and the environment that the settings are read from. The thread
-- pool of the reaper is taken in submission order: its teardowns do not read each other's results,
-- and the marks are written after them in that order. Texts in messages have no `repr` escapes, but
-- for those of table names. The status of a row is a data type with the five statuses and a
-- constructor for any other text.
pub mod Base
pub mod Errors
pub mod Session
pub mod Sql
pub mod Store
pub mod Config
pub mod Docker
pub mod Exec
pub mod Service
pub mod Models
pub mod Lifecycle
pub mod Reaper
pub mod Auth
pub mod Process
pub mod Mysql
pub mod Tunnel
pub mod Api
pub mod Tls
pub mod Tests
