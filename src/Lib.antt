-- ===== src/Lib.antt =====
-- Verification of the stock back-testing and research backend, stock_backend/app.
--
-- The program is a FastAPI service with Celery workers. The core modelled here:
--   Engine   the back-test engine, stock_backend/app/backtest/engine.py
--   Metrics  the performance figures of a back-test, stock_backend/app/backtest/metrics.py
--   Breaker  the circuit breaker, stock_backend/app/services/llm/circuit_breaker.py
--   Llm      the protected LLM calls, stock_backend/app/services/llm/llm_service.py
--   Ws       the WebSocket connections, stock_backend/app/ws/manager.py
--   Quota    the limit on a user's back-tests, stock_backend/app/services/backtest_quota.py
--   Trend    the swing states of a price, stock_backend/app/services/trend_engine.py
--   Providers  the chain of quote providers, stock_backend/app/data_providers/factory.py
--   Tokens   the token budget of a prompt, stock_backend/app/agent/token_budget.py
--   Auth     sign-in and accounts, stock_backend/app/services/auth_service.py, session_service.py,
--            user_service.py and email_token.py, core/security.py and api/deps.py
--   Jobs     the tasks of back-tests, stock_backend/app/services/backtest_service.py,
--            services/backtest_monitor.py, worker/tasks/backtest_tasks.py and
--            repositories/backtest_repo.py
--   Throttle  the throttle of requests, stock_backend/app/data_providers/traffic.py
--   Sse      the stream of a chat's answer, stock_backend/app/agent/sse.py, agent/chat_service.py and
--            api/v1/chat.py
--   Runner   the process of a back-test, stock_backend/app/backtest/runner.py
--   Backup   the backups, stock_backend/app/services/backup_service.py
--   Validator  the check of a strategy's code, stock_backend/app/agent/strategy_validator.py and
--            backtest/sandbox.py
--   Redis    what Auth, Jobs, Sse and Throttle use of Redis' keys with an expiry: an interface
--
-- Engine. `Engine.Types.State` holds the fields of BacktestContext and of BacktestEngine, which refer
-- to one another; `shares_held` is `pos`. The strategy's code is a `Program`: any finite sequence of
-- calls of `buy` and `sell` (`flat` is `sell` with no count), each chosen from what the context shows
-- after the call before, or an exception. That the code touches the context by these calls only is
-- an assumption, and so are whole counts of shares, as in the annotation of `buy` and `sell`: the
-- sandbox enforces neither. Code that runs for ever is stopped by the process around it (Runner).
-- `Engine.Run.step` is the body of the loop of `run`, `run_from` is `run` on a fresh engine;
-- `Engine.Moves` turns a bar into a sequence of booked trades, over which the theorems go.
-- Floats are an interface, `Floating`: its operations have no laws, so what is proved holds for
-- every rounding. A division by zero and `int` of an infinity or NaN are errors of the model.
--
-- Metrics. `Metrics.Pairing` is `_pair_trades`.
--
-- Breaker and Llm. Each method is one step under its lock, with the clock's readings as arguments.
-- The provider's answers are a parameter: an outcome for each attempt.
--
-- Ws. `Ws.Manager` has the registry and the loops that send. Which connections are alive is a
-- parameter. A loop over the list that it changes itself keeps an index into that list.
--
-- Quota. `Quota.Zset` is what is used of Redis' sorted sets, an interface with laws, which
-- `Quota.Table` shows can hold. Each call is one step, with Redis in reach or not, at a given time.
--
-- Trend. `Trend.Swing` is the part of `advance` that decides the direction, on the sign of the move;
-- `Trend.State` has the other fields, the reports and the loop over the bars of a symbol.
--
-- Providers. `Providers.Circuit` is the breaker of one provider, `Providers.Chain` the loops over the
-- providers in their order of priority. A provider is a record with its circuit and its answer.
--
-- Tokens. A text is the list of its code points; `Tokens.Window` chooses how much history is kept.
--
-- Auth. `Auth.World.World` holds the tables of users and sessions and the keys in Redis; each request
-- is a function from it to what is returned or raised and what is committed. Time, and what is drawn
-- at random, are arguments; Redis, PyJWT, bcrypt and SHA-256 are interfaces (`Auth.Outside`, with
-- laws that `Auth.Simple` shows can hold). A flag tells whether Redis is in reach for a call. Times
-- are seconds, rounded down; where the code cuts the time that is left down to whole seconds, a
-- flag tells whether the fraction costs one. Writes of the database work, and requests come one
-- after the other.
--
-- Jobs. `Jobs.Store` has the tables, and a session with what is committed and what is only flushed;
-- `Jobs.Execute` is `execute_backtest`, `Jobs.Worker` one delivery of a message to the Celery task and
-- the deliveries of one message in a row, with the writes of the log that may fail and the places
-- where the worker may be killed. What an attempt meets (the symbol, the bars, the reports and the
-- figures or the error of the run) is a parameter. `Jobs.Create` makes a task, takes its slot from
-- `Quota.Slots` and queues its message; `Jobs.Queries` are the reads. A retry of Celery is taken to
-- publish its message. What the validator says of a strategy is met by the request that asks it.
-- `Jobs.Monitor` counts a strategy's failures in a row; its calls, like the notifications, come after
-- a commit, cannot fail, and are left out of the worker.
--
-- Sse. `Sse.Cache` is agent/sse.py over an interface of Redis' lists; `Sse.Stream` is
-- `_stream_with_timeouts`, with the events of the agent and the waits for them as a list, and
-- `chat_resume`. All times are in one unit, and writing to the client takes none.
--
-- Throttle. `Throttle.Acquire` is the script and the loop of `acquire` for one provider, in
-- milliseconds; the script is one step, the day is an argument. The 300 tries of the loop are those
-- of the source.
--
-- Runner. `Runner.Child` is what the child sends, `Runner.Watch` the loop of `run_isolated` over what
-- each of its rounds sees (the child's memory, the pipe, whether the child is alive, the clock), which
-- the theorems take as they please; `Runner.Isolated` is the outcome, with the process as the
-- interface of `Runner.Process`, and what `execute_backtest` of Jobs makes of it. Milliseconds and
-- bytes are natural numbers; a memory that cannot be read (-1) is `none`. The exceptions that a
-- report's `conn.send` raises are taken to be those that are caught. A `join` may be over before the
-- child is, whatever was done to it.
--
-- Backup. `Backup.Folder` is a folder as a list of files with a content and an age. `Backup.Dump` gives
-- the folder after each of its changes, so that a cut between them is covered; `Backup.Prune`,
-- `Backup.Offsite` and `Backup.Full` are the steps of the daily backup, `Backup.Drill` the restoring to
-- a temporary database. What pg_dump, pg_restore, psql and the file system answer are arguments;
-- rclone is an interface with laws. Contents stand for the bytes of a file and its hash.
--
-- Validator. The tree of a text is the list of its nodes in the order of ast.walk; Python's parser,
-- RestrictedPython and the loading are fields of the text. The dry run is an outcome of Runner.
--
-- There is no fuel of the model's own: the loops are recursions on the bars, the trades, the lots and
-- the attempts left, the rounds, the deliveries, the arrivals, the rows, the providers
-- and the windows; `send_live` has one round for each place of the list and one to find its end.
--
-- Not modelled: the HTTP routes, the SQL of the queries, the Celery tasks other than that of
-- the back-tests, mails, notifications and files, the clients of the
-- quote and model services, and the front end, which are input and output or glue over other
-- libraries; of the parts above, what only formats, logs or counts.
pub mod Prelude
pub mod Floating
pub mod Engine
pub mod Metrics
pub mod Ws
pub mod Quota
pub mod Runner
pub mod Sse
pub mod Trend
pub mod Providers
pub mod Throttle
pub mod Tokens
pub mod Redis
pub mod Backup
pub mod Auth
pub mod Jobs
pub mod Breaker
pub mod Llm
pub mod Validator
