-- ===== src/Lib.antt =====
-- TalisMan: an orchestrator that runs software projects through a gated spiral of phases.
--
-- A project is a run of a state graph whose nodes are phases. A phase calls an injected
-- handler; a gate phase then stops and asks an approver. Around this stand a portfolio
-- scheduler, which shares slots between projects, SQLite adapters for events, approvals,
-- lessons and the budget, and the adapters that face the outside: the model gateway, the egress
-- proxy, Telegram, and the containers of the workers. Paths below are under src/talisman_core/.
--
-- Spiral models workflow/spiral.py. Spiral/State has the state, the phase names and the router
-- (`next_active_phase`), Spiral/Node the node functions (`_make_phase_node` is `run_phase`,
-- with `_decision_update`, `_complete_phase` and `_record_phase_artifact`). LangGraph is not
-- part of the repository: Spiral/Runtime states, as the record `CompiledGraph`, what the code
-- relies on, and Spiral/Reference is an interpreter that meets it. Spiral/Order, Run and Steps
-- hold lemmas.
--
-- Composition models app/composition.py: `run_project`, and `run_gated_project`, whose loop
-- over interrupts is `resolve_gates`, on fuel. Handlers, the approver and the log are functions
-- over a world that they may change. The fuel counts approvals; Composition/Approved is about
-- how much of it a run needs.
--
-- Scheduler models scheduler/portfolio.py: Scheduler/Task has the tasks, aging and selection,
-- and Scheduler the operations of `PortfolioScheduler`; Scheduler/Metrics has its wait metrics.
-- The clock is handed in.
--
-- Storage models adapters/sqlite/: Storage/Events (event_log.py), Storage/Approvals
-- (approval_idempotency.py), Storage/Budget (budget.py) and Storage/Memory (memory.py, with
-- ports/memory.py). A table is a list of rows.
--
-- Review models domain/review_result.py, and Review/Closure policies/review_enforcement.py.
-- Health models observability/health.py.
--
-- Gateway models `retrying_transport` of adapters/gateway_client.py; its fuel is
-- `max_attempts`, and Gateway/Attempts is about what it suffices for; Gateway/History keeps its
-- answers and sleeps, for Gateway/Delays. Egress models security/egress.py, and
-- Egress/Authority and Egress/Proxy the handler of adapters/egress_proxy.py. Telegram models
-- adapters/telegram/: the allowlist and the approver, and in Telegram/Bot the requests of the
-- bot. The two loops of the approver wait for the outside, so they take any fuel, and no fuel
-- is enough for every outside.
--
-- Workers models the environments and the container command (security/credentials.py,
-- app/live_workers.py, workers/_container.py), and Workers/Adapters the two adapters and the
-- runner (workers/claude_code.py, workers/codex_cli.py, workers/_subprocess.py) over a disk
-- with its law, which is text mode's: a written text is read with universal newlines.
-- Workers/Podman reads a command line as `podman run` does, with the options that the module
-- uses. Redaction models the other half of security/credentials.py, with a function for each
-- pattern. Prompts models policies/phase_prompts.py, and Incident observability/incident.py.
--
-- ProjectRun models app/project_run.py: intake of lessons, the gated run of Composition, the
-- retrospective, and the incident dump before an error is raised again. LiveRun models
-- app/live_run.py, whose handlers call Prompts and a worker, and LiveEntry
-- app/live_entrypoint.py, which puts Telegram, Workers and LiveRun together. Bootstrap models
-- app/bootstrap.py. All of them take the graph that is built from their handlers and gates, and
-- the fuel of Composition.
--
-- Service models main.py: `main` after the arguments are parsed, and the service, whose fuel
-- counts heartbeats. Release models app/release.py, and Units app/systemd_units.py, with
-- Units/Settings a reader of unit files.
--
-- Prelude has what the modules share: tests on numbers and texts, lists, integers, dictionaries
-- in insertion order, results of calls that may raise, texts as lists of code points, and the
-- replacement of parts of a text.
--
-- Choices. Times and waits are whole microseconds or seconds; amounts of money are exact
-- numbers of a smallest unit, so floats do not round and there is no NaN or infinity. A request
-- of the budget has one time, for the check and for the row; the program reads the clock for
-- each. LiveEntry builds the Telegram approver, and takes as a parameter how a run waits for
-- its answer. Functions of Python's library (`lower`, `strip`, `int`, `float`, `repr`,
-- `sorted`, json), httpx, podman, the files and the sockets are parameters. What they must
-- satisfy is a hypothesis, and Tests instantiates it.
--
-- Not modelled: migrations, the HTTP requests of the gateway, the byte tunnel of the proxy and
-- its threads, the start of processes, the JSON of log lines, and the parsing of the command
-- line.
pub mod Prelude
pub mod Spiral
pub mod Composition
pub mod Scheduler
pub mod Storage
pub mod Review
pub mod Health
pub mod Gateway
pub mod Egress
pub mod Telegram
pub mod Workers
pub mod Prompts
pub mod Redaction
pub mod Incident
pub mod ProjectRun
pub mod LiveRun
pub mod LiveEntry
pub mod Service
pub mod Units
pub mod Release
pub mod Bootstrap
mod Tests
