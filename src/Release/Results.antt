-- ===== src/Release/Results.antt =====
-- The results of the acceptance tests, in app/release.py.
use talisman_v.Prelude.{none, List, [], ◌∷◌}
use talisman_v.Release.{pass, component_verified, AcceptanceResult}

-- `ACCEPTANCE_RESULTS`
unfoldable pub acceptance_results : List AcceptanceResult
acceptance_results =
    record {
      test_id = "AT-01";
      area = "Architecture";
      status = pass;
      evidence = "lint-imports: 5 contracts kept, 0 broken (CI).";
      waiver = none;
    }
    ∷ record {
      test_id = "AT-02";
      area = "Static checks";
      status = pass;
      evidence = "ruff check + mypy --strict pass on every PR (CI).";
      waiver = none;
    }
    ∷ record {
      test_id = "AT-03";
      area = "Unit tests";
      status = pass;
      evidence = "pytest: 100+ tests pass (CI).";
      waiver = none;
    }
    ∷ record {
      test_id = "AT-04";
      area = "LangGraph pause/resume";
      status = pass;
      evidence =
          "Durable resume survives a process restart (hardened from its v1 waiver in S16.07): composition.build_sqlite_checkpointer wires a SqliteSaver, and a CI test (tests/app/test_durable_checkpointer.py) pauses a gate under one checkpointer and resumes it under a BRAND-NEW checkpointer on the same on-disk DB — recovering the paused run from disk (a contrast test confirms MemorySaver loses it).";
      waiver = none;
    }
    ∷ record {
      test_id = "AT-05";
      area = "Telegram allowlist";
      status = component_verified;
      evidence =
          "allowlist policy built + unit-tested (adapters/telegram/allowlist.py); the bot transport (adapters/telegram/bot.py) and the TelegramApprover gate channel (adapters/telegram/approver.py — posts each gate, accepts only an allowlisted APPROVE/REJECT) are now governed + CI-tested with a mock (S16.17). The live @Talisman0_bot with a real token + operator chat is operator-verified, not CI; flips to PASS at the supervised live run.";
      waiver = none;
    }
    ∷ record {
      test_id = "AT-06";
      area = "Approval idempotency";
      status = component_verified;
      evidence =
          "SQLiteApprovalIdempotency dedups a repeated key (INSERT-once; unit-tested, ADR-0003). NOT yet wired into a live approval flow — integrated single-advance behavior unproven.";
      waiver = none;
    }
    ∷ record {
      test_id = "AT-07";
      area = "Claude Code worker";
      status = component_verified;
      evidence =
          "workers/claude_code.py implements WorkerPort (unit-tested). A live controlled-slice run was shown in the operator walkthrough. Prototype/operator evidence only (built live outside the governed slice loop, 2026-06-19; transcript: founder-audit-package/2026-06-19/walkthrough/part2-live-transcript.txt) — NOT reviewed release proof; flips to PASS when its governed v1.1-P1 code lands. (runner wiring is v1.1-P1).";
      waiver = none;
    }
    ∷ record {
      test_id = "AT-08";
      area = "Codex CLI worker";
      status = component_verified;
      evidence =
          "workers/codex_cli.py implements WorkerPort and now uses the invocation Codex CLI actually requires — prompt on stdin + --skip-git-repo-check (S16.05, unit-tested incl. a real-subprocess stdin test); Codex CLI also ran the cross-family reviews throughout this build. Flips to PASS on a live run through the adapter (real Codex, not exercisable in CI).";
      waiver = none;
    }
    ∷ record {
      test_id = "AT-09";
      area = "Cross-family review";
      status = pass;
      evidence =
          "25 structured review artifacts in docs/reviews/ — every slice reviewed by the opposite family, incl. the S15.01 review which blocked an over-claimed release grading.";
      waiver = none;
    }
    ∷ record {
      test_id = "AT-10";
      area = "Budget cap";
      status = component_verified;
      evidence =
          "SQLiteBudgetAdapter pauses (BudgetCircuitOpen) on a simulated hard-cap breach (unit-tested, ADR-0004). Not wired to a live model path or a user-alert path.";
      waiver = none;
    }
    ∷ record {
      test_id = "AT-11";
      area = "Gateway pre-call accounting";
      status = component_verified;
      evidence =
          "check_call blocks at the cap before a call (unit-tested). Not integrated with a live model request path.";
      waiver = none;
    }
    ∷ record {
      test_id = "AT-12";
      area = "Retry jitter";
      status = pass;
      evidence =
          "Full-jitter retry with Retry-After handling implemented in the gateway client (adapters/gateway_client.retrying_transport, wired into GatewayClient.over_http) and CI-tested: transport errors and 429 / any 5xx retry with full-jitter backoff capped at max_delay (a numeric Retry-After is honored as a minimum, not truncated); non-retryable 4xx surface immediately, and attempts exhaust then re-raise. Hardened from its v1 waiver in S16.08.";
      waiver = none;
    }
    ∷ record {
      test_id = "AT-13";
      area = "Credential isolation";
      status = pass;
      evidence =
          "security/credentials.worker_environment is wired (S16.03) as the single, unbypassable spawn point in workers/_subprocess.default_runner used by both worker adapters; a CI contract test spawns a REAL child process and proves ANTHROPIC_API_KEY / OPENAI_API_KEY / GITHUB_TOKEN are absent from the worker environment (D6).";
      waiver = none;
    }
    ∷ record {
      test_id = "AT-14";
      area = "Egress allowlist";
      status = component_verified;
      evidence =
          "Two of three parts done, honestly. (1) Decision point: the gatekeeper CONNECT proxy enforces the allowlist (adapters/egress_proxy.py, ADR-0006, S16.04; 403-vs-tunnel integration-tested). (2) Containment: workers/_container.py runs a worker in a rootless-podman container on an --internal network, and an integration test proves such a container CANNOT egress — a kernel routing failure, not cooperation (ADR-0007, S16.06). (3) Remaining for PASS: the composition root must actually run real workers through the container runner with the proxy as their only off-network route, proven end-to-end (allow + deny + no-bypass). Until that wiring lands this stays component-verified — no inflation.";
      waiver = none;
    }
    ∷ record {
      test_id = "AT-15";
      area = "SQLite persistence";
      status = component_verified;
      evidence =
          "Event log + schema persist across connections (unit-tested, S04); a fresh-handle restart was shown in the walkthrough. Prototype/operator evidence only (built live outside the governed slice loop, 2026-06-19; transcript: founder-audit-package/2026-06-19/walkthrough/part2-live-transcript.txt) — NOT reviewed release proof; flips to PASS when its governed v1.1-P1 code lands. A StatePort project-state store remains a v1.1 item; flips to PASS when that store lands.";
      waiver = none;
    }
    ∷ record {
      test_id = "AT-16";
      area = "Retrospective";
      status = pass;
      evidence =
          "app/project_run.generate_retrospective renders a markdown retrospective (outcome, phases completed, gates fired, artifacts) and run_project produces it automatically at every project close; CI-tested (tests/app/test_project_run.py). Hardened from its v1 waiver in S16.11.";
      waiver = none;
    }
    ∷ record {
      test_id = "AT-17";
      area = "Lessons retrieval";
      status = pass;
      evidence =
          "adapters/sqlite.SQLiteMemoryStore implements MemoryPort (durable lessons + retrospectives in the shared state DB) and run_project retrieves active lessons relevant to the spec's domain_tags and surfaces them at intake (logged + returned on the result); CI-tested (tests/adapters/test_memory_store.py, tests/app/test_project_run.py). Hardened from its v1 waiver in S16.13.";
      waiver = none;
    }
    ∷ record {
      test_id = "AT-18";
      area = "systemd recovery";
      status = component_verified;
      evidence =
          "Unit files built; Restart=on-failure + gateway-first ordering verified byte-match canonical (S13.01). The `--serve` service runtime the unit launches is now built + governed (S16.10): a signal-driven heartbeat loop, unit-tested (starts, beats, stops cleanly on SIGTERM/SIGINT). The live kill -9 → auto-restart needs a real `systemd --user` and is operator-verified, not CI; it flips to PASS at that operator step.";
      waiver = none;
    }
    ∷ record {
      test_id = "AT-19";
      area = "Incident dump";
      status = pass;
      evidence =
          "observability/incident.write_incident_dump writes a timestamped, secret-redacted markdown dump (reason + recent log lines stripped via redact_secrets; filesystem-safe filename) and run_project triggers it (best-effort) automatically when a run halts catastrophically — an unhandled error escaping the spiral — before re-raising; CI-tested (tests/app/test_project_run.py). Hardened from its v1 waiver in S16.12.";
      waiver = none;
    }
    ∷ record {
      test_id = "AT-20";
      area = "Bootstrap project";
      status = pass;
      evidence =
          "S14.02 ran the governed v1.1-planning spiral to completion through both gates; produced docs/talisman-v1.1-backlog.md.";
      waiver = none;
    }
    ∷ []
