-- ===== src/Tests/Storage.antt =====
-- Concrete tables of the SQLite adapters.
use talisman_v.Prelude.{
  ℕ, ◌+◌, ◌*◌, ◌/◌, ◌≤◌, ◌<◌, String, ◌≡◌, Option, none, some, List, [], ◌∷◌, ◌++◌, arith, All, has,
  same, if◌then◌else◌,
}
use talisman_v.Storage.Events
use talisman_v.Storage.Events.{EventRecord, list_events}
use talisman_v.Storage.Events.Order.{Append, append_call, append_all, append_then_list}
use talisman_v.Storage.Approvals.{Attempt, GateTable, advances, advances_once, some_current}
use talisman_v.Storage.Budget
use talisman_v.Storage.Budget.Caps.{Request, after_requests, IsWithin, requests_stay_capped}

abbrev started : Append
started = record { now = 10; project_id = "p1"; event_type = "started"; payload = none }

abbrev finished : Append
finished = record { now = 20; project_id = "p2"; event_type = "finished"; payload = some "ok" }

append_then_list_example :
    (r : EventRecord) × ((append_call finished (append_all (started ∷ []) Events.empty)).0 ≡ some r)
    × (r ≡ record {
      event_id = (append_all (started ∷ []) Events.empty).last_id + 1;
      project_id = "p2";
      event_type = "finished";
      payload = some "ok";
      created_at = 20;
    })
    × All
        (λ (q : EventRecord). q.event_id < r.event_id)
        (append_all (started ∷ []) Events.empty).rows
    × (list_events "p2" (append_call finished (append_all (started ∷ []) Events.empty)).1.rows ≡ (
        if same "p2" "p2"
        then list_events "p2" (append_all (started ∷ []) Events.empty).rows ++ r ∷ []
        else list_events "p2" (append_all (started ∷ []) Events.empty).rows))
append_then_list_example = append_then_list (started ∷ []) finished "p2"

abbrev attempt : String → Option String → Attempt
attempt key pending = record {
  project_id = "p1";
  gate_id = "p1:plan";
  idempotency_key = key;
  state = "approve";
  current_pending_gate_id = pending;
}

-- one for a gate that is no longer pending, one that advances, and the same again
abbrev attempts : List Attempt
attempts =
    attempt "key" none
    ∷ attempt "key" (some "p1:plan")
    ∷ attempt "other" (some "p1:retro")
    ∷ attempt "key" (some "p1:plan")
    ∷ []

abbrev no_events : GateTable
no_events = record { rows = []; last_id = 0 }

advances_once_example : advances "key" attempts no_events ≡ 1
unfolding has some_current
advances_once_example = advances_once "key" attempts no_events

-- months of thirty days
abbrev start_of_month : ℕ → ℕ
start_of_month now = now / 2_592_000 * 2_592_000

month_mono : (a b : ℕ) → a ≤ b → start_of_month a ≤ start_of_month b
month_mono a b h = omega (arith, h)

-- the second is refused: it would pass the cap of the day
abbrev requests : List Request
requests =
    record { now = 100; project_id = none; estimated = 8; actual = 7 }
    ∷ record { now = 200; project_id = none; estimated = 8; actual = 8 }
    ∷ record { now = 90_000; project_id = some "p1"; estimated = 8; actual = 8 }
    ∷ []

requests_stay_capped_example :
    IsWithin start_of_month month_mono 10 20 95_000
      (after_requests start_of_month month_mono 10 20 requests Budget.empty)
requests_stay_capped_example =
    requests_stay_capped start_of_month month_mono 10 20 requests 95_000
      (omega arith, omega arith, (omega arith, omega arith, (omega arith, omega arith, tt)))
      (omega arith, (omega arith, (omega arith, tt)))
