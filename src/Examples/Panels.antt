-- ===== src/Examples/Panels.antt =====
-- The widget's own interface: theorems at concrete inputs.
use trace_ux.Base.{ℕ, ◌≤◌, ◌≡◌, ◌⊎◌, refl, true, false, none, some, List, [], ◌∷◌}
use trace_ux.Panel.Connection.{
  Settings, Socket, Connection, mounted, start, connect_socket, schedule_socket_retry,
  load_and_schedule, load_tickets, load_announcements, reconcile, on_open, on_close, on_chained,
  take_announcements, schedule_next, fall_back, schedule_ticket_poll, Happening, limited, listed,
  chained_came, tickets_came, socket_opened, socket_closed, step, run, destroy,
}
use trace_ux.Panel.Connection.Keeps.{socket_is_kept, polls_go_on}
use trace_ux.Panel.Connection.Bounds.{Timed, start-run-Timed}
use trace_ux.Panel.Connection.Ends.{removed_is_silent}

abbrev settings : Settings
settings = record {
  updates_enabled = true;
  tickets_enabled = true;
  poll_interval_ms = 15_000;
  ticket_poll_interval_ms = 15_000;
  can_socket = true;
  visible = true;
  throws = false;
}

abbrev connects : List Happening
connects = chained_came (listed true) ∷ tickets_came (listed true) ∷ socket_opened 0 ∷ []

abbrev loses : List Happening
loses = chained_came limited ∷ socket_opened 0 ∷ socket_closed 0 true ∷ []

socket_is_kept_example :
    ((n : Socket) × ((run loses (start settings)).socket ≡ some n))
    ⊎ ((d : ℕ) × ((run loses (start settings)).retry_timer ≡ some d))
unfolding run step start mounted connect_socket load_and_schedule load_tickets load_announcements
    on_chained on_open on_close reconcile take_announcements schedule_next fall_back
    schedule_ticket_poll schedule_socket_retry
socket_is_kept_example = socket_is_kept settings loses refl refl refl refl

polls_go_on_example :
    ((d : ℕ) × ((run loses (start settings)).timer ≡ some d))
    ⊎ (1 ≤ (run loses (start settings)).chained)
unfolding run step start mounted connect_socket load_and_schedule load_tickets load_announcements
    on_chained on_open on_close reconcile take_announcements schedule_next fall_back
    schedule_ticket_poll schedule_socket_retry
polls_go_on_example = polls_go_on settings loses refl refl refl

start-run-Timed_example : Timed 15_000 15_000 (run loses (start settings))
start-run-Timed_example = start-run-Timed settings loses

removed_is_silent_example :
    let c = run connects (start settings) in
    ((run loses (destroy c)).requests ≡ c.requests)
    × ((run loses (destroy c)).socket ≡ none)
    × ((run loses (destroy c)).retry_timer ≡ none)
    × ((run loses (destroy c)).ticket_timer ≡ none)
removed_is_silent_example = removed_is_silent loses (run connects (start settings))

abbrev waiting : Connection
unfolding mounted
waiting = record (mounted settings) { ticket_timer = some 15_000; has_live_ticket = true }
