-- ===== src/Panel/Connection/Keeps.antt =====
-- What a mounted widget keeps up while timers, answers and socket events come in any order
-- (tracker/src/widget.ts, scheduleWidgetSocketRetry to onVisibility).
use trace_ux.Base.{
  ℕ, ◌≤◌, ◌≡◌, ◌⊎◌, inl, inr, Bool, true, false, not, ◌&&◌, ◌||◌, none, some, List, [], ◌∷◌, arith,
  ltb, Option-cases,
}
use trace_ux.Panel.Connection.{
  Socket, Connection, is_some, enabled, schedule_socket_retry, connect_socket, schedule_next,
  schedule_ticket_poll, load_announcements, load_and_schedule, load_tickets, Answer, unreachable,
  limited, refused, unreadable, listed, take_announcements, on_announcements, on_chained,
  take_tickets, on_tickets, poll_fires, ticket_poll_fires, retry_fires, reconcile, on_open,
  on_closing, fall_back, on_close, on_visibility, on_ticket_created, on_socket_ticket, show_tickets,
  destroy, Settings, mounted, start, Happening, polled, ticket_polled, retried, announcements_came,
  chained_came, tickets_came, socket_opened, socket_closing, socket_closed, visibility_changed,
  ticket_created, ticket_pushed, tickets_shown, removed, step, run,
}

-- A widget that is connected polls nothing; one that is not, and could be, has a socket or tries
-- again; and one that is not connected has its next announcements under way.
record Sound (c : Connection) : Type 0 where
  quiet : (not c.connected || not (is_some c.timer) && not (is_some c.ticket_timer)) ≡ true
  reaches :
      (c.destroyed
        || not c.visible
        || not c.can_socket
        || not (enabled c)
        || is_some c.socket
        || is_some c.retry_timer)
      ≡ true
  polls :
      (c.destroyed || c.connected || not c.updates_enabled || is_some c.timer || ltb 0 c.chained)
      ≡ true

load_tickets-Sound : (c : Connection) → Sound c → Sound (load_tickets c)
unfolding load_tickets
load_tickets-Sound c v = ground (arith, v)

load_announcements-Sound : (c : Connection) → Sound c → Sound (load_announcements c)
unfolding load_announcements
load_announcements-Sound c v = ground (arith, v)

schedule_next-Sound : (c : Connection) → Sound c → Sound (schedule_next c)
unfolding schedule_next
schedule_next-Sound c v = ground (arith, v)

schedule_ticket_poll-Sound : (c : Connection) → Sound c → Sound (schedule_ticket_poll c)
unfolding schedule_ticket_poll
schedule_ticket_poll-Sound c v = ground (arith, v)

schedule_socket_retry-Sound : (c : Connection) → Sound c → Sound (schedule_socket_retry c)
unfolding schedule_socket_retry
schedule_socket_retry-Sound c v = ground (arith, v)

connect_socket-Sound : (throws : Bool) (c : Connection) → Sound c → Sound (connect_socket throws c)
unfolding connect_socket schedule_socket_retry
connect_socket-Sound throws c v = ground (arith, v)

-- What a timer that fires leaves to be set again.
poll_fires-Sound : (c : Connection) → Sound c → Sound (poll_fires c)
unfolding poll_fires load_and_schedule schedule_next
poll_fires-Sound c v = ground (arith, v)

ticket_poll_fires-Sound : (c : Connection) → Sound c → Sound (ticket_poll_fires c)
unfolding ticket_poll_fires load_tickets schedule_ticket_poll
ticket_poll_fires-Sound c v = ground (arith, v)

retry_fires-Sound : (throws : Bool) (c : Connection) → Sound c → Sound (retry_fires throws c)
unfolding retry_fires connect_socket schedule_socket_retry
retry_fires-Sound throws c v = ground (arith, v)

take_announcements-Sound : (a : Answer) (c : Connection) → Sound c → Sound (take_announcements a c)
unfolding take_announcements
take_announcements-Sound unreachable c v = v
take_announcements-Sound limited c v = ground (arith, v)
take_announcements-Sound refused c v = v
take_announcements-Sound unreadable c v = ground (arith, v)
take_announcements-Sound (listed live) c v = ground (arith, v)

on_announcements-Sound : (a : Answer) (c : Connection) → Sound c → Sound (on_announcements a c)
unfolding on_announcements take_announcements
on_announcements-Sound unreachable c v = ground (arith, v)
on_announcements-Sound limited c v = ground (arith, v)
on_announcements-Sound refused c v = ground (arith, v)
on_announcements-Sound unreadable c v = ground (arith, v)
on_announcements-Sound (listed live) c v = ground (arith, v)

on_chained-Sound : (a : Answer) (c : Connection) → Sound c → Sound (on_chained a c)
unfolding on_chained take_announcements schedule_next
on_chained-Sound unreachable c v = ground (arith, v)
on_chained-Sound limited c v = ground (arith, v)
on_chained-Sound refused c v = ground (arith, v)
on_chained-Sound unreadable c v = ground (arith, v)
on_chained-Sound (listed live) c v = ground (arith, v)

on_tickets-Sound : (a : Answer) (c : Connection) → Sound c → Sound (on_tickets a c)
unfolding on_tickets take_tickets schedule_ticket_poll
on_tickets-Sound unreachable c v = ground (arith, v)
on_tickets-Sound limited c v = ground (arith, v)
on_tickets-Sound refused c v = ground (arith, v)
on_tickets-Sound unreadable c v = ground (arith, v)
on_tickets-Sound (listed live) c v = ground (arith, v)

on_open-Sound : (n : ℕ) (c : Connection) → Sound c → Sound (on_open n c)
unfolding on_open reconcile load_announcements load_tickets
on_open-Sound n c v = ground (arith, v)

on_closing-Sound : (n : ℕ) (c : Connection) → Sound c → Sound (on_closing n c)
unfolding on_closing
on_closing-Sound n c v = ground (arith, v)

on_close-Sound : (n : ℕ) (history : Bool) (c : Connection) → Sound c → Sound (on_close n history c)
unfolding on_close fall_back load_announcements load_tickets schedule_next schedule_ticket_poll
    schedule_socket_retry
on_close-Sound n history c v = ground (arith, v)

on_visibility-Sound :
    (visible history stale throws : Bool) (c : Connection)
    → Sound c
    → Sound (on_visibility visible history stale throws c)
unfolding on_visibility connect_socket schedule_socket_retry load_announcements load_tickets
on_visibility-Sound visible history stale throws c v = ground (arith, v)

destroy-Sound : (c : Connection) → Sound c → Sound (destroy c)
unfolding destroy
destroy-Sound c v = ground (arith, v)

start-Sound : (s : Settings) → Sound (start s)
unfolding start mounted connect_socket schedule_socket_retry load_and_schedule load_tickets
start-Sound s = ground arith

step-Sound : (h : Happening) (c : Connection) → Sound c → Sound (step h c)
unfolding step
step-Sound polled c v = poll_fires-Sound c v
step-Sound ticket_polled c v = ticket_poll_fires-Sound c v
step-Sound (retried throws) c v = retry_fires-Sound throws c v
step-Sound (announcements_came a) c v = on_announcements-Sound a c v
step-Sound (chained_came a) c v = on_chained-Sound a c v
step-Sound (tickets_came a) c v = on_tickets-Sound a c v
step-Sound (socket_opened n) c v = on_open-Sound n c v
step-Sound (socket_closing n) c v = on_closing-Sound n c v
step-Sound (socket_closed n history) c v = on_close-Sound n history c v
step-Sound (visibility_changed b h s t) c v = on_visibility-Sound b h s t c v
step-Sound ticket_created c v = unfold on_ticket_created schedule_ticket_poll in ground (arith, v)
step-Sound (ticket_pushed live) c v = unfold on_socket_ticket in ground (arith, v)
step-Sound (tickets_shown stale) c v = unfold show_tickets load_tickets in ground (arith, v)
step-Sound removed c v = destroy-Sound c v

run-Sound : (hs : List Happening) (c : Connection) → Sound c → Sound (run hs c)
unfolding run
run-Sound [] c v = v
run-Sound (h ∷ hs) c v = run-Sound hs (step h c) (step-Sound h c v)

start-run-Sound : (s : Settings) (hs : List Happening) → Sound (run hs (start s))
start-run-Sound s hs = run-Sound hs (start s) (start-Sound s)

-- While the socket is connected, no poll is due, neither of the announcements nor of the tickets,
-- whatever answers and timers are on their way.
pub connected_polls_nothing :
    (s : Settings) (hs : List Happening)
    → (run hs (start s)).connected ≡ true
    → ((run hs (start s)).timer ≡ none) × ((run hs (start s)).ticket_timer ≡ none)
connected_polls_nothing s hs h =
    let c = run hs (start s) in
    let v = start-run-Sound s hs in
    ground (arith, v, h, Option-cases c.timer, Option-cases c.ticket_timer)

-- A widget with a channel, in a browser with sockets, never gives the socket up: while it is on the
-- page and the page is visible, it has one or has set the time of its next attempt.
pub socket_is_kept :
    (s : Settings) (hs : List Happening)
    → (run hs (start s)).destroyed ≡ false
    → (run hs (start s)).visible ≡ true
    → (run hs (start s)).can_socket ≡ true
    → enabled (run hs (start s)) ≡ true
    → ((n : Socket) × ((run hs (start s)).socket ≡ some n))
      ⊎ ((d : ℕ) × ((run hs (start s)).retry_timer ≡ some d))
socket_is_kept s hs d v w e =
    let c = run hs (start s) in
    let i = start-run-Sound s hs in
    elim (Option-cases c.socket) [
      | inl n ↦ elim (Option-cases c.retry_timer) [
        | inl m ↦ absurd (ground (arith, i, d, v, w, e, n, m))
        | inr r ↦ inr r
      ]
      | inr q ↦ inl q
    ]

-- Without a connection the announcements go on being polled: on the page, hidden or not, a poll is
-- due, or one is under way that sets the next.
pub polls_go_on :
    (s : Settings) (hs : List Happening)
    → (run hs (start s)).destroyed ≡ false
    → (run hs (start s)).connected ≡ false
    → (run hs (start s)).updates_enabled ≡ true
    → ((d : ℕ) × ((run hs (start s)).timer ≡ some d)) ⊎ (1 ≤ (run hs (start s)).chained)
polls_go_on s hs d n u =
    let c = run hs (start s) in
    let i = start-run-Sound s hs in
    elim (Option-cases c.timer) [ inl m ↦ inr (ground (arith, i, d, n, u, m)) | inr q ↦ inl q ]
