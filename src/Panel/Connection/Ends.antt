-- ===== src/Panel/Connection/Ends.antt =====
-- Where the widget's requests end (tracker/src/widget.ts, destroy and fetchTickets).
use trace_ux.Base.{ℕ, ◌*◌, ◌≡◌, true, false, none, some, List, [], ◌∷◌, arith, min}
use trace_ux.Panel.Connection.{
  Connection, schedule_next, schedule_ticket_poll, load_tickets, Answer, unreachable, limited,
  refused, unreadable, listed, take_announcements, on_announcements, on_chained, take_tickets,
  on_tickets, poll_fires, ticket_poll_fires, retry_fires, on_open, on_closing, on_close,
  on_visibility, on_ticket_created, on_socket_ticket, show_tickets, destroy, Happening, polled,
  ticket_polled, retried, announcements_came, chained_came, tickets_came, socket_opened,
  socket_closing, socket_closed, visibility_changed, ticket_created, ticket_pushed, tickets_shown,
  removed, step, run,
}

-- A widget that is off the page, after so many requests: nothing that could ask is left.
record Gone (n : ℕ) (c : Connection) : Type 0 where
  destroyed : c.destroyed ≡ true
  socket : c.socket ≡ none
  retry : c.retry_timer ≡ none
  ticket_timer : c.ticket_timer ≡ none
  requests : c.requests ≡ n

on_announcements-Gone :
    (n : ℕ) (a : Answer) (c : Connection) → Gone n c → Gone n (on_announcements a c)
unfolding on_announcements take_announcements
on_announcements-Gone n unreachable c v = ground (arith, v)
on_announcements-Gone n limited c v = ground (arith, v)
on_announcements-Gone n refused c v = ground (arith, v)
on_announcements-Gone n unreadable c v = ground (arith, v)
on_announcements-Gone n (listed live) c v = ground (arith, v)

on_chained-Gone : (n : ℕ) (a : Answer) (c : Connection) → Gone n c → Gone n (on_chained a c)
unfolding on_chained take_announcements schedule_next
on_chained-Gone n unreachable c v = ground (arith, v)
on_chained-Gone n limited c v = ground (arith, v)
on_chained-Gone n refused c v = ground (arith, v)
on_chained-Gone n unreadable c v = ground (arith, v)
on_chained-Gone n (listed live) c v = ground (arith, v)

on_tickets-Gone : (n : ℕ) (a : Answer) (c : Connection) → Gone n c → Gone n (on_tickets a c)
unfolding on_tickets take_tickets schedule_ticket_poll
on_tickets-Gone n unreachable c v = ground (arith, v)
on_tickets-Gone n limited c v = ground (arith, v)
on_tickets-Gone n refused c v = ground (arith, v)
on_tickets-Gone n unreadable c v = ground (arith, v)
on_tickets-Gone n (listed live) c v = ground (arith, v)

step-Gone : (n : ℕ) (h : Happening) (c : Connection) → Gone n c → Gone n (step h c)
unfolding step
step-Gone n polled c v = unfold poll_fires in ground (arith, v)
step-Gone n ticket_polled c v = unfold ticket_poll_fires in ground (arith, v)
step-Gone n (retried throws) c v = unfold retry_fires in ground (arith, v)
step-Gone n (announcements_came a) c v = on_announcements-Gone n a c v
step-Gone n (chained_came a) c v = on_chained-Gone n a c v
step-Gone n (tickets_came a) c v = on_tickets-Gone n a c v
step-Gone n (socket_opened m) c v = unfold on_open in ground (arith, v)
step-Gone n (socket_closing m) c v = unfold on_closing in ground (arith, v)
step-Gone n (socket_closed m history) c v = unfold on_close in ground (arith, v)
step-Gone n (visibility_changed b h s t) c v = unfold on_visibility in ground (arith, v)
step-Gone n ticket_created c v = unfold on_ticket_created schedule_ticket_poll in ground (arith, v)
step-Gone n (ticket_pushed live) c v = unfold on_socket_ticket in ground (arith, v)
step-Gone n (tickets_shown stale) c v = unfold show_tickets load_tickets in ground (arith, v)
step-Gone n removed c v = unfold destroy in ground (arith, v)

run-Gone : (n : ℕ) (hs : List Happening) (c : Connection) → Gone n c → Gone n (run hs c)
unfolding run
run-Gone n [] c v = v
run-Gone n (h ∷ hs) c v = run-Gone n hs (step h c) (step-Gone n h c v)

destroy-Gone : (c : Connection) → Gone c.requests (destroy c)
unfolding destroy
destroy-Gone c = ground arith

-- A widget that was taken off the page asks the server for nothing more and opens no socket,
-- whatever answers, timers and events still arrive, and none of its sockets or retries comes back.
pub removed_is_silent :
    (hs : List Happening) (c : Connection)
    → ((run hs (destroy c)).requests ≡ c.requests)
      × ((run hs (destroy c)).socket ≡ none)
      × ((run hs (destroy c)).retry_timer ≡ none)
      × ((run hs (destroy c)).ticket_timer ≡ none)
removed_is_silent hs c =
    let v = run-Gone c.requests hs (destroy c) (destroy-Gone c) in
    (v.requests, v.socket, v.retry, v.ticket_timer)

-- A poll for the tickets that fails is the last one: with the socket down, a poll that gets no
-- answer, an error or an answer that cannot be read sets no further poll and leaves no request under
-- way, live tickets or not; one that the server limits sets the next at twice the interval.
pub failed_poll_is_last :
    (c : Connection) (d : ℕ)
    → c.ticket_timer ≡ some d
    → c.connected ≡ false
    → c.destroyed ≡ false
    → c.visible ≡ true
    → c.tickets_enabled ≡ true
    → c.ticket_list_loading ≡ false
    → let asked = ticket_poll_fires c in
      (asked.ticket_list_loading ≡ true)
      × ((on_tickets unreachable asked).ticket_timer ≡ none)
      × ((on_tickets refused asked).ticket_timer ≡ none)
      × ((on_tickets unreadable asked).ticket_timer ≡ none)
      × ((on_tickets unreachable asked).ticket_list_loading ≡ false)
      × ((on_tickets refused asked).ticket_list_loading ≡ false)
      × ((on_tickets unreadable asked).ticket_list_loading ≡ false)
      × ((on_tickets limited asked).ticket_timer ≡ some (min (c.ticket_interval * 2) 900_000))
unfolding ticket_poll_fires load_tickets on_tickets take_tickets schedule_ticket_poll
failed_poll_is_last c d t n e v k l = ground (arith, t, n, e, v, k, l)
