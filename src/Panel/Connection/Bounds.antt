-- ===== src/Panel/Connection/Bounds.antt =====
-- The widget's waiting times (tracker/src/widget.ts, scheduleWidgetSocketRetry, loadAnnouncements and
-- fetchTickets).
use trace_ux.Base.{
  ℕ, zero, suc, ◌-◌, ◌^◌, ◌≤◌, ◌≡◌, refl, Bool, true, false, not, ◌||◌, Option, none, some, List,
  [], ◌∷◌, arith, if◌then◌else◌, min, max, Bool-cases, inl, inr, ◌⊎◌, subst, sym,
}
use trace_ux.Panel.Connection.{
  Connection, Settings, poll_interval, ticket_poll_interval, retry_delay, is_some, enabled,
  schedule_socket_retry, connect_socket, schedule_next, schedule_ticket_poll, load_announcements,
  load_and_schedule, load_tickets, Answer, unreachable, limited, refused, unreadable, listed,
  take_announcements, on_announcements, on_chained, take_tickets, on_tickets, poll_fires,
  ticket_poll_fires, retry_fires, reconcile, on_open, on_closing, load_if_visible, fall_back,
  on_close, catch_up, on_visibility, on_ticket_created, on_socket_ticket, show_tickets, destroy,
  mounted, start, Happening, polled, ticket_polled, retried, announcements_came, chained_came,
  tickets_came, socket_opened, socket_closing, socket_closed, visibility_changed, ticket_created,
  ticket_pushed, tickets_shown, removed, step, run,
}

-- A timer that is set waits for so long.
abbrev pub Waits : ℕ → ℕ → Option ℕ → Type 0
Waits low high none = Unit
Waits low high (some d) = (low ≤ d) × (d ≤ high)

power_pos : (n : ℕ) → 1 ≤ 2 ^ n
power_pos zero = omega arith
power_pos (suc n) = omega (arith, power_pos n)

retry_delay-Waits : (n : ℕ) → Waits 1_000 30_000 (some (retry_delay n))
unfolding retry_delay
retry_delay-Waits n = (omega (arith, power_pos (min n 5)), omega arith)

-- The intervals and timers of a widget, from the intervals `p` and `t` of its configuration: the
-- back-off goes up to a quarter of an hour.
pub record Timed (p t : ℕ) (c : Connection) : Type 0 where
  pub base : c.base_interval ≡ p
  pub ticket_base : c.ticket_base_interval ≡ t
  pub interval : Waits (min p 900_000) (max p 900_000) (some c.interval)
  pub ticket_interval : Waits (min t 900_000) (max t 900_000) (some c.ticket_interval)
  pub timer : Waits (min p 900_000) (max p 900_000) c.timer
  pub ticket_timer : Waits (min t 900_000) (max t 900_000) c.ticket_timer
  pub retry_timer : Waits 1_000 30_000 c.retry_timer

schedule_next-Timed : (p t : ℕ) (c : Connection) → Timed p t c → Timed p t (schedule_next c)
unfolding schedule_next
schedule_next-Timed p t c v = ground (arith, v)

schedule_ticket_poll-Timed :
    (p t : ℕ) (c : Connection) → Timed p t c → Timed p t (schedule_ticket_poll c)
unfolding schedule_ticket_poll
schedule_ticket_poll-Timed p t c v = ground (arith, v)

schedule_socket_retry-Timed :
    (p t : ℕ) (c : Connection) → Timed p t c → Timed p t (schedule_socket_retry c)
unfolding schedule_socket_retry
schedule_socket_retry-Timed p t c v = ground (arith, v, retry_delay-Waits c.retry_count)

load_tickets-Timed : (p t : ℕ) (c : Connection) → Timed p t c → Timed p t (load_tickets c)
unfolding load_tickets
load_tickets-Timed p t c v = ground (arith, v)

load_announcements-Timed :
    (p t : ℕ) (c : Connection) → Timed p t c → Timed p t (load_announcements c)
unfolding load_announcements
load_announcements-Timed p t c v = ground (arith, v)

take_announcements-Timed :
    (p t : ℕ) (a : Answer) (c : Connection) → Timed p t c → Timed p t (take_announcements a c)
unfolding take_announcements
take_announcements-Timed p t unreachable c v = v
take_announcements-Timed p t limited c v = ground (arith, v)
take_announcements-Timed p t refused c v = v
take_announcements-Timed p t unreadable c v = ground (arith, v)
take_announcements-Timed p t (listed live) c v = ground (arith, v)

connect_socket-Timed :
    (p t : ℕ) (throws : Bool) (c : Connection) → Timed p t c → Timed p t (connect_socket throws c)
unfolding connect_socket
connect_socket-Timed p t throws c v = ground (arith, v, schedule_socket_retry-Timed p t c v)

load_and_schedule-Timed : (p t : ℕ) (c : Connection) → Timed p t c → Timed p t (load_and_schedule c)
unfolding load_and_schedule schedule_next
load_and_schedule-Timed p t c v = ground (arith, v)

poll_fires-Timed : (p t : ℕ) (c : Connection) → Timed p t c → Timed p t (poll_fires c)
unfolding poll_fires load_and_schedule schedule_next
poll_fires-Timed p t c v = ground (arith, v)

ticket_poll_fires-Timed : (p t : ℕ) (c : Connection) → Timed p t c → Timed p t (ticket_poll_fires c)
unfolding ticket_poll_fires load_tickets schedule_ticket_poll
ticket_poll_fires-Timed p t c v = ground (arith, v)

no_retry-Timed :
    (p t : ℕ) (c : Connection) → Timed p t c → Timed p t (record c { retry_timer = none })
no_retry-Timed p t c v = ground (arith, v)

retry_fires-Timed :
    (p t : ℕ) (throws : Bool) (c : Connection) → Timed p t c → Timed p t (retry_fires throws c)
unfolding retry_fires
retry_fires-Timed p t throws c v = elim (Bool-cases (is_some c.retry_timer)) [
  | inl r ↦
      rw r
        (connect_socket-Timed p t throws (record c { retry_timer = none }) (no_retry-Timed p t c v))
  | inr r ↦ rw r v
]

on_announcements-Timed :
    (p t : ℕ) (a : Answer) (c : Connection) → Timed p t c → Timed p t (on_announcements a c)
unfolding on_announcements
on_announcements-Timed p t a c v =
    let w : Timed p t (record c { loose = c.loose - 1 }) = ground (arith, v) in
    ground (arith, v, take_announcements-Timed p t a (record c { loose = c.loose - 1 }) w)

on_chained-Timed :
    (p t : ℕ) (a : Answer) (c : Connection) → Timed p t c → Timed p t (on_chained a c)
unfolding on_chained
on_chained-Timed p t a c v =
    let u = record c { chained = c.chained - 1 } in
    let w : Timed p t u = ground (arith, v) in
    ground (
      arith,
      v,
      schedule_next-Timed p t (take_announcements a u) (take_announcements-Timed p t a u w),
    )

on_tickets-Timed :
    (p t : ℕ) (a : Answer) (c : Connection) → Timed p t c → Timed p t (on_tickets a c)
unfolding on_tickets take_tickets schedule_ticket_poll
on_tickets-Timed p t unreachable c v = ground (arith, v)
on_tickets-Timed p t limited c v = ground (arith, v)
on_tickets-Timed p t refused c v = ground (arith, v)
on_tickets-Timed p t unreadable c v = ground (arith, v)
on_tickets-Timed p t (listed live) c v = ground (arith, v)

on_open-Timed : (p t n : ℕ) (c : Connection) → Timed p t c → Timed p t (on_open n c)
unfolding on_open reconcile load_announcements load_tickets
on_open-Timed p t n c v = ground (arith, v)

load_if_visible-Timed :
    (p t : ℕ) (history : Bool) (c : Connection)
    → Timed p t c
    → Timed p t (load_if_visible history c)
unfolding load_announcements load_tickets
load_if_visible-Timed p t history c v = ground (arith, v)

fall_back-Timed :
    (p t : ℕ) (history : Bool) (c : Connection) → Timed p t c → Timed p t (fall_back history c)
unfolding fall_back
fall_back-Timed p t history c v =
    let c1 = load_if_visible history c in
    let c2 = schedule_next c1 in
    let v2 = schedule_next-Timed p t c1 (load_if_visible-Timed p t history c v) in
    schedule_socket_retry-Timed p t (schedule_ticket_poll c2) (schedule_ticket_poll-Timed p t c2 v2)

on_close-Timed :
    (p t n : ℕ) (history : Bool) (c : Connection) → Timed p t c → Timed p t (on_close n history c)
unfolding on_close
on_close-Timed p t n history c v =
    let u = record c { socket = none; connected = false } in
    let w : Timed p t u = ground (arith, v) in ground (arith, v, w, fall_back-Timed p t history u w)

catch_up-Timed :
    (p t : ℕ) (history stale : Bool) (c : Connection)
    → Timed p t c
    → Timed p t (catch_up history stale c)
unfolding load_announcements load_tickets
catch_up-Timed p t history stale c v = ground (arith, v)

visibility_cases :
    (visible history stale throws : Bool) (c : Connection)
    → let u = record c { visible = visible } in
      let r = on_visibility visible history stale throws c in
      (r ≡ u)
      ⊎ (r ≡ catch_up history stale u)
      ⊎ (r ≡ catch_up history stale (connect_socket throws u))
unfolding on_visibility
visibility_cases visible history stale throws c = elim (Bool-cases (c.destroyed || not visible)) [
  | inl d ↦ inl (rw d refl)
  | inr d ↦ elim (Bool-cases (is_some c.socket)) [
    | inl k ↦ inr (inl (rw d (rw k refl)))
    | inr k ↦ inr (inr (rw d (rw k refl)))
  ]
]

on_visibility-Timed :
    (p t : ℕ) (visible history stale throws : Bool) (c : Connection)
    → Timed p t c
    → Timed p t (on_visibility visible history stale throws c)
on_visibility-Timed p t visible history stale throws c v =
    let u = record c { visible = visible } in
    let w : Timed p t u = ground (arith, v) in
    elim (visibility_cases visible history stale throws c) [
      | inl e ↦ subst (Timed p t) (sym e) w
      | inr (inl e) ↦ subst (Timed p t) (sym e) (catch_up-Timed p t history stale u w)
      | inr (inr e) ↦ subst (Timed p t) (sym e) (
          catch_up-Timed p t history stale (connect_socket throws u)
            (connect_socket-Timed p t throws u w))
    ]

step-Timed : (p t : ℕ) (h : Happening) (c : Connection) → Timed p t c → Timed p t (step h c)
unfolding step
step-Timed p t polled c v = poll_fires-Timed p t c v
step-Timed p t ticket_polled c v = ticket_poll_fires-Timed p t c v
step-Timed p t (retried throws) c v = retry_fires-Timed p t throws c v
step-Timed p t (announcements_came a) c v = on_announcements-Timed p t a c v
step-Timed p t (chained_came a) c v = on_chained-Timed p t a c v
step-Timed p t (tickets_came a) c v = on_tickets-Timed p t a c v
step-Timed p t (socket_opened n) c v = on_open-Timed p t n c v
step-Timed p t (socket_closing n) c v = unfold on_closing in ground (arith, v)
step-Timed p t (socket_closed n history) c v = on_close-Timed p t n history c v
step-Timed p t (visibility_changed b h s w) c v = on_visibility-Timed p t b h s w c v
step-Timed p t ticket_created c v =
    unfold on_ticket_created schedule_ticket_poll in ground (arith, v)
step-Timed p t (ticket_pushed live) c v = unfold on_socket_ticket in ground (arith, v)
step-Timed p t (tickets_shown stale) c v = unfold show_tickets load_tickets in ground (arith, v)
step-Timed p t removed c v = unfold destroy in ground (arith, v)

run-Timed : (p t : ℕ) (hs : List Happening) (c : Connection) → Timed p t c → Timed p t (run hs c)
unfolding run
run-Timed p t [] c v = v
run-Timed p t (h ∷ hs) c v = run-Timed p t hs (step h c) (step-Timed p t h c v)

mounted-Timed : (s : Settings) → Timed (poll_interval s) (ticket_poll_interval s) (mounted s)
unfolding mounted
mounted-Timed s = ground arith

either-Timed :
    (p t : ℕ) (b : Bool) (c u : Connection)
    → Timed p t c
    → Timed p t u
    → Timed p t (if b then c else u)
either-Timed p t true c u v w = v
either-Timed p t false c u v w = w

start-Timed : (s : Settings) → Timed (poll_interval s) (ticket_poll_interval s) (start s)
unfolding start
start-Timed s =
    let p = poll_interval s in
    let t = ticket_poll_interval s in
    let c = mounted s in
    let v = mounted-Timed s in
    let d = connect_socket s.throws c in
    let c1 = if enabled c then d else c in
    let v1 = either-Timed p t (enabled c) d c (connect_socket-Timed p t s.throws c v) v in
    let c2 = if c.updates_enabled then load_and_schedule c1 else c1 in
    let v2 =
      either-Timed p t c.updates_enabled (load_and_schedule c1) c1
        (load_and_schedule-Timed p t c1 v1) v1 in
    either-Timed p t c.tickets_enabled (load_tickets c2) c2 (load_tickets-Timed p t c2 v2) v2

-- At any time of a widget's life the waits that are set are bounded: an attempt to open the socket
-- again waits between one and thirty seconds, and a poll at least its configured interval (or a
-- quarter of an hour, where that is less) and at most a quarter of an hour (or its interval, where
-- that is more), however often the server limits it.
pub start-run-Timed :
    (s : Settings) (hs : List Happening)
    → Timed (poll_interval s) (ticket_poll_interval s) (run hs (start s))
start-run-Timed s hs =
    run-Timed (poll_interval s) (ticket_poll_interval s) hs (start s) (start-Timed s)
