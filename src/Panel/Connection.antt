-- ===== src/Panel/Connection.antt =====
-- How a mounted widget hears of news (tracker/src/widget.ts): the socket, and the polls that stand in
-- for it. Timers, answers and the socket's events come in any order; a timer that is set holds its
-- delay. What is in the announcements is left out. `history` is what hasTicketHistory says, `stale`
-- that the tickets were fetched over 30 seconds ago, `throws` that the WebSocket constructor does.
pub mod Keeps
pub mod Bounds
pub mod Ends
use trace_ux.Base.{
  ℕ, zero, suc, ◌+◌, ◌-◌, ◌*◌, ◌^◌, ◌≤◌, Bool, true, false, not, ◌&&◌, ◌||◌, Option, none, some,
  List, [], ◌∷◌, ltb, leb, ◌==◌, if◌then◌else◌, min, max,
}

pub data Phase : Type 0 where
  connecting : Phase
  opened : Phase
  closing : Phase

-- The sockets are numbered as they are made.
pub record Socket : Type 0 where
  pub number : ℕ
  pub phase : Phase

-- `chained` and `loose` are the announcement requests under way, those with scheduleNext behind
-- them and the others; `requests` counts all requests and sockets.
pub record Connection : Type 0 where
  pub updates_enabled : Bool
  pub tickets_enabled : Bool
  pub can_socket : Bool
  pub visible : Bool
  pub destroyed : Bool
  pub socket : Option Socket
  pub next_number : ℕ
  pub connected : Bool
  pub retry_timer : Option ℕ
  pub retry_count : ℕ
  pub timer : Option ℕ
  pub interval : ℕ
  pub base_interval : ℕ
  pub ticket_timer : Option ℕ
  pub ticket_interval : ℕ
  pub ticket_base_interval : ℕ
  pub has_live_ticket : Bool
  pub ticket_retry_pending : Bool
  pub ticket_list_loading : Bool
  pub chained : ℕ
  pub loose : ℕ
  pub requests : ℕ

abbrev pub is_some {ℓ} : {A : Type ℓ} → Option A → Bool
is_some none = false
is_some (some x) = true

abbrev pub is_closing : Phase → Bool
is_closing connecting = false
is_closing opened = false
is_closing closing = true

-- `readyState` is CONNECTING or OPEN.
abbrev pub in_use : Option Socket → Bool
in_use none = false
in_use (some s) = not (is_closing s.phase)

unfoldable pub retry_delay : ℕ → ℕ
retry_delay count = min 30_000 (1_000 * 2 ^ min count 5)

unfoldable pub schedule_socket_retry : Connection → Connection
unfolding retry_delay
schedule_socket_retry c =
    if c.destroyed || is_some c.retry_timer || not c.visible then c else record c {
      retry_timer = some (retry_delay c.retry_count);
      retry_count = suc c.retry_count;
    }

abbrev pub enabled : Connection → Bool
enabled c = c.updates_enabled || c.tickets_enabled

unfoldable pub connect_socket : Bool → Connection → Connection
unfolding schedule_socket_retry
connect_socket throws c =
    if c.destroyed || not (enabled c) || not c.can_socket || in_use c.socket
    then c
    else if throws
    then schedule_socket_retry c
    else record c {
      socket = some (record { number = c.next_number; phase = connecting });
      next_number = suc c.next_number;
      requests = suc c.requests;
    }

unfoldable pub schedule_next : Connection → Connection
schedule_next c = record c { timer = if c.connected then none else some c.interval }

abbrev pub polls_tickets : Connection → Bool
polls_tickets c = not (
    c.connected
    || not c.tickets_enabled
    || c.destroyed
    || not c.has_live_ticket && not c.ticket_retry_pending)

unfoldable pub schedule_ticket_poll : Connection → Connection
schedule_ticket_poll c = record c {
  ticket_timer = if polls_tickets c then some c.ticket_interval else none;
}

-- `loadAnnouncements`, up to its answer, alone and with scheduleNext behind it.
unfoldable pub load_announcements : Connection → Connection
load_announcements c =
    if c.updates_enabled && not c.destroyed
    then record c { loose = suc c.loose; requests = suc c.requests }
    else c

unfoldable pub load_and_schedule : Connection → Connection
unfolding schedule_next
load_and_schedule c =
    if c.updates_enabled && not c.destroyed
    then record c { chained = suc c.chained; requests = suc c.requests }
    else schedule_next c

-- One request at a time.
unfoldable pub load_tickets : Connection → Connection
load_tickets c =
    if c.ticket_list_loading || not c.tickets_enabled || c.destroyed
    then c
    else record c { ticket_list_loading = true; requests = suc c.requests }

-- `listed` with whether a ticket of the list is live.
pub data Answer : Type 0 where
  unreachable : Answer
  limited : Answer
  refused : Answer
  unreadable : Answer
  listed : (live : Bool) → Answer

abbrev pub back_off : ℕ → ℕ
back_off interval = min (interval * 2) 900_000

-- What an answer does to the interval, once its body is read.
unfoldable pub take_announcements : Answer → Connection → Connection
take_announcements unreachable c = c
take_announcements limited c = record c { interval = back_off c.interval }
take_announcements refused c = c
take_announcements unreadable c = record c { interval = c.base_interval }
take_announcements (listed live) c = record c { interval = c.base_interval }

unfoldable pub on_announcements : Answer → Connection → Connection
unfolding take_announcements
on_announcements a c =
    if c.loose == 0 then c else take_announcements a (record c { loose = c.loose - 1 })

unfoldable pub on_chained : Answer → Connection → Connection
unfolding take_announcements schedule_next
on_chained a c =
    if c.chained == 0
    then c
    else schedule_next (take_announcements a (record c { chained = c.chained - 1 }))

unfoldable pub take_tickets : Answer → Connection → Connection
unfolding schedule_ticket_poll
take_tickets unreachable c = c
take_tickets limited c =
    schedule_ticket_poll
      (record c { ticket_retry_pending = true; ticket_interval = back_off c.ticket_interval })
take_tickets refused c = c
take_tickets unreadable c = c
take_tickets (listed live) c =
    if c.destroyed
    then c
    else schedule_ticket_poll (record c {
      ticket_interval = c.ticket_base_interval;
      ticket_retry_pending = false;
      has_live_ticket = live;
    })

unfoldable pub on_tickets : Answer → Connection → Connection
unfolding take_tickets
on_tickets a c =
    if c.ticket_list_loading then take_tickets a (record c { ticket_list_loading = false }) else c

-- The timers.
unfoldable pub poll_fires : Connection → Connection
unfolding load_and_schedule schedule_next
poll_fires c =
    let c' = record c { timer = none } in
    if not (is_some c.timer)
    then c
    else if c.destroyed
    then c'
    else if c.visible
    then load_and_schedule c'
    else schedule_next c'

unfoldable pub ticket_poll_fires : Connection → Connection
unfolding load_tickets schedule_ticket_poll
ticket_poll_fires c =
    let c' = record c { ticket_timer = none } in
    if not (is_some c.ticket_timer)
    then c
    else if c.destroyed
    then c'
    else if c.visible
    then load_tickets c'
    else schedule_ticket_poll c'

unfoldable pub retry_fires : Bool → Connection → Connection
unfolding connect_socket
retry_fires throws c =
    if is_some c.retry_timer then connect_socket throws (record c { retry_timer = none }) else c

abbrev pub is_current : ℕ → Option Socket → Bool
is_current n none = false
is_current n (some s) = s.number == n

-- The socket's events. One that is no longer the widget's own closes itself, and changes nothing.
unfoldable pub reconcile : Connection → Connection
unfolding load_announcements load_tickets
reconcile c =
    let c' = if c.updates_enabled then load_announcements c else c in
    if c.tickets_enabled then load_tickets c' else c'

unfoldable pub on_open : ℕ → Connection → Connection
unfolding reconcile
on_open n c =
    if not (is_current n c.socket) || c.destroyed
    then c
    else reconcile (record c {
      socket = some (record { number = n; phase = opened });
      connected = true;
      retry_count = 0;
      retry_timer = none;
      timer = none;
      ticket_timer = none;
    })

-- The connection starts to close, from the other side.
unfoldable pub on_closing : ℕ → Connection → Connection
on_closing n c =
    if is_current n c.socket
    then record c { socket = some (record { number = n; phase = closing }) }
    else c

abbrev pub load_if_visible : Bool → Connection → Connection
load_if_visible history c =
    if not c.visible
    then c
    else let c' = if c.updates_enabled then load_announcements c else c in
      if c.tickets_enabled && history then load_tickets c' else c'

unfoldable pub fall_back : Bool → Connection → Connection
unfolding load_announcements load_tickets schedule_next schedule_ticket_poll schedule_socket_retry
fall_back history c =
    schedule_socket_retry (schedule_ticket_poll (schedule_next (load_if_visible history c)))

unfoldable pub on_close : ℕ → Bool → Connection → Connection
unfolding fall_back
on_close n history c =
    let c' = record c { socket = none; connected = false } in
    if not (is_current n c.socket) then c else if c.destroyed then c' else fall_back history c'

-- `onVisibility`, with the new state of the document.
abbrev pub catch_up : Bool → Bool → Connection → Connection
catch_up history stale c =
    if c.connected
    then c
    else let c' = load_announcements c in
      if c.tickets_enabled && history && stale then load_tickets c' else c'

unfoldable pub on_visibility : Bool → Bool → Bool → Bool → Connection → Connection
unfolding connect_socket load_announcements load_tickets
on_visibility visible history stale throws c =
    let c' = record c { visible = visible } in
    if c.destroyed || not visible
    then c'
    else catch_up history stale (if is_some c.socket then c' else connect_socket throws c')

-- A ticket that was sent is created; a ticket comes over the socket; the tickets are shown.
unfoldable pub on_ticket_created : Connection → Connection
unfolding schedule_ticket_poll
on_ticket_created c = schedule_ticket_poll (record c { has_live_ticket = true })

unfoldable pub on_socket_ticket : Bool → Connection → Connection
on_socket_ticket live c = if c.connected then record c { has_live_ticket = live } else c

unfoldable pub show_tickets : Bool → Connection → Connection
unfolding load_tickets
show_tickets stale c = if stale then load_tickets c else c

unfoldable pub destroy : Connection → Connection
destroy c = record c {
  destroyed = true;
  timer = none;
  ticket_timer = none;
  retry_timer = none;
  socket = none;
}

abbrev pub or_else : ℕ → ℕ → ℕ
or_else n d = if n == 0 then d else n

-- The configuration, zero where it gives no interval, and what the browser gives a widget at first.
pub record Settings : Type 0 where
  pub updates_enabled : Bool
  pub tickets_enabled : Bool
  pub poll_interval_ms : ℕ
  pub ticket_poll_interval_ms : ℕ
  pub can_socket : Bool
  pub visible : Bool
  pub throws : Bool

abbrev pub poll_interval : Settings → ℕ
poll_interval s = max 5_000 (or_else s.poll_interval_ms 300_000)

abbrev pub ticket_poll_interval : Settings → ℕ
ticket_poll_interval s = max 15_000 (or_else s.ticket_poll_interval_ms 15_000)

-- A widget before its start.
unfoldable pub mounted : Settings → Connection
mounted s = record {
  updates_enabled = s.updates_enabled;
  tickets_enabled = s.tickets_enabled;
  can_socket = s.can_socket;
  visible = s.visible;
  destroyed = false;
  socket = none;
  next_number = 0;
  connected = false;
  retry_timer = none;
  retry_count = 0;
  timer = none;
  interval = poll_interval s;
  base_interval = poll_interval s;
  ticket_timer = none;
  ticket_interval = ticket_poll_interval s;
  ticket_base_interval = ticket_poll_interval s;
  has_live_ticket = false;
  ticket_retry_pending = false;
  ticket_list_loading = false;
  chained = 0;
  loose = 0;
  requests = 0;
}

unfoldable pub start : Settings → Connection
unfolding mounted connect_socket load_and_schedule load_tickets
start s =
    let c = mounted s in
    let c1 = if enabled c then connect_socket s.throws c else c in
    let c2 = if c.updates_enabled then load_and_schedule c1 else c1 in
    if c.tickets_enabled then load_tickets c2 else c2

pub data Happening : Type 0 where
  polled : Happening
  ticket_polled : Happening
  retried : (throws : Bool) → Happening
  announcements_came : Answer → Happening
  chained_came : Answer → Happening
  tickets_came : Answer → Happening
  socket_opened : ℕ → Happening
  socket_closing : ℕ → Happening
  socket_closed : ℕ → (history : Bool) → Happening
  visibility_changed : (visible history stale throws : Bool) → Happening
  ticket_created : Happening
  ticket_pushed : (live : Bool) → Happening
  tickets_shown : (stale : Bool) → Happening
  removed : Happening

unfoldable pub step : Happening → Connection → Connection
step polled c = poll_fires c
step ticket_polled c = ticket_poll_fires c
step (retried throws) c = retry_fires throws c
step (announcements_came a) c = on_announcements a c
step (chained_came a) c = on_chained a c
step (tickets_came a) c = on_tickets a c
step (socket_opened n) c = on_open n c
step (socket_closing n) c = on_closing n c
step (socket_closed n history) c = on_close n history c
step (visibility_changed visible history stale throws) c =
    on_visibility visible history stale throws c
step ticket_created c = on_ticket_created c
step (ticket_pushed live) c = on_socket_ticket live c
step (tickets_shown stale) c = show_tickets stale c
step removed c = destroy c

unfoldable pub run : List Happening → Connection → Connection
run [] c = c
run (h ∷ hs) c = run hs (step h c)
