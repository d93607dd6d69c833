-- ===== src/Panel/Tickets.antt =====
-- The tickets of a mounted widget (tracker/src/widget.ts): the list, the open conversation, the
-- conversations that are kept, and the toasts. The server's answers and the socket's events come in
-- any order. Of a ticket and a message only the fields that are read here are kept; the maps are
-- functions. An aborted load is gone, since its answer changes nothing.
pub mod Matches
pub mod Opened
pub mod Toasted
pub mod Listed
use trace_ux.Base.{
  ℕ, zero, suc, ◌+◌, ◌-◌, ◌≤◌, Bool, true, false, not, ◌&&◌, ◌||◌, Option, none, some, List, [],
  ◌∷◌, ◌++◌, map, ltb, leb, ◌==◌, if◌then◌else◌, length, filter,
}

pub data TicketStatus : Type 0 where
  open_ticket : TicketStatus
  in_progress : TicketStatus
  under_review : TicketStatus
  closed : TicketStatus
  archived : TicketStatus

pub record Ticket : Type 0 where
  pub id : ℕ
  pub status : TicketStatus
  pub message_count : ℕ
  pub last_message_at : ℕ
  pub from_staff : Bool

pub record Message : Type 0 where
  pub id : ℕ
  pub from_staff : Bool

pub record Thread : Type 0 where
  pub ticket : Ticket
  pub messages : List Message

pub data View : Type 0 where
  listing : View
  thread_of : ℕ → View
  writing : View

-- A load of a conversation, with the attempts that have failed.
pub record Load : Type 0 where
  pub id : ℕ
  pub attempt : ℕ

pub record Toast : Type 0 where
  pub id : ℕ
  pub count : ℕ

-- `on_section` tells whether the tickets are the panel's section; `toasts` are newest first.
pub record Tickets : Type 0 where
  pub tickets : List Ticket
  pub thread : Option Thread
  pub view : View
  pub threads : ℕ → Option Thread
  pub read_markers : ℕ → ℕ
  pub toast_markers : ℕ → Option ℕ
  pub notifying : ℕ → Bool
  pub panel_open : Bool
  pub on_section : Bool
  pub destroyed : Bool
  pub load : Option Load
  pub error : Bool
  pub toasts : List Toast

unfoldable pub put {ℓ} : {A : Type ℓ} → ℕ → A → (ℕ → A) → ℕ → A
put k v f j = if j == k then v else f j

abbrev pub is_archived : TicketStatus → Bool
is_archived open_ticket = false
is_archived in_progress = false
is_archived under_review = false
is_archived closed = false
is_archived archived = true

abbrev pub is_ticket_unread : Tickets → Ticket → Bool
is_ticket_unread s t =
    not (is_archived t.status) && t.from_staff && ltb (s.read_markers t.id) t.message_count

unfoldable pub mark_ticket_read : Ticket → Tickets → Tickets
unfolding put
mark_ticket_read t s =
    if leb t.message_count (s.read_markers t.id)
    then s
    else record s { read_markers = put t.id t.message_count s.read_markers }

unfoldable pub remember_thread : Thread → Tickets → Tickets
unfolding put
remember_thread th s = record s { thread = some th; threads = put th.ticket.id (some th) s.threads }

unfoldable pub find_ticket : ℕ → List Ticket → Option Ticket
find_ticket n [] = none
find_ticket n (t ∷ ts) = let rest = find_ticket n ts in if t.id == n then some t else rest

unfoldable pub without : ℕ → List Ticket → List Ticket
unfolding filter
without n ts = filter (λ t. not (t.id == n)) ts

-- The order of the list: the newest message first, then the larger id.
abbrev pub before : Ticket → Ticket → Bool
before a b =
    ltb b.last_message_at a.last_message_at
    || a.last_message_at == b.last_message_at && ltb b.id a.id

-- `sort`, which keeps the order of equals.
unfoldable pub insert : Ticket → List Ticket → List Ticket
insert t [] = t ∷ []
insert t (u ∷ us) = let rest = insert t us in if before u t then u ∷ rest else t ∷ u ∷ us

unfoldable pub sort : List Ticket → List Ticket
unfolding insert
sort [] = []
sort (t ∷ ts) = insert t (sort ts)

-- A kept conversation that has as many messages as its ticket says stays, with the new ticket.
abbrev pub renewed : Option Ticket → Option Thread → Option Thread
renewed none th = none
renewed (some t) none = none
renewed (some t) (some th) =
    if t.message_count == length th.messages then some (record th { ticket = t }) else none

abbrev pub views : ℕ → View → Bool
views n listing = false
views n (thread_of m) = m == n
views n writing = false

abbrev pub write_back : Ticket → Option Thread → Tickets → Tickets
write_back t none s = s
write_back t (some th) s = remember_thread (record th { ticket = t }) s

unfoldable pub upsert_ticket : Ticket → Tickets → Tickets
unfolding remember_thread without sort put
upsert_ticket t s =
    let s' = record s {
      threads = put t.id (renewed (some t) (s.threads t.id)) s.threads;
      tickets = sort (t ∷ without t.id s.tickets);
    } in
    if s.panel_open && s.on_section && views t.id s.view then write_back t s.thread s' else s'

unfoldable pub has_message : ℕ → List Message → Bool
has_message n [] = false
has_message n (m ∷ ms) = m.id == n || has_message n ms

abbrev pub append_to : Message → Option Thread → Tickets → Tickets
append_to m none s = s
append_to m (some th) s =
    if has_message m.id th.messages
    then s
    else remember_thread (record th { messages = th.messages ++ m ∷ [] }) s

unfoldable pub append_message : Message → Tickets → Tickets
unfolding remember_thread has_message
append_message m s = append_to m s.thread s

abbrev pub same_count : Option ℕ → ℕ → Bool
same_count none n = false
same_count (some m) n = m == n

-- A toast for a ticket, unless it was shown for as many messages.
unfoldable pub show_toast : Ticket → Tickets → Tickets
unfolding put
show_toast t s = if same_count (s.toast_markers t.id) t.message_count then s else record s {
  toast_markers = put t.id (some t.message_count) s.toast_markers;
  toasts = record { id = t.id; count = t.message_count } ∷ s.toasts;
}

abbrev pub has_thread : Option Thread → Bool
has_thread none = false
has_thread (some th) = true

-- The rest of handleWidgetSocketEvent for a message.
abbrev pub take_message : Ticket → Message → Tickets → Tickets
take_message t m s =
    if s.panel_open && s.on_section && views t.id s.view && has_thread s.thread
    then (if m.from_staff then mark_ticket_read t (append_message m s) else append_message m s)
    else if m.from_staff && not s.panel_open && is_ticket_unread s t
    then show_toast t s
    else s

unfoldable pub on_message : Ticket → Message → Tickets → Tickets
unfolding upsert_ticket append_message mark_ticket_read show_toast
on_message t m s = if s.destroyed then s else take_message t m (upsert_ticket t s)

unfoldable pub on_ticket : Ticket → Tickets → Tickets
unfolding upsert_ticket
on_ticket t s = if s.destroyed then s else upsert_ticket t s

abbrev pub loads : ℕ → Option Load → Bool
loads n none = false
loads n (some l) = l.id == n

unfoldable pub load_thread : ℕ → Bool → Tickets → Tickets
load_thread n render s =
    if s.destroyed || not render && loads n s.load
    then s
    else record s { load = some (record { id = n; attempt = 0 }); error = false }

pub data Answer : Type 0 where
  thread_came : Thread → Answer
  missing : Answer
  failed : Answer

abbrev pub come : Load → Thread → Tickets → Tickets
come l th s =
    let s' = record (remember_thread th s) { load = none; error = false } in
    if s.panel_open && s.on_section && views l.id s.view then mark_ticket_read th.ticket s' else s'

abbrev pub try_again : Bool → Load → Tickets → Tickets
try_again gone l s =
    if ltb l.attempt 3
    then record s { load = some (record l { attempt = suc l.attempt }) }
    else if gone
    then record s { load = none; error = true; threads = put l.id none s.threads; thread = none }
    else record s { load = none; error = true }

abbrev pub take_thread : Answer → Option Load → Tickets → Tickets
take_thread a none s = s
take_thread (thread_came th) (some l) s =
    if th.ticket.id == l.id then come l th s else try_again false l s
take_thread missing (some l) s = try_again true l s
take_thread failed (some l) s = try_again false l s

unfoldable pub on_thread : Answer → Tickets → Tickets
unfolding remember_thread mark_ticket_read put
on_thread a s = take_thread a s.load s

abbrev pub enter : Option Ticket → Option Thread → Tickets → Tickets
enter none th s = record s { thread = th }
enter (some t) none s = record (mark_ticket_read t s) { thread = none }
enter (some t) (some th) s = remember_thread (record th { ticket = t }) (mark_ticket_read t s)

unfoldable pub open_thread : ℕ → Tickets → Tickets
unfolding find_ticket mark_ticket_read remember_thread load_thread
open_thread n s =
    let s' = record (enter (find_ticket n s.tickets) (s.threads n) s) {
      view = thread_of n;
      error = false;
    } in
    load_thread n false s'

-- Back from a conversation, to a new ticket, and back from it.
unfoldable pub close_thread : Tickets → Tickets
close_thread s = record s { load = none; view = listing; thread = none; error = false }

abbrev pub is_listing : View → Bool
is_listing listing = true
is_listing (thread_of n) = false
is_listing writing = false

abbrev pub is_writing : View → Bool
is_writing listing = false
is_writing (thread_of n) = false
is_writing writing = true

unfoldable pub write_ticket : Tickets → Tickets
write_ticket s = if is_listing s.view then record s { view = writing; error = false } else s

unfoldable pub leave_form : Tickets → Tickets
leave_form s = if is_writing s.view then record s { view = listing; error = false } else s

unfoldable pub on_created : Ticket → Tickets → Tickets
unfolding without load_thread
on_created t s = load_thread t.id false (record s {
  tickets = t ∷ without t.id s.tickets;
  view = thread_of t.id;
  thread = none;
  error = false;
})

-- The answer to a reply.
unfoldable pub on_replied : Thread → Tickets → Tickets
unfolding remember_thread
on_replied th s = record (remember_thread th s) {
  tickets = map (λ t. if t.id == th.ticket.id then th.ticket else t) s.tickets;
  error = false;
}

unfoldable pub load_notification : Ticket → Tickets → Tickets
unfolding put
load_notification t s =
    if s.destroyed
      || s.panel_open
      || not (is_ticket_unread s t)
      || same_count (s.toast_markers t.id) t.message_count
      || s.notifying t.id
    then s
    else record s { notifying = put t.id true s.notifying }

unfoldable pub first_unread : Tickets → List Ticket → Option Ticket
first_unread s [] = none
first_unread s (t ∷ ts) =
    let rest = first_unread s ts in
    if is_ticket_unread s t && not (same_count (s.toast_markers t.id) t.message_count)
    then some t
    else rest

abbrev pub notify : Option Ticket → Tickets → Tickets
notify none s = s
notify (some t) s = load_notification t s

abbrev pub reload_view : View → Tickets → Tickets
reload_view listing s = s
reload_view (thread_of n) s = if s.error then s else load_thread n false s
reload_view writing s = s

-- fetchTickets, when the list is there.
unfoldable pub on_tickets : List Ticket → Tickets → Tickets
unfolding find_ticket load_thread load_notification first_unread
on_tickets next s =
    if s.destroyed
    then s
    else let s' = record s {
      tickets = next;
      threads = λ n. renewed (find_ticket n next) (s.threads n);
    } in
      if s.panel_open
      then (if s.on_section then reload_view s.view s' else s')
      else notify (first_unread s' next) s'

abbrev pub last_staff : List Message → Bool
last_staff [] = false
last_staff (m ∷ []) = m.from_staff
last_staff (m ∷ n ∷ ms) = last_staff (n ∷ ms)

abbrev pub keep_preview : Ticket → Thread → Tickets → Tickets
keep_preview t th s =
    if th.ticket.id == t.id then record s { threads = put t.id (some th) s.threads } else s

abbrev pub preview : Ticket → Thread → Tickets → Tickets
preview t th s =
    let shown = if th.ticket.id == t.id then th.ticket else t in
    if not (last_staff th.messages) || s.panel_open || not (is_ticket_unread s shown)
    then s
    else show_toast shown s

-- The answer of loadTicketNotification, none where it failed.
abbrev pub take_preview : Ticket → Option Thread → Tickets → Tickets
take_preview t none s = s
take_preview t (some th) s = if s.destroyed then s else preview t th (keep_preview t th s)

unfoldable pub on_preview : Ticket → Option Thread → Tickets → Tickets
unfolding put show_toast
on_preview t answer s = take_preview t answer (record s { notifying = put t.id false s.notifying })

unfoldable pub set_panel : Bool → Bool → Tickets → Tickets
set_panel panel_open on_section s = record s { panel_open = panel_open; on_section = on_section }

unfoldable pub destroy : Tickets → Tickets
destroy s = record s { destroyed = true; load = none }

pub data Happening : Type 0 where
  pushed : Ticket → Happening
  message_pushed : Ticket → Message → Happening
  list_came : List Ticket → Happening
  answered : Answer → Happening
  preview_came : Ticket → Option Thread → Happening
  opens_thread : ℕ → Happening
  closes_thread : Happening
  retries_load : ℕ → Happening
  starts_ticket : Happening
  leaves_form : Happening
  created : Ticket → Happening
  replied : Thread → Happening
  panel_set : (panel_open on_section : Bool) → Happening
  removed : Happening

unfoldable pub step : Happening → Tickets → Tickets
step (pushed t) s = on_ticket t s
step (message_pushed t m) s = on_message t m s
step (list_came ts) s = on_tickets ts s
step (answered a) s = on_thread a s
step (preview_came t answer) s = on_preview t answer s
step (opens_thread n) s = open_thread n s
step closes_thread s = close_thread s
step (retries_load n) s = if views n s.view then load_thread n true s else s
step starts_ticket s = write_ticket s
step leaves_form s = leave_form s
step (created t) s = on_created t s
step (replied th) s = on_replied th s
step (panel_set p o) s = set_panel p o s
step removed s = destroy s

unfoldable pub run : List Happening → Tickets → Tickets
run [] s = s
run (h ∷ hs) s = run hs (step h s)

-- A widget's tickets at first, with the markers that were stored.
unfoldable pub fresh : (ℕ → ℕ) → Tickets
fresh stored = record {
  tickets = [];
  thread = none;
  view = listing;
  threads = λ n. none;
  read_markers = stored;
  toast_markers = λ n. none;
  notifying = λ n. false;
  panel_open = false;
  on_section = false;
  destroyed = false;
  load = none;
  error = false;
  toasts = [];
}
