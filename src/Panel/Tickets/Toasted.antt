-- ===== src/Panel/Tickets/Toasted.antt =====
-- The toasts for tickets (tracker/src/widget.ts, handleWidgetSocketEvent, fetchTickets and
-- loadTicketNotification).
use trace_ux.Base.{
  ℕ, ◌<◌, ◌≡◌, ◌≢◌, refl, Bool, true, false, not, ◌&&◌, ◌||◌, Option, none, some, List, [], ◌∷◌,
  arith, ◌==◌, if◌then◌else◌, Bool-cases, Option-cases, inl, inr,
}
use trace_ux.Panel.Tickets.{
  Ticket, Message, Thread, View, listing, thread_of, writing, Toast, Tickets, put, is_ticket_unread,
  mark_ticket_read, remember_thread, find_ticket, renewed, views, upsert_ticket, append_message,
  same_count, is_archived, show_toast, has_thread, take_message, on_message, on_ticket, load_thread,
  Answer, thread_came, missing, failed, on_thread, open_thread, close_thread, write_ticket,
  leave_form, on_created, on_replied, load_notification, first_unread, notify, reload_view,
  on_tickets, keep_preview, preview, take_preview, last_staff, on_preview, set_panel, destroy,
  fresh, Happening, pushed, message_pushed, list_came, answered, preview_came, opens_thread,
  closes_thread, retries_load, starts_ticket, leaves_form, created, replied, panel_set, removed,
  step, run,
}

-- The message count of a ticket's last toast.
unfoldable pub last_toast : ℕ → List Toast → Option ℕ
last_toast n [] = none
last_toast n (t ∷ ts) = let rest = last_toast n ts in if t.id == n then some t.count else rest

-- No toast is for as many messages as the one before it of its ticket.
abbrev pub Unrepeated : List Toast → Type 0
Unrepeated [] = Unit
Unrepeated (t ∷ ts) = (last_toast t.id ts ≢ some t.count) × Unrepeated ts

record Marked (s : Tickets) : Type 0 where
  last : (n : ℕ) → s.toast_markers n ≡ last_toast n s.toasts
  unrepeated : Unrepeated s.toasts

other_count : (o : Option ℕ) (n : ℕ) → same_count o n ≡ false → o ≢ some n
other_count none n h e = cc
other_count (some m) n h e = ground (arith, h, e)

put-last_toast :
    (t : Ticket) (f : ℕ → Option ℕ) (ts : List Toast)
    → ((n : ℕ) → f n ≡ last_toast n ts)
    → (n : ℕ)
    → put t.id (some t.message_count) f n
      ≡ last_toast n (record { id = t.id; count = t.message_count } ∷ ts)
unfolding put last_toast
put-last_toast t f ts h n = ground (arith, h n)

show_toast-Marked : (t : Ticket) (s : Tickets) → Marked s → Marked (show_toast t s)
unfolding show_toast
show_toast-Marked t s v = elim (Bool-cases (same_count (s.toast_markers t.id) t.message_count)) [
  | inl e ↦ rw e v
  | inr e ↦ rw e (record {
    last = put-last_toast t s.toast_markers s.toasts v.last;
    unrepeated =
        (rw⁻¹ (v.last t.id) (other_count (s.toast_markers t.id) t.message_count e), v.unrepeated);
  })
]

-- Whatever leaves the markers and the toasts as they are.
same-Marked :
    (s u : Tickets) → u.toast_markers ≡ s.toast_markers → u.toasts ≡ s.toasts → Marked s → Marked u
same-Marked s u m t v = record {
  last = λ n. rw m (rw t (v.last n));
  unrepeated = rw t v.unrepeated;
}

-- What shows no toast.
record Silent (s u : Tickets) : Type 0 where
  markers : u.toast_markers ≡ s.toast_markers
  toasts : u.toasts ≡ s.toasts

Silent-Marked : (s u : Tickets) → Silent s u → Marked s → Marked u
Silent-Marked s u q v = same-Marked s u q.markers q.toasts v

upsert_ticket-Silent : (t : Ticket) (s : Tickets) → Silent s (upsert_ticket t s)
unfolding upsert_ticket remember_thread
upsert_ticket-Silent t s = ground (arith, Option-cases s.thread)

append_message-Silent : (m : Message) (s : Tickets) → Silent s (append_message m s)
unfolding append_message remember_thread
append_message-Silent m s = ground (arith, Option-cases s.thread)

mark_ticket_read-Silent : (t : Ticket) (s : Tickets) → Silent s (mark_ticket_read t s)
unfolding mark_ticket_read
mark_ticket_read-Silent t s = ground arith

load_thread-Silent : (n : ℕ) (render : Bool) (s : Tickets) → Silent s (load_thread n render s)
unfolding load_thread
load_thread-Silent n render s = ground arith

on_thread-Silent : (a : Answer) (s : Tickets) → Silent s (on_thread a s)
unfolding on_thread remember_thread mark_ticket_read
on_thread-Silent (thread_came th) s = ground (arith, Option-cases s.load)
on_thread-Silent missing s = ground (arith, Option-cases s.load)
on_thread-Silent failed s = ground (arith, Option-cases s.load)

open_thread-Silent : (n : ℕ) (s : Tickets) → Silent s (open_thread n s)
unfolding open_thread mark_ticket_read remember_thread load_thread
open_thread-Silent n s =
    ground (arith, Option-cases (find_ticket n s.tickets), Option-cases (s.threads n))

load_notification-Silent : (t : Ticket) (s : Tickets) → Silent s (load_notification t s)
unfolding load_notification
load_notification-Silent t s = ground arith

either-Marked : (b : Bool) (s u : Tickets) → Marked s → Marked u → Marked (if b then s else u)
either-Marked true s u v w = v
either-Marked false s u v w = w

take_message-Marked :
    (t : Ticket) (m : Message) (s : Tickets) → Marked s → Marked (take_message t m s)
take_message-Marked t m s v =
    let s1 = append_message m s in
    let v1 = Silent-Marked s s1 (append_message-Silent m s) v in
    let s2 = if m.from_staff then mark_ticket_read t s1 else s1 in
    let v2 =
      either-Marked m.from_staff (mark_ticket_read t s1) s1
        (Silent-Marked s1 (mark_ticket_read t s1) (mark_ticket_read-Silent t s1) v1) v1 in
    let b = m.from_staff && not s.panel_open && is_ticket_unread s t in
    either-Marked (s.panel_open && s.on_section && views t.id s.view && has_thread s.thread) s2
      (if b then show_toast t s else s) v2
      (either-Marked b (show_toast t s) s (show_toast-Marked t s v) v)

on_message-Marked : (t : Ticket) (m : Message) (s : Tickets) → Marked s → Marked (on_message t m s)
unfolding on_message
on_message-Marked t m s v =
    let u = upsert_ticket t s in
    either-Marked s.destroyed s (take_message t m u) v
      (take_message-Marked t m u (Silent-Marked s u (upsert_ticket-Silent t s) v))

notify-Silent : (t : Option Ticket) (s : Tickets) → Silent s (notify t s)
notify-Silent none s = record { markers = refl; toasts = refl }
notify-Silent (some t) s = load_notification-Silent t s

reload_view-Silent : (w : View) (s : Tickets) → Silent s (reload_view w s)
unfolding load_thread
reload_view-Silent listing s = record { markers = refl; toasts = refl }
reload_view-Silent (thread_of n) s = ground arith
reload_view-Silent writing s = record { markers = refl; toasts = refl }

on_tickets-Marked : (ts : List Ticket) (s : Tickets) → Marked s → Marked (on_tickets ts s)
unfolding on_tickets
on_tickets-Marked ts s v =
    let u = record s { tickets = ts; threads = λ n. renewed (find_ticket n ts) (s.threads n) } in
    let w : Marked u = record { last = v.last; unrepeated = v.unrepeated } in
    let x = reload_view s.view u in
    let y = notify (first_unread u ts) u in
    either-Marked s.destroyed s (if s.panel_open then (if s.on_section then x else u) else y) v (
      either-Marked s.panel_open (if s.on_section then x else u) y
        (either-Marked s.on_section x u (Silent-Marked u x (reload_view-Silent s.view u) w) w)
        (Silent-Marked u y (notify-Silent (first_unread u ts) u) w))

keep_preview-Silent : (t : Ticket) (th : Thread) (s : Tickets) → Silent s (keep_preview t th s)
keep_preview-Silent t th s = ground arith

preview-Marked : (t : Ticket) (th : Thread) (s : Tickets) → Marked s → Marked (preview t th s)
preview-Marked t th s v =
    let shown = if th.ticket.id == t.id then th.ticket else t in
    either-Marked (not (last_staff th.messages) || s.panel_open || not (is_ticket_unread s shown)) s
      (show_toast shown s) v (show_toast-Marked shown s v)

take_preview-Marked :
    (t : Ticket) (answer : Option Thread) (s : Tickets)
    → Marked s
    → Marked (take_preview t answer s)
take_preview-Marked t none s v = v
take_preview-Marked t (some th) s v =
    let u = keep_preview t th s in
    either-Marked s.destroyed s (preview t th u) v
      (preview-Marked t th u (Silent-Marked s u (keep_preview-Silent t th s) v))

on_preview-Marked :
    (t : Ticket) (answer : Option Thread) (s : Tickets) → Marked s → Marked (on_preview t answer s)
unfolding on_preview
on_preview-Marked t answer s v =
    take_preview-Marked t answer (record s { notifying = put t.id false s.notifying })
      (record { last = v.last; unrepeated = v.unrepeated })

step-Marked : (h : Happening) (s : Tickets) → Marked s → Marked (step h s)
unfolding step
step-Marked (pushed t) s v =
    unfold on_ticket in
    either-Marked s.destroyed s (upsert_ticket t s) v
      (Silent-Marked s (upsert_ticket t s) (upsert_ticket-Silent t s) v)
step-Marked (message_pushed t m) s v = on_message-Marked t m s v
step-Marked (list_came ts) s v = on_tickets-Marked ts s v
step-Marked (answered a) s v = Silent-Marked s (on_thread a s) (on_thread-Silent a s) v
step-Marked (preview_came t a) s v = on_preview-Marked t a s v
step-Marked (opens_thread n) s v = Silent-Marked s (open_thread n s) (open_thread-Silent n s) v
step-Marked closes_thread s v =
    unfold close_thread in record { last = v.last; unrepeated = v.unrepeated }
step-Marked (retries_load n) s v =
    either-Marked (views n s.view) (load_thread n true s) s
      (Silent-Marked s (load_thread n true s) (load_thread-Silent n true s) v) v
step-Marked starts_ticket s v =
    same-Marked s (write_ticket s) (unfold write_ticket in ground arith)
      (unfold write_ticket in ground arith) v
step-Marked leaves_form s v =
    same-Marked s (leave_form s) (unfold leave_form in ground arith)
      (unfold leave_form in ground arith) v
step-Marked (created t) s v =
    same-Marked s (on_created t s) (unfold on_created load_thread in ground arith)
      (unfold on_created load_thread in ground arith) v
step-Marked (replied th) s v =
    unfold on_replied remember_thread in record { last = v.last; unrepeated = v.unrepeated }
step-Marked (panel_set p o) s v =
    unfold set_panel in record { last = v.last; unrepeated = v.unrepeated }
step-Marked removed s v = unfold destroy in record { last = v.last; unrepeated = v.unrepeated }

run-Marked : (hs : List Happening) (s : Tickets) → Marked s → Marked (run hs s)
unfolding run
run-Marked [] s v = v
run-Marked (h ∷ hs) s v = run-Marked hs (step h s) (step-Marked h s v)

fresh-Marked : (stored : ℕ → ℕ) → Marked (fresh stored)
unfolding fresh
fresh-Marked stored = record { last = λ n. unfold last_toast in refl; unrepeated = tt }

-- Whatever comes in any order: of the toasts that a widget shows for a ticket, none is for as many
-- messages as the one right before it.
pub toasts-Unrepeated :
    (stored : ℕ → ℕ) (hs : List Happening) → Unrepeated (run hs (fresh stored)).toasts
toasts-Unrepeated stored hs = (run-Marked hs (fresh stored) (fresh-Marked stored)).unrepeated

-- An older toast can come between: where a preview was asked for before the last message and
-- answered after its toast, the widget shows the older toast again, and at the next list of tickets
-- and its preview the newer one a second time.
pub late_preview_repeats :
    (o t : Ticket) (m : Message) (s : Tickets)
    → o.id ≡ t.id
    → o.message_count < t.message_count
    → s.read_markers t.id < o.message_count
    → (is_archived o.status ≡ false) × (is_archived t.status ≡ false)
    → (o.from_staff ≡ true) × (t.from_staff ≡ true) × (m.from_staff ≡ true)
    → (s.panel_open ≡ false) × (s.destroyed ≡ false)
    → s.toast_markers t.id ≡ some t.message_count
    → let old : Thread = record { ticket = o; messages = m ∷ [] } in
      let new : Thread = record { ticket = t; messages = m ∷ [] } in
      let r =
        run (preview_came o (some old) ∷ list_came (t ∷ []) ∷ preview_came t (some new) ∷ []) s in
      r.toasts
      ≡ record { id = t.id; count = t.message_count }
        ∷ record { id = t.id; count = o.message_count }
        ∷ s.toasts
unfolding run step on_preview on_tickets show_toast put first_unread load_notification
late_preview_repeats o t m s i c r a f p k = ground (arith, i, c, r, a, f, p, k)
