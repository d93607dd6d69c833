-- ===== src/Panel/Tickets/Opened.antt =====
-- The open conversation (tracker/src/widget.ts, openTicketThread, loadTicketThread and the reply).
use trace_ux.Base.{
  ℕ, ◌≡◌, refl, inl, inr, true, false, not, ◌||◌, Option, none, some, List, [], ◌∷◌, arith, ◌==◌,
  if◌then◌else◌, Bool-cases, subst, sym,
}
use trace_ux.Panel.Tickets.{
  Ticket, Thread, View, listing, thread_of, writing, Tickets, put, is_ticket_unread,
  remember_thread, find_ticket, without, renewed, views, upsert_ticket, same_count, show_toast,
  on_ticket, load_thread, close_thread, is_listing, is_writing, write_ticket, leave_form,
  on_created, on_replied, load_notification, first_unread, notify, reload_view, on_tickets,
  keep_preview, preview, take_preview, last_staff, on_preview, set_panel, destroy, fresh, Happening,
  pushed, message_pushed, list_came, answered, preview_came, opens_thread, closes_thread,
  retries_load, starts_ticket, leaves_form, created, replied, panel_set, removed, step, run,
}
use trace_ux.Panel.Tickets.Matches.{
  LoadOf, ThreadOf, Agrees, put-KeptAs, renewed-KeptAs, views-thread_of, find_ticket-TicketOf,
  remember_thread-Agrees, show_toast-Agrees, load_thread-Agrees, either-Agrees, on_message-Agrees,
  on_ticket-Agrees, on_thread-Agrees, enter_thread, nothing_loads, nothing_open, listing-views,
  writing-views, open_thread-Agrees,
}

close_thread-Agrees : (s : Tickets) → Agrees s → Agrees (close_thread s)
unfolding close_thread
close_thread-Agrees s v = record { load = tt; thread = tt; kept = v.kept; gone = ground arith }

-- Another view, with no conversation open and none loading.
turned-Agrees :
    (w : View) (s : Tickets)
    → ((n : ℕ) → views n s.view ≡ false)
    → Agrees s
    → Agrees (record s { view = w; error = false })
turned-Agrees w s h v = record {
  load = subst (LoadOf w) (sym (nothing_loads s h v)) tt;
  thread = subst (ThreadOf w) (sym (nothing_open s h v)) tt;
  kept = v.kept;
  gone = v.gone;
}

write_ticket-Agrees : (s : Tickets) → Agrees s → Agrees (write_ticket s)
unfolding write_ticket
write_ticket-Agrees s v = elim (Bool-cases (is_listing s.view)) [
  | inl e ↦ rw e (turned-Agrees writing s (listing-views s.view e) v)
  | inr e ↦ rw e v
]

leave_form-Agrees : (s : Tickets) → Agrees s → Agrees (leave_form s)
unfolding leave_form
leave_form-Agrees s v = elim (Bool-cases (is_writing s.view)) [
  | inl e ↦ rw e (turned-Agrees listing s (writing-views s.view e) v)
  | inr e ↦ rw e v
]

on_created-Agrees : (t : Ticket) (s : Tickets) → Agrees s → Agrees (on_created t s)
unfolding on_created
on_created-Agrees t s v =
    enter_thread t.id s
      (record s {
        tickets = t ∷ without t.id s.tickets;
        view = thread_of t.id;
        thread = none;
        error = false;
      })
      refl refl refl tt v.kept v

load_notification-Agrees : (t : Ticket) (s : Tickets) → Agrees s → Agrees (load_notification t s)
unfolding load_notification
load_notification-Agrees t s v =
    either-Agrees
      (s.destroyed
        || s.panel_open
        || not (is_ticket_unread s t)
        || same_count (s.toast_markers t.id) t.message_count
        || s.notifying t.id)
      s (record s { notifying = put t.id true s.notifying }) v
      (record { load = v.load; thread = v.thread; kept = v.kept; gone = v.gone })

notify-Agrees : (t : Option Ticket) (s : Tickets) → Agrees s → Agrees (notify t s)
notify-Agrees none s v = v
notify-Agrees (some t) s v = load_notification-Agrees t s v

reload_view-Agrees : (w : View) (s : Tickets) → s.view ≡ w → Agrees s → Agrees (reload_view w s)
reload_view-Agrees listing s h v = v
reload_view-Agrees (thread_of n) s h v =
    either-Agrees s.error s (load_thread n false s) v (load_thread-Agrees n false s h v)
reload_view-Agrees writing s h v = v

on_tickets-Agrees : (ts : List Ticket) (s : Tickets) → Agrees s → Agrees (on_tickets ts s)
unfolding on_tickets
on_tickets-Agrees ts s v =
    let u = record s { tickets = ts; threads = λ n. renewed (find_ticket n ts) (s.threads n) } in
    let w : Agrees u = record {
      load = v.load;
      thread = v.thread;
      kept = λ n. renewed-KeptAs n (find_ticket n ts) (s.threads n) (find_ticket-TicketOf n ts);
      gone = v.gone;
    } in
    let x =
      either-Agrees s.on_section (reload_view s.view u) u (reload_view-Agrees s.view u refl w) w in
    let y = notify-Agrees (first_unread u ts) u w in
    either-Agrees s.destroyed s
      (if s.panel_open
        then (if s.on_section then reload_view s.view u else u)
        else notify (first_unread u ts) u)
      v
      (either-Agrees s.panel_open (if s.on_section then reload_view s.view u else u)
        (notify (first_unread u ts) u) x y)

keep_preview-Agrees :
    (t : Ticket) (th : Thread) (s : Tickets) → Agrees s → Agrees (keep_preview t th s)
keep_preview-Agrees t th s v = elim (Bool-cases (th.ticket.id == t.id)) [
  | inl e ↦ rw e (record {
    load = v.load;
    thread = v.thread;
    kept = put-KeptAs t.id (some th) s.threads (ground (arith, e)) v.kept;
    gone = v.gone;
  })
  | inr e ↦ rw e v
]

preview-Agrees : (t : Ticket) (th : Thread) (s : Tickets) → Agrees s → Agrees (preview t th s)
preview-Agrees t th s v =
    let shown = if th.ticket.id == t.id then th.ticket else t in
    either-Agrees (not (last_staff th.messages) || s.panel_open || not (is_ticket_unread s shown)) s
      (show_toast shown s) v (show_toast-Agrees shown s v)

take_preview-Agrees :
    (t : Ticket) (answer : Option Thread) (s : Tickets)
    → Agrees s
    → Agrees (take_preview t answer s)
take_preview-Agrees t none s v = v
take_preview-Agrees t (some th) s v =
    either-Agrees s.destroyed s (preview t th (keep_preview t th s)) v
      (preview-Agrees t th (keep_preview t th s) (keep_preview-Agrees t th s v))

on_preview-Agrees :
    (t : Ticket) (answer : Option Thread) (s : Tickets) → Agrees s → Agrees (on_preview t answer s)
unfolding on_preview
on_preview-Agrees t answer s v =
    let u = record s { notifying = put t.id false s.notifying } in
    take_preview-Agrees t answer u
      (record { load = v.load; thread = v.thread; kept = v.kept; gone = v.gone })

on_replied-Agrees :
    (th : Thread) (s : Tickets)
    → s.view ≡ thread_of th.ticket.id
    → Agrees s
    → Agrees (on_replied th s)
unfolding on_replied
on_replied-Agrees th s h v =
    let w = remember_thread-Agrees th s h v in
    record { load = w.load; thread = w.thread; kept = w.kept; gone = w.gone }

-- The answer to a reply comes while its conversation is open.
abbrev pub InTime : Happening → Tickets → Type 0
InTime (pushed t) s = Unit
InTime (message_pushed t m) s = Unit
InTime (list_came ts) s = Unit
InTime (answered a) s = Unit
InTime (preview_came t a) s = Unit
InTime (opens_thread n) s = Unit
InTime closes_thread s = Unit
InTime (retries_load n) s = Unit
InTime starts_ticket s = Unit
InTime leaves_form s = Unit
InTime (created t) s = Unit
InTime (replied th) s = s.view ≡ thread_of th.ticket.id
InTime (panel_set p o) s = Unit
InTime removed s = Unit

abbrev pub AllInTime : List Happening → Tickets → Type 0
AllInTime [] s = Unit
AllInTime (h ∷ hs) s = InTime h s × AllInTime hs (step h s)

step-Agrees : (h : Happening) (s : Tickets) → InTime h s → Agrees s → Agrees (step h s)
unfolding step
step-Agrees (pushed t) s i v = on_ticket-Agrees t s v
step-Agrees (message_pushed t m) s i v = on_message-Agrees t m s v
step-Agrees (list_came ts) s i v = on_tickets-Agrees ts s v
step-Agrees (answered a) s i v = on_thread-Agrees a s v
step-Agrees (preview_came t a) s i v = on_preview-Agrees t a s v
step-Agrees (opens_thread n) s i v = open_thread-Agrees n s v
step-Agrees closes_thread s i v = close_thread-Agrees s v
step-Agrees (retries_load n) s i v = elim (Bool-cases (views n s.view)) [
  | inl e ↦ rw e (load_thread-Agrees n true s (views-thread_of n s.view e) v)
  | inr e ↦ rw e v
]
step-Agrees starts_ticket s i v = write_ticket-Agrees s v
step-Agrees leaves_form s i v = leave_form-Agrees s v
step-Agrees (created t) s i v = on_created-Agrees t s v
step-Agrees (replied th) s i v = on_replied-Agrees th s i v
step-Agrees (panel_set p o) s i v =
    unfold set_panel in record { load = v.load; thread = v.thread; kept = v.kept; gone = v.gone }
step-Agrees removed s i v =
    unfold destroy in record { load = tt; thread = v.thread; kept = v.kept; gone = refl }

run-Agrees : (hs : List Happening) (s : Tickets) → AllInTime hs s → Agrees s → Agrees (run hs s)
unfolding run
run-Agrees [] s i v = v
run-Agrees (h ∷ hs) s i v = run-Agrees hs (step h s) i.1 (step-Agrees h s i.0 v)

fresh-Agrees : (stored : ℕ → ℕ) → Agrees (fresh stored)
unfolding fresh
fresh-Agrees stored = record { load = tt; thread = tt; kept = λ n. tt; gone = refl }

-- As long as no reply is answered after its conversation was left: whatever answers, socket events
-- and clicks come in any order, the conversation that is shown and the one that is loading belong to
-- the ticket that is open, and every conversation that is kept is kept under its own ticket.
pub fresh-run-Agrees :
    (stored : ℕ → ℕ) (hs : List Happening)
    → AllInTime hs (fresh stored)
    → Agrees (run hs (fresh stored))
fresh-run-Agrees stored hs i = run-Agrees hs (fresh stored) i (fresh-Agrees stored)

-- Without that condition it fails: where the answer to a reply comes after the visitor opened
-- another ticket, the next event about that ticket keeps and shows the replied conversation's
-- messages as its own.
pub late_reply_mixes :
    (th : Thread) (t : Ticket) (s : Tickets)
    → s.view ≡ thread_of t.id
    → s.panel_open ≡ true
    → s.on_section ≡ true
    → s.destroyed ≡ false
    → let r = run (replied th ∷ pushed t ∷ []) s in
      (r.view ≡ thread_of t.id)
      × (r.thread ≡ some (record th { ticket = t }))
      × (r.threads t.id ≡ some (record th { ticket = t }))
unfolding run step on_replied on_ticket upsert_ticket remember_thread put
late_reply_mixes th t s h p o d = ground (arith, h, p, o, d)
