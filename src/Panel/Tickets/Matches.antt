-- ===== src/Panel/Tickets/Matches.antt =====
-- What belongs to the open ticket, and the operations that keep it so (tracker/src/widget.ts,
-- upsertTicketFromSocket, loadTicketThread and openTicketThread).
use trace_ux.Base.{
  ℕ, suc, ◌≡◌, refl, inl, inr, Bool, true, false, not, ◌&&◌, ◌||◌, Option, none, some, List, [],
  ◌∷◌, ◌++◌, arith, ltb, leb, ◌==◌, if◌then◌else◌, Bool-cases, Option-cases, subst, sym, ap, ◌∙◌,
}
use trace_ux.Panel.Tickets.{
  Ticket, Message, Thread, View, listing, thread_of, writing, Load, Tickets, put, is_ticket_unread,
  mark_ticket_read, remember_thread, find_ticket, without, sort, renewed, views, write_back,
  upsert_ticket, has_message, append_to, append_message, same_count, show_toast, has_thread,
  take_message, on_message, on_ticket, loads, load_thread, Answer, thread_came, missing, failed,
  come, try_again, take_thread, on_thread, enter, open_thread, is_listing, is_writing,
}

abbrev pub LoadOf : View → Option Load → Type 0
LoadOf v none = Unit
LoadOf v (some l) = v ≡ thread_of l.id

abbrev pub ThreadOf : View → Option Thread → Type 0
ThreadOf v none = Unit
ThreadOf v (some th) = v ≡ thread_of th.ticket.id

abbrev pub KeptAs : ℕ → Option Thread → Type 0
KeptAs n none = Unit
KeptAs n (some th) = th.ticket.id ≡ n

abbrev pub is_loading : Option Load → Bool
is_loading none = false
is_loading (some l) = true

abbrev pub TicketOf : ℕ → Option Ticket → Type 0
TicketOf n none = Unit
TicketOf n (some t) = t.id ≡ n

-- What is loaded and shown belongs to the ticket that was opened, and what is kept to its ticket.
pub record Agrees (s : Tickets) : Type 0 where
  pub load : LoadOf s.view s.load
  pub thread : ThreadOf s.view s.thread
  pub kept : (n : ℕ) → KeptAs n (s.threads n)
  pub gone : (not s.destroyed || not (is_loading s.load)) ≡ true

pub put-KeptAs :
    (k : ℕ) (th : Option Thread) (f : ℕ → Option Thread)
    → KeptAs k th
    → ((n : ℕ) → KeptAs n (f n))
    → (n : ℕ) → KeptAs n (put k th f n)
unfolding put
put-KeptAs k th f h v n = elim (Bool-cases (n == k)) [
  | inl e ↦ rw e (subst (λ m. KeptAs m th) (ground (arith, e)) h)
  | inr e ↦ rw e (v n)
]

pub renewed-KeptAs :
    (n : ℕ) (t : Option Ticket) (th : Option Thread) → TicketOf n t → KeptAs n (renewed t th)
renewed-KeptAs n none th h = tt
renewed-KeptAs n (some t) none h = tt
renewed-KeptAs n (some t) (some th) h = ground (arith, h)

pub views-thread_of : (n : ℕ) (v : View) → views n v ≡ true → v ≡ thread_of n
views-thread_of n listing h = absurd (ground (arith, h))
views-thread_of n (thread_of m) h = ap thread_of (ground (arith, h))
views-thread_of n writing h = absurd (ground (arith, h))

pub find_ticket-TicketOf : (n : ℕ) (ts : List Ticket) → TicketOf n (find_ticket n ts)
unfolding find_ticket
find_ticket-TicketOf n [] = tt
find_ticket-TicketOf n (t ∷ ts) = elim (Bool-cases (t.id == n)) [
  | inl e ↦ rw e (ground (arith, e))
  | inr e ↦ rw e (find_ticket-TicketOf n ts)
]

pub remember_thread-Agrees :
    (th : Thread) (s : Tickets)
    → s.view ≡ thread_of th.ticket.id
    → Agrees s
    → Agrees (remember_thread th s)
unfolding remember_thread
remember_thread-Agrees th s h v = record {
  load = v.load;
  thread = h;
  kept = put-KeptAs th.ticket.id (some th) s.threads refl v.kept;
  gone = v.gone;
}

pub mark_ticket_read-Agrees : (t : Ticket) (s : Tickets) → Agrees s → Agrees (mark_ticket_read t s)
unfolding mark_ticket_read
mark_ticket_read-Agrees t s v = elim (Bool-cases (leb t.message_count (s.read_markers t.id))) [
  | inl e ↦ rw e v
  | inr e ↦ rw e (record { load = v.load; thread = v.thread; kept = v.kept; gone = v.gone })
]

pub show_toast-Agrees : (t : Ticket) (s : Tickets) → Agrees s → Agrees (show_toast t s)
unfolding show_toast
show_toast-Agrees t s v = elim (Bool-cases (same_count (s.toast_markers t.id) t.message_count)) [
  | inl e ↦ rw e v
  | inr e ↦ rw e (record { load = v.load; thread = v.thread; kept = v.kept; gone = v.gone })
]

pub load_thread-Agrees :
    (n : ℕ) (render : Bool) (s : Tickets)
    → s.view ≡ thread_of n
    → Agrees s
    → Agrees (load_thread n render s)
unfolding load_thread
load_thread-Agrees n render s h v =
    elim (Bool-cases (s.destroyed || not render && loads n s.load)) [
      | inl e ↦ rw e v
      | inr e ↦
          rw e (record { load = h; thread = v.thread; kept = v.kept; gone = ground (arith, e) })
    ]

pub write_back-Agrees :
    (t : Ticket) (th : Option Thread) (s : Tickets)
    → s.view ≡ thread_of t.id
    → Agrees s
    → Agrees (write_back t th s)
write_back-Agrees t none s h v = v
write_back-Agrees t (some th) s h v = remember_thread-Agrees (record th { ticket = t }) s h v

pub upsert_ticket-Agrees : (t : Ticket) (s : Tickets) → Agrees s → Agrees (upsert_ticket t s)
unfolding upsert_ticket
upsert_ticket-Agrees t s v =
    let u = record s {
      threads = put t.id (renewed (some t) (s.threads t.id)) s.threads;
      tickets = sort (t ∷ without t.id s.tickets);
    } in
    let w : Agrees u = record {
      load = v.load;
      thread = v.thread;
      kept =
          put-KeptAs t.id (renewed (some t) (s.threads t.id)) s.threads
            (renewed-KeptAs t.id (some t) (s.threads t.id) refl) v.kept;
      gone = v.gone;
    } in
    elim (Bool-cases (s.panel_open && s.on_section && views t.id s.view)) [
      | inl e ↦
          rw e (write_back-Agrees t s.thread u (views-thread_of t.id s.view (ground (arith, e))) w)
      | inr e ↦ rw e w
    ]

pub append_to-Agrees :
    (m : Message) (th : Option Thread) (s : Tickets)
    → ThreadOf s.view th
    → Agrees s
    → Agrees (append_to m th s)
append_to-Agrees m none s h v = v
append_to-Agrees m (some th) s h v = elim (Bool-cases (has_message m.id th.messages)) [
  | inl e ↦ rw e v
  | inr e ↦ rw e (remember_thread-Agrees (record th { messages = th.messages ++ m ∷ [] }) s h v)
]

pub append_message-Agrees : (m : Message) (s : Tickets) → Agrees s → Agrees (append_message m s)
unfolding append_message
append_message-Agrees m s v = append_to-Agrees m s.thread s v.thread v

pub either-Agrees : (b : Bool) (s u : Tickets) → Agrees s → Agrees u → Agrees (if b then s else u)
either-Agrees true s u v w = v
either-Agrees false s u v w = w

pub take_message-Agrees :
    (t : Ticket) (m : Message) (s : Tickets) → Agrees s → Agrees (take_message t m s)
take_message-Agrees t m s v =
    let s1 = append_message m s in
    let v1 = append_message-Agrees m s v in
    let s2 = if m.from_staff then mark_ticket_read t s1 else s1 in
    let v2 =
      either-Agrees m.from_staff (mark_ticket_read t s1) s1 (mark_ticket_read-Agrees t s1 v1) v1 in
    let b = m.from_staff && not s.panel_open && is_ticket_unread s t in
    either-Agrees (s.panel_open && s.on_section && views t.id s.view && has_thread s.thread) s2
      (if b then show_toast t s else s) v2
      (either-Agrees b (show_toast t s) s (show_toast-Agrees t s v) v)

pub on_message-Agrees :
    (t : Ticket) (m : Message) (s : Tickets) → Agrees s → Agrees (on_message t m s)
unfolding on_message
on_message-Agrees t m s v =
    let u = upsert_ticket t s in
    either-Agrees s.destroyed s (take_message t m u) v
      (take_message-Agrees t m u (upsert_ticket-Agrees t s v))

pub on_ticket-Agrees : (t : Ticket) (s : Tickets) → Agrees s → Agrees (on_ticket t s)
unfolding on_ticket
on_ticket-Agrees t s v =
    either-Agrees s.destroyed s (upsert_ticket t s) v (upsert_ticket-Agrees t s v)

pub come-Agrees :
    (l : Load) (th : Thread) (s : Tickets)
    → s.view ≡ thread_of th.ticket.id
    → Agrees s
    → Agrees (come l th s)
come-Agrees l th s h v =
    let w = remember_thread-Agrees th s h v in
    let u = record (remember_thread th s) { load = none; error = false } in
    let x : Agrees u = record {
      load = tt;
      thread = w.thread;
      kept = w.kept;
      gone = ground arith;
    } in
    either-Agrees (s.panel_open && s.on_section && views l.id s.view) (mark_ticket_read th.ticket u)
      u (mark_ticket_read-Agrees th.ticket u x) x

pub try_again-Agrees :
    (b : Bool) (l : Load) (s : Tickets)
    → s.view ≡ thread_of l.id
    → s.destroyed ≡ false
    → Agrees s
    → Agrees (try_again b l s)
try_again-Agrees b l s h d v =
    let u1 = record s { load = some (record l { attempt = suc l.attempt }) } in
    let v1 : Agrees u1 = record {
      load = h;
      thread = v.thread;
      kept = v.kept;
      gone = ground (arith, d);
    } in
    let u2 = record s {
      load = none;
      error = true;
      threads = put l.id none s.threads;
      thread = none;
    } in
    let v2 : Agrees u2 = record {
      load = tt;
      thread = tt;
      kept = put-KeptAs l.id none s.threads tt v.kept;
      gone = ground arith;
    } in
    let u3 = record s { load = none; error = true } in
    let v3 : Agrees u3 = record {
      load = tt;
      thread = v.thread;
      kept = v.kept;
      gone = ground arith;
    } in
    either-Agrees (ltb l.attempt 3) u1 (if b then u2 else u3) v1 (either-Agrees b u2 u3 v2 v3)

pub take_thread-Agrees :
    (a : Answer) (l : Option Load) (s : Tickets)
    → LoadOf s.view l
    → (not s.destroyed || not (is_loading l)) ≡ true
    → Agrees s
    → Agrees (take_thread a l s)
take_thread-Agrees a none s h d v = v
take_thread-Agrees (thread_came th) (some l) s h d v = elim (Bool-cases (th.ticket.id == l.id)) [
  | inl e ↦ rw e (come-Agrees l th s (h ∙ ap thread_of (ground (arith, e))) v)
  | inr e ↦ rw e (try_again-Agrees false l s h (ground (arith, d)) v)
]
take_thread-Agrees missing (some l) s h d v = try_again-Agrees true l s h (ground (arith, d)) v
take_thread-Agrees failed (some l) s h d v = try_again-Agrees false l s h (ground (arith, d)) v

pub on_thread-Agrees : (a : Answer) (s : Tickets) → Agrees s → Agrees (on_thread a s)
unfolding on_thread
on_thread-Agrees a s v = take_thread-Agrees a s.load s v.load v.gone v

pub no_load :
    (s : Tickets)
    → s.destroyed ≡ true
    → (not s.destroyed || not (is_loading s.load)) ≡ true
    → s.load ≡ none
no_load s d g = ground (arith, d, g, Option-cases s.load)

pub loads-LoadOf :
    (n : ℕ) (v : View) (l : Option Load) → v ≡ thread_of n → loads n l ≡ true → LoadOf v l
loads-LoadOf n v none h f = tt
loads-LoadOf n v (some l) h f = h ∙ ap thread_of (ground (arith, f))

-- Where a conversation is entered: its load goes on or a new one replaces it.
pub enter_thread :
    (n : ℕ) (s u : Tickets)
    → u.view ≡ thread_of n
    → u.load ≡ s.load
    → u.destroyed ≡ s.destroyed
    → ThreadOf u.view u.thread
    → ((m : ℕ) → KeptAs m (u.threads m))
    → Agrees s
    → Agrees (load_thread n false u)
unfolding load_thread
enter_thread n s u h e d w k v = elim (Bool-cases u.destroyed) [
  | inl g ↦ rw g (record {
    load = subst (LoadOf u.view) (sym (e ∙ no_load s (sym d ∙ g) v.gone)) tt;
    thread = w;
    kept = k;
    gone = subst (λ l. not (is_loading l) ≡ true) (sym (e ∙ no_load s (sym d ∙ g) v.gone)) refl;
  })
  | inr g ↦ elim (Bool-cases (loads n u.load)) [
    | inl f ↦ rw g (
        rw f (record {
          load = loads-LoadOf n u.view u.load h f;
          thread = w;
          kept = k;
          gone = ground (arith, g);
        }))
    | inr f ↦ rw g (rw f (record { load = h; thread = w; kept = k; gone = ground (arith, g) }))
  ]
]

pub entered :
    (n : ℕ) (t : Option Ticket) (th : Option Thread) (s : Tickets)
    → TicketOf n t
    → KeptAs n th
    → Agrees s
    → ThreadOf (thread_of n) (enter t th s).thread
      × ((m : ℕ) → KeptAs m ((enter t th s).threads m))
      × ((enter t th s).load ≡ s.load)
      × ((enter t th s).destroyed ≡ s.destroyed)
unfolding remember_thread mark_ticket_read
entered n none none s i k v = (tt, v.kept, refl, refl)
entered n none (some th) s i k v = (ap thread_of (sym k), v.kept, refl, refl)
entered n (some t) none s i k v = (tt, ground (arith, v), ground arith, ground arith)
entered n (some t) (some th) s i k v = (
  ap thread_of (sym i),
  put-KeptAs t.id (some (record th { ticket = t })) (mark_ticket_read t s).threads refl
      (mark_ticket_read-Agrees t s v).kept,
  ground arith,
  ground arith,
)

pub open_entered :
    (n : ℕ) (t : Option Ticket) (th : Option Thread) (s : Tickets)
    → TicketOf n t
    → KeptAs n th
    → Agrees s
    → Agrees (load_thread n false (record (enter t th s) { view = thread_of n; error = false }))
open_entered n t th s i k v =
    let (w, x, e, d) = entered n t th s i k v in
    enter_thread n s (record (enter t th s) { view = thread_of n; error = false }) refl e d w x v

pub nothing_loads : (s : Tickets) → ((n : ℕ) → views n s.view ≡ false) → Agrees s → s.load ≡ none
nothing_loads s h v = elim (Option-cases s.load) [
  | inl e ↦ e
  | inr (l, e) ↦
      let p : s.view ≡ thread_of l.id = subst (LoadOf s.view) e v.load in
      absurd (ground (arith, h l.id, ap (views l.id) p))
]

pub nothing_open : (s : Tickets) → ((n : ℕ) → views n s.view ≡ false) → Agrees s → s.thread ≡ none
nothing_open s h v = elim (Option-cases s.thread) [
  | inl e ↦ e
  | inr (th, e) ↦
      let p : s.view ≡ thread_of th.ticket.id = subst (ThreadOf s.view) e v.thread in
      absurd (ground (arith, h th.ticket.id, ap (views th.ticket.id) p))
]

pub listing-views : (v : View) → is_listing v ≡ true → (n : ℕ) → views n v ≡ false
listing-views listing h n = refl
listing-views (thread_of m) h n = absurd cc
listing-views writing h n = refl

pub writing-views : (v : View) → is_writing v ≡ true → (n : ℕ) → views n v ≡ false
writing-views listing h n = refl
writing-views (thread_of m) h n = absurd cc
writing-views writing h n = refl

pub open_thread-Agrees : (n : ℕ) (s : Tickets) → Agrees s → Agrees (open_thread n s)
unfolding open_thread
open_thread-Agrees n s v =
    open_entered n (find_ticket n s.tickets) (s.threads n) s (find_ticket-TicketOf n s.tickets)
      (v.kept n) v
