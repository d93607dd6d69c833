-- ===== src/Examples/Conversations.antt =====
-- The tickets of a widget: theorems at concrete inputs.
use trace_ux.Base.{ℕ, ◌≡◌, refl, true, some, List, [], ◌∷◌}
use trace_ux.Panel.Tickets.{
  Ticket, open_ticket, Message, Thread, thread_of, Tickets, fresh, find_ticket, upsert_ticket, put,
  mark_ticket_read, remember_thread, load_thread, thread_came, on_thread, open_thread, first_unread,
  load_notification, on_tickets, set_panel, Happening, list_came, answered, opens_thread,
  closes_thread, replied, panel_set, step, run,
}
use trace_ux.Panel.Tickets.Listed.{Ordered, count_of, upsert_ticket_lem}
use trace_ux.Panel.Tickets.Matches.{Agrees}
use trace_ux.Panel.Tickets.Opened.{fresh-run-Agrees}
use trace_ux.Panel.Tickets.Toasted.{Unrepeated, toasts-Unrepeated}

abbrev ticket : ℕ → ℕ → ℕ → Ticket
ticket n count at = record {
  id = n;
  status = open_ticket;
  message_count = count;
  last_message_at = at;
  from_staff = true;
}

abbrev answer : Message
answer = record { id = 9; from_staff = true }

abbrev conversation : Thread
conversation = record { ticket = ticket 1 1 40; messages = answer ∷ [] }

abbrev listed_tickets : Tickets
unfolding fresh
listed_tickets = record (fresh (λ n. 0)) { tickets = ticket 2 1 50 ∷ ticket 1 1 40 ∷ [] }

upsert_ticket_lem_example :
    let ts = (upsert_ticket (ticket 1 2 60) listed_tickets).tickets in
    (find_ticket 1 ts ≡ some (ticket 1 2 60))
    × (count_of 1 ts ≡ 1)
    × (find_ticket 2 ts ≡ find_ticket 2 listed_tickets.tickets)
    × (count_of 2 ts ≡ count_of 2 listed_tickets.tickets)
    × Ordered ts
unfolding listed_tickets count_of
upsert_ticket_lem_example =
    upsert_ticket_lem (ticket 1 2 60) listed_tickets 2 (refl, (refl, tt)) (λ e. cc)

-- A conversation is opened, loaded, replied to and left for another one.
abbrev replies : List Happening
replies =
    list_came (ticket 2 1 50 ∷ ticket 1 1 40 ∷ [])
    ∷ panel_set true true
    ∷ opens_thread 1
    ∷ answered (thread_came conversation)
    ∷ replied conversation
    ∷ closes_thread
    ∷ opens_thread 2
    ∷ []

fresh-run-Agrees_example : Agrees (run replies (fresh (λ n. 0)))
unfolding step run fresh on_tickets open_thread on_thread set_panel remember_thread mark_ticket_read
    load_thread find_ticket first_unread load_notification put
fresh-run-Agrees_example =
    fresh-run-Agrees (λ n. 0) replies (tt, (tt, (tt, (tt, (refl, (tt, (tt, tt)))))))

abbrev left : Tickets
unfolding fresh
left = record (fresh (λ n. 0)) { view = thread_of 2; panel_open = true; on_section = true }

toasts-Unrepeated_example : Unrepeated (run replies (fresh (λ n. 0))).toasts
toasts-Unrepeated_example = toasts-Unrepeated (λ n. 0) replies
