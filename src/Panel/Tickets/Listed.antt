-- ===== src/Panel/Tickets/Listed.antt =====
-- The list of tickets (tracker/src/widget.ts, upsertTicketFromSocket).
use trace_ux.Base.{
  ℕ, ◌+◌, ◌≡◌, ◌≢◌, refl, true, false, some, List, [], ◌∷◌, arith, ◌==◌, if◌then◌else◌, Bool-cases,
  Option-cases, inl, inr, filter, ◌∙◌, ap,
}
use trace_ux.Panel.Tickets.{
  Ticket, Tickets, find_ticket, without, before, insert, sort, upsert_ticket, remember_thread,
}

-- No ticket of the list comes before its predecessor.
abbrev pub Ordered : List Ticket → Type 0
Ordered [] = Unit
Ordered (t ∷ []) = Unit
Ordered (t ∷ u ∷ us) = (before u t ≡ false) × Ordered (u ∷ us)

insert-under :
    (x t : Ticket) (us : List Ticket)
    → before t x ≡ false
    → Ordered (x ∷ us)
    → Ordered (insert t us)
    → Ordered (x ∷ insert t us)
unfolding insert
insert-under x t [] a o p = (a, tt)
insert-under x t (u ∷ us) a o p = elim (Bool-cases (before u t)) [
  | inl e ↦ ground (arith, e, o, p)
  | inr e ↦ ground (arith, e, a, p)
]

not_turned : (t u : Ticket) → before u t ≡ true → before t u ≡ false
not_turned t u h = ground (arith, h)

Ordered-rest : (t : Ticket) (ts : List Ticket) → Ordered (t ∷ ts) → Ordered ts
Ordered-rest t [] o = tt
Ordered-rest t (u ∷ us) o = o.1

insert-Ordered : (t : Ticket) (ts : List Ticket) → Ordered ts → Ordered (insert t ts)
unfolding insert
insert-Ordered t [] o = tt
insert-Ordered t (u ∷ us) o = elim (Bool-cases (before u t)) [
  | inl e ↦
      rw e (insert-under u t us (not_turned t u e) o (insert-Ordered t us (Ordered-rest u us o)))
  | inr e ↦ rw e (e, o)
]

sort-Ordered : (ts : List Ticket) → Ordered (sort ts)
unfolding sort
sort-Ordered [] = tt
sort-Ordered (t ∷ ts) = insert-Ordered t (sort ts) (sort-Ordered ts)

-- How often a number is in the list.
unfoldable pub count_of : ℕ → List Ticket → ℕ
count_of n [] = 0
count_of n (t ∷ ts) = (if t.id == n then 1 else 0) + count_of n ts

insert-count_of :
    (n : ℕ) (t : Ticket) (ts : List Ticket) → count_of n (insert t ts) ≡ count_of n (t ∷ ts)
unfolding insert count_of
insert-count_of n t [] = refl
insert-count_of n t (u ∷ us) = elim (Bool-cases (before u t)) [
  | inl e ↦ rw e (omega (arith, insert-count_of n t us))
  | inr e ↦ rw e refl
]

sort-count_of : (n : ℕ) (ts : List Ticket) → count_of n (sort ts) ≡ count_of n ts
unfolding sort count_of
sort-count_of n [] = refl
sort-count_of n (t ∷ ts) = omega (arith, insert-count_of n t (sort ts), sort-count_of n ts)

without-count_of : (n : ℕ) (ts : List Ticket) → count_of n (without n ts) ≡ 0
unfolding without filter count_of
without-count_of n [] = refl
without-count_of n (t ∷ ts) = ground (arith, without-count_of n ts)

without-others : (n k : ℕ) (ts : List Ticket) → k ≢ n → count_of k (without n ts) ≡ count_of k ts
unfolding without filter count_of
without-others n k [] d = refl
without-others n k (t ∷ ts) d = ground (arith, d, without-others n k ts d)

insert-find_ticket :
    (n : ℕ) (t : Ticket) (ts : List Ticket)
    → count_of t.id ts ≡ 0
    → find_ticket n (insert t ts) ≡ (if t.id == n then some t else find_ticket n ts)
unfolding insert find_ticket count_of
insert-find_ticket n t [] h = refl
insert-find_ticket n t (u ∷ us) h = elim (Bool-cases (before u t)) [
  | inl e ↦ rw e (ground (arith, h, insert-find_ticket n t us (ground (arith, h))))
  | inr e ↦ rw e refl
]

-- At most one ticket of each number.
abbrev pub Single : List Ticket → Type 0
Single [] = Unit
Single (t ∷ ts) = (count_of t.id ts ≡ 0) × Single ts

sort-find_ticket :
    (n : ℕ) (ts : List Ticket) → Single ts → find_ticket n (sort ts) ≡ find_ticket n ts
unfolding sort find_ticket
sort-find_ticket n [] o = refl
sort-find_ticket n (t ∷ ts) o =
    insert-find_ticket n t (sort ts) (sort-count_of t.id ts ∙ o.0)
    ∙ ap (λ r. if t.id == n then some t else r) (sort-find_ticket n ts o.1)

without-zero : (n k : ℕ) (ts : List Ticket) → count_of k ts ≡ 0 → count_of k (without n ts) ≡ 0
unfolding without filter count_of
without-zero n k [] h = refl
without-zero n k (t ∷ ts) h = ground (arith, h, without-zero n k ts (ground (arith, h)))

without-Single : (n : ℕ) (ts : List Ticket) → Single ts → Single (without n ts)
unfolding without filter
without-Single n [] o = tt
without-Single n (t ∷ ts) o = ground (arith, without-zero n t.id ts o.0, without-Single n ts o.1)

without-find_ticket :
    (n k : ℕ) (ts : List Ticket) → k ≢ n → find_ticket k (without n ts) ≡ find_ticket k ts
unfolding without filter find_ticket
without-find_ticket n k [] d = refl
without-find_ticket n k (t ∷ ts) d = ground (arith, d, without-find_ticket n k ts d)

upserted :
    (t : Ticket) (s : Tickets) → (upsert_ticket t s).tickets ≡ sort (t ∷ without t.id s.tickets)
unfolding upsert_ticket remember_thread
upserted t s = ground (arith, Option-cases s.thread)

-- In a list with no number twice: after a ticket came over the socket, the list has that ticket
-- under its number, once, and under every other number what it had before, and it is in the order of
-- the last messages, the newest first, and of the numbers where those are equal.
pub upsert_ticket_lem :
    (t : Ticket) (s : Tickets) (k : ℕ)
    → Single s.tickets
    → k ≢ t.id
    → let ts = (upsert_ticket t s).tickets in
      (find_ticket t.id ts ≡ some t)
      × (count_of t.id ts ≡ 1)
      × (find_ticket k ts ≡ find_ticket k s.tickets)
      × (count_of k ts ≡ count_of k s.tickets)
      × Ordered ts
upsert_ticket_lem t s k o d =
    let rest = without t.id s.tickets in
    let z = without-count_of t.id s.tickets in
    let one : Single (t ∷ rest) = (z, without-Single t.id s.tickets o) in
    let f = sort-find_ticket t.id (t ∷ rest) one in
    let g = sort-find_ticket k (t ∷ rest) one in
    let c = sort-count_of t.id (t ∷ rest) in
    let e = sort-count_of k (t ∷ rest) in
    rw (upserted t s) (
      unfold find_ticket in ground (arith, f),
      unfold count_of in ground (arith, c, z),
      unfold find_ticket in ground (arith, g, d, without-find_ticket t.id k s.tickets d),
      unfold count_of in ground (arith, e, d, without-others t.id k s.tickets d),
      sort-Ordered (t ∷ rest),
    )
