-- ===== src/Tracker/Transport/Progress.antt =====
-- Retrying comes to an end (tracker/src/main.ts, scheduleRetry): every answer and every retry timer
-- uses up some of the work that the batches sent so far can still cause.
use trace_ux.Base.{
  ℕ, zero, suc, ◌+◌, ◌-◌, ◌*◌, ◌≤◌, ◌<◌, ◌≡◌, refl, Bool, false, some, List, [], ◌∷◌, arith, length,
  Bool-cases, inl, inr, subst,
}
use trace_ux.Tracker.Transport.{
  Request, Transport, transmit, Outcome, wants_retry, schedule_retry, extract, settle, fire, Action,
  submit, answered, timer, act, max_send_retries,
}
use trace_ux.Tracker.Transport.Retries.{
  sum, sum-push, Weighed, extract-Weighed, Taken, extract-Taken, Inv, act-Inv,
}

-- The transmissions that a request, or a waiting retry, can still lead to, and the waits.
abbrev pub flight_work : Request → ℕ
flight_work r = 1 + 2 * (max_send_retries - r.attempt)

abbrev pub timer_work : Request → ℕ
timer_work r = 2 * (max_send_retries - r.attempt)

unfoldable pub work : Transport → ℕ
work t = sum flight_work t.in_flight + sum timer_work t.timers

schedule_retry-work :
    (active : Bool) (r : Request) (t : Transport)
    → work (schedule_retry active r t) < work t + flight_work r
unfolding schedule_retry work
schedule_retry-work active r t = ground (arith, sum-push timer_work t.timers r)

transmit-work :
    (r : Request) (t : Transport) → work (transmit r false false t) ≡ work t + flight_work r
unfolding transmit work
transmit-work r t = omega (arith, sum-push flight_work t.in_flight r)

-- An answer or a timer that is there.
abbrev pub Happens : Action → Transport → Type 0
Happens (submit body len hc c b h) t = ⊥
Happens (answered i o active) t = i < length t.in_flight
Happens (timer i) t = i < length t.timers

extract_found {ℓ} :
    {A : Type ℓ} (i : ℕ) (xs : List A)
    → i < length xs
    → (y : A) × (ys : List A) × (extract i xs ≡ some (y, ys))
unfolding extract
extract_found i [] h = absurd (omega arith)
extract_found zero (x ∷ xs) h = (x, xs, refl)
extract_found (suc i) (x ∷ xs) h =
    let (y, ys, e) = extract_found i xs (omega arith) in (y, x ∷ ys, rw e)

unsettled-work :
    (t : Transport) (r : Request) (rest : List Request)
    → sum flight_work t.in_flight ≡ flight_work r + sum flight_work rest
    → work t ≡ work (record t { in_flight = rest }) + flight_work r
unfolding work
unsettled-work t r rest w = omega (arith, w)

settle-work :
    (i : ℕ) (o : Outcome) (active : Bool) (t : Transport)
    → i < length t.in_flight
    → work (settle i o active t) < work t
unfolding settle
settle-work i o active t h =
    let (r, rest, e) = extract_found i t.in_flight h in
    let w : Weighed flight_work (sum flight_work t.in_flight) (some (r, rest)) =
      subst (Weighed flight_work (sum flight_work t.in_flight)) e
        (extract-Weighed flight_work i t.in_flight) in
    let u = unsettled-work t r rest w in
    rw (e, settle)
      (elim (Bool-cases (wants_retry o)) [
        | inl b ↦
            rw b (omega (arith, u, schedule_retry-work active r (record t { in_flight = rest })))
        | inr b ↦ rw b (omega (arith, u))
      ])

fire-work : (i : ℕ) (t : Transport) → Inv t → i < length t.timers → work (fire i t) < work t
unfolding fire transmit work
fire-work i t v h =
    let (r, rest, e) = extract_found i t.timers h in
    let w : Weighed timer_work (sum timer_work t.timers) (some (r, rest)) =
      subst (Weighed timer_work (sum timer_work t.timers)) e
        (extract-Weighed timer_work i t.timers) in
    let p : Taken (λ (x : Request). x.attempt < max_send_retries) (some (r, rest)) =
      subst (Taken (λ x. x.attempt < max_send_retries)) e (extract-Taken _ i t.timers v.waiting) in
    rw (e, fire)
      (omega
        (arith, w, p.0, sum-push flight_work t.in_flight (record r { attempt = suc r.attempt })))

act-work : (a : Action) (t : Transport) → Inv t → Happens a t → work (act a t) < work t
unfolding act
act-work (submit body len hc c b h) t v p = absurd p
act-work (answered i o active) t v p = settle-work i o active t p
act-work (timer i) t v p = fire-work i t v p

abbrev pub AllHappen : List Action → Transport → Type 0
AllHappen [] t = Unit
AllHappen (a ∷ as') t = Happens a t × AllHappen as' (act a t)

-- However the network answers, no more answers and retry timers can follow than the work that is
-- left.
pub retries_end : (bs : List Action) (t : Transport) → Inv t → AllHappen bs t → length bs ≤ work t
retries_end [] t v h = omega arith
retries_end (b ∷ bs) t v h =
    omega (arith, act-work b t v h.0, retries_end bs (act b t) (act-Inv b t v) h.1)
