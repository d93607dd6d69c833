-- ===== src/Tracker/Transport/Posts.antt =====
-- How often a body is transmitted (tracker/src/main.ts, transmit and scheduleRetry).
use trace_ux.Base.{
  ℕ, suc, ◌+◌, ◌-◌, ◌*◌, ◌≤◌, ◌<◌, ◌≡◌, refl, inl, inr, Bool, false, ◌&&◌, ◌==◌, if◌then◌else◌,
  Option, none, some, List, [], ◌∷◌, arith, push, Bool-cases,
}
use trace_ux.Tracker.Transport.{
  Request, Transport, idle, transmit, send_batch, Outcome, wants_retry, schedule_retry, extract,
  settle, fire, Action, submit, answered, timer, act, act_all, max_send_retries, compresses,
}
use trace_ux.Tracker.Transport.Retries.{
  sum, sum-push, Weighed, extract-Weighed, Taken, extract-Taken, Inv, idle-Inv, act-Inv,
  act_all_from-Inv,
}

-- How often a body stands in a list.
unfoldable pub count : ℕ → List ℕ → ℕ
count n [] = 0
count n (m ∷ ms) = (if m == n then 1 else 0) + count n ms

count-push : (n m : ℕ) (ms : List ℕ) → count n (push ms m) ≡ count n ms + (if m == n then 1 else 0)
unfolding count
count-push n m [] = omega arith
count-push n m (k ∷ ms) = omega (arith, count-push n m ms)

-- The transmissions of a body, and how often it was submitted.
abbrev pub transmissions : ℕ → Transport → ℕ
transmissions n t = count n t.posts + count n t.beacons

unfoldable pub submissions : ℕ → List Action → ℕ
submissions n [] = 0
submissions n (submit body len hc c b h ∷ as') = (if body == n then 1 else 0) + submissions n as'
submissions n (answered i o active ∷ as') = submissions n as'
submissions n (timer i ∷ as') = submissions n as'

-- The further transmissions that a request of the body may lead to.
abbrev left : ℕ → Request → ℕ
left n r = if r.body == n then max_send_retries - r.attempt else 0

unfoldable spent : ℕ → Transport → ℕ
unfolding count
spent n t = transmissions n t + sum (left n) t.in_flight + sum (left n) t.timers

transmit-spent :
    (n : ℕ) (r : Request) (b h : Bool) (t : Transport)
    → spent n (transmit r b h t) ≤ spent n t + left n r + (if r.body == n then 1 else 0)
unfolding spent transmit
transmit-spent n r b h t = elim (Bool-cases (b && h)) [
  | inl e ↦ rw e (omega (arith, count-push n r.body t.beacons))
  | inr e ↦ rw e (omega (arith, count-push n r.body t.posts, sum-push (left n) t.in_flight r))
]

schedule_retry-spent :
    (n : ℕ) (active : Bool) (r : Request) (t : Transport)
    → spent n (schedule_retry active r t) ≤ spent n t + left n r
unfolding spent schedule_retry
schedule_retry-spent n active r t = ground (arith, sum-push (left n) t.timers r)

settle_spends :
    (n : ℕ) (o : Outcome) (active : Bool) (t : Transport) (x : Option (Request × List Request))
    → Weighed (left n) (sum (left n) t.in_flight) x
    → spent n (elim x [
      | none ↦ t
      | some (r, rest) ↦
          let t' = record t { in_flight = rest } in
          if wants_retry o then schedule_retry active r t' else t'
    ])
      ≤ spent n t
settle_spends n o active t none w = omega arith
settle_spends n o active t (some (r, rest)) w =
    let u = record t { in_flight = rest } in
    let d : spent n u + left n r ≡ spent n t = unfold spent in omega (arith, w) in
    let s = schedule_retry-spent n active r u in
    elim (Bool-cases (wants_retry o)) [
      | inl e ↦ rw e (omega (arith, d, s))
      | inr e ↦ rw e (omega (arith, d))
    ]

fire_spends :
    (n : ℕ) (t : Transport) (x : Option (Request × List Request))
    → Taken (λ r. r.attempt < max_send_retries) x
    → Weighed (left n) (sum (left n) t.timers) x
    → spent n (elim x [
      | none ↦ t
      | some (r, rest) ↦
          transmit
            (record r { attempt = suc r.attempt })
            false
            false
            (record t { timers = rest; retries_in_flight = t.retries_in_flight - 1 })
    ])
      ≤ spent n t
fire_spends n t none h w = omega arith
fire_spends n t (some (r, rest)) h w =
    let u = record t { timers = rest; retries_in_flight = t.retries_in_flight - 1 } in
    let r' = record r { attempt = suc r.attempt } in
    let d : spent n u + left n r ≡ spent n t = unfold spent in omega (arith, w) in
    let l : left n r' + (if r.body == n then 1 else 0) ≤ left n r = ground (arith, h.0) in
    omega (arith, d, l, transmit-spent n r' false false u)

act-spent :
    (n : ℕ) (a : Action) (as' : List Action) (t : Transport)
    → Inv t
    → spent n (act a t) + 5 * submissions n as' ≤ spent n t + 5 * submissions n (a ∷ as')
unfolding act settle fire send_batch submissions
act-spent n (submit body len hc c b h) as' t v = ground (
  arith,
  transmit-spent n (record { body = body; gz = compresses hc len && c; attempt = 0 }) b h t,
)
act-spent n (answered i o active) as' t v = omega (
  arith,
  settle_spends n o active t (extract i t.in_flight) (extract-Weighed (left n) i t.in_flight),
)
act-spent n (timer i) as' t v = omega (
  arith,
  fire_spends n t (extract i t.timers) (extract-Taken _ i t.timers v.waiting)
      (extract-Weighed (left n) i t.timers),
)

act_all-spent :
    (n : ℕ) (bs : List Action) (t : Transport)
    → Inv t
    → spent n (act_all bs t) ≤ spent n t + 5 * submissions n bs
unfolding act_all
act_all-spent n [] t v = omega arith
act_all-spent n (b ∷ bs) t v =
    omega (arith, act_all-spent n bs (act b t) (act-Inv b t v), act-spent n b bs t v)

-- Whatever is sent, answered and retried in whatever order: at most twenty retries wait at a time and
-- the counter is exact; and a body is transmitted, by fetch or by sendBeacon, at most five times for
-- each time that it was given to `send`.
pub act_all-Inv :
    (bs : List Action) (n : ℕ)
    → Inv (act_all bs idle) × (transmissions n (act_all bs idle) ≤ 5 * submissions n bs)
act_all-Inv bs n =
    let e : spent n idle ≡ 0 = unfold spent count in refl in
    let l : transmissions n (act_all bs idle) ≤ spent n (act_all bs idle) =
      unfold spent in omega arith in
    (act_all_from-Inv bs idle idle-Inv, omega (arith, e, l, act_all-spent n bs idle idle-Inv))
