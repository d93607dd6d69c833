-- ===== src/Tracker/Transport/Retries.antt =====
-- Retries are bounded in number, in attempts and in time (tracker/src/main.ts, scheduleRetry).
use trace_ux.Base.{
  ℕ, zero, suc, ◌+◌, ◌-◌, ◌*◌, ◌^◌, ◌≤◌, ◌<◌, ◌≡◌, refl, ◌⊎◌, inl, inr, Bool, true, false, ◌&&◌,
  Option, none, some, List, [], ◌∷◌, arith, All, push, Option-cases, Bool-cases, ◌≢◌, if◌then◌else◌,
}
use trace_ux.Tracker.Transport.{
  Request, Transport, idle, transmit, send_batch, Outcome, status, wants_retry, retryable,
  schedule_retry, retry_delay, rejected, extract, settle, fire, Action, submit, answered, timer,
  act, act_all, max_send_retries, max_retries_in_flight,
}

All-push {κ} :
    {A : Type 0} (P : A → Type κ) (xs : List A) (x : A) → All P xs → P x → All P (push xs x)
All-push P [] x h p = (p, tt)
All-push P (y ∷ ys) x h p = (h.0, All-push P ys x h.1 p)

-- What `extract` takes out was in the list, and the others stay.
abbrev pub Taken {κ} : {A : Type 0} → (A → Type κ) → Option (A × List A) → Type κ
Taken P none = Unit
Taken P (some (y, ys)) = P y × All P ys

Taken-suc {κ} :
    {A : Type 0} (P : A → Type κ) (x : A) (o : Option (A × List A))
    → P x
    → Taken P o
    → Taken P (elim o [ none ↦ none | some (y, ys) ↦ some (y, x ∷ ys) ])
Taken-suc P x none p h = tt
Taken-suc P x (some (y, ys)) p h = (h.0, (p, h.1))

pub extract-Taken {κ} :
    {A : Type 0} (P : A → Type κ) (i : ℕ) (xs : List A) → All P xs → Taken P (extract i xs)
unfolding extract
extract-Taken P zero [] h = tt
extract-Taken P (suc i) [] h = tt
extract-Taken P zero (x ∷ xs) h = h
extract-Taken P (suc i) (x ∷ xs) h = Taken-suc P x (extract i xs) h.0 (extract-Taken P i xs h.1)

-- A sum over the list loses what was taken.
abbrev pub sum {ℓ} : {A : Type ℓ} → (A → ℕ) → List A → ℕ
sum f [] = 0
sum f (x ∷ xs) = f x + sum f xs

abbrev pub Weighed : (Request → ℕ) → ℕ → Option (Request × List Request) → Type 0
Weighed f n none = Unit
Weighed f n (some (y, ys)) = n ≡ f y + sum f ys

Weighed-suc :
    (f : Request → ℕ) (n : ℕ) (x : Request) (o : Option (Request × List Request))
    → Weighed f n o
    → Weighed f (f x + n) (elim o [ none ↦ none | some (y, ys) ↦ some (y, x ∷ ys) ])
Weighed-suc f n x none h = tt
Weighed-suc f n x (some (y, ys)) h = omega arith

pub extract-Weighed :
    (f : Request → ℕ) (i : ℕ) (xs : List Request) → Weighed f (sum f xs) (extract i xs)
unfolding extract
extract-Weighed f zero [] = tt
extract-Weighed f (suc i) [] = tt
extract-Weighed f zero (x ∷ xs) = refl
extract-Weighed f (suc i) (x ∷ xs) =
    Weighed-suc f (sum f xs) x (extract i xs) (extract-Weighed f i xs)

pub sum-push :
    (f : Request → ℕ) (xs : List Request) (x : Request) → sum f (push xs x) ≡ sum f xs + f x
sum-push f [] x = omega arith
sum-push f (y ∷ ys) x = omega (arith, sum-push f ys x)

abbrev one : Request → ℕ
one r = 1

-- No request in flight is beyond its fourth retry, one that waits has a retry left, the counter
-- counts the timers, and there are at most twenty of them.
pub record Inv (t : Transport) : Type 0 where
  pub attempts : All (λ r. r.attempt ≤ max_send_retries) t.in_flight
  pub waiting : All (λ r. r.attempt < max_send_retries) t.timers
  pub counted : t.retries_in_flight ≡ sum one t.timers
  pub capped : t.retries_in_flight ≤ max_retries_in_flight

transmit-Inv :
    (r : Request) (b h : Bool) (t : Transport)
    → r.attempt ≤ max_send_retries
    → Inv t
    → Inv (transmit r b h t)
unfolding transmit
transmit-Inv r b h t le v = elim (Bool-cases (b && h)) [
  | inl e ↦ rw e (record {
    attempts = v.attempts;
    waiting = v.waiting;
    counted = v.counted;
    capped = v.capped;
  })
  | inr e ↦ rw e (record {
    attempts = All-push _ t.in_flight r v.attempts le;
    waiting = v.waiting;
    counted = v.counted;
    capped = v.capped;
  })
]

schedule_retry-Inv :
    (active : Bool) (r : Request) (t : Transport) → Inv t → Inv (schedule_retry active r t)
unfolding schedule_retry
schedule_retry-Inv active r t v = grind (
  arith,
  All-push (λ (r : Request). r.attempt < max_send_retries) t.timers r v.waiting,
  sum-push one t.timers r,
)

settle-Taken :
    (o : Outcome) (active : Bool) (t : Transport) (x : Option (Request × List Request))
    → Taken (λ r. r.attempt ≤ max_send_retries) x
    → Inv t
    → Inv (elim x [
      | none ↦ t
      | some (r, rest) ↦
          let t' = record t { in_flight = rest } in
          if wants_retry o then schedule_retry active r t' else t'
    ])
settle-Taken o active t none h v = v
settle-Taken o active t (some (r, rest)) h v =
    let w : Inv (record t { in_flight = rest }) = record {
      attempts = h.1;
      waiting = v.waiting;
      counted = v.counted;
      capped = v.capped;
    } in
    ground (arith, w, schedule_retry-Inv active r (record t { in_flight = rest }) w)

fire-Taken :
    (t : Transport) (x : Option (Request × List Request))
    → Taken (λ r. r.attempt < max_send_retries) x
    → Weighed one (sum one t.timers) x
    → Inv t
    → Inv (elim x [
      | none ↦ t
      | some (r, rest) ↦
          transmit
            (record r { attempt = suc r.attempt })
            false
            false
            (record t { timers = rest; retries_in_flight = t.retries_in_flight - 1 })
    ])
fire-Taken t none h w v = v
fire-Taken t (some (r, rest)) h w v = transmit-Inv _ false false _ h.0 (record {
  attempts = v.attempts;
  waiting = h.1;
  counted = omega (arith, v.counted, w);
  capped = omega (arith, v.capped);
})

pub act-Inv : (a : Action) (t : Transport) → Inv t → Inv (act a t)
unfolding act settle fire send_batch
act-Inv (submit body len hc c b h) t v = transmit-Inv _ b h t (omega arith) v
act-Inv (answered i o active) t v =
    settle-Taken o active t _ (extract-Taken _ i t.in_flight v.attempts) v
act-Inv (timer i) t v =
    fire-Taken t _ (extract-Taken _ i t.timers v.waiting) (extract-Weighed one i t.timers) v

pub act_all_from-Inv : (bs : List Action) (t : Transport) → Inv t → Inv (act_all bs t)
unfolding act_all
act_all_from-Inv [] t v = v
act_all_from-Inv (b ∷ bs) t v = act_all_from-Inv bs (act b t) (act-Inv b t v)

pub idle-Inv : Inv idle
idle-Inv = record { attempts = tt; waiting = tt; counted = refl; capped = omega arith }

-- The answers that `retryable` invites, and the failure of the request itself.
abbrev pub Retried : Outcome → Type 0
Retried (status s) = (s ≡ 408) ⊎ (s ≡ 429) ⊎ (500 ≤ s)
Retried rejected = Unit

after_extract :
    (o : Outcome) (active : Bool) (r : Request) (t t' : Transport)
    → t'.timers ≡ t.timers
    → (if wants_retry o then schedule_retry active r t' else t').timers ≢ t.timers
    → (active ≡ true) × Retried o
unfolding wants_retry retryable schedule_retry
after_extract (status s) active r t t' e h = ground (arith, h)
after_extract rejected active r t t' e h = ground (arith, h)

-- A retry is set up only while the tracker is active, and only where the request failed or the
-- status was 408, 429 or at least 500: a success and any other client error are final.
pub retry_only :
    (i : ℕ) (o : Outcome) (active : Bool) (t : Transport)
    → (settle i o active t).timers ≢ t.timers
    → (active ≡ true) × Retried o
unfolding settle
retry_only i o active t h = elim (Option-cases (extract i t.in_flight)) [
  | inl e ↦ absurd (h (rw (e, settle) refl))
  | inr ((r, rest), e) ↦
      after_extract o active r t (record t { in_flight = rest }) refl (rw (e, settle) at h)
]

-- The delay before retry number `attempt` is 2^attempt seconds, give or take a quarter.
pub retry_delay_bounds :
    (unit random attempt : ℕ)
    → random < unit
    → (3 * unit * (1_000 * 2 ^ attempt) ≤ retry_delay unit random attempt)
      × (retry_delay unit random attempt ≤ 5 * unit * (1_000 * 2 ^ attempt))
unfolding retry_delay
retry_delay_bounds unit random attempt h = grind arith
