-- ===== src/Tracker/Transport.antt =====
-- The transport of tracker/src/main.ts: send, transmit, retryable and scheduleRetry. The network
-- is outside: which request is answered, how, and which retry timer fires next are arguments.
-- `in_flight` holds the requests that wait for an answer and `timers` the retries that wait for
-- their time-out, and `posts` and `beacons` hold the bodies that were given to fetch and to
-- sendBeacon; a body is a number, since nothing here looks into it.
pub mod Retries
pub mod Posts
pub mod Progress
use trace_ux.Base.{
  ℕ, zero, suc, ◌+◌, ◌-◌, ◌*◌, ◌^◌, Bool, true, false, not, ◌&&◌, ◌||◌, Option, none, some, List,
  [], ◌∷◌, leb, ltb, ◌==◌, if◌then◌else◌, push,
}

abbrev pub max_send_retries : ℕ
max_send_retries = 4

abbrev pub retry_base_ms : ℕ
retry_base_ms = 1_000

abbrev pub max_retries_in_flight : ℕ
max_retries_in_flight = 20

abbrev pub gzip_threshold : ℕ
gzip_threshold = 2_048

pub record Request : Type 0 where
  pub body : ℕ
  pub gz : Bool
  pub attempt : ℕ

pub record Transport : Type 0 where
  pub in_flight : List Request
  pub timers : List Request
  pub retries_in_flight : ℕ
  pub beacons : List ℕ
  pub posts : List ℕ

abbrev pub idle : Transport
idle = record { in_flight = []; timers = []; retries_in_flight = 0; beacons = []; posts = [] }

unfoldable pub transmit : Request → Bool → Bool → Transport → Transport
transmit r use_beacon has_beacon t =
    if use_beacon && has_beacon
    then record t { beacons = push t.beacons r.body }
    else record t { in_flight = push t.in_flight r; posts = push t.posts r.body }

-- Whether `send` gives the body to the compressor, and whether what it transmits is compressed.
unfoldable pub compresses : Bool → ℕ → Bool
compresses has_compression json_length = has_compression && ltb gzip_threshold json_length

unfoldable pub send_batch : ℕ → ℕ → Bool → Bool → Bool → Bool → Transport → Transport
unfolding compresses transmit
send_batch body json_length has_compression compressed use_beacon has_beacon t =
    transmit
      (record {
        body = body;
        gz = compresses has_compression json_length && compressed;
        attempt = 0;
      })
      use_beacon has_beacon t

unfoldable pub retryable : ℕ → Bool
retryable status = (status == 408) || (status == 429) || leb 500 status

-- How a request ends: with a status, or rejected by the network.
pub data Outcome : Type 0 where
  status : ℕ → Outcome
  rejected : Outcome

-- `res.ok`.
abbrev pub is_ok : ℕ → Bool
is_ok s = leb 200 s && leb s 299

unfoldable pub wants_retry : Outcome → Bool
unfolding retryable
wants_retry (status s) = if is_ok s then false else retryable s
wants_retry rejected = true

-- `active` is `!(disposed || stopped)` when the answer arrives.
unfoldable pub schedule_retry : Bool → Request → Transport → Transport
schedule_retry active r t =
    if not active || leb max_send_retries r.attempt
    then t
    else if leb max_retries_in_flight t.retries_in_flight
    then t
    else record t { timers = push t.timers r; retries_in_flight = suc t.retries_in_flight }

-- The delay before a retry, in parts of 1 / (4 · unit) of a millisecond, where `random` out of
-- `unit` stands for `Math.random()`: base · 2^attempt · (0.75 + random · 0.5).
unfoldable pub retry_delay : ℕ → ℕ → ℕ → ℕ
retry_delay unit random attempt = retry_base_ms * 2 ^ attempt * (3 * unit + 2 * random)

-- The i-th entry and the others.
unfoldable pub extract {ℓ} : {A : Type ℓ} → ℕ → List A → Option (A × List A)
extract i [] = none
extract zero (x ∷ xs) = some (x, xs)
extract (suc i) (x ∷ xs) = elim (extract i xs) [ none ↦ none | some (y, ys) ↦ some (y, x ∷ ys) ]

-- The i-th request in flight ends.
unfoldable pub settle : ℕ → Outcome → Bool → Transport → Transport
unfolding extract wants_retry schedule_retry
settle i o active t = elim (extract i t.in_flight) [
  | none ↦ t
  | some (r, rest) ↦
      let t' = record t { in_flight = rest } in
      if wants_retry o then schedule_retry active r t' else t'
]

-- The i-th retry timer fires.
unfoldable pub fire : ℕ → Transport → Transport
unfolding extract transmit
fire i t = elim (extract i t.timers) [
  | none ↦ t
  | some (r, rest) ↦
      transmit (record r { attempt = suc r.attempt }) false false
        (record t { timers = rest; retries_in_flight = t.retries_in_flight - 1 })
]

pub data Action : Type 0 where
  submit : ℕ → ℕ → Bool → Bool → Bool → Bool → Action
  answered : ℕ → Outcome → Bool → Action
  timer : ℕ → Action

unfoldable pub act : Action → Transport → Transport
act (submit body len has_compression compressed use_beacon has_beacon) t =
    send_batch body len has_compression compressed use_beacon has_beacon t
act (answered i o active) t = settle i o active t
act (timer i) t = fire i t

unfoldable pub act_all : List Action → Transport → Transport
act_all [] t = t
act_all (a ∷ as') t = act_all as' (act a t)
