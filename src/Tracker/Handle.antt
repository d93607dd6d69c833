-- ===== src/Tracker/Handle.antt =====
-- The handle that `init` returns at once, createQueuedHandle of tracker/src/main.ts: it keeps the
-- calls made before the tracker runs and passes them on when it does.
--
-- The runtime is seen through what it is asked (`delivered`, oldest first). A promise is a number,
-- given by the caller's `claimReplay` or `expand`; `settled` lists those that the handle itself
-- resolves or rejects, and one that is passed on is settled by the runtime.
pub mod Laws
pub mod Promises
use trace_ux.Base.{Bool, true, false, Option, ℕ, List, [], ◌∷◌, ◌++◌, Str, if◌then◌else◌, push, map}
use trace_ux.Tracker.Logs.{ConsoleValue}
use trace_ux.Tracker.Message.{Identity, FeedbackInput}

-- The methods that go through `dispatch`.
pub data Call : Type 0 where
  identify : Identity → Call
  track : Str → Str → Bool → Option Str → Call
  set_user_status update_user_status : Str → Call
  log : Str → List ConsoleValue → Call
  debug info warn error : List ConsoleValue → Call
  feedback : FeedbackInput → Call

-- What the runtime is asked.
pub data Delivery : Type 0 where
  call : Call → Delivery
  claim : ℕ → Delivery
  expand : ℕ → Str → Delivery
  stop_runtime : Delivery

pub data Settlement : Type 0 where
  not_active was_stopped unavailable : Settlement

pub record Handle : Type 0 where
  pub runtime : Bool
  pub failed : Bool
  pub pending : List Call
  pub claims : List ℕ
  pub expands : List (ℕ × Str)
  pub delivered : List Delivery
  pub settled : List (ℕ × Settlement)

unfoldable pub create_queued_handle : Handle
create_queued_handle = record {
  runtime = false;
  failed = false;
  pending = [];
  claims = [];
  expands = [];
  delivered = [];
  settled = [];
}

unfoldable pub dispatch : Call → Handle → Handle
dispatch c h =
    if h.runtime
    then record h { delivered = push h.delivered (call c) }
    else if h.failed
    then h
    else record h { pending = push h.pending c }

unfoldable pub claim_replay : ℕ → Handle → Handle
claim_replay n h =
    if h.runtime
    then record h { delivered = push h.delivered (claim n) }
    else if h.failed
    then record h { settled = push h.settled (n, not_active) }
    else record h { claims = push h.claims n }

unfoldable pub expand_feedback : ℕ → Str → Handle → Handle
expand_feedback n campaign h =
    if h.runtime
    then record h { delivered = push h.delivered (expand n campaign) }
    else if h.failed
    then record h { settled = push h.settled (n, unavailable) }
    else record h { expands = push h.expands (n, campaign) }

-- `claims.splice(0)` and `expands.splice(0)`, each with its settlement.
unfoldable pub settle_all : Settlement → Handle → Handle
settle_all s h = record h {
  claims = [];
  expands = [];
  settled = h.settled ++ (map (λ n. (n, s)) h.claims ++ map (λ e. (e.0, unavailable)) h.expands);
}

unfoldable pub fail : Handle → Handle
unfolding settle_all
fail h = settle_all not_active (record h { failed = true; pending = [] })

unfoldable pub stop : Handle → Handle
unfolding settle_all
stop h =
    if h.runtime
    then record h { delivered = push h.delivered stop_runtime }
    else settle_all was_stopped (record h { failed = true; pending = [] })

unfoldable pub activate : Handle → Handle
unfolding settle_all
activate h =
    if h.failed
    then settle_all was_stopped (record h { delivered = push h.delivered stop_runtime })
    else record h {
      runtime = true;
      pending = [];
      claims = [];
      expands = [];
      delivered =
          h.delivered
          ++ (map call h.pending ++ (map claim h.claims ++ map (λ e. expand e.0 e.1) h.expands));
    }

-- What a page does with its handle, and what `start` does.
pub data Op : Type 0 where
  calls : Call → Op
  claims : ℕ → Op
  expands : ℕ → Str → Op
  stops fails activates : Op

unfoldable pub apply : Op → Handle → Handle
unfolding dispatch claim_replay expand_feedback stop fail activate
apply (calls c) h = dispatch c h
apply (claims n) h = claim_replay n h
apply (expands n s) h = expand_feedback n s h
apply stops h = stop h
apply fails h = fail h
apply activates h = activate h

unfoldable pub apply_all : List Op → Handle → Handle
apply_all [] h = h
apply_all (o ∷ os) h = apply_all os (apply o h)
