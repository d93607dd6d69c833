-- ===== src/Tracker/Handle/Promises.antt =====
-- The promises that createQueuedHandle of tracker/src/main.ts gives out: each is kept for later,
-- settled, or passed on to the runtime, once.
use trace_ux.Base.{
  ℕ, ◌+◌, ◌≡◌, refl, ◌⊎◌, true, List, [], ◌∷◌, ◌++◌, arith, ◌==◌, if◌then◌else◌, push, map, Str,
}
use trace_ux.Tracker.Handle.{
  Call, Delivery, call, claim, expand, stop_runtime, Settlement, not_active, was_stopped,
  unavailable, Handle, create_queued_handle, settle_all, Op, calls, claims, expands, stops, fails,
  activates, apply, apply_all,
}

abbrev at : ℕ → ℕ → ℕ
at n m = if n == m then 1 else 0

-- How often a promise occurs.
abbrev count : ℕ → List ℕ → ℕ
count n [] = 0
count n (m ∷ ms) = at n m + count n ms

abbrev count_pairs : {A : Type 0} → ℕ → List (ℕ × A) → ℕ
count_pairs n [] = 0
count_pairs n (p ∷ ps) = at n p.0 + count_pairs n ps

abbrev count_delivered : ℕ → List Delivery → ℕ
count_delivered n [] = 0
count_delivered n (call c ∷ ds) = count_delivered n ds
count_delivered n (claim m ∷ ds) = at n m + count_delivered n ds
count_delivered n (expand m s ∷ ds) = at n m + count_delivered n ds
count_delivered n (stop_runtime ∷ ds) = count_delivered n ds

-- The promises that a handle still keeps, settled itself, or passed on.
abbrev pub kept : ℕ → Handle → ℕ
kept n h = count n h.claims + count_pairs n h.expands

abbrev pub settled_by_handle : ℕ → Handle → ℕ
settled_by_handle n h = count_pairs n h.settled

abbrev pub passed_on : ℕ → Handle → ℕ
passed_on n h = count_delivered n h.delivered

-- How often the operations ask for a promise.
abbrev pub asked : ℕ → List Op → ℕ
asked n [] = 0
asked n (calls c ∷ os) = asked n os
asked n (claims m ∷ os) = at n m + asked n os
asked n (expands m s ∷ os) = at n m + asked n os
asked n (stops ∷ os) = asked n os
asked n (fails ∷ os) = asked n os
asked n (activates ∷ os) = asked n os

count-append : (n : ℕ) (xs ys : List ℕ) → count n (xs ++ ys) ≡ count n xs + count n ys
count-append n [] ys = omega arith
count-append n (x ∷ xs) ys = omega (arith, count-append n xs ys)

count_pairs-append :
    {A : Type 0} (n : ℕ) (xs ys : List (ℕ × A))
    → count_pairs n (xs ++ ys) ≡ count_pairs n xs + count_pairs n ys
count_pairs-append n [] ys = omega arith
count_pairs-append n (x ∷ xs) ys = omega (arith, count_pairs-append n xs ys)

count_delivered-append :
    (n : ℕ) (xs ys : List Delivery)
    → count_delivered n (xs ++ ys) ≡ count_delivered n xs + count_delivered n ys
count_delivered-append n [] ys = omega arith
count_delivered-append n (call c ∷ xs) ys = count_delivered-append n xs ys
count_delivered-append n (claim m ∷ xs) ys = omega (arith, count_delivered-append n xs ys)
count_delivered-append n (expand m s ∷ xs) ys = omega (arith, count_delivered-append n xs ys)
count_delivered-append n (stop_runtime ∷ xs) ys = count_delivered-append n xs ys

count-settle :
    (n : ℕ) (s : Settlement) (ns : List ℕ) → count_pairs n (map (λ m. (m, s)) ns) ≡ count n ns
count-settle n s [] = refl
count-settle n s (m ∷ ms) = omega (arith, count-settle n s ms)

count-settle_expands :
    (n : ℕ) (s : Settlement) (es : List (ℕ × Str))
    → count_pairs n (map (λ e. (e.0, s)) es) ≡ count_pairs n es
count-settle_expands n s [] = refl
count-settle_expands n s (m ∷ ms) = omega (arith, count-settle_expands n s ms)

count-deliver_calls : (n : ℕ) (cs : List Call) → count_delivered n (map call cs) ≡ 0
count-deliver_calls n [] = refl
count-deliver_calls n (c ∷ cs) = count-deliver_calls n cs

count-deliver_claims : (n : ℕ) (ns : List ℕ) → count_delivered n (map claim ns) ≡ count n ns
count-deliver_claims n [] = refl
count-deliver_claims n (m ∷ ms) = omega (arith, count-deliver_claims n ms)

count-deliver_expands :
    (n : ℕ) (es : List (ℕ × Str))
    → count_delivered n (map (λ e. expand e.0 e.1) es) ≡ count_pairs n es
count-deliver_expands n [] = refl
count-deliver_expands n (m ∷ ms) = omega (arith, count-deliver_expands n ms)

abbrev total : ℕ → Handle → ℕ
total n h = kept n h + settled_by_handle n h + passed_on n h

ruleset counts = (
  arith, count-append, count_pairs-append, count_delivered-append, count-settle,
  count-settle_expands, count-deliver_calls, count-deliver_claims, count-deliver_expands,
)

settle_all-total : (n : ℕ) (s : Settlement) (h : Handle) → total n (settle_all s h) ≡ total n h
unfolding settle_all
settle_all-total n s h =
    let rejected : List (ℕ × Settlement) = map (λ m. (m, s)) h.claims in
    let resolved : List (ℕ × Settlement) = map (λ e. (e.0, unavailable)) h.expands in
    omega (
      arith,
      count_pairs-append n h.settled (rejected ++ resolved),
      count_pairs-append n rejected resolved,
      count-settle n s h.claims,
      count-settle_expands n unavailable h.expands,
    )

activate-total :
    (n : ℕ) (h : Handle)
    → count_delivered n (
        h.delivered
        ++ (map call h.pending ++ (map claim h.claims ++ map (λ e. expand e.0 e.1) h.expands)))
      ≡ passed_on n h + kept n h
activate-total n h = omega counts

apply-total : (n : ℕ) (o : Op) (h : Handle) → total n (apply o h) ≡ total n h + asked n (o ∷ [])
unfolding apply
apply-total n (calls c) h = grind counts
apply-total n (claims m) h = grind counts
apply-total n (expands m s) h = grind counts
apply-total n stops h = ground (
  arith,
  settle_all-total n was_stopped (record h { failed = true; pending = [] }),
  count_delivered-append n h.delivered (stop_runtime ∷ []),
)
apply-total n fails h =
    omega (arith, settle_all-total n not_active (record h { failed = true; pending = [] }))
apply-total n activates h = ground (
  arith,
  count_delivered-append n h.delivered (stop_runtime ∷ []),
  activate-total n h,
  settle_all-total n was_stopped (record h { delivered = push h.delivered stop_runtime }),
)

asked-cons : (n : ℕ) (o : Op) (os : List Op) → asked n (o ∷ os) ≡ asked n (o ∷ []) + asked n os
asked-cons n (calls c) os = omega arith
asked-cons n _ os = omega arith

apply_all-total :
    (n : ℕ) (os : List Op) (h : Handle) → total n (apply_all os h) ≡ total n h + asked n os
unfolding apply_all
apply_all-total n [] h = omega arith
apply_all-total n (o ∷ os) h =
    omega (arith, apply_all-total n os (apply o h), apply-total n o h, asked-cons n o os)

-- What a handle keeps, it keeps while it waits: once it was stopped, has failed or runs, nothing.
pub record Empties (h : Handle) : Type 0 where
  pub empty :
      (h.runtime ≡ true) ⊎ (h.failed ≡ true) → (h.claims ≡ []) × (h.expands ≡ []) × (h.pending ≡ [])

apply-Empties : (o : Op) (h : Handle) → Empties h → Empties (apply o h)
unfolding apply settle_all
apply-Empties (calls c) h v = ground arith
apply-Empties _ h v = ground arith

apply_all-Empties : (os : List Op) (h : Handle) → Empties h → Empties (apply_all os h)
unfolding apply_all
apply_all-Empties [] h v = v
apply_all-Empties (o ∷ os) h v = apply_all-Empties os (apply o h) (apply-Empties o h v)

-- Whatever is done with a new handle, and however often a promise is asked for, it is accounted
-- for exactly as often: kept for later, settled by the handle, or passed on to the runtime.
pub promises_accounted :
    (n : ℕ) (os : List Op)
    → let h = apply_all os create_queued_handle in
      kept n h + settled_by_handle n h + passed_on n h ≡ asked n os
promises_accounted n os =
    unfold create_queued_handle in omega (arith, apply_all-total n os create_queued_handle)

-- Once a handle runs, was stopped or has failed, it keeps no call and no promise back: every promise
-- asked for was settled by the handle or passed on.
pub nothing_kept :
    (n : ℕ) (os : List Op)
    → ((apply_all os create_queued_handle).runtime ≡ true)
      ⊎ ((apply_all os create_queued_handle).failed ≡ true)
    → let h = apply_all os create_queued_handle in
      (h.pending ≡ []) × (settled_by_handle n h + passed_on n h ≡ asked n os)
nothing_kept n os d =
    let start : Empties create_queued_handle = unfold create_queued_handle in ground arith in
    let e = (apply_all-Empties os create_queued_handle start).empty d in
    (e.2, ground (arith, promises_accounted n os, e))
