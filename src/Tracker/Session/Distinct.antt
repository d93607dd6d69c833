-- ===== src/Tracker/Session/Distinct.antt =====
-- The server stores a batch of recorded events under its session and its `seq`
-- (tracker/src/main.ts, flush). No two batches of a tracker have the same key, over one page load
-- and on into the next.
use trace_ux.Base.{◌<◌, ◌≡◌, ◌≢◌, refl, ◌⊎◌, inl, inr, List, [], ◌∷◌, arith, Str, All, ap, subst}
use trace_ux.Tracker.State.{Tracker, Env}
use trace_ux.Tracker.Session.Keys.{
  Key, View, view, flushed, renewed, Moves, stay, flush_once, renew, flush_renew, step-Moves,
}
use trace_ux.Tracker.Session.Run.{Event, step, run}

-- All members differ.
abbrev pub Distinct : List Key → Type 0
Distinct [] = Unit
Distinct (k ∷ ks) = All (λ j. j ≢ k) ks × Distinct ks

-- Membership in a list of identifiers.
abbrev pub In : Str → List Str → Type 0
In s [] = ⊥
In s (x ∷ xs) = (s ≡ x) ⊎ In s xs

-- The identifiers that the environments of a run offer are new: none occurs earlier.
abbrev pub NewIds : List Str → List (Env × Event) → Type 0
NewIds used [] = Unit
NewIds used ((env, e) ∷ es) = (¬ In env.new_id used) × NewIds (env.new_id ∷ used) es

pub record Keyed (used : List Str) (v : View) : Type 0 where
  pub current : In v.sid used
  pub known : All (λ k. In k.0 used) v.keys
  pub below : All (λ k. k.0 ≡ v.sid → k.1 < v.seq) v.keys
  pub distinct : Distinct v.keys

pub All-map {κ κ'} :
    {A : Type 0} {P : A → Type κ} {Q : A → Type κ'} (xs : List A)
    → ((x : A) → P x → Q x)
    → All P xs
    → All Q xs
All-map [] f h = tt
All-map (x ∷ xs) f h = (f x h.0, All-map xs f h.1)

flushed-Keyed : (used : List Str) (v : View) → Keyed used v → Keyed used (flushed v)
flushed-Keyed used v h = record {
  current = h.current;
  known = (h.current, h.known);
  below = ((λ e. omega arith), All-map v.keys (λ k f e. omega (arith, f e)) h.below);
  distinct = (
    All-map v.keys (λ k f e. absurd (omega (arith, f (ap (λ j. j.0) e), ap (λ j. j.1) e))) h.below,
    h.distinct,
  );
}

pub renewed-Keyed :
    (used : List Str) (id : Str) (v : View)
    → ¬ In id used
    → Keyed used v
    → Keyed (id ∷ used) (renewed id v)
renewed-Keyed used id v new h = record {
  current = inl refl;
  known = All-map v.keys (λ k i. inr i) h.known;
  below = All-map v.keys (λ k i e. absurd (new (subst (λ s. In s used) e i))) h.known;
  distinct = h.distinct;
}

pub more-Keyed : (used : List Str) (id : Str) (v : View) → Keyed used v → Keyed (id ∷ used) v
more-Keyed used id v h = record {
  current = inr h.current;
  known = All-map v.keys (λ k i. inr i) h.known;
  below = h.below;
  distinct = h.distinct;
}

Moves-Keyed :
    (used : List Str) (id : Str) {v w : View}
    → ¬ In id used
    → Moves id v w
    → Keyed used v
    → Keyed (id ∷ used) w
Moves-Keyed used id {v} new (stay e) h = rw e (more-Keyed used id v h)
Moves-Keyed used id {v} new (flush_once e) h = rw e (more-Keyed used id _ (flushed-Keyed used v h))
Moves-Keyed used id {v} new (renew e) h = rw e (renewed-Keyed used id v new h)
Moves-Keyed used id {v} new (flush_renew e) h =
    rw e (renewed-Keyed used id _ new (flushed-Keyed used v h))

-- The identifiers used once the events are over.
abbrev pub used_after : List Str → List (Env × Event) → List Str
used_after used [] = used
used_after used ((env, e) ∷ es) = used_after (env.new_id ∷ used) es

pub run-Keyed :
    (old : List Key) (es : List (Env × Event)) (used : List Str) (t : Tracker)
    → NewIds used es
    → Keyed used (view old t)
    → Keyed (used_after used es) (view old (run es t))
unfolding run
run-Keyed old [] used t n h = h
run-Keyed old ((env, e) ∷ es) used t n h =
    run-Keyed old es (env.new_id ∷ used) (step env e t) n.1
      (Moves-Keyed used env.new_id n.0 (step-Moves old env e t) h)
