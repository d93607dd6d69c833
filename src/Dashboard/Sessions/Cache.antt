-- ===== src/Dashboard/Sessions/Cache.antt =====
-- The results that are kept (dashboard/src/pages/Sessions/hooks/useSessions.ts, remember,
-- forgetCachedSession and markCachedSessionViewed).
use trace_ux.Base.{
  ℕ, ◌+◌, ◌-◌, ◌≤◌, ◌≡◌, refl, ◌∙◌, inl, inr, Bool, false, not, ◌||◌, List, [], ◌∷◌, ◌++◌, map,
  arith, ltb, ◌==◌, length, filter, length-append, Bool-cases, All,
}
use trace_ux.Dashboard.Sessions.{
  Row, Result, Entry, has_row, delete, tail, remember, forget_session, mark_viewed,
  mark_session_viewed,
}

pub data Op : Type 0 where
  remembers : ℕ → Result → Op
  forgets : ℕ → Op
  marks : ℕ → Op

unfoldable pub apply : Op → List Entry → List Entry
apply (remembers k r) es = remember k r es
apply (forgets n) es = forget_session n es
apply (marks n) es = mark_session_viewed n es

unfoldable pub run : List Op → List Entry → List Entry
run [] es = es
run (o ∷ os) es = run os (apply o es)

unfoldable pub has_key : ℕ → List Entry → Bool
has_key k [] = false
has_key k (e ∷ es) = e.key == k || has_key k es

abbrev pub Keyed : List Entry → Type 0
Keyed [] = Unit
Keyed (e ∷ es) = (has_key e.key es ≡ false) × Keyed es

delete-length : (k : ℕ) (es : List Entry) → length (delete k es) ≤ length es
unfolding delete filter
delete-length k [] = omega arith
delete-length k (e ∷ es) = ground (arith, delete-length k es)

delete-has_key : (k : ℕ) (es : List Entry) → has_key k (delete k es) ≡ false
unfolding delete filter has_key
delete-has_key k [] = refl
delete-has_key k (e ∷ es) = ground (arith, delete-has_key k es)

delete-other : (j k : ℕ) (es : List Entry) → has_key j es ≡ false → has_key j (delete k es) ≡ false
unfolding delete filter has_key
delete-other j k [] h = refl
delete-other j k (e ∷ es) h = ground (arith, h, delete-other j k es (ground (arith, h)))

delete-Keyed : (k : ℕ) (es : List Entry) → Keyed es → Keyed (delete k es)
unfolding delete filter
delete-Keyed k [] h = tt
delete-Keyed k (e ∷ es) h = ground (arith, delete-Keyed k es h.1, delete-other e.key k es h.0)

last-has_key :
    (j : ℕ) (es : List Entry) (x : Entry)
    → has_key j es ≡ false
    → (x.key == j) ≡ false
    → has_key j (es ++ x ∷ []) ≡ false
unfolding has_key
last-has_key j [] x h d = ground (arith, d)
last-has_key j (e ∷ es) x h d = ground (arith, h, last-has_key j es x (ground (arith, h)) d)

last-Keyed :
    (es : List Entry) (x : Entry) → has_key x.key es ≡ false → Keyed es → Keyed (es ++ x ∷ [])
unfolding has_key
last-Keyed [] x h v = (refl, tt)
last-Keyed (e ∷ es) x h v =
    (last-has_key e.key es x v.0 (ground (arith, h)), last-Keyed es x (ground (arith, h)) v.1)

tail-Keyed : (es : List Entry) → Keyed es → Keyed (tail es)
tail-Keyed [] v = tt
tail-Keyed (e ∷ es) v = v.1

length-tail : (es : List Entry) → length (tail es) ≡ length es - 1
length-tail [] = omega arith
length-tail (e ∷ es) = omega arith

-- At most twenty results, each under a key of its own.
pub record Bounded (es : List Entry) : Type 0 where
  pub size : length es ≤ 20
  pub keyed : Keyed es

remember-Bounded : (k : ℕ) (r : Result) (es : List Entry) → Bounded es → Bounded (remember k r es)
unfolding remember
remember-Bounded k r es v =
    let x : Entry = record { key = k; result = r } in
    let us = delete k es ++ x ∷ [] in
    let n : length us ≤ length es + 1 =
      omega (arith, length-append (delete k es) (x ∷ []), delete-length k es) in
    let w = last-Keyed (delete k es) x (delete-has_key k es) (delete-Keyed k es v.keyed) in
    elim (Bool-cases (ltb 20 (length us))) [
      | inl b ↦
          rw b (record { size = omega (arith, n, v.size, length-tail us); keyed = tail-Keyed us w })
      | inr b ↦ rw b (record { size = ground (arith, b); keyed = w })
    ]

-- A change of the results alone.
module _ (g : Result → Result) where
  abbrev change : Entry → Entry
  change e = record e { result = g e.result }

  change-has_key : (k : ℕ) (es : List Entry) → has_key k (map change es) ≡ has_key k es
  unfolding has_key
  change-has_key k [] = refl
  change-has_key k (e ∷ es) = ground (arith, change-has_key k es)

  change-Keyed : (es : List Entry) → Keyed es → Keyed (map change es)
  change-Keyed [] v = tt
  change-Keyed (e ∷ es) v = (change-has_key e.key es ∙ v.0, change-Keyed es v.1)

  length-change : (es : List Entry) → length (map change es) ≡ length es
  length-change [] = refl
  length-change (e ∷ es) = omega (arith, length-change es)

  change-Bounded : (es : List Entry) → Bounded es → Bounded (map change es)
  change-Bounded es v = record {
    size = omega (arith, length-change es, v.size);
    keyed = change-Keyed es v.keyed;
  }

abbrev without_row : ℕ → Result → Result
without_row n r = record r { rows = filter (λ x. not (x.id == n)) r.rows }

abbrev viewed_row : ℕ → Result → Result
viewed_row n r = record r { rows = map (mark_viewed n) r.rows }

apply-Bounded : (o : Op) (es : List Entry) → Bounded es → Bounded (apply o es)
unfolding apply forget_session mark_session_viewed
apply-Bounded (remembers k r) es v = remember-Bounded k r es v
apply-Bounded (forgets n) es v = change-Bounded (without_row n) es v
apply-Bounded (marks n) es v = change-Bounded (viewed_row n) es v

run-Bounded : (os : List Op) (es : List Entry) → Bounded es → Bounded (run os es)
unfolding run
run-Bounded [] es v = v
run-Bounded (o ∷ os) es v = run-Bounded os (apply o es) (apply-Bounded o es v)

-- Whatever is remembered, forgotten and marked: a tab keeps at most twenty results, each under a
-- query of its own.
pub cache_stays_small : (os : List Op) → Bounded (run os [])
cache_stays_small os = run-Bounded os [] (record { size = omega arith; keyed = tt })

-- No kept result shows the recording.
abbrev pub Forgotten : ℕ → List Entry → Type 0
Forgotten n es = All (λ e. has_row n e.result.rows ≡ false) es

abbrev pub Spares : ℕ → Op → Type 0
Spares n (remembers k r) = has_row n r.rows ≡ false
Spares n (forgets m) = Unit
Spares n (marks m) = Unit

without_row-gone : (n : ℕ) (rs : List Row) → has_row n (filter (λ x. not (x.id == n)) rs) ≡ false
unfolding has_row filter
without_row-gone n [] = refl
without_row-gone n (r ∷ rs) = ground (arith, without_row-gone n rs)

without_row-spares :
    (n m : ℕ) (rs : List Row)
    → has_row n rs ≡ false
    → has_row n (filter (λ x. not (x.id == m)) rs) ≡ false
unfolding has_row filter
without_row-spares n m [] h = refl
without_row-spares n m (r ∷ rs) h = ground (arith, h, without_row-spares n m rs (ground (arith, h)))

viewed_row-has_row : (n m : ℕ) (rs : List Row) → has_row n (map (mark_viewed m) rs) ≡ has_row n rs
unfolding has_row
viewed_row-has_row n m [] = refl
viewed_row-has_row n m (r ∷ rs) = ground (arith, viewed_row-has_row n m rs)

forget-Forgotten : (n : ℕ) (es : List Entry) → Forgotten n (forget_session n es)
unfolding forget_session
forget-Forgotten n [] = tt
forget-Forgotten n (e ∷ es) = (without_row-gone n e.result.rows, forget-Forgotten n es)

delete-Forgotten : (n k : ℕ) (es : List Entry) → Forgotten n es → Forgotten n (delete k es)
unfolding delete filter
delete-Forgotten n k [] v = tt
delete-Forgotten n k (e ∷ es) v = ground (arith, v, delete-Forgotten n k es v.1)

last-Forgotten :
    (n : ℕ) (es : List Entry) (x : Entry)
    → has_row n x.result.rows ≡ false
    → Forgotten n es
    → Forgotten n (es ++ x ∷ [])
last-Forgotten n [] x h v = (h, tt)
last-Forgotten n (e ∷ es) x h v = (v.0, last-Forgotten n es x h v.1)

tail-Forgotten : (n : ℕ) (es : List Entry) → Forgotten n es → Forgotten n (tail es)
tail-Forgotten n [] v = tt
tail-Forgotten n (e ∷ es) v = v.1

remember-Forgotten :
    (n k : ℕ) (r : Result) (es : List Entry)
    → has_row n r.rows ≡ false
    → Forgotten n es
    → Forgotten n (remember k r es)
unfolding remember
remember-Forgotten n k r es h v =
    let us = delete k es ++ record { key = k; result = r } ∷ [] in
    let w =
      last-Forgotten n (delete k es) (record { key = k; result = r }) h
        (delete-Forgotten n k es v) in
    elim (Bool-cases (ltb 20 (length us))) [ inl b ↦ rw b (tail-Forgotten n us w) | inr b ↦ rw b w ]

apply-Forgotten :
    (n : ℕ) (o : Op) (es : List Entry) → Spares n o → Forgotten n es → Forgotten n (apply o es)
unfolding apply forget_session mark_session_viewed
apply-Forgotten n (remembers k r) es s v = remember-Forgotten n k r es s v
apply-Forgotten n (forgets m) [] s v = tt
apply-Forgotten n (forgets m) (e ∷ es) s v =
    (without_row-spares n m e.result.rows v.0, apply-Forgotten n (forgets m) es s v.1)
apply-Forgotten n (marks m) [] s v = tt
apply-Forgotten n (marks m) (e ∷ es) s v =
    (viewed_row-has_row n m e.result.rows ∙ v.0, apply-Forgotten n (marks m) es s v.1)

run-Forgotten :
    (n : ℕ) (os : List Op) (es : List Entry)
    → All (Spares n) os
    → Forgotten n es
    → Forgotten n (run os es)
unfolding run
run-Forgotten n [] es s v = v
run-Forgotten n (o ∷ os) es s v = run-Forgotten n os (apply o es) s.1 (apply-Forgotten n o es s.0 v)

-- A deleted recording does not come back from the kept results: after it was forgotten none of them
-- shows it, and none does later, whatever is remembered, forgotten and marked, unless the server
-- itself answers with it again.
pub deleted_stays_away :
    (n : ℕ) (es : List Entry) (os : List Op)
    → All (Spares n) os
    → Forgotten n (run os (forget_session n es))
deleted_stays_away n es os s = run-Forgotten n os (forget_session n es) s (forget-Forgotten n es)
