-- ===== src/Dashboard/Sessions/Matches.antt =====
-- Results whose rows their query asks for (dashboard/src/pages/Sessions/hooks/useSessions.ts).
use trace_ux.Base.{
  ℕ, zero, suc, ◌≡◌, subst, inl, inr, Bool, true, not, ◌&&◌, Option, none, some, List, [], ◌∷◌,
  ◌++◌, map, arith, ltb, ◌==◌, max, length, filter, Bool-cases, All,
}
use trace_ux.Dashboard.Sessions.{
  Row, Cursor, Result, nothing, has_row, load_next, load_until, load_sessions, add_page, Entry,
  delete, get, tail, remember, mark_viewed, forget_session, mark_session_viewed,
}
use trace_ux.Dashboard.Sessions.Screen.{Server}

append_all {ℓ κ} :
    {A : Type ℓ} (P : A → Type κ) (xs ys : List A) → All P xs → All P ys → All P (xs ++ ys)
append_all P [] ys a b = b
append_all P (x ∷ xs) ys a b = (a.0, append_all P xs ys a.1 b)

filter_all {ℓ κ} :
    {A : Type ℓ} (P : A → Type κ) (p : A → Bool) (xs : List A) → All P xs → All P (filter p xs)
unfolding filter
filter_all P p [] a = tt
filter_all P p (x ∷ xs) a = elim (Bool-cases (p x)) [
  | inl e ↦ rw e (a.0, filter_all P p xs a.1)
  | inr e ↦ rw e (filter_all P p xs a.1)
]

-- `matches k n`: the recording n is one that the query k asks for.
module _ (matches : ℕ → ℕ → Bool) where
  abbrev pub Matching : ℕ → List Row → Type 0
  Matching k rows = All (λ r. matches k r.id ≡ true) rows

  -- The server answers a query with recordings that it asks for.
  abbrev pub Honest : Server → Type 0
  Honest server = (k : ℕ) (c : Option Cursor) → Matching k (server k c)

  load_next-Matching :
      (k : ℕ) (f : Option Cursor → List Row) (r : Result)
      → ((c : Option Cursor) → Matching k (f c))
      → Matching k r.rows
      → Matching k (load_next f r).rows
  unfolding load_next
  load_next-Matching k f r h a =
      append_all (λ x. matches k x.id ≡ true) r.rows (f r.cursor) a (h r.cursor)

  load_until-Matching :
      (k : ℕ) (f : Option Cursor → List Row) (n t : ℕ) (r : Result)
      → ((c : Option Cursor) → Matching k (f c))
      → Matching k r.rows
      → Matching k (load_until f n t r).rows
  unfolding load_until
  load_until-Matching k f zero t r h a = a
  load_until-Matching k f (suc n) t r h a =
      let next = load_next f r in
      let b = load_next-Matching k f r h a in
      elim (Bool-cases (next.has_more && ltb (length next.rows) t)) [
        | inl e ↦ rw e (load_until-Matching k f n t next h b)
        | inr e ↦ rw e b
      ]

  pub load_sessions-Matching :
      (k : ℕ) (f : Option Cursor → List Row) (n : ℕ)
      → ((c : Option Cursor) → Matching k (f c))
      → Matching k (load_sessions f n).rows
  unfolding load_sessions
  load_sessions-Matching k f n h = load_until-Matching k f (max 40 n) (max 40 n) nothing h tt

  pub add_page-Matching :
      (k : ℕ) (f : Option Cursor → List Row) (c : Option Cursor) (r : Result)
      → ((c : Option Cursor) → Matching k (f c))
      → Matching k r.rows
      → Matching k (add_page f c r).rows
  add_page-Matching k f none r h a = a
  add_page-Matching k f (some c) r h a =
      let P = λ (x : Row). matches k x.id ≡ true in
      let p = λ (x : Row). not (has_row x.id r.rows) in
      append_all P r.rows (filter p (f (some c))) a (filter_all P p (f (some c)) (h (some c)))

  mark-Matching :
      (k n : ℕ) (rows : List Row) → Matching k rows → Matching k (map (mark_viewed n) rows)
  mark-Matching k n [] a = tt
  mark-Matching k n (r ∷ rows) a = (ground (arith, a.0), mark-Matching k n rows a.1)

  -- Every kept result answers its query.
  abbrev pub Kept : List Entry → Type 0
  Kept es = All (λ e. Matching e.key e.result.rows) es

  abbrev pub Showing : ℕ → Option Result → Type 0
  Showing k none = Unit
  Showing k (some r) = Matching k r.rows

  pub get-Showing : (k : ℕ) (es : List Entry) → Kept es → Showing k (get k es)
  unfolding get
  get-Showing k [] a = tt
  get-Showing k (e ∷ es) a = elim (Bool-cases (e.key == k)) [
    | inl h ↦
        let q : e.key ≡ k = ground (arith, h) in rw h (subst (λ j. Matching j e.result.rows) q a.0)
    | inr h ↦ rw h (get-Showing k es a.1)
  ]

  tail-Kept : (es : List Entry) → Kept es → Kept (tail es)
  tail-Kept [] a = tt
  tail-Kept (e ∷ es) a = a.1

  pub remember-Kept :
      (k : ℕ) (r : Result) (es : List Entry) → Matching k r.rows → Kept es → Kept (remember k r es)
  unfolding remember delete
  remember-Kept k r es m a =
      let P = λ (e : Entry). Matching e.key e.result.rows in
      let x : Entry = record { key = k; result = r } in
      let p = λ (e : Entry). not (e.key == k) in
      let us = filter p es ++ x ∷ [] in
      let b : Kept us = append_all P (filter p es) (x ∷ []) (filter_all P p es a) (m, tt) in
      elim (Bool-cases (ltb 20 (length us))) [ inl e ↦ rw e (tail-Kept us b) | inr e ↦ rw e b ]

  pub forget-Kept : (n : ℕ) (es : List Entry) → Kept es → Kept (forget_session n es)
  unfolding forget_session
  forget-Kept n [] a = tt
  forget-Kept n (e ∷ es) a = (
    filter_all (λ x. matches e.key x.id ≡ true) (λ r. not (r.id == n)) e.result.rows a.0,
    forget-Kept n es a.1,
  )

  pub mark-Kept : (n : ℕ) (es : List Entry) → Kept es → Kept (mark_session_viewed n es)
  unfolding mark_session_viewed
  mark-Kept n [] a = tt
  mark-Kept n (e ∷ es) a = (mark-Matching e.key n e.result.rows a.0, mark-Kept n es a.1)
