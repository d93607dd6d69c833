-- ===== src/Dashboard/Sessions/Answered.antt =====
-- A search comes to its end (dashboard/src/pages/Sessions/hooks/useSessions.ts).
use trace_ux.Base.{
  ℕ, ◌≡◌, refl, inl, inr, Bool, true, false, not, ◌||◌, Option, none, some, List, [], ◌∷◌, arith,
  ◌==◌, if◌then◌else◌, get_elem?, Bool-cases, All,
}
use trace_ux.Dashboard.Sessions.{Result, Cursor}
use trace_ux.Dashboard.Sessions.Screen.{
  Load, Page, Screen, enter, is_shown, searching, Server, on_loaded, on_load_failed, ask_page,
  ask_more, load_more, on_page, on_page_failed, Event, query_changes, leaves, loaded, load_failed,
  more_asked, page_came, page_failed, deleted, viewed, for_load, for_page, step, run,
}

-- The last load that was asked for is the present query's.
abbrev LastLoad : ℕ → ℕ → List Load → Type 0
LastLoad g k [] = ⊥
LastLoad g k (l ∷ ls) = (l.generation ≡ g) × (l.key ≡ k)

abbrev Waits : Screen → Type 0
Waits s = LastLoad s.generation s.key s.loads

-- The query does not change, and the page is not left.
abbrev pub Stays : Event → Type 0
Stays (query_changes k) = ⊥
Stays leaves = ⊥
Stays (loaded n server) = Unit
Stays (load_failed n) = Unit
Stays more_asked = Unit
Stays (page_came n server) = Unit
Stays (page_failed n) = Unit
Stays (deleted n) = Unit
Stays (viewed n) = Unit

either-Waits : (b : Bool) (s u : Screen) → Waits s → Waits u → Waits (if b then s else u)
either-Waits true s u v w = v
either-Waits false s u v w = w

on_loaded-Waits : (server : Server) (l : Load) (s : Screen) → Waits s → Waits (on_loaded server l s)
unfolding on_loaded
on_loaded-Waits server l s w = elim (Bool-cases (s.generation == l.generation)) [
  | inl e ↦ rw e w
  | inr e ↦ rw e w
]

on_load_failed-Waits : (l : Load) (s : Screen) → Waits s → Waits (on_load_failed l s)
unfolding on_load_failed
on_load_failed-Waits l s w = elim (Bool-cases (s.generation == l.generation)) [
  | inl e ↦ rw e w
  | inr e ↦ rw e w
]

on_page-Waits : (server : Server) (p : Page) (s : Screen) → Waits s → Waits (on_page server p s)
unfolding on_page
on_page-Waits server p s w = elim (Bool-cases (s.generation == p.generation)) [
  | inl e ↦ rw e w
  | inr e ↦ rw e w
]

on_page_failed-Waits : (p : Page) (s : Screen) → Waits s → Waits (on_page_failed p s)
unfolding on_page_failed
on_page_failed-Waits p s w = elim (Bool-cases (s.generation == p.generation)) [
  | inl e ↦ rw e w
  | inr e ↦ rw e w
]

ask_page-Waits : (c : Option Cursor) (r : Result) (s : Screen) → Waits s → Waits (ask_page c r s)
ask_page-Waits none r s w = w
ask_page-Waits (some c) r s w = w

ask_more-Waits : (o : Option Result) (s : Screen) → Waits s → Waits (ask_more o s)
ask_more-Waits none s w = w
ask_more-Waits (some r) s w =
    either-Waits r.has_more (ask_page r.cursor r s) s (ask_page-Waits r.cursor r s w) w

load_more-Waits : (s : Screen) → Waits s → Waits (load_more s)
unfolding load_more
load_more-Waits s w =
    either-Waits (s.refreshing || s.loading_more || not (is_shown s.shown_key s.key)) s
      (ask_more s.result s) w (ask_more-Waits s.result s w)

for_load-Waits :
    (f : Load → Screen → Screen) (o : Option Load) (s : Screen)
    → ((l : Load) → Waits (f l s))
    → Waits s
    → Waits (for_load f o s)
for_load-Waits f none s h w = w
for_load-Waits f (some l) s h w = h l

for_page-Waits :
    (f : Page → Screen → Screen) (o : Option Page) (s : Screen)
    → ((p : Page) → Waits (f p s))
    → Waits s
    → Waits (for_page f o s)
for_page-Waits f none s h w = w
for_page-Waits f (some p) s h w = h p

step-Waits : (e : Event) (s : Screen) → Stays e → Waits s → Waits (step e s)
unfolding step
step-Waits (query_changes k) s h w = absurd h
step-Waits leaves s h w = absurd h
step-Waits (loaded n server) s h w =
    for_load-Waits (on_loaded server) (get_elem? s.loads n) s (λ l. on_loaded-Waits server l s w) w
step-Waits (load_failed n) s h w =
    for_load-Waits on_load_failed (get_elem? s.loads n) s (λ l. on_load_failed-Waits l s w) w
step-Waits more_asked s h w = load_more-Waits s w
step-Waits (page_came n server) s h w =
    for_page-Waits (on_page server) (get_elem? s.pages n) s (λ p. on_page-Waits server p s w) w
step-Waits (page_failed n) s h w =
    for_page-Waits on_page_failed (get_elem? s.pages n) s (λ p. on_page_failed-Waits p s w) w
step-Waits (deleted n) s h w = w
step-Waits (viewed n) s h w = w

run-Waits : (es : List Event) (s : Screen) → All Stays es → Waits s → Waits (run es s)
unfolding run
run-Waits [] s h w = w
run-Waits (e ∷ es) s h w = run-Waits es (step e s) h.1 (step-Waits e s h.0 w)

-- Neither searching nor refreshing.
abbrev pub AtRest : Screen → Type 0
AtRest s = (searching s ≡ false) × (s.refreshing ≡ false)

loaded-AtRest :
    (server : Server) (l : Load) (s : Screen)
    → l.generation ≡ s.generation
    → l.key ≡ s.key
    → AtRest (on_loaded server l s)
unfolding on_loaded searching is_shown
loaded-AtRest server l s g k = ground (arith, g, k)

failed-AtRest :
    (l : Load) (s : Screen)
    → l.generation ≡ s.generation
    → l.key ≡ s.key
    → AtRest (on_load_failed l s)
unfolding on_load_failed searching is_shown
failed-AtRest l s g k = ground (arith, g, k)

answers_last :
    (server : Server) (s : Screen)
    → Waits s
    → AtRest (step (loaded 0 server) s) × AtRest (step (load_failed 0) s)
unfolding step
answers_last server s w = go s.loads w
  where
    go :
        (ls : List Load)
        → LastLoad s.generation s.key ls
        → AtRest (for_load (on_loaded server) (get_elem? ls 0) s)
          × AtRest (for_load on_load_failed (get_elem? ls 0) s)
    go [] w = absurd w
    go (l ∷ ls) w = (loaded-AtRest server l s w.0 w.1, failed-AtRest l s w.0 w.1)

-- A search comes to its end: after the query changed, whatever answers came late and whatever was
-- asked for since, as long as the query did not change again, the answer to its request, a failure as
-- well as any result, leaves the page neither searching nor refreshing.
pub answer_ends_search :
    (k : ℕ) (s : Screen) (es : List Event) (server : Server)
    → All Stays es
    → AtRest (step (loaded 0 server) (run es (step (query_changes k) s)))
      × AtRest (step (load_failed 0) (run es (step (query_changes k) s)))
answer_ends_search k s es server h =
    let u = step (query_changes k) s in
    answers_last server (run es u) (run-Waits es u h (unfold step enter in (refl, refl)))
