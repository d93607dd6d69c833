-- ===== src/Dashboard/Sessions/Steps.antt =====
-- What each event keeps (dashboard/src/pages/Sessions/hooks/useSessions.ts).
use trace_ux.Base.{
  ℕ, ◌≡◌, refl, sym, ap, subst, ◌∙◌, ◌⊎◌, inl, inr, Bool, true, false, not, ◌||◌, Option, none,
  some, arith, ◌==◌, if◌then◌else◌, length, Bool-cases, Option-cases,
}
use trace_ux.Dashboard.Sessions.{Cursor, Result, load_sessions, add_page, remember}
use trace_ux.Dashboard.Sessions.Screen.{
  Load, Page, Screen, rows_of, is_shown, Server, on_loaded, or_nothing, on_load_failed, ask_page,
  ask_more, load_more, on_page, on_page_failed,
}
use trace_ux.Dashboard.Sessions.Matches.{
  Matching, Honest, load_sessions-Matching, add_page-Matching, Showing, remember-Kept,
}
use trace_ux.Dashboard.Sessions.Right.{LoadFits, PageFits, Answering, Right, show-Right, same-Right}

module _ (matches : ℕ → ℕ → Bool) where
  present_load :
      (s : Screen) (l : Load)
      → LoadFits s.generation s.key s.shown_key l
      → (s.generation == l.generation) ≡ true
      → (l.key ≡ s.key) × ((l.cached ≡ none) ⊎ (s.shown_key ≡ some s.key))
  present_load s l (inl h) e = absurd (ground (arith, h, e))
  present_load s l (inr (g, x, y)) e = (x, y)

  pub on_loaded-Right :
      (server : Server) (l : Load) (s : Screen)
      → Honest matches server
      → LoadFits s.generation s.key s.shown_key l
      → Right matches s
      → Right matches (on_loaded server l s)
  unfolding on_loaded
  on_loaded-Right server l s h f v = elim (Bool-cases (s.generation == l.generation)) [
    | inl e ↦
        let next = load_sessions (server l.key) (length (rows_of l.cached)) in
        let m =
          load_sessions-Matching matches l.key (server l.key) (length (rows_of l.cached))
            (h l.key) in
        rw e (
          show-Right matches s
            (record s {
              cache = remember l.key next s.cache;
              result = some next;
              shown_key = some l.key;
              refreshing = false;
            })
            l.key v (present_load s l f e).0 (remember-Kept matches l.key next s.cache m v.kept) m
            refl (refl, refl, refl, refl))
    | inr e ↦ rw e v
  ]

  or_nothing-Showing :
      (s : Screen) (l : Load)
      → Right matches s
      → (l.cached ≡ none) ⊎ (s.shown_key ≡ some s.key)
      → Showing matches s.key (or_nothing l.cached s.result)
  or_nothing-Showing s l v (inl e) = rw e tt
  or_nothing-Showing s l v (inr e) =
      let a : Answering matches (some s.key) s.result =
        subst (λ o. Answering matches o s.result) e v.shown in
      elim (Option-cases l.cached) [ inl n ↦ rw n tt | inr (r, n) ↦ rw n a ]

  pub on_load_failed-Right :
      (l : Load) (s : Screen)
      → LoadFits s.generation s.key s.shown_key l
      → Right matches s
      → Right matches (on_load_failed l s)
  unfolding on_load_failed
  on_load_failed-Right l s f v = elim (Bool-cases (s.generation == l.generation)) [
    | inl e ↦
        let (k, o) = present_load s l f e in
        rw e (
          show-Right matches s
            (record s {
              failed = true;
              result = or_nothing l.cached s.result;
              shown_key = some l.key;
              refreshing = false;
            })
            l.key v k v.kept
            (subst (λ j. Showing matches j (or_nothing l.cached s.result)) (sym k)
              (or_nothing-Showing s l v o))
            refl (refl, refl, refl, refl))
    | inr e ↦ rw e v
  ]

  present_page :
      (s : Screen) (p : Page)
      → PageFits s.generation s.key s.shown_key p
      → (s.generation == p.generation) ≡ true
      → (p.key ≡ s.key) × (s.shown_key ≡ some s.key)
  present_page s p (inl h) e = absurd (ground (arith, h, e))
  present_page s p (inr (g, x, y)) e = (x, y)

  pub on_page-Right :
      (server : Server) (p : Page) (s : Screen)
      → Honest matches server
      → PageFits s.generation s.key s.shown_key p
      → Matching matches p.key p.result.rows
      → Right matches s
      → Right matches (on_page server p s)
  unfolding on_page
  on_page-Right server p s h f a v = elim (Bool-cases (s.generation == p.generation)) [
    | inl e ↦
        let next = add_page (server p.key) p.result.cursor p.result in
        let m =
          add_page-Matching matches p.key (server p.key) p.result.cursor p.result (h p.key) a in
        let (k, o) = present_page s p f e in
        rw e (
          show-Right matches s
            (record s {
              cache = remember p.key next s.cache;
              result = some next;
              loading_more = false;
            })
            p.key v k (remember-Kept matches p.key next s.cache m v.kept) m (o ∙ ap some (sym k))
            (refl, refl, refl, refl))
    | inr e ↦ rw e v
  ]

  pub on_page_failed-Right :
      (p : Page) (s : Screen) → Right matches s → Right matches (on_page_failed p s)
  unfolding on_page_failed
  on_page_failed-Right p s v = elim (Bool-cases (s.generation == p.generation)) [
    | inl e ↦ rw e (
        same-Right matches s (record s { more_failed = true; loading_more = false }) v v.kept
          (refl, refl) (refl, refl, refl, refl))
    | inr e ↦ rw e v
  ]

  is_shown-some : (o : Option ℕ) (k : ℕ) → is_shown o k ≡ true → o ≡ some k
  unfolding is_shown
  is_shown-some none k e = absurd cc
  is_shown-some (some j) k e = ap some (ground (arith, e))

  ask_page-Right :
      (c : Option Cursor) (r : Result) (s : Screen)
      → Right matches s
      → s.shown_key ≡ some s.key
      → Matching matches s.key r.rows
      → Right matches (ask_page c r s)
  ask_page-Right none r s v o a = v
  ask_page-Right (some c) r s v o a = record {
    kept = v.kept;
    shown = v.shown;
    only = v.only;
    loads = v.loads;
    pages = (inr (refl, refl, o), v.pages);
    asked = (a, v.asked);
  }

  either-Right :
      (b : Bool) (s u : Screen)
      → Right matches s
      → Right matches u
      → Right matches (if b then s else u)
  either-Right true s u v w = v
  either-Right false s u v w = w

  ask_more-Right :
      (o : Option Result) (s : Screen)
      → Right matches s
      → s.shown_key ≡ some s.key
      → Showing matches s.key o
      → Right matches (ask_more o s)
  ask_more-Right none s v e a = v
  ask_more-Right (some r) s v e a =
      either-Right r.has_more (ask_page r.cursor r s) s (ask_page-Right r.cursor r s v e a) v

  pub load_more-Right : (s : Screen) → Right matches s → Right matches (load_more s)
  unfolding load_more
  load_more-Right s v =
      elim (Bool-cases (s.refreshing || s.loading_more || not (is_shown s.shown_key s.key))) [
        | inl e ↦ rw e v
        | inr e ↦
            let o = is_shown-some s.shown_key s.key (ground (arith, e)) in
            rw e
              (ask_more-Right s.result s v o (subst (λ k. Answering matches k s.result) o v.shown))
      ]
