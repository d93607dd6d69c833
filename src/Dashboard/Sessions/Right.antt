-- ===== src/Dashboard/Sessions/Right.antt =====
-- What holds of the list between two events (dashboard/src/pages/Sessions/hooks/useSessions.ts).
use trace_ux.Base.{
  ℕ, suc, ◌<◌, ◌≡◌, refl, sym, ap, subst, ◌∙◌, ◌⊎◌, inl, inr, Bool, Option, none, some, List, [],
  ◌∷◌, arith, All,
}
use trace_ux.Dashboard.Sessions.{Result, get}
use trace_ux.Dashboard.Sessions.Screen.{Load, Page, Screen, key_of, enter, leave}
use trace_ux.Dashboard.Sessions.Matches.{Matching, Kept, Showing, get-Showing}

-- A load of the present generation is one of the present query, and what it found is shown.
abbrev pub LoadFits : ℕ → ℕ → Option ℕ → Load → Type 0
LoadFits g k shown l =
    (l.generation < g) ⊎ (l.generation ≡ g) × (l.key ≡ k) × ((l.cached ≡ none) ⊎ (shown ≡ some k))

-- A further page of the present generation is one of the query that is shown.
abbrev pub PageFits : ℕ → ℕ → Option ℕ → Page → Type 0
PageFits g k shown p = (p.generation < g) ⊎ (p.generation ≡ g) × (p.key ≡ k) × (shown ≡ some k)

later_loads :
    (g k j : ℕ) (shown other : Option ℕ) (ls : List Load)
    → All (LoadFits g k shown) ls
    → All (LoadFits (suc g) j other) ls
later_loads g k j shown other [] a = tt
later_loads g k j shown other (l ∷ ls) a = (
  elim a.0 [ inl h ↦ inl (omega (arith, h)) | inr (h, x, y) ↦ inl (omega (arith, h)) ],
  later_loads g k j shown other ls a.1,
)

later_pages :
    (g k j : ℕ) (shown other : Option ℕ) (ps : List Page)
    → All (PageFits g k shown) ps
    → All (PageFits (suc g) j other) ps
later_pages g k j shown other [] a = tt
later_pages g k j shown other (p ∷ ps) a = (
  elim a.0 [ inl h ↦ inl (omega (arith, h)) | inr (h, x, y) ↦ inl (omega (arith, h)) ],
  later_pages g k j shown other ps a.1,
)

-- Once the query is shown, it stays so.
shown_loads :
    (g k : ℕ) (shown : Option ℕ) (ls : List Load)
    → All (LoadFits g k shown) ls
    → All (LoadFits g k (some k)) ls
shown_loads g k shown [] a = tt
shown_loads g k shown (l ∷ ls) a = (
  elim a.0 [ inl h ↦ inl h | inr (h, x, y) ↦ inr (h, x, inr refl) ],
  shown_loads g k shown ls a.1,
)

shown_pages :
    (g k : ℕ) (shown : Option ℕ) (ps : List Page)
    → All (PageFits g k shown) ps
    → All (PageFits g k (some k)) ps
shown_pages g k shown [] a = tt
shown_pages g k shown (p ∷ ps) a =
    (elim a.0 [ inl h ↦ inl h | inr (h, x, y) ↦ inr (h, x, refl) ], shown_pages g k shown ps a.1)

module _ (matches : ℕ → ℕ → Bool) where
  -- `key_of` names the query of what is shown, where anything is.
  abbrev pub Answering : Option ℕ → Option Result → Type 0
  Answering none r = Unit
  Answering (some k) r = Showing matches k r

  pub record Right (s : Screen) : Type 0 where
    pub kept : Kept matches s.cache
    pub shown : Answering s.shown_key s.result
    pub only : (s.shown_key ≡ none) ⊎ (s.shown_key ≡ some s.key)
    pub loads : All (LoadFits s.generation s.key s.shown_key) s.loads
    pub pages : All (PageFits s.generation s.key s.shown_key) s.pages
    pub asked : All (λ p. Matching matches p.key p.result.rows) s.pages

  pub leave-Right : (s : Screen) → Right s → Right (leave s)
  unfolding leave
  leave-Right s v = record {
    kept = v.kept;
    shown = v.shown;
    only = v.only;
    loads = later_loads s.generation s.key s.key s.shown_key s.shown_key s.loads v.loads;
    pages = later_pages s.generation s.key s.key s.shown_key s.shown_key s.pages v.pages;
    asked = v.asked;
  }

  found-Answering : (k : ℕ) (r : Option Result) → Showing matches k r → Answering (key_of r k) r
  found-Answering k none a = tt
  found-Answering k (some r) a = a

  found_only : (k : ℕ) (r : Option Result) → (key_of r k ≡ none) ⊎ (key_of r k ≡ some k)
  found_only k none = inl refl
  found_only k (some r) = inr refl

  found_loads : (k : ℕ) (r : Option Result) → (r ≡ none) ⊎ (key_of r k ≡ some k)
  found_loads k none = inl refl
  found_loads k (some r) = inr refl

  pub enter-Right : (k : ℕ) (s : Screen) → Right s → Right (enter k s)
  unfolding enter
  enter-Right k s v =
      let c = get k s.cache in
      record {
        kept = v.kept;
        shown = found-Answering k c (get-Showing matches k s.cache v.kept);
        only = found_only k c;
        loads = (
          inr (refl, refl, found_loads k c),
          later_loads s.generation s.key k s.shown_key (key_of c k) s.loads v.loads,
        );
        pages = later_pages s.generation s.key k s.shown_key (key_of c k) s.pages v.pages;
        asked = v.asked;
      }

  pub show-Right :
      (s u : Screen) (k : ℕ)
      → Right s
      → k ≡ s.key
      → Kept matches u.cache
      → Showing matches k u.result
      → u.shown_key ≡ some k
      → (u.key ≡ s.key) × (u.generation ≡ s.generation) × (u.loads ≡ s.loads) × (u.pages ≡ s.pages)
      → Right u
  show-Right s u k v e c a h (w, g, ls, ps) =
      let d : u.shown_key ≡ some s.key = h ∙ ap some e in
      record {
        kept = c;
        shown = subst (λ o. Answering o u.result) (sym h) a;
        only = inr (d ∙ ap some (sym w));
        loads =
            rw g (rw w (rw ls (rw d (shown_loads s.generation s.key s.shown_key s.loads v.loads))));
        pages =
            rw g (rw w (rw ps (rw d (shown_pages s.generation s.key s.shown_key s.pages v.pages))));
        asked = rw ps v.asked;
      }

  -- A change of none of these.
  pub same-Right :
      (s u : Screen)
      → Right s
      → Kept matches u.cache
      → (u.shown_key ≡ s.shown_key) × (u.result ≡ s.result)
      → (u.key ≡ s.key) × (u.generation ≡ s.generation) × (u.loads ≡ s.loads) × (u.pages ≡ s.pages)
      → Right u
  same-Right s u v c (h, r) (w, g, ls, ps) = record {
    kept = c;
    shown = rw h (rw r v.shown);
    only = rw h (rw w v.only);
    loads = rw g (rw w (rw ls (rw h v.loads)));
    pages = rw g (rw w (rw ps (rw h v.pages)));
    asked = rw ps v.asked;
  }
