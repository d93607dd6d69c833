-- ===== src/Dashboard/CssAssets/Resolve.antt =====
-- What the replay gets (dashboard/src/lib/cssAssets.ts, collectCSSRefs and rehydrateCSS).
use trace_ux.Base.{
  Option, ◌≡◌, refl, ◌⊎◌, inl, inr, true, false, none, some, List, [], ◌∷◌, ◌++◌, Str, str_eq_refl,
  arith, Option-cases, ◌≢◌, ◌||◌,
}
use trace_ux.Dashboard.CssAssets.{
  Node, scalar, text, array, object, Nodes, nil, cons, Entries, end, entry, is_css_ref, entry_ref,
  has, add, walk_refs, walk_items, walk_entries, collect_css_refs, Assets, get, Walk, missing, done,
  put_refs, put_items, put_entries, rehydrate_css,
}

has-push : (h : Str) (xs ys : List Str) → has h (xs ++ ys) ≡ (has h xs || has h ys)
unfolding has
has-push h [] ys = refl
has-push h (x ∷ xs) ys = ground (arith, has-push h xs ys)

-- A hash that was found stays found.
has-add : (h g : Str) (xs : List Str) → has h xs ≡ true → has h (add g xs) ≡ true
unfolding add
has-add h g xs e = ground (arith, e, has-push h xs (g ∷ []))

has-added : (g : Str) (xs : List Str) → has g (add g xs) ≡ true
unfolding add has
has-added g xs = ground (arith, has-push g xs (g ∷ []), str_eq_refl g)

mutual
  unfolding walk_refs

  walk_refs-keeps :
      (h : Str) (j : Node) (xs : List Str) → has h xs ≡ true → has h (walk_refs j xs) ≡ true
  walk_refs-keeps h (scalar n) xs e = e
  walk_refs-keeps h (text v) xs e = e
  walk_refs-keeps h (array js) xs e = walk_items-keeps h js xs e
  walk_refs-keeps h (object fs) xs e = walk_entries-keeps h fs xs e

  walk_items-keeps :
      (h : Str) (js : Nodes) (xs : List Str) → has h xs ≡ true → has h (walk_items js xs) ≡ true
  walk_items-keeps h nil xs e = e
  walk_items-keeps h (cons j js) xs e =
      walk_items-keeps h js (walk_refs j xs) (walk_refs-keeps h j xs e)

  walk_entries-keeps :
      (h : Str) (fs : Entries) (xs : List Str) → has h xs ≡ true → has h (walk_entries fs xs) ≡ true
  walk_entries-keeps h end xs e = e
  walk_entries-keeps h (entry k v fs) xs e = elim (Option-cases (entry_ref k v)) [
    | inl q ↦ ground (arith, q, walk_entries-keeps h fs (walk_refs v xs) (walk_refs-keeps h v xs e))
    | inr (g, q) ↦ ground (arith, q, walk_entries-keeps h fs (add g xs) (has-add h g xs e))
  ]

-- The assets hold a stylesheet for every hash that was found.
abbrev pub Covers : Assets → List Str → Type 0
Covers a found = (h : Str) → has h found ≡ true → get h a ≢ none

-- What the events are with their stylesheets in: under a key, a reference gives way to the text of
-- its stylesheet, and everything else stays.
abbrev pub sheet : Assets → Str → Str
sheet a h = elim (get h a) [ none ↦ [] | some css ↦ css ]

abbrev pub styled_value : Assets → Option Str → Node → Node
styled_value a none v = v
styled_value a (some h) v = text (sheet a h)

unfoldable mutual
  unfolding entry_ref get

  pub styled : Assets → Node → Node
  styled a (scalar n) = scalar n
  styled a (text v) = text v
  styled a (array js) = array (styled_items a js)
  styled a (object fs) = object (styled_entries a fs)

  pub styled_items : Assets → Nodes → Nodes
  styled_items a nil = nil
  styled_items a (cons j js) = cons (styled a j) (styled_items a js)

  pub styled_entries : Assets → Entries → Entries
  styled_entries a end = end
  styled_entries a (entry k v fs) =
      entry k (styled_value a (entry_ref k v) (styled a v)) (styled_entries a fs)

mutual
  unfolding walk_refs put_refs styled

  put_refs-styled :
      (a : Assets) (j : Node) (xs : List Str)
      → Covers a (walk_refs j xs)
      → put_refs a j ≡ done (styled a j)
  put_refs-styled a (scalar n) xs c = refl
  put_refs-styled a (text v) xs c = refl
  put_refs-styled a (array js) xs c = rw (put_items-styled a js xs c) refl
  put_refs-styled a (object fs) xs c = rw (put_entries-styled a fs xs c) refl

  put_items-styled :
      (a : Assets) (js : Nodes) (xs : List Str)
      → Covers a (walk_items js xs)
      → put_items a js ≡ done (styled_items a js)
  put_items-styled a nil xs c = refl
  put_items-styled a (cons j js) xs c =
      let e = put_refs-styled a j xs (λ h q. c h (walk_items-keeps h js (walk_refs j xs) q)) in
      let es = put_items-styled a js (walk_refs j xs) c in rw (e, es) refl

  put_entries-styled :
      (a : Assets) (fs : Entries) (xs : List Str)
      → Covers a (walk_entries fs xs)
      → put_entries a fs ≡ done (styled_entries a fs)
  put_entries-styled a end xs c = refl
  put_entries-styled a (entry k v fs) xs c = elim (Option-cases (entry_ref k v)) [
    | inl q ↦
        let d =
          put_refs-styled a v xs
            (λ h b. c h (ground (arith, q, walk_entries-keeps h fs (walk_refs v xs) b))) in
        let ds = put_entries-styled a fs (walk_refs v xs) (λ h b. c h (ground (arith, q, b))) in
        ground (arith, q, d, ds)
    | inr (g, q) ↦ elim (Option-cases (get g a)) [
      | inl n ↦
          absurd (c g (ground (arith, q, walk_entries-keeps g fs (add g xs) (has-added g xs))) n)
      | inr (css, s) ↦
          let ds = put_entries-styled a fs (add g xs) (λ h b. c h (ground (arith, q, b))) in
          ground (arith, q, s, ds)
    ]
  ]

Walk-cases {ℓ} :
    {A : Type ℓ} (w : Walk A) → ((h : Str) × (w ≡ missing h)) ⊎ ((x : A) × (w ≡ done x))
Walk-cases (missing h) = inl (h, refl)
Walk-cases (done x) = inr (x, refl)

-- The hash that stops the walk was found, and has no stylesheet.
abbrev Blames : Assets → Str → List Str → Type 0
Blames a h found = (has h found ≡ true) × (get h a ≡ none)

mutual
  unfolding walk_refs put_refs

  put_refs-Blames :
      (a : Assets) (j : Node) (xs : List Str) {h : Str}
      → put_refs a j ≡ missing h
      → Blames a h (walk_refs j xs)
  put_refs-Blames a (scalar n) xs e = absurd cc
  put_refs-Blames a (text v) xs e = absurd cc
  put_refs-Blames a (array js) xs e = elim (Walk-cases (put_items a js)) [
    | inl (g, d) ↦ ground (arith, d, e, put_items-Blames a js xs d)
    | inr (ys, d) ↦ absurd (ground (arith, d, e))
  ]
  put_refs-Blames a (object fs) xs e = elim (Walk-cases (put_entries a fs)) [
    | inl (g, d) ↦ ground (arith, d, e, put_entries-Blames a fs xs d)
    | inr (ys, d) ↦ absurd (ground (arith, d, e))
  ]

  put_items-Blames :
      (a : Assets) (js : Nodes) (xs : List Str) {h : Str}
      → put_items a js ≡ missing h
      → Blames a h (walk_items js xs)
  put_items-Blames a nil xs e = absurd cc
  put_items-Blames a (cons j js) xs {h} e = elim (Walk-cases (put_refs a j)) [
    | inl (g, d) ↦
        let (b, n) = put_refs-Blames a j xs d in
        ground (arith, d, e, n, walk_items-keeps g js (walk_refs j xs) b)
    | inr (y, d) ↦ elim (Walk-cases (put_items a js)) [
      | inl (g, ds) ↦ ground (arith, d, ds, e, put_items-Blames a js (walk_refs j xs) ds)
      | inr (ys, ds) ↦ absurd (ground (arith, d, ds, e))
    ]
  ]

  put_entries-Blames :
      (a : Assets) (fs : Entries) (xs : List Str) {h : Str}
      → put_entries a fs ≡ missing h
      → Blames a h (walk_entries fs xs)
  put_entries-Blames a end xs e = absurd cc
  put_entries-Blames a (entry k v fs) xs {h} e = elim (Walk-cases (put_entries a fs)) [
    | inl (g, ds) ↦ elim (Option-cases (entry_ref k v)) [
      | inl q ↦ elim (Walk-cases (put_refs a v)) [
        | inl (i, d) ↦
            let (b, n) = put_refs-Blames a v xs d in
            ground (arith, q, d, e, n, walk_entries-keeps i fs (walk_refs v xs) b)
        | inr (w, d) ↦ ground (arith, q, d, ds, e, put_entries-Blames a fs (walk_refs v xs) ds)
      ]
      | inr (i, q) ↦ elim (Option-cases (get i a)) [
        | inl n ↦ ground (arith, q, n, e, walk_entries-keeps i fs (add i xs) (has-added i xs))
        | inr (css, s) ↦ ground (arith, q, s, ds, e, put_entries-Blames a fs (add i xs) ds)
      ]
    ]
    | inr (gs, ds) ↦ elim (Option-cases (entry_ref k v)) [
      | inl q ↦ elim (Walk-cases (put_refs a v)) [
        | inl (i, d) ↦
            let (b, n) = put_refs-Blames a v xs d in
            ground (arith, q, d, e, n, walk_entries-keeps i fs (walk_refs v xs) b)
        | inr (w, d) ↦ absurd (ground (arith, q, d, ds, e))
      ]
      | inr (i, q) ↦ elim (Option-cases (get i a)) [
        | inl n ↦ ground (arith, q, n, e, walk_entries-keeps i fs (add i xs) (has-added i xs))
        | inr (css, s) ↦ absurd (ground (arith, q, s, ds, e))
      ]
    ]
  ]

-- Where each hash that collectCSSRefs finds has a stylesheet, rehydrateCSS does not throw, and it
-- leaves the events with the text of the stylesheet in the place of each reference and with all else
-- as it was.
pub covered_rehydrates :
    (a : Assets) (es : Nodes)
    → Covers a (collect_css_refs es)
    → rehydrate_css a es ≡ done (styled_items a es)
unfolding rehydrate_css collect_css_refs
covered_rehydrates a es c = put_items-styled a es [] c

-- Where rehydrateCSS throws, it names a hash that collectCSSRefs finds in the same events and that
-- has no stylesheet.
pub missing_was_found :
    (a : Assets) (es : Nodes) {h : Str}
    → rehydrate_css a es ≡ missing h
    → (has h (collect_css_refs es) ≡ true) × (get h a ≡ none)
unfolding rehydrate_css collect_css_refs
missing_was_found a es e = put_items-Blames a es [] e

-- No stylesheet reads like a reference itself.
abbrev pub Plain : Assets → Type 0
Plain a = (h css : Str) → get h a ≡ some css → is_css_ref css ≡ false

-- A plain text under any key is no reference, and the walk leaves it.
plain_entry : (k css : Str) → is_css_ref css ≡ false → entry_ref k (text css) ≡ none
unfolding entry_ref
plain_entry k css e = ground (arith, e)

kept_value :
    (a : Assets) (k : Str) (v : Node) {w : Node}
    → entry_ref k v ≡ none
    → put_refs a v ≡ done w
    → entry_ref k w ≡ none
unfolding entry_ref put_refs
kept_value a k (scalar n) q d = ground (arith, q, d)
kept_value a k (text v) q d = ground (arith, q, d)
kept_value a k (array xs) q d = elim (Walk-cases (put_items a xs)) [
  | inl (g, e) ↦ absurd (ground (arith, d, e))
  | inr (ys, e) ↦ ground (arith, d, e)
]
kept_value a k (object fs) q d = elim (Walk-cases (put_entries a fs)) [
  | inl (g, e) ↦ absurd (ground (arith, d, e))
  | inr (ys, e) ↦ ground (arith, d, e)
]

entry-stops :
    (a : Assets) (k : Str) (v : Node) (fs : Entries) {g : Str} {gs : Entries}
    → put_entries a fs ≡ missing g
    → put_entries a (entry k v fs) ≡ done gs
    → ⊥
unfolding put_refs
entry-stops a k v fs ds e = elim (Option-cases (entry_ref k v)) [
  | inl q ↦ elim (Walk-cases (put_refs a v)) [
    | inl (i, d) ↦ ground (arith, q, d, e)
    | inr (w, d) ↦ ground (arith, q, d, ds, e)
  ]
  | inr (i, q) ↦ elim (Option-cases (get i a)) [
    | inl n ↦ ground (arith, q, n, e)
    | inr (css, s) ↦ ground (arith, q, s, ds, e)
  ]
]

mutual
  unfolding walk_refs put_refs

  put_refs-done :
      (a : Assets) (j : Node) (xs : List Str) {y : Node}
      → Plain a
      → put_refs a j ≡ done y
      → walk_refs y xs ≡ xs
  put_refs-done a (scalar n) xs p e = ground (arith, e)
  put_refs-done a (text v) xs p e = ground (arith, e)
  put_refs-done a (array js) xs p e = elim (Walk-cases (put_items a js)) [
    | inl (g, d) ↦ absurd (ground (arith, d, e))
    | inr (ys, d) ↦ ground (arith, d, e, put_items-done a js xs p d)
  ]
  put_refs-done a (object fs) xs p e = elim (Walk-cases (put_entries a fs)) [
    | inl (g, d) ↦ absurd (ground (arith, d, e))
    | inr (ys, d) ↦ ground (arith, d, e, put_entries-done a fs xs p d)
  ]

  put_items-done :
      (a : Assets) (js : Nodes) (xs : List Str) {ys : Nodes}
      → Plain a
      → put_items a js ≡ done ys
      → walk_items ys xs ≡ xs
  put_items-done a nil xs p e = ground (arith, e)
  put_items-done a (cons j js) xs p e = elim (Walk-cases (put_refs a j)) [
    | inl (g, d) ↦ absurd (ground (arith, d, e))
    | inr (y, d) ↦ elim (Walk-cases (put_items a js)) [
      | inl (g, ds) ↦ absurd (ground (arith, d, ds, e))
      | inr (ys, ds) ↦
          ground (arith, d, ds, e, put_refs-done a j xs p d, put_items-done a js xs p ds)
    ]
  ]

  put_entries-done :
      (a : Assets) (fs : Entries) (xs : List Str) {gs : Entries}
      → Plain a
      → put_entries a fs ≡ done gs
      → walk_entries gs xs ≡ xs
  put_entries-done a end xs p e = ground (arith, e)
  put_entries-done a (entry k v fs) xs p e = elim (Walk-cases (put_entries a fs)) [
    | inl (g, ds) ↦ absurd (entry-stops a k v fs ds e)
    | inr (gs, ds) ↦ elim (Option-cases (entry_ref k v)) [
      | inl q ↦ elim (Walk-cases (put_refs a v)) [
        | inl (i, d) ↦ absurd (ground (arith, q, d, e))
        | inr (w, d) ↦ ground (
          arith,
          q,
          d,
          ds,
          e,
          kept_value a k v q d,
          put_refs-done a v xs p d,
          put_entries-done a fs xs p ds,
        )
      ]
      | inr (i, q) ↦ elim (Option-cases (get i a)) [
        | inl n ↦ absurd (ground (arith, q, n, e))
        | inr (css, s) ↦
            ground
              (arith, q, s, ds, e, plain_entry k css (p i css s), put_entries-done a fs xs p ds)
      ]
    ]
  ]

-- Where no stylesheet reads like a reference itself, the events that rehydrateCSS leaves hold no
-- reference any more.
pub rehydrated-Plain :
    (a : Assets) (es : Nodes) {ys : Nodes}
    → Plain a
    → rehydrate_css a es ≡ done ys
    → collect_css_refs ys ≡ []
unfolding rehydrate_css collect_css_refs
rehydrated-Plain a es p e = put_items-done a es [] p e
