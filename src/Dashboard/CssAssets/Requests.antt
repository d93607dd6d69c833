-- ===== src/Dashboard/CssAssets/Requests.antt =====
-- How often a stylesheet is asked for (dashboard/src/lib/cssAssets.ts, fetchCSSAsset).
use trace_ux.Base.{
  ℕ, ◌+◌, ◌≡◌, refl, Bool, true, false, List, [], ◌∷◌, Str, str_eq, str_eq_sound, if◌then◌else◌,
  arith, Bool-cases, inl, inr, ◌&&◌, ap, sym,
}
use trace_ux.Dashboard.CssAssets.{
  Nodes, Cache, has, delete, fetch_css_asset, fetch_failed, fetch_all, load_css_assets,
  collect_css_refs,
}

-- What happens to the cache: the events of a replay are loaded, or a request that is in it fails.
pub data Traffic : Type 0 where
  loads : Nodes → Traffic
  breaks : Str → Traffic

unfoldable pub on_traffic : Traffic → Cache → Cache
unfolding has
on_traffic (loads es) c = load_css_assets es c
on_traffic (breaks h) c = if has h c.cached then fetch_failed h c else c

unfoldable pub after : List Traffic → Cache → Cache
after [] c = c
after (t ∷ ts) c = after ts (on_traffic t c)

unfoldable pub count : Str → List Str → ℕ
count h [] = 0
count h (x ∷ xs) = (if str_eq x h then 1 else 0) + count h xs

unfoldable pub failures : Str → List Traffic → Cache → ℕ
unfolding has
failures h [] c = 0
failures h (loads es ∷ ts) c = failures h ts (load_css_assets es c)
failures h (breaks g ∷ ts) c =
    (if has g c.cached && str_eq g h then 1 else 0) + failures h ts (on_traffic (breaks g) c)

abbrev pub nothing_yet : Cache
nothing_yet = record { cached = []; requests = [] }

abbrev pub one_if : Bool → ℕ
one_if b = if b then 1 else 0

same_has : (g h : Str) (xs : List Str) → str_eq g h ≡ true → has h xs ≡ has g xs
same_has g h xs e = ap (λ s. has s xs) (sym (str_eq_sound g h e))

fetch-count :
    (h g : Str) (c : Cache) (n : ℕ)
    → count h c.requests ≡ one_if (has h c.cached) + n
    → count h (fetch_css_asset g c).requests ≡ one_if (has h (fetch_css_asset g c).cached) + n
unfolding fetch_css_asset count has
fetch-count h g c n e = elim (Bool-cases (str_eq g h)) [
  | inl q ↦ ground (arith, e, q, same_has g h c.cached q)
  | inr q ↦ ground (arith, e, q)
]

fetch_all-count :
    (h : Str) (gs : List Str) (c : Cache) (n : ℕ)
    → count h c.requests ≡ one_if (has h c.cached) + n
    → count h (fetch_all gs c).requests ≡ one_if (has h (fetch_all gs c).cached) + n
unfolding fetch_all
fetch_all-count h [] c n e = e
fetch_all-count h (g ∷ gs) c n e =
    fetch_all-count h gs (fetch_css_asset g c) n (fetch-count h g c n e)

has-delete_same : (h : Str) (xs : List Str) → has h (delete h xs) ≡ false
unfolding has delete
has-delete_same h [] = refl
has-delete_same h (x ∷ xs) = ground (arith, has-delete_same h xs)

has-delete_other : (g h : Str) (xs : List Str) → str_eq g h ≡ false → has h (delete g xs) ≡ has h xs
unfolding has delete
has-delete_other g h [] e = refl
has-delete_other g h (x ∷ xs) e = elim (Bool-cases (str_eq x g)) [
  | inl q ↦
      ground (arith, has-delete_other g h xs e, q, ap (λ s. str_eq s h) (str_eq_sound x g q), e)
  | inr q ↦ ground (arith, has-delete_other g h xs e, q)
]

failed-count :
    (h g : Str) (c : Cache) (n : ℕ)
    → has g c.cached ≡ true
    → count h c.requests ≡ one_if (has h c.cached) + n
    → count h (fetch_failed g c).requests
      ≡ one_if (has h (fetch_failed g c).cached) + (n + one_if (str_eq g h))
unfolding fetch_failed
failed-count h g c n b e = elim (Bool-cases (str_eq g h)) [
  | inl q ↦ ground (
    arith,
    e,
    q,
    b,
    same_has g h c.cached q,
    same_has g h (delete g c.cached) q,
    has-delete_same g c.cached,
  )
  | inr q ↦ ground (arith, e, q, has-delete_other g h c.cached q)
]

after-count :
    (h : Str) (ts : List Traffic) (c : Cache) (n : ℕ)
    → count h c.requests ≡ one_if (has h c.cached) + n
    → count h (after ts c).requests ≡ one_if (has h (after ts c).cached) + (n + failures h ts c)
unfolding after failures on_traffic
after-count h [] c n e = ground (arith, e)
after-count h (loads es ∷ ts) c n e =
    after-count h ts (load_css_assets es c) n
      (unfold load_css_assets in fetch_all-count h (collect_css_refs es) c n e)
after-count h (breaks g ∷ ts) c n e = elim (Bool-cases (has g c.cached)) [
  | inl b ↦ ground (
    arith,
    b,
    after-count h ts (fetch_failed g c) (n + one_if (str_eq g h)) (failed-count h g c n b e),
  )
  | inr b ↦ ground (arith, b, after-count h ts c n e)
]

-- However many replays are loaded, a stylesheet is asked for once, and once more after each time
-- its request failed: the requests are as many as the failures, and one more while it is cached.
pub requested_once :
    (h : Str) (ts : List Traffic)
    → count h (after ts nothing_yet).requests
      ≡ one_if (has h (after ts nothing_yet).cached) + failures h ts nothing_yet
unfolding count has
requested_once h ts = omega (arith, after-count h ts nothing_yet 0 refl)
