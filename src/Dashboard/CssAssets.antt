-- ===== src/Dashboard/CssAssets.antt =====
-- dashboard/src/lib/cssAssets.ts: recorded events carry references to stylesheets, which are
-- collected, fetched once each and put in. An object's own keys are in the order of
-- Object.entries; the walk changes the tree in place, so its result is the changed tree.
pub mod Resolve
pub mod Requests
use trace_ux.Base.{
  ℕ, Bool, true, false, not, ◌&&◌, ◌||◌, Option, none, some, List, [], ◌∷◌, Str, str_eq, ◌==◌,
  if◌then◌else◌, take, drop, length, push,
}
use trace_ux.Tracker.Config.{codes}

mutual
  pub data Node : Type 0 where
    scalar : ℕ → Node
    text : Str → Node
    array : Nodes → Node
    object : Entries → Node

  pub data Nodes : Type 0 where
    nil : Nodes
    cons : Node → Nodes → Nodes

  pub data Entries : Type 0 where
    end : Entries
    entry : Str → Node → Entries → Entries

abbrev pub css_ref_prefix : Str
css_ref_prefix = codes "@traceux-css-ref:"

abbrev pub css_ref_len : ℕ
css_ref_len = 81

unfoldable pub is_css_ref : Str → Bool
is_css_ref v = (length v == css_ref_len) && str_eq (take 17 v) css_ref_prefix

-- The hash of `_cssText: v`, where that is a reference.
abbrev pub text_ref : Str → Str → Option Str
text_ref k v = if str_eq k (codes "_cssText") && is_css_ref v then some (drop 17 v) else none

unfoldable pub entry_ref : Str → Node → Option Str
unfolding is_css_ref
entry_ref k (scalar n) = none
entry_ref k (text v) = text_ref k v
entry_ref k (array xs) = none
entry_ref k (object fs) = none

unfoldable pub has : Str → List Str → Bool
has h [] = false
has h (x ∷ xs) = str_eq x h || has h xs

-- `found.add(h)` on a Set.
unfoldable pub add : Str → List Str → List Str
unfolding has
add h found = if has h found then found else push found h

unfoldable mutual
  unfolding entry_ref add

  pub walk_refs : Node → List Str → List Str
  walk_refs (scalar n) found = found
  walk_refs (text v) found = found
  walk_refs (array xs) found = walk_items xs found
  walk_refs (object fs) found = walk_entries fs found

  pub walk_items : Nodes → List Str → List Str
  walk_items nil found = found
  walk_items (cons x xs) found = walk_items xs (walk_refs x found)

  pub walk_entries : Entries → List Str → List Str
  walk_entries end found = found
  walk_entries (entry k v fs) found = elim (entry_ref k v) [
    | some h ↦ walk_entries fs (add h found)
    | none ↦ walk_entries fs (walk_refs v found)
  ]

unfoldable pub collect_css_refs : Nodes → List Str
collect_css_refs es = walk_items es []

abbrev pub Assets : Type 0
Assets = List (Str × Str)

unfoldable pub get : Str → Assets → Option Str
get h [] = none
get h ((k, css) ∷ as') = if str_eq k h then some css else get h as'

-- The walk of rehydrateCSS: the hash whose stylesheet is missing, or the changed tree.
pub data Walk {ℓ} (A : Type ℓ) : Type ℓ where
  missing : Str → Walk A
  done : A → Walk A

abbrev pub and_then {ℓ κ} : {A : Type ℓ} {B : Type κ} → Walk A → (A → Walk B) → Walk B
and_then (missing h) f = missing h
and_then (done a) f = f a

abbrev pub found_css : Str → Option Str → Walk Node
found_css h none = missing h
found_css h (some css) = done (text css)

unfoldable mutual
  unfolding entry_ref get

  pub put_refs : Assets → Node → Walk Node
  put_refs a (scalar n) = done (scalar n)
  put_refs a (text v) = done (text v)
  put_refs a (array xs) = and_then (put_items a xs) (λ ys. done (array ys))
  put_refs a (object fs) = and_then (put_entries a fs) (λ gs. done (object gs))

  pub put_items : Assets → Nodes → Walk Nodes
  put_items a nil = done nil
  put_items a (cons x xs) =
      and_then (put_refs a x) (λ y. and_then (put_items a xs) (λ ys. done (cons y ys)))

  pub put_entries : Assets → Entries → Walk Entries
  put_entries a end = done end
  put_entries a (entry k v fs) =
      and_then (elim (entry_ref k v) [ some h ↦ found_css h (get h a) | none ↦ put_refs a v ])
        (λ w. and_then (put_entries a fs) (λ gs. done (entry k w gs)))

unfoldable pub rehydrate_css : Assets → Nodes → Walk Nodes
rehydrate_css a es = put_items a es

-- `cache` holds the hashes with a promise, `requests` what was asked of the server, newest first.
pub record Cache : Type 0 where
  pub cached : List Str
  pub requests : List Str

unfoldable pub fetch_css_asset : Str → Cache → Cache
unfolding has
fetch_css_asset h c =
    if has h c.cached then c else record { cached = h ∷ c.cached; requests = h ∷ c.requests }

unfoldable pub delete : Str → List Str → List Str
delete h [] = []
delete h (x ∷ xs) = if str_eq x h then delete h xs else x ∷ delete h xs

-- `p.catch(() => cache.delete(hash))`.
unfoldable pub fetch_failed : Str → Cache → Cache
unfolding delete
fetch_failed h c = record c { cached = delete h c.cached }

unfoldable pub fetch_all : List Str → Cache → Cache
fetch_all [] c = c
fetch_all (h ∷ hs) c = fetch_all hs (fetch_css_asset h c)

unfoldable pub load_css_assets : Nodes → Cache → Cache
unfolding fetch_all
load_css_assets es c = fetch_all (collect_css_refs es) c
