-- ===== src/Dashboard/Sessions.antt =====
-- The list of recorded visits, dashboard/src/pages/Sessions/hooks/useSessions.ts: its pages, the
-- results that are kept for the way back, and which of them is on the screen. A query and a recording
-- are a number each; the request is an argument.
pub mod Paging
pub mod Ends
pub mod Whole
pub mod Cache
pub mod Screen
pub mod Matches
pub mod Right
pub mod Steps
pub mod Shown
pub mod Answered
use trace_ux.Base.{
  ℕ, zero, suc, ◌+◌, ◌≤◌, Bool, true, false, not, ◌&&◌, ◌||◌, Option, none, some, List, [], ◌∷◌,
  ◌++◌, map, ltb, ◌==◌, if◌then◌else◌, max, length, filter,
}

pub record Row : Type 0 where
  pub id : ℕ
  pub started_at : ℕ
  pub viewed : Bool

pub record Cursor : Type 0 where
  pub before : ℕ
  pub before_id : ℕ

pub record Result : Type 0 where
  pub rows : List Row
  pub has_more : Bool
  pub cursor : Option Cursor

abbrev pub session_page_size : ℕ
session_page_size = 40

abbrev pub max_cached_queries : ℕ
max_cached_queries = 20

abbrev pub cursor_of : Row → Cursor
cursor_of r = record { before = r.started_at; before_id = r.id }

-- The cursor of the last row, or the one before where there is none.
unfoldable pub cursor_after : Option Cursor → List Row → Option Cursor
cursor_after c [] = c
cursor_after c (r ∷ rs) = cursor_after (some (cursor_of r)) rs

abbrev pub nothing : Result
nothing = record { rows = []; has_more = false; cursor = none }

unfoldable pub has_row : ℕ → List Row → Bool
has_row n [] = false
has_row n (r ∷ rs) = r.id == n || has_row n rs

module _ (list_sessions : Option Cursor → List Row) where
  -- The body of the loop of `load`, and the loop.
  unfoldable pub load_next : Result → Result
  unfolding cursor_after
  load_next r =
      let rows = list_sessions r.cursor in
      record r {
        rows = r.rows ++ rows;
        has_more = length rows == session_page_size;
        cursor = cursor_after r.cursor rows;
      }

  unfoldable pub load_until : ℕ → ℕ → Result → Result
  unfolding load_next
  load_until zero target r = r
  load_until (suc fuel) target r =
      let next = load_next r in
      let rest = load_until fuel target next in
      if next.has_more && ltb (length next.rows) target then rest else next

  -- As many rows as were loaded before are loaded again.
  unfoldable pub load_sessions : ℕ → Result
  unfolding load_until
  load_sessions cached =
      let target = max session_page_size cached in load_until target target nothing

  abbrev pub add_page : Option Cursor → Result → Result
  add_page none r = r
  add_page (some c) r =
      let rows = list_sessions (some c) in
      record r {
        rows = r.rows ++ filter (λ x. not (has_row x.id r.rows)) rows;
        has_more = length rows == session_page_size;
        cursor = cursor_after (some c) rows;
      }

  unfoldable pub load_more : Result → Result
  unfolding has_row cursor_after
  load_more r = if r.has_more then add_page r.cursor r else r

-- `resultCache`, the oldest first.
pub record Entry : Type 0 where
  pub key : ℕ
  pub result : Result

unfoldable pub delete : ℕ → List Entry → List Entry
unfolding filter
delete k es = filter (λ e. not (e.key == k)) es

unfoldable pub get : ℕ → List Entry → Option Result
get k [] = none
get k (e ∷ es) = let rest = get k es in if e.key == k then some e.result else rest

abbrev pub tail : List Entry → List Entry
tail [] = []
tail (e ∷ es) = es

unfoldable pub remember : ℕ → Result → List Entry → List Entry
unfolding delete
remember k r es =
    let es' = delete k es ++ record { key = k; result = r } ∷ [] in
    if ltb max_cached_queries (length es') then tail es' else es'

unfoldable pub forget_session : ℕ → List Entry → List Entry
unfolding filter
forget_session n es =
    map
      (λ (e : Entry). record e {
        result = record e.result { rows = filter (λ r. not (r.id == n)) e.result.rows };
      })
      es

abbrev pub mark_viewed : ℕ → Row → Row
mark_viewed n r = if r.id == n then record r { viewed = true } else r

unfoldable pub mark_session_viewed : ℕ → List Entry → List Entry
mark_session_viewed n es =
    map
      (λ (e : Entry). record e {
        result = record e.result { rows = map (mark_viewed n) e.result.rows };
      })
      es
