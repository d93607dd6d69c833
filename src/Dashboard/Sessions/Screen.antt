-- ===== src/Dashboard/Sessions/Screen.antt =====
-- What the list shows (dashboard/src/pages/Sessions/hooks/useSessions.ts): the screen, the requests
-- under way, and the events that change them. A request keeps what the code's closure captured.
use trace_ux.Base.{
  ℕ, suc, Bool, true, false, not, ◌||◌, Option, none, some, List, [], ◌∷◌, ◌==◌, if◌then◌else◌,
  length, get_elem?,
}
use trace_ux.Dashboard.Sessions.{
  Row, Cursor, Result, nothing, load_sessions, add_page, Entry, get, remember, forget_session,
  mark_session_viewed,
}

pub record Load : Type 0 where
  pub generation : ℕ
  pub key : ℕ
  pub cached : Option Result

pub record Page : Type 0 where
  pub generation : ℕ
  pub key : ℕ
  pub result : Result

pub record Screen : Type 0 where
  pub cache : List Entry
  pub key : ℕ
  pub generation : ℕ
  pub result : Option Result
  pub shown_key : Option ℕ
  pub refreshing : Bool
  pub loading_more : Bool
  pub failed : Bool
  pub more_failed : Bool
  pub loads : List Load
  pub pages : List Page

abbrev pub mounted : ℕ → Screen
mounted key = record {
  cache = [];
  key = key;
  generation = 0;
  result = none;
  shown_key = none;
  refreshing = true;
  loading_more = false;
  failed = false;
  more_failed = false;
  loads = [];
  pages = [];
}

abbrev pub key_of : Option Result → ℕ → Option ℕ
key_of none k = none
key_of (some r) k = some k

abbrev pub rows_of : Option Result → List Row
rows_of none = []
rows_of (some r) = r.rows

-- The effect of a query, and its clean-up.
unfoldable pub enter : ℕ → Screen → Screen
unfolding get
enter k s =
    let cached = get k s.cache in
    record s {
      key = k;
      generation = suc s.generation;
      result = cached;
      shown_key = key_of cached k;
      refreshing = true;
      loading_more = false;
      failed = false;
      more_failed = false;
      loads = record { generation = suc s.generation; key = k; cached = cached } ∷ s.loads;
    }

unfoldable pub leave : Screen → Screen
leave s = record s { generation = suc s.generation }

unfoldable pub is_shown : Option ℕ → ℕ → Bool
is_shown none k = false
is_shown (some j) k = j == k

unfoldable pub searching : Screen → Bool
unfolding is_shown
searching s = not (is_shown s.shown_key s.key)

-- What the server answers: the rows for a query from a cursor on. The pages of one load may be of
-- different times.
abbrev pub Server : Type 0
Server = ℕ → Option Cursor → List Row

unfoldable pub on_loaded : Server → Load → Screen → Screen
unfolding load_sessions remember
on_loaded server l s =
    if not (s.generation == l.generation)
    then s
    else let next = load_sessions (server l.key) (length (rows_of l.cached)) in
      record s {
        cache = remember l.key next s.cache;
        result = some next;
        shown_key = some l.key;
        refreshing = false;
      }

abbrev pub or_nothing : Option Result → Option Result → Option Result
or_nothing none shown = some nothing
or_nothing (some r) shown = shown

unfoldable pub on_load_failed : Load → Screen → Screen
on_load_failed l s = if not (s.generation == l.generation) then s else record s {
  failed = true;
  result = or_nothing l.cached s.result;
  shown_key = some l.key;
  refreshing = false;
}

abbrev pub ask_page : Option Cursor → Result → Screen → Screen
ask_page none r s = s
ask_page (some c) r s = record s {
  loading_more = true;
  more_failed = false;
  pages = record { generation = s.generation; key = s.key; result = r } ∷ s.pages;
}

abbrev pub ask_more : Option Result → Screen → Screen
ask_more none s = s
ask_more (some r) s = if r.has_more then ask_page r.cursor r s else s

unfoldable pub load_more : Screen → Screen
unfolding is_shown
load_more s =
    if s.refreshing || s.loading_more || not (is_shown s.shown_key s.key)
    then s
    else ask_more s.result s

unfoldable pub on_page : Server → Page → Screen → Screen
unfolding remember
on_page server p s =
    if not (s.generation == p.generation)
    then s
    else let next = add_page (server p.key) p.result.cursor p.result in
      record s { cache = remember p.key next s.cache; result = some next; loading_more = false }

unfoldable pub on_page_failed : Page → Screen → Screen
on_page_failed p s =
    if not (s.generation == p.generation)
    then s
    else record s { more_failed = true; loading_more = false }

pub data Event : Type 0 where
  query_changes : ℕ → Event
  leaves : Event
  loaded : ℕ → Server → Event
  load_failed : ℕ → Event
  more_asked : Event
  page_came : ℕ → Server → Event
  page_failed : ℕ → Event
  deleted : ℕ → Event
  viewed : ℕ → Event

-- An answer to a request that was made.
abbrev pub for_load : (Load → Screen → Screen) → Option Load → Screen → Screen
for_load f none s = s
for_load f (some l) s = f l s

abbrev pub for_page : (Page → Screen → Screen) → Option Page → Screen → Screen
for_page f none s = s
for_page f (some p) s = f p s

unfoldable pub step : Event → Screen → Screen
step (query_changes k) s = enter k (leave s)
step leaves s = leave s
step (loaded n server) s = for_load (on_loaded server) (get_elem? s.loads n) s
step (load_failed n) s = for_load on_load_failed (get_elem? s.loads n) s
step more_asked s = load_more s
step (page_came n server) s = for_page (on_page server) (get_elem? s.pages n) s
step (page_failed n) s = for_page on_page_failed (get_elem? s.pages n) s
step (deleted n) s = record s { cache = forget_session n s.cache }
step (viewed n) s = record s { cache = mark_session_viewed n s.cache }

unfoldable pub run : List Event → Screen → Screen
run [] s = s
run (e ∷ es) s = run es (step e s)
