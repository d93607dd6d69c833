-- ===== src/Panel/Announcements.antt =====
-- The announcements of the widget (tracker/src/widget.ts): the list, the unread badge and its timer,
-- the toasts and what the host page is told. An announcement is an object that the list and a toast
-- may share, and that is changed in place, so each has a number of its own (`ref`). `content` stands
-- for the texts that are compared, `updated_at` is zero where there is none.
pub mod Members
pub mod Quiet
pub mod Badge
pub mod Unique
pub mod Listing
pub mod News
pub mod Stale
use trace_ux.Base.{
  ℕ, zero, suc, ◌+◌, ◌*◌, ◌-◌, ◌≤◌, Bool, true, false, not, ◌&&◌, ◌||◌, Option, none, some, List,
  [], ◌∷◌, ◌++◌, map, leb, ltb, ◌==◌, if◌then◌else◌, min, max, length, filter,
}

pub record Item : Type 0 where
  pub id : ℕ
  pub published_at : ℕ
  pub updated_at : ℕ
  pub content : ℕ
  pub read : Bool

pub record Announcement : Type 0 where
  pub ref : ℕ
  pub item : Item

-- `badge` counts the announcements alone, as the tab of the updates does. `toasted` and `told` hold
-- what toasts showed and what the host page was told, `posted` the announcements that the server was
-- told are read, all newest first; `expires` is when the timer of the badge is due; `synced_at` is the time of the last sync, which the code does not keep.
pub record Updates : Type 0 where
  pub announcements : List Announcement
  pub seen : List ℕ
  pub next_ref : ℕ
  pub panel_open : Bool
  pub badge : ℕ
  pub expires : Option ℕ
  pub synced_at : ℕ
  pub toast : Option Announcement
  pub toasted : List Item
  pub told : List Item
  pub posted : List ℕ
  pub destroyed : Bool

abbrev pub mounted : Updates
mounted = record {
  announcements = [];
  seen = [];
  next_ref = 0;
  panel_open = false;
  badge = 0;
  expires = none;
  synced_at = 0;
  toast = none;
  toasted = [];
  told = [];
  posted = [];
  destroyed = false;
}

abbrev pub unread_window_ms : ℕ
unread_window_ms = 259_200_000

-- The age is negative where the visitor's clock is behind.
unfoldable pub is_unread : ℕ → Item → Bool
is_unread now a =
    not a.read
    && ltb 0 a.published_at
    && leb (a.published_at * 1_000) now
    && ltb now (a.published_at * 1_000 + unread_window_ms)

unfoldable pub unread_count : ℕ → List Announcement → ℕ
unfolding is_unread
unread_count now [] = 0
unread_count now (a ∷ as') =
    let rest = unread_count now as' in if is_unread now a.item then suc rest else rest

abbrev pub earlier : ℕ → Option ℕ → ℕ
earlier t none = t
earlier t (some u) = min t u

-- When the first of the unread ones expires.
unfoldable pub first_expiry : ℕ → List Announcement → Option ℕ
unfolding is_unread
first_expiry now [] = none
first_expiry now (a ∷ as') =
    let rest = first_expiry now as' in
    if is_unread now a.item
    then some (earlier (a.item.published_at * 1_000 + unread_window_ms) rest)
    else rest

abbrev pub due : ℕ → Option ℕ → Option ℕ
due now none = none
due now (some t) = some (now + max 1 (t - now))

unfoldable pub sync_badges : ℕ → Updates → Updates
unfolding unread_count first_expiry
sync_badges now s = record s {
  badge = unread_count now s.announcements;
  expires = due now (first_expiry now s.announcements);
  synced_at = now;
}

unfoldable pub has_id : ℕ → List Announcement → Bool
has_id n [] = false
has_id n (a ∷ as') = a.item.id == n || has_id n as'

unfoldable pub find_announcement : ℕ → List Announcement → Option Announcement
find_announcement n [] = none
find_announcement n (a ∷ as') =
    let rest = find_announcement n as' in if a.item.id == n then some a else rest

unfoldable pub includes : ℕ → List ℕ → Bool
includes n [] = false
includes n (m ∷ ms) = m == n || includes n ms

unfoldable pub without : ℕ → List Announcement → List Announcement
unfolding filter
without n as' = filter (λ a. not (a.item.id == n)) as'

abbrev pub content_changed : Option Announcement → Item → Bool
content_changed none a = true
content_changed (some p) a =
    not (p.item.updated_at == a.updated_at) || not (p.item.content == a.content)

abbrev pub keep_read : Option Announcement → Item → Item
keep_read none a = a
keep_read (some p) a = record a { read = p.item.read }

unfoldable pub precedes : Item → Item → Bool
precedes a b =
    if not (a.published_at == b.published_at)
    then ltb b.published_at a.published_at
    else if not (a.updated_at == b.updated_at)
    then ltb b.updated_at a.updated_at
    else ltb b.id a.id

unfoldable pub insert : Announcement → List Announcement → List Announcement
unfolding precedes
insert a [] = a ∷ []
insert a (b ∷ bs) =
    let rest = insert a bs in if precedes b.item a.item then b ∷ rest else a ∷ b ∷ bs

unfoldable pub sort : List Announcement → List Announcement
unfolding insert
sort [] = []
sort (a ∷ as') = insert a (sort as')

unfoldable pub notify : Item → Updates → Updates
notify a s = record s { told = a ∷ s.told }

unfoldable pub notify_all : List Item → Updates → Updates
unfolding notify
notify_all [] s = s
notify_all (a ∷ as') s = notify_all as' (notify a s)

unfoldable pub show_toast : ℕ → Announcement → Updates → Updates
unfolding is_unread
show_toast now a s =
    if not (is_unread now a.item)
    then s
    else if s.panel_open || s.destroyed
    then s
    else record s { toast = some a; toasted = a.item ∷ s.toasted }

-- The events of the socket that name an announcement.
pub data Kind : Type 0 where
  published : Kind
  updated : Kind
  deleted : Kind
  archived : Kind

-- The list with an announcement put in, and without one.
unfoldable pub put_announcement : Announcement → Updates → Updates
unfolding sort without
put_announcement a s = record s {
  announcements = sort (a ∷ without a.item.id s.announcements);
  seen = a.item.id ∷ s.seen;
  next_ref = suc s.next_ref;
}

unfoldable pub withdraw : ℕ → Updates → Updates
unfolding without filter
withdraw n s = record s {
  announcements = without n s.announcements;
  seen = filter (λ m. not (m == n)) s.seen;
}

unfoldable pub merged_with : Item → Updates → Announcement
unfolding find_announcement
merged_with a s = record {
  ref = s.next_ref;
  item = keep_read (find_announcement a.id s.announcements) a;
}

unfoldable pub remove_announcement : ℕ → ℕ → Updates → Updates
unfolding withdraw sync_badges
remove_announcement now n s = if n == 0 then s else sync_badges now (withdraw n s)

unfoldable pub tell_host : Kind → Bool → Bool → Item → Updates → Updates
unfolding notify
tell_host published fresh changed a s = if fresh then notify a s else s
tell_host updated fresh changed a s = if changed then notify a s else s
tell_host deleted fresh changed a s = s
tell_host archived fresh changed a s = s

unfoldable pub toast_published : ℕ → Kind → Bool → Announcement → Updates → Updates
unfolding show_toast
toast_published now published fresh a s =
    if not s.panel_open && fresh then show_toast now a s else s
toast_published now updated fresh a s = s
toast_published now deleted fresh a s = s
toast_published now archived fresh a s = s

-- What comes with a status other than published is left alone (`listed` is false).
unfoldable pub upsert_announcement : ℕ → Kind → Bool → Item → Updates → Updates
unfolding find_announcement includes merged_with put_announcement tell_host toast_published
    sync_badges
upsert_announcement now kind listed a s =
    if not listed
    then s
    else let merged = merged_with a s in
      let fresh = not (includes a.id s.seen) in
      let changed = content_changed (find_announcement a.id s.announcements) merged.item in
      toast_published now kind fresh merged
        (tell_host kind fresh changed merged.item (sync_badges now (put_announcement merged s)))

-- A deletion names its announcement by `a.id`, or by zero where it names none.
unfoldable pub on_socket : ℕ → Kind → Bool → Item → Updates → Updates
unfolding remove_announcement upsert_announcement
on_socket now published listed a s = upsert_announcement now published listed a s
on_socket now updated listed a s = upsert_announcement now updated listed a s
on_socket now deleted listed a s = remove_announcement now a.id s
on_socket now archived listed a s = remove_announcement now a.id s

-- The objects of an answer.
unfoldable pub allocate : ℕ → List Item → List Announcement
allocate n [] = []
allocate n (a ∷ as') = record { ref = n; item = a } ∷ allocate (suc n) as'

unfoldable pub is_fresh : List ℕ → Announcement → Bool
unfolding includes
is_fresh seen a = not a.item.read && not (includes a.item.id seen)

abbrev pub differs : Option Announcement → Item → Bool
differs none a = false
differs (some p) a = content_changed (some p) a

unfoldable pub is_changed : List Announcement → Announcement → Bool
unfolding find_announcement
is_changed previous a = differs (find_announcement a.item.id previous) a.item

unfoldable pub first_unread : ℕ → List Announcement → Option Announcement
unfolding is_unread
first_unread now [] = none
first_unread now (a ∷ as') =
    let rest = first_unread now as' in if is_unread now a.item then some a else rest

abbrev pub toast_first : ℕ → Option Announcement → Updates → Updates
toast_first now none s = s
toast_first now (some a) s = show_toast now a s

unfoldable pub announce : ℕ → List Announcement → List Announcement → Updates → Updates
unfolding has_id filter notify_all first_unread
announce now fresh changed s =
    toast_first now (first_unread now fresh) (
      notify_all (map (λ a. a.item) (fresh ++ filter (λ a. not (has_id a.item.id fresh)) changed))
        s)

unfoldable pub take_feed : List Item → Updates → Updates
unfolding allocate
take_feed items s = record s {
  announcements = allocate s.next_ref items;
  seen = map (λ a. a.id) items;
  next_ref = s.next_ref + length items;
}

-- An answer of the feed; the first one announces nothing.
unfoldable pub on_feed : ℕ → Bool → List Item → Updates → Updates
unfolding allocate is_fresh is_changed filter announce sync_badges take_feed
on_feed now initial items s =
    if s.destroyed
    then s
    else let next = allocate s.next_ref items in
      let fresh = filter (is_fresh s.seen) next in
      let changed = filter (is_changed s.announcements) next in
      let s' = sync_badges now (take_feed items s) in
      if initial then s' else announce now fresh changed s'

-- `a.read = true` for whoever holds the object.
abbrev pub read_if : ℕ → Announcement → Announcement
read_if r a = if a.ref == r then record a { item = record a.item { read = true } } else a

abbrev pub read_toast : ℕ → Option Announcement → Option Announcement
read_toast r none = none
read_toast r (some a) = some (read_if r a)

unfoldable pub mark_read : ℕ → Updates → Updates
mark_read r s = record s {
  announcements = map (read_if r) s.announcements;
  toast = read_toast r s.toast;
}

abbrev pub post_read : ℕ → Updates → Updates
post_read n s = record s { posted = n ∷ s.posted }

unfoldable pub open_detail : ℕ → Announcement → Updates → Updates
unfolding sync_badges mark_read
open_detail now a s =
    if a.item.read then s else post_read a.item.id (sync_badges now (mark_read a.ref s))

unfoldable pub open_panel : Updates → Updates
open_panel s = record s { toast = none; panel_open = true }

abbrev pub follow_toast : ℕ → Option Announcement → Updates → Updates
follow_toast now none s = s
follow_toast now (some a) s = open_detail now a (open_panel s)

abbrev pub follow_item : ℕ → Option Announcement → Updates → Updates
follow_item now none s = s
follow_item now (some a) s = open_detail now a s

-- The timer's callback.
unfoldable pub expiry_fires : ℕ → Updates → Updates
unfolding sync_badges
expiry_fires now s = if s.destroyed then s else sync_badges now s

pub data Happening : Type 0 where
  fed : ℕ → Bool → List Item → Happening
  pushed : ℕ → Kind → Bool → Item → Happening
  toast_clicked : ℕ → Happening
  toast_dismissed : Happening
  item_clicked : ℕ → ℕ → Happening
  panel_opens : Happening
  panel_closes : Happening
  badge_due : ℕ → Happening
  page_shown : ℕ → Happening
  removed : Happening

unfoldable pub step : Happening → Updates → Updates
unfolding find_announcement
step (fed now initial items) s = on_feed now initial items s
step (pushed now kind listed a) s = if s.destroyed then s else on_socket now kind listed a s
step (toast_clicked now) s = follow_toast now s.toast s
step toast_dismissed s = record s { toast = none }
step (item_clicked now n) s =
    if s.destroyed then s else follow_item now (find_announcement n s.announcements) s
step panel_opens s = open_panel s
step panel_closes s = record s { panel_open = false }
step (badge_due now) s = expiry_fires now s
step (page_shown now) s = if s.destroyed then s else sync_badges now s
step removed s = record s { destroyed = true; expires = none; toast = none }

unfoldable pub run : List Happening → Updates → Updates
run [] s = s
run (h ∷ hs) s = run hs (step h s)
