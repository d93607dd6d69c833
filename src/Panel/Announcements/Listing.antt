-- ===== src/Panel/Announcements/Listing.antt =====
-- What is listed (tracker/src/widget.ts, loadAnnouncements and handleWidgetSocketEvent).
use trace_ux.Base.{
  ℕ, suc, ◌<◌, ◌≡◌, refl, sym, ap, subst, ◌∙◌, ◌⊎◌, inl, Bool, true, false, not, ◌&&◌, Option, none,
  some, List, [], ◌∷◌, arith, ◌==◌, if◌then◌else◌, filter, All,
}
use trace_ux.Panel.Announcements.Members.{sort_all, without_all, weaken, allocate_older, read_older}
use trace_ux.Panel.Announcements.Unique.{
  Unique, sort-has_id, sort-Unique, without-has_id, without-Unique, filter-includes, Once,
  allocate-has_id, allocate-Unique, read-has_id, read-Unique,
}
use trace_ux.Panel.Announcements.Quiet.{Unchanged, pushed-Unchanged, announce-Unchanged}
use trace_ux.Panel.Announcements.{
  Item, Announcement, Updates, mounted, sync_badges, has_id, find_announcement, includes, without,
  content_changed, keep_read, Kind, published, updated, deleted, archived, put_announcement,
  withdraw, merged_with, remove_announcement, tell_host, toast_published, upsert_announcement,
  on_socket, allocate, is_fresh, is_changed, announce, take_feed, on_feed, mark_read, post_read,
  open_detail, open_panel, follow_toast, follow_item, expiry_fires, Happening, fed, pushed,
  toast_clicked, toast_dismissed, item_clicked, panel_opens, panel_closes, badge_due, page_shown,
  removed, step, run,
}

-- No announcement is listed twice, those that count as seen are the ones that are listed, and every
-- listed object is an earlier one than the next.
pub record Listed (s : Updates) : Type 0 where
  pub unique : Unique s.announcements
  pub known : (n : ℕ) → includes n s.seen ≡ has_id n s.announcements
  pub older : All (λ b. b.ref < s.next_ref) s.announcements

keep_read-id : (o : Option Announcement) (a : Item) → (keep_read o a).id ≡ a.id
keep_read-id none a = refl
keep_read-id (some p) a = refl

put-Listed :
    (a : Announcement) (s : Updates) → a.ref ≡ s.next_ref → Listed s → Listed (put_announcement a s)
unfolding put_announcement
put-Listed a s e v =
    let rest = without a.item.id s.announcements in
    let gone : has_id a.item.id rest ≡ false =
      without-has_id a.item.id a.item.id s.announcements ∙ ground arith in
    record {
      unique = sort-Unique (a ∷ rest) (gone, without-Unique a.item.id s.announcements v.unique);
      known = λ n.
          let k = v.known n in
          let f = without-has_id n a.item.id s.announcements in
          let g : has_id n (a ∷ rest) ≡ includes n (a.item.id ∷ s.seen) =
            unfold has_id includes in ground (arith, k, f) in
          sym (sort-has_id n (a ∷ rest) ∙ g);
      older =
          let P = λ (b : Announcement). b.ref < suc s.next_ref in
          sort_all P (a ∷ rest) (
            omega (arith, e),
            without_all P a.item.id s.announcements (
                weaken (λ b. b.ref < s.next_ref) (λ b. P b ⊎ (b.item.id ≡ a.item.id))
                  s.announcements (λ b h. inl (omega (arith, h))) v.older),
          );
    }

withdraw-Listed : (m : ℕ) (s : Updates) → Listed s → Listed (withdraw m s)
unfolding withdraw
withdraw-Listed m s v = record {
  unique = without-Unique m s.announcements v.unique;
  known = λ n.
      filter-includes n m s.seen
      ∙ (ap (λ b. not (n == m) && b) (v.known n) ∙ sym (without-has_id n m s.announcements));
  older =
      let P = λ (b : Announcement). b.ref < s.next_ref in
      without_all P m s.announcements
        (weaken P (λ b. P b ⊎ (b.item.id ≡ m)) s.announcements (λ b h. inl h) v.older);
}

feed-Listed : (items : List Item) (s : Updates) → Once items → Listed (take_feed items s)
unfolding take_feed
feed-Listed items s o = record {
  unique = allocate-Unique s.next_ref items o;
  known = λ n. sym (allocate-has_id n s.next_ref items);
  older = allocate_older s.next_ref items;
}

read-Listed : (r : ℕ) (s : Updates) → Listed s → Listed (mark_read r s)
unfolding mark_read
read-Listed r s v = record {
  unique = read-Unique r s.announcements v.unique;
  known = λ n. v.known n ∙ sym (read-has_id n r s.announcements);
  older = read_older s.next_ref r s.announcements v.older;
}

same-Listed : (s u : Updates) → Unchanged s u → Listed s → Listed u
same-Listed s u e v = record {
  unique = subst Unique (sym e.announcements) v.unique;
  known = λ n. ap (includes n) e.seen ∙ (v.known n ∙ sym (ap (has_id n) e.announcements));
  older = rw (e.announcements) (rw (e.next_ref) v.older);
}

sync-Listed : (now : ℕ) (s : Updates) → Listed s → Listed (sync_badges now s)
unfolding sync_badges
sync-Listed now s v = record { unique = v.unique; known = v.known; older = v.older }

either-Listed : (b : Bool) (s u : Updates) → Listed s → Listed u → Listed (if b then s else u)
either-Listed true s u v w = v
either-Listed false s u v w = w

merged_next : (a : Item) (s : Updates) → (merged_with a s).ref ≡ s.next_ref
merged_next a s = unfold merged_with in refl

upsert-Listed :
    (now : ℕ) (k : Kind) (l : Bool) (a : Item) (s : Updates)
    → Listed s
    → Listed (upsert_announcement now k l a s)
unfolding upsert_announcement
upsert-Listed now k false a s v = v
upsert-Listed now k true a s v =
    let m = merged_with a s in
    let f = not (includes a.id s.seen) in
    let c = content_changed (find_announcement a.id s.announcements) m.item in
    let u = sync_badges now (put_announcement m s) in
    same-Listed u (toast_published now k f m (tell_host k f c m.item u))
      (pushed-Unchanged now k f c m u)
      (sync-Listed now (put_announcement m s) (put-Listed m s (merged_next a s) v))

remove-Listed : (now n : ℕ) (s : Updates) → Listed s → Listed (remove_announcement now n s)
unfolding remove_announcement
remove-Listed now n s v =
    either-Listed (n == 0) s (sync_badges now (withdraw n s)) v
      (sync-Listed now (withdraw n s) (withdraw-Listed n s v))

on_socket-Listed :
    (now : ℕ) (k : Kind) (l : Bool) (a : Item) (s : Updates)
    → Listed s
    → Listed (on_socket now k l a s)
unfolding on_socket
on_socket-Listed now published l a s v = upsert-Listed now published l a s v
on_socket-Listed now updated l a s v = upsert-Listed now updated l a s v
on_socket-Listed now deleted l a s v = remove-Listed now a.id s v
on_socket-Listed now archived l a s v = remove-Listed now a.id s v

on_feed-Listed :
    (now : ℕ) (initial : Bool) (items : List Item) (s : Updates)
    → Once items
    → Listed s
    → Listed (on_feed now initial items s)
unfolding on_feed
on_feed-Listed now initial items s o v =
    let next = allocate s.next_ref items in
    let fresh = filter (is_fresh s.seen) next in
    let changed = filter (is_changed s.announcements) next in
    let u = sync_badges now (take_feed items s) in
    let w = sync-Listed now (take_feed items s) (feed-Listed items s o) in
    either-Listed s.destroyed s (if initial then u else announce now fresh changed u) v (
      either-Listed initial u (announce now fresh changed u) w
        (same-Listed u (announce now fresh changed u) (announce-Unchanged now fresh changed u) w))

open_detail-Listed :
    (now : ℕ) (a : Announcement) (s : Updates) → Listed s → Listed (open_detail now a s)
unfolding open_detail
open_detail-Listed now a s v =
    let u = sync_badges now (mark_read a.ref s) in
    let w = sync-Listed now (mark_read a.ref s) (read-Listed a.ref s v) in
    either-Listed a.item.read s (post_read a.item.id u) v
      (record { unique = w.unique; known = w.known; older = w.older })

follow_toast-Listed :
    (now : ℕ) (o : Option Announcement) (s : Updates) → Listed s → Listed (follow_toast now o s)
unfolding open_panel
follow_toast-Listed now none s v = v
follow_toast-Listed now (some a) s v =
    open_detail-Listed now a (open_panel s)
      (record { unique = v.unique; known = v.known; older = v.older })

follow_item-Listed :
    (now : ℕ) (o : Option Announcement) (s : Updates) → Listed s → Listed (follow_item now o s)
follow_item-Listed now none s v = v
follow_item-Listed now (some a) s v = open_detail-Listed now a s v

abbrev pub Feeds : Happening → Type 0
Feeds (fed now initial items) = Once items
Feeds (pushed now k l a) = Unit
Feeds (toast_clicked now) = Unit
Feeds toast_dismissed = Unit
Feeds (item_clicked now n) = Unit
Feeds panel_opens = Unit
Feeds panel_closes = Unit
Feeds (badge_due now) = Unit
Feeds (page_shown now) = Unit
Feeds removed = Unit

step-Listed : (h : Happening) (s : Updates) → Feeds h → Listed s → Listed (step h s)
unfolding step open_panel expiry_fires
step-Listed (fed now initial items) s o v = on_feed-Listed now initial items s o v
step-Listed (pushed now k l a) s o v =
    either-Listed s.destroyed s (on_socket now k l a s) v (on_socket-Listed now k l a s v)
step-Listed (toast_clicked now) s o v = follow_toast-Listed now s.toast s v
step-Listed toast_dismissed s o v = record { unique = v.unique; known = v.known; older = v.older }
step-Listed (item_clicked now n) s o v =
    either-Listed s.destroyed s (follow_item now (find_announcement n s.announcements) s) v
      (follow_item-Listed now (find_announcement n s.announcements) s v)
step-Listed panel_opens s o v = record { unique = v.unique; known = v.known; older = v.older }
step-Listed panel_closes s o v = record { unique = v.unique; known = v.known; older = v.older }
step-Listed (badge_due now) s o v =
    either-Listed s.destroyed s (sync_badges now s) v (sync-Listed now s v)
step-Listed (page_shown now) s o v =
    either-Listed s.destroyed s (sync_badges now s) v (sync-Listed now s v)
step-Listed removed s o v = record { unique = v.unique; known = v.known; older = v.older }

run-Listed : (hs : List Happening) (s : Updates) → All Feeds hs → Listed s → Listed (run hs s)
unfolding run
run-Listed [] s o v = v
run-Listed (h ∷ hs) s o v = run-Listed hs (step h s) o.1 (step-Listed h s o.0 v)

nothing-Listed : Listed mounted
unfolding includes has_id
nothing-Listed = record { unique = tt; known = λ n. refl; older = tt }

-- As long as no answer of the feed names an announcement twice: whatever polls and events of the socket
-- come in whatever order, no announcement stands twice in the list, the announcements that count as
-- seen are exactly those that are listed, and no later object gets the number of a listed one.
pub mounted-run-Listed : (hs : List Happening) → All Feeds hs → Listed (run hs mounted)
mounted-run-Listed hs o = run-Listed hs mounted o nothing-Listed
