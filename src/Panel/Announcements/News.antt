-- ===== src/Panel/Announcements/News.antt =====
-- What a toast shows (tracker/src/widget.ts, loadAnnouncements and handleWidgetSocketEvent).
use trace_ux.Base.{
  ℕ, ◌≡◌, refl, sym, ap, subst, ◌∙◌, ◌⊎◌, inl, inr, Bool, true, false, not, ◌&&◌, ◌||◌, Option,
  none, some, List, [], ◌∷◌, ◌++◌, map, arith, if◌then◌else◌, filter, Bool-cases, Option-cases, All,
}
use trace_ux.Panel.Announcements.{
  Item, Announcement, Updates, mounted, is_unread, sync_badges, has_id, find_announcement, includes,
  content_changed, notify, notify_all, show_toast, Kind, published, updated, deleted, archived,
  put_announcement, withdraw, merged_with, remove_announcement, tell_host, toast_published,
  upsert_announcement, on_socket, allocate, is_fresh, is_changed, first_unread, announce, take_feed,
  on_feed, mark_read, open_detail, open_panel, follow_toast, follow_item, expiry_fires, Happening,
  fed, pushed, toast_clicked, toast_dismissed, item_clicked, panel_opens, panel_closes, badge_due,
  page_shown, removed, step, run,
}
use trace_ux.Panel.Announcements.Listing.{Listed, Feeds, mounted-run-Listed}

-- Of two states, the later one showed no toast, or one of an unread announcement that the earlier one
-- does not list, while the panel was closed.
abbrev pub News : Updates → Updates → Type 0
News s u =
    (u.toasted ≡ s.toasted)
    ⊎ (a : Item) × (u.toasted ≡ a ∷ s.toasted)
      × (a.read ≡ false)
      × (has_id a.id s.announcements ≡ false)
      × (s.panel_open ≡ false)

either-News : (b : Bool) (s u w : Updates) → News s u → News s w → News s (if b then u else w)
either-News true s u w v x = v
either-News false s u w v x = x

notify_all-toasted :
    (as' : List Item) (s : Updates)
    → ((notify_all as' s).toasted ≡ s.toasted) × ((notify_all as' s).panel_open ≡ s.panel_open)
unfolding notify_all notify
notify_all-toasted [] s = (refl, refl)
notify_all-toasted (a ∷ as') s = notify_all-toasted as' (notify a s)

tell_host-toasted :
    (k : Kind) (f c : Bool) (a : Item) (s : Updates)
    → ((tell_host k f c a s).toasted ≡ s.toasted)
      × ((tell_host k f c a s).panel_open ≡ s.panel_open)
unfolding tell_host notify
tell_host-toasted published f c a s = (ground arith, ground arith)
tell_host-toasted updated f c a s = (ground arith, ground arith)
tell_host-toasted deleted f c a s = (refl, refl)
tell_host-toasted archived f c a s = (refl, refl)

unread_is_new : (now : ℕ) (a : Item) → is_unread now a ≡ true → a.read ≡ false
unfolding is_unread
unread_is_new now a e = ground (arith, e)

-- A toast from a state with the same toasts and the same panel.
show_toast-News :
    (now : ℕ) (a : Announcement) (s u : Updates)
    → u.toasted ≡ s.toasted
    → u.panel_open ≡ s.panel_open
    → has_id a.item.id s.announcements ≡ false
    → News s (show_toast now a u)
unfolding show_toast
show_toast-News now a s u e p h = elim (Bool-cases (is_unread now a.item)) [
  | inr n ↦ rw n (inl e)
  | inl n ↦ elim (Bool-cases (u.panel_open || u.destroyed)) [
    | inl b ↦ rw n (rw b (inl e))
    | inr b ↦ rw n (
        rw b (
          inr
            (a.item, ap (◌∷◌ a.item) e, unread_is_new now a.item n, h, sym p ∙ ground (arith, b))))
  ]
]

upsert-News :
    (now : ℕ) (k : Kind) (l : Bool) (a : Item) (s : Updates)
    → Listed s
    → News s (upsert_announcement now k l a s)
unfolding upsert_announcement
upsert-News now k false a s v = inl refl
upsert-News now k true a s v =
    let m = merged_with a s in
    let c = content_changed (find_announcement a.id s.announcements) m.item in
    let u = sync_badges now (put_announcement m s) in
    let w = tell_host k (not (includes a.id s.seen)) c m.item u in
    let t = tell_host-toasted k (not (includes a.id s.seen)) c m.item u in
    let e : w.toasted ≡ s.toasted = t.0 ∙ unfold sync_badges put_announcement in refl in
    let p : w.panel_open ≡ s.panel_open = t.1 ∙ unfold sync_badges put_announcement in refl in
    published_toast k m w e p (merged_id a s)
  where
    merged_id : (a : Item) (s : Updates) → (merged_with a s).item.id ≡ a.id
    merged_id a s =
        unfold merged_with in
        elim (Option-cases (find_announcement a.id s.announcements)) [
          | inl n ↦ rw n refl
          | inr (q, n) ↦ rw n refl
        ]

    published_toast :
        (k : Kind) (m : Announcement) (w : Updates)
        → w.toasted ≡ s.toasted
        → w.panel_open ≡ s.panel_open
        → m.item.id ≡ a.id
        → News s (toast_published now k (not (includes a.id s.seen)) m w)
    published_toast published m w e p i =
        unfold toast_published in
        elim (Bool-cases (includes a.id s.seen)) [
          | inl b ↦
              let z : not w.panel_open && not (includes a.id s.seen) ≡ false = ground (arith, b) in
              rw z (inl e)
          | inr b ↦ rw b (
              either-News (not w.panel_open && true) s (show_toast now m w) w
                (show_toast-News now m s w e p
                  (ap (λ n. has_id n s.announcements) i ∙ (sym (v.known a.id) ∙ b)))
                (inl e))
        ]
    published_toast updated m w e p i = unfold toast_published in inl e
    published_toast deleted m w e p i = unfold toast_published in inl e
    published_toast archived m w e p i = unfold toast_published in inl e

-- The first unread one of those that are fresh is fresh.
first_unread-fresh :
    (now : ℕ) (seen : List ℕ) (next : List Announcement) (a : Announcement)
    → first_unread now (filter (is_fresh seen) next) ≡ some a
    → includes a.item.id seen ≡ false
unfolding first_unread filter is_fresh
first_unread-fresh now seen [] a e = absurd cc
first_unread-fresh now seen (b ∷ next) a e = elim (Bool-cases (is_fresh seen b)) [
  | inr f ↦ first_unread-fresh now seen next a (
      subst
        (λ x.
          first_unread now
            (if x then b ∷ filter (is_fresh seen) next else filter (is_fresh seen) next)
          ≡ some a)
        f e)
  | inl f ↦
      let g : first_unread now (b ∷ filter (is_fresh seen) next) ≡ some a =
        subst
          (λ x.
            first_unread now
              (if x then b ∷ filter (is_fresh seen) next else filter (is_fresh seen) next)
            ≡ some a)
          f e in
      elim (Bool-cases (is_unread now b.item)) [
        | inl u ↦
            head_fresh b a
              (subst
                (λ x.
                  (if x then some b else first_unread now (filter (is_fresh seen) next)) ≡ some a)
                u g)
              f
        | inr u ↦ first_unread-fresh now seen next a (
            subst
              (λ x. (if x then some b else first_unread now (filter (is_fresh seen) next)) ≡ some a)
              u g)
      ]
]
  where
    head_fresh :
        (b a : Announcement)
        → some b ≡ some a
        → is_fresh seen b ≡ true
        → includes a.item.id seen ≡ false
    head_fresh b a e f =
        let g : includes b.item.id seen ≡ false = ground (arith, f) in
        let h : b ≡ a = cc in subst (λ x. includes x.item.id seen ≡ false) h g

on_feed-News :
    (now : ℕ) (initial : Bool) (items : List Item) (s : Updates)
    → Listed s
    → News s (on_feed now initial items s)
unfolding on_feed announce sync_badges take_feed
on_feed-News now initial items s v =
    let next = allocate s.next_ref items in
    let fresh = filter (is_fresh s.seen) next in
    let changed = filter (is_changed s.announcements) next in
    let u = sync_badges now (take_feed items s) in
    let as' = map (λ a. a.item) (fresh ++ filter (λ a. not (has_id a.item.id fresh)) changed) in
    let t = notify_all-toasted as' u in
    either-News s.destroyed s s (if initial then u else announce now fresh changed u) (inl refl) (
      either-News initial s u (announce now fresh changed u) (inl refl)
        (elim (Option-cases (first_unread now fresh)) [
          | inl n ↦ rw n (inl (t.0))
          | inr (a, n) ↦ rw n (
              show_toast-News now a s (notify_all as' u) t.0 t.1
                (sym (v.known a.item.id) ∙ first_unread-fresh now s.seen next a n))
        ]))

open_detail-News :
    (now : ℕ) (a : Announcement) (s : Updates) → (open_detail now a s).toasted ≡ s.toasted
unfolding open_detail sync_badges mark_read
open_detail-News now a s = ground arith

step-News : (h : Happening) (s : Updates) → Listed s → News s (step h s)
unfolding step open_panel
step-News (fed now initial items) s v = on_feed-News now initial items s v
step-News (pushed now k l a) s v =
    either-News s.destroyed s s (on_socket now k l a s) (inl refl) (on_socket-News k)
  where
    on_socket-News : (k : Kind) → News s (on_socket now k l a s)
    on_socket-News published = unfold on_socket in upsert-News now published l a s v
    on_socket-News updated = unfold on_socket in upsert-News now updated l a s v
    on_socket-News deleted =
        unfold on_socket remove_announcement sync_badges withdraw in inl (ground arith)
    on_socket-News archived =
        unfold on_socket remove_announcement sync_badges withdraw in inl (ground arith)
step-News (toast_clicked now) s v = elim (Option-cases s.toast) [
  | inl n ↦ subst (λ o. News s (follow_toast now o s)) (sym n) (inl refl)
  | inr (a, n) ↦
      subst (λ o. News s (follow_toast now o s)) (sym n)
        (inl (open_detail-News now a (open_panel s)))
]
step-News toast_dismissed s v = inl refl
step-News (item_clicked now n) s v =
    either-News s.destroyed s s (follow_item now (find_announcement n s.announcements) s) (inl refl)
      (followed (find_announcement n s.announcements))
  where
    followed : (o : Option Announcement) → News s (follow_item now o s)
    followed none = inl refl
    followed (some a) = inl (open_detail-News now a s)
step-News panel_opens s v = inl refl
step-News panel_closes s v = inl refl
step-News (badge_due now) s v = unfold expiry_fires sync_badges in inl (ground arith)
step-News (page_shown now) s v = unfold sync_badges in inl (ground arith)
step-News removed s v = inl refl

-- As long as no answer of the feed names an announcement twice: at any time, whatever happens next
-- shows either no toast or one of an unread announcement that the widget did not list, while its panel
-- was closed.
pub toasts_show_unlisted :
    (hs : List Happening) (h : Happening)
    → All Feeds hs
    → News (run hs mounted) (step h (run hs mounted))
toasts_show_unlisted hs h o = step-News h (run hs mounted) (mounted-run-Listed hs o)
