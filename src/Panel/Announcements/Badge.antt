-- ===== src/Panel/Announcements/Badge.antt =====
-- The unread badge (tracker/src/widget.ts, syncBadges and what calls it).
use trace_ux.Base.{
  ℕ, suc, ◌+◌, ◌*◌, ◌≤◌, ◌<◌, ◌≡◌, refl, sym, ap, subst, ◌∙◌, ◌⊎◌, inl, inr, Bool, true, false, not,
  Option, none, some, List, [], ◌∷◌, arith, ◌==◌, if◌then◌else◌, filter, Bool-cases, All,
}
use trace_ux.Panel.Announcements.Quiet.{Unchanged, pushed-Unchanged, announce-Unchanged}
use trace_ux.Panel.Announcements.{
  Item, Announcement, Updates, mounted, is_unread, unread_count, earlier, first_expiry, due,
  sync_badges, Kind, published, updated, deleted, archived, remove_announcement, tell_host,
  toast_published, upsert_announcement, on_socket, find_announcement, merged_with, put_announcement,
  withdraw, content_changed, includes, allocate, is_fresh, is_changed, take_feed, mark_read,
  post_read, announce, on_feed, open_detail, open_panel, follow_toast, follow_item, expiry_fires,
  Happening, fed, pushed, toast_clicked, toast_dismissed, item_clicked, panel_opens, panel_closes,
  badge_due, page_shown, removed, step, run,
}

-- Before a time, where there is one.
abbrev pub Before : ℕ → Option ℕ → Type 0
Before t none = Unit
Before t (some u) = t < u

-- Published by then, on the visitor's clock.
abbrev pub Out : ℕ → List Announcement → Type 0
Out now as' = All (λ a. a.item.published_at * 1_000 ≤ now) as'

earlier-Before : (t u : ℕ) (o : Option ℕ) → t < earlier u o → (t < u) × Before t o
earlier-Before t u none h = (h, tt)
earlier-Before t u (some w) h = (omega (arith, h), omega (arith, h))

stays_unread :
    (now t : ℕ) (a : Item)
    → now ≤ t
    → is_unread now a ≡ true
    → t < a.published_at * 1_000 + 259_200_000
    → is_unread t a ≡ true
unfolding is_unread
stays_unread now t a h u b = ground (arith, h, u, b)

stays_read :
    (now t : ℕ) (a : Item)
    → now ≤ t
    → a.published_at * 1_000 ≤ now
    → is_unread now a ≡ false
    → is_unread t a ≡ false
unfolding is_unread
stays_read now t a h p u = ground (arith, h, p, u)

-- Until the first of them expires, as many are unread.
count_holds :
    (now t : ℕ) (as' : List Announcement)
    → now ≤ t
    → Out now as'
    → Before t (first_expiry now as')
    → unread_count t as' ≡ unread_count now as'
unfolding first_expiry unread_count
count_holds now t [] h p b = refl
count_holds now t (a ∷ as') h p b = elim (Bool-cases (is_unread now a.item)) [
  | inl u ↦
      let c : t < earlier (a.item.published_at * 1_000 + 259_200_000) (first_expiry now as') =
        subst
          (λ x. Before t (
            if x
            then some (earlier (a.item.published_at * 1_000 + 259_200_000) (first_expiry now as'))
            else first_expiry now as'))
          u b in
      let (d, e) =
        earlier-Before t (a.item.published_at * 1_000 + 259_200_000) (first_expiry now as') c in
      rw u (rw (stays_unread now t a.item h u d) (ap suc (count_holds now t as' h p.1 e)))
  | inr u ↦
      let c : Before t (first_expiry now as') =
        subst
          (λ x. Before t (
            if x
            then some (earlier (a.item.published_at * 1_000 + 259_200_000) (first_expiry now as'))
            else first_expiry now as'))
          u b in
      rw u (rw (stays_read now t a.item h p.0 u) (count_holds now t as' h p.1 c))
]

-- Every one that is unread expires later.
expiry_ahead : (now : ℕ) (as' : List Announcement) → Before now (first_expiry now as')
unfolding first_expiry is_unread
expiry_ahead now [] = tt
expiry_ahead now (a ∷ as') = elim (Bool-cases (is_unread now a.item)) [
  | inl u ↦ rw u (both now a.item (first_expiry now as') u (expiry_ahead now as'))
  | inr u ↦ rw u (expiry_ahead now as')
]
  where
    both :
        (now : ℕ) (a : Item) (o : Option ℕ)
        → is_unread now a ≡ true
        → Before now o
        → now < earlier (a.published_at * 1_000 + 259_200_000) o
    both now a none u b = ground (arith, u)
    both now a (some w) u b = ground (arith, u, b)

due-Before : (now t : ℕ) (o : Option ℕ) → Before now o → Before t (due now o) → Before t o
due-Before now t none b d = tt
due-Before now t (some u) b d = omega (arith, b, d)

-- The badge shows what was unread at the last sync, and the timer is set for it.
abbrev Shows : Updates → Type 0
Shows s =
    (s.badge ≡ unread_count s.synced_at s.announcements)
    × (s.expires ≡ due s.synced_at (first_expiry s.synced_at s.announcements))

abbrev Synced : Updates → Type 0
Synced s = (s.destroyed ≡ true) ⊎ Shows s

sync-Synced : (now : ℕ) (s : Updates) → Synced (sync_badges now s)
unfolding sync_badges
sync-Synced now s = inr (refl, refl)

same-Synced : (s u : Updates) → Unchanged s u → Synced s → Synced u
same-Synced s u e (inl d) = inl (e.destroyed ∙ d)
same-Synced s u e (inr (b, x)) = inr (
  e.badge ∙ (b ∙ rw (e.synced_at) (rw (e.announcements) refl)),
  e.expires ∙ (x ∙ rw (e.synced_at) (rw (e.announcements) refl)),
)

either-Synced : (b : Bool) (s u : Updates) → Synced s → Synced u → Synced (if b then s else u)
either-Synced true s u v w = v
either-Synced false s u v w = w

upsert-Synced :
    (now : ℕ) (k : Kind) (l : Bool) (a : Item) (s : Updates)
    → Synced s
    → Synced (upsert_announcement now k l a s)
unfolding upsert_announcement
upsert-Synced now k false a s v = v
upsert-Synced now k true a s v =
    let m = merged_with a s in
    let f = not (includes a.id s.seen) in
    let c = content_changed (find_announcement a.id s.announcements) m.item in
    let u = sync_badges now (put_announcement m s) in
    same-Synced u (toast_published now k f m (tell_host k f c m.item u))
      (pushed-Unchanged now k f c m u) (sync-Synced now (put_announcement m s))

remove-Synced : (now n : ℕ) (s : Updates) → Synced s → Synced (remove_announcement now n s)
unfolding remove_announcement
remove-Synced now n s v =
    either-Synced (n == 0) s (sync_badges now (withdraw n s)) v (sync-Synced now (withdraw n s))

on_socket-Synced :
    (now : ℕ) (k : Kind) (l : Bool) (a : Item) (s : Updates)
    → Synced s
    → Synced (on_socket now k l a s)
unfolding on_socket
on_socket-Synced now published l a s v = upsert-Synced now published l a s v
on_socket-Synced now updated l a s v = upsert-Synced now updated l a s v
on_socket-Synced now deleted l a s v = remove-Synced now a.id s v
on_socket-Synced now archived l a s v = remove-Synced now a.id s v

on_feed-Synced :
    (now : ℕ) (initial : Bool) (items : List Item) (s : Updates)
    → Synced s
    → Synced (on_feed now initial items s)
unfolding on_feed
on_feed-Synced now initial items s v =
    let next = allocate s.next_ref items in
    let fresh = filter (is_fresh s.seen) next in
    let changed = filter (is_changed s.announcements) next in
    let u = sync_badges now (take_feed items s) in
    let w = sync-Synced now (take_feed items s) in
    either-Synced s.destroyed s (if initial then u else announce now fresh changed u) v (
      either-Synced initial u (announce now fresh changed u) w
        (same-Synced u (announce now fresh changed u) (announce-Unchanged now fresh changed u) w))

posted-Synced : (n : ℕ) (s : Updates) → Synced s → Synced (post_read n s)
posted-Synced n s v = v

open_detail-Synced :
    (now : ℕ) (a : Announcement) (s : Updates) → Synced s → Synced (open_detail now a s)
unfolding open_detail
open_detail-Synced now a s v =
    let u = sync_badges now (mark_read a.ref s) in
    either-Synced a.item.read s (post_read a.item.id u) v
      (posted-Synced a.item.id u (sync-Synced now (mark_read a.ref s)))

follow_toast-Synced :
    (now : ℕ) (o : Option Announcement) (s : Updates) → Synced s → Synced (follow_toast now o s)
follow_toast-Synced now none s v = v
follow_toast-Synced now (some a) s v =
    open_detail-Synced now a (open_panel s) (unfold open_panel in v)

follow_item-Synced :
    (now : ℕ) (o : Option Announcement) (s : Updates) → Synced s → Synced (follow_item now o s)
follow_item-Synced now none s v = v
follow_item-Synced now (some a) s v = open_detail-Synced now a s v

step-Synced : (h : Happening) (s : Updates) → Synced s → Synced (step h s)
unfolding step
step-Synced (fed now initial items) s v = on_feed-Synced now initial items s v
step-Synced (pushed now k l a) s v =
    either-Synced s.destroyed s (on_socket now k l a s) v (on_socket-Synced now k l a s v)
step-Synced (toast_clicked now) s v = follow_toast-Synced now s.toast s v
step-Synced toast_dismissed s v = v
step-Synced (item_clicked now n) s v =
    either-Synced s.destroyed s (follow_item now (find_announcement n s.announcements) s) v
      (follow_item-Synced now (find_announcement n s.announcements) s v)
step-Synced panel_opens s v = unfold open_panel in v
step-Synced panel_closes s v = v
step-Synced (badge_due now) s v =
    unfold expiry_fires in either-Synced s.destroyed s (sync_badges now s) v (sync-Synced now s)
step-Synced (page_shown now) s v =
    either-Synced s.destroyed s (sync_badges now s) v (sync-Synced now s)
step-Synced removed s v = inl refl

run-Synced : (hs : List Happening) (s : Updates) → Synced s → Synced (run hs s)
unfolding run
run-Synced [] s v = v
run-Synced (h ∷ hs) s v = run-Synced hs (step h s) (step-Synced h s v)

mounted-Synced : Synced mounted
unfolding unread_count first_expiry
mounted-Synced = inr (refl, refl)

badge_then :
    (t : ℕ) (s : Updates)
    → Shows s
    → Out s.synced_at s.announcements
    → s.synced_at ≤ t
    → Before t s.expires
    → s.badge ≡ unread_count t s.announcements
badge_then t s (b, e) o h d =
    let f = first_expiry s.synced_at s.announcements in
    let w : Before t f =
      due-Before s.synced_at t f (expiry_ahead s.synced_at s.announcements)
        (subst (Before t) e d) in
    b ∙ sym (count_holds s.synced_at t s.announcements h o w)

-- Whatever announcements came, changed, were withdrawn, read and expired: at any time from the last
-- sync until the timer of the badge is due, the badge of a widget that was not removed shows how many
-- announcements are unread at that time, as long as the visitor's clock was not behind at the last
-- sync, so that none of them was still to come out.
pub badge_stays_true :
    (hs : List Happening) (t : ℕ)
    → (run hs mounted).destroyed ≡ false
    → Out (run hs mounted).synced_at (run hs mounted).announcements
    → (run hs mounted).synced_at ≤ t
    → Before t (run hs mounted).expires
    → (run hs mounted).badge ≡ unread_count t (run hs mounted).announcements
badge_stays_true hs t n o h d = elim (run-Synced hs mounted mounted-Synced) [
  | inl e ↦ absurd (ground (arith, e, n))
  | inr v ↦ badge_then t (run hs mounted) v o h d
]
