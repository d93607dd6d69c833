-- ===== src/Panel/Announcements/Quiet.antt =====
-- Toasts and what the host page is told change nothing else of the widget (tracker/src/widget.ts).
use trace_ux.Base.{
  ℕ, ◌≡◌, refl, ◌∙◌, Bool, true, false, not, ◌&&◌, ◌||◌, Option, none, some, List, [], ◌∷◌, ◌++◌,
  map, if◌then◌else◌, filter,
}
use trace_ux.Panel.Announcements.{
  Item, Announcement, Updates, is_unread, has_id, notify, notify_all, show_toast, Kind, published,
  updated, deleted, archived, tell_host, toast_published, first_unread, toast_first, announce,
}

pub record Unchanged (s u : Updates) : Type 0 where
  pub announcements : u.announcements ≡ s.announcements
  pub seen : u.seen ≡ s.seen
  pub badge : u.badge ≡ s.badge
  pub expires : u.expires ≡ s.expires
  pub synced_at : u.synced_at ≡ s.synced_at
  pub next_ref : u.next_ref ≡ s.next_ref
  pub destroyed : u.destroyed ≡ s.destroyed

same_self : (s : Updates) → Unchanged s s
same_self s = record {
  announcements = refl;
  seen = refl;
  badge = refl;
  expires = refl;
  synced_at = refl;
  next_ref = refl;
  destroyed = refl;
}

same_then : (s u w : Updates) → Unchanged s u → Unchanged u w → Unchanged s w
same_then s u w a b = record {
  announcements = b.announcements ∙ a.announcements;
  seen = b.seen ∙ a.seen;
  badge = b.badge ∙ a.badge;
  expires = b.expires ∙ a.expires;
  synced_at = b.synced_at ∙ a.synced_at;
  next_ref = b.next_ref ∙ a.next_ref;
  destroyed = b.destroyed ∙ a.destroyed;
}

either-Unchanged :
    (b : Bool) (s u w : Updates) → Unchanged s u → Unchanged s w → Unchanged s (if b then u else w)
either-Unchanged true s u w v x = v
either-Unchanged false s u w v x = x

notify-Unchanged : (a : Item) (s : Updates) → Unchanged s (notify a s)
unfolding notify
notify-Unchanged a s = record {
  announcements = refl;
  seen = refl;
  badge = refl;
  expires = refl;
  synced_at = refl;
  next_ref = refl;
  destroyed = refl;
}

notify_all-Unchanged : (as' : List Item) (s : Updates) → Unchanged s (notify_all as' s)
unfolding notify_all
notify_all-Unchanged [] s = same_self s
notify_all-Unchanged (a ∷ as') s =
    same_then s (notify a s) (notify_all as' (notify a s)) (notify-Unchanged a s)
      (notify_all-Unchanged as' (notify a s))

toasted-Unchanged :
    (a : Announcement) (s : Updates)
    → Unchanged s (record s { toast = some a; toasted = a.item ∷ s.toasted })
toasted-Unchanged a s = record {
  announcements = refl;
  seen = refl;
  badge = refl;
  expires = refl;
  synced_at = refl;
  next_ref = refl;
  destroyed = refl;
}

pub show_toast-Unchanged :
    (now : ℕ) (a : Announcement) (s : Updates) → Unchanged s (show_toast now a s)
unfolding show_toast
show_toast-Unchanged now a s =
    let u : Updates = record s { toast = some a; toasted = a.item ∷ s.toasted } in
    either-Unchanged (not (is_unread now a.item)) s s (if s.panel_open || s.destroyed then s else u)
      (same_self s)
      (either-Unchanged (s.panel_open || s.destroyed) s s u (same_self s) (toasted-Unchanged a s))

pub tell_host-Unchanged :
    (k : Kind) (f c : Bool) (a : Item) (s : Updates) → Unchanged s (tell_host k f c a s)
unfolding tell_host
tell_host-Unchanged published f c a s =
    either-Unchanged f s (notify a s) s (notify-Unchanged a s) (same_self s)
tell_host-Unchanged updated f c a s =
    either-Unchanged c s (notify a s) s (notify-Unchanged a s) (same_self s)
tell_host-Unchanged deleted f c a s = same_self s
tell_host-Unchanged archived f c a s = same_self s

toast_published-Unchanged :
    (now : ℕ) (k : Kind) (f : Bool) (a : Announcement) (s : Updates)
    → Unchanged s (toast_published now k f a s)
unfolding toast_published
toast_published-Unchanged now published f a s =
    either-Unchanged (not s.panel_open && f) s (show_toast now a s) s (show_toast-Unchanged now a s)
      (same_self s)
toast_published-Unchanged now updated f a s = same_self s
toast_published-Unchanged now deleted f a s = same_self s
toast_published-Unchanged now archived f a s = same_self s

-- What an event of the socket brings about behind the list.
pub pushed-Unchanged :
    (now : ℕ) (k : Kind) (f c : Bool) (a : Announcement) (s : Updates)
    → Unchanged s (toast_published now k f a (tell_host k f c a.item s))
pushed-Unchanged now k f c a s =
    let u = tell_host k f c a.item s in
    same_then s u (toast_published now k f a u) (tell_host-Unchanged k f c a.item s)
      (toast_published-Unchanged now k f a u)

toast_first-Unchanged :
    (now : ℕ) (o : Option Announcement) (s : Updates) → Unchanged s (toast_first now o s)
toast_first-Unchanged now none s = same_self s
toast_first-Unchanged now (some a) s = show_toast-Unchanged now a s

-- What an answer of the feed does.
pub announce-Unchanged :
    (now : ℕ) (fresh changed : List Announcement) (s : Updates)
    → Unchanged s (announce now fresh changed s)
unfolding announce
announce-Unchanged now fresh changed s =
    let as' = map (λ a. a.item) (fresh ++ filter (λ a. not (has_id a.item.id fresh)) changed) in
    let u = notify_all as' s in
    same_then s u (toast_first now (first_unread now fresh) u) (notify_all-Unchanged as' s)
      (toast_first-Unchanged now (first_unread now fresh) u)
