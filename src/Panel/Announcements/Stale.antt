-- ===== src/Panel/Announcements/Stale.antt =====
-- A toast that outlives the object it shows (tracker/src/widget.ts, showToast, openDetail and
-- handleWidgetSocketEvent).
use trace_ux.Base.{
  ℕ, suc, ◌<◌, ◌≡◌, refl, sym, ap, subst, ◌∙◌, ◌⊎◌, inl, inr, true, false, none, some, List, [],
  ◌∷◌, map, arith, ◌==◌, Option-cases, All,
}
use trace_ux.Panel.Announcements.{
  insert, Item, Announcement, Updates, mounted, is_unread, sync_badges, has_id, find_announcement,
  includes, without, sort, notify, show_toast, published, updated, put_announcement, merged_with,
  tell_host, toast_published, upsert_announcement, on_socket, read_if, mark_read, open_detail,
  open_panel, follow_toast, Happening, pushed, toast_clicked, step, run,
}
use trace_ux.Panel.Announcements.Members.{sort_all, without_all, weaken}
use trace_ux.Panel.Announcements.Unique.{sort-has_id, without-has_id}
use trace_ux.Panel.Announcements.Listing.{Feeds, mounted-run-Listed}

find_nothing :
    (n : ℕ) (as' : List Announcement) → has_id n as' ≡ false → find_announcement n as' ≡ none
unfolding has_id find_announcement
find_nothing n [] h = refl
find_nothing n (a ∷ as') h = ground (arith, h, find_nothing n as' (ground (arith, h)))

-- A mark on an object that is not listed.
mark_elsewhere :
    (r : ℕ) (as' : List Announcement)
    → All (λ b. (b.ref == r) ≡ false) as'
    → map (read_if r) as' ≡ as'
mark_elsewhere r [] v = refl
mark_elsewhere r (a ∷ as') v =
    let e : read_if r a ≡ a = ground (arith, v.0) in
    ap (λ x. x ∷ map (read_if r) as') e ∙ ap (◌∷◌ a) (mark_elsewhere r as' v.1)

-- A published announcement that is shown in a toast.
abbrev object : ℕ → Item → Announcement
object r a = record { ref = r; item = a }

published_shown :
    (now : ℕ) (a : Item) (s : Updates)
    → has_id a.id s.announcements ≡ false
    → includes a.id s.seen ≡ false
    → s.panel_open ≡ false
    → s.destroyed ≡ false
    → is_unread now a ≡ true
    → let p = step (pushed now published true a) s in
      (p.toast ≡ some (object s.next_ref a))
      × (p.announcements ≡ sort (object s.next_ref a ∷ without a.id s.announcements))
      × (p.next_ref ≡ suc s.next_ref)
      × (p.destroyed ≡ false)
unfolding step on_socket upsert_announcement toast_published show_toast tell_host notify sync_badges
    put_announcement merged_with
published_shown now a s h i c d u =
    let f = find_nothing a.id s.announcements h in ground (arith, f, i, c, d, u)

updated_keeps :
    (now : ℕ) (i : Item) (p : Updates)
    → p.destroyed ≡ false
    → let u = step (pushed now updated true i) p in
      (u.toast ≡ p.toast)
      × (u.announcements
          ≡ sort (merged_with i p ∷ without (merged_with i p).item.id p.announcements))
      × (u.posted ≡ p.posted)
unfolding step on_socket upsert_announcement toast_published tell_host notify sync_badges
    put_announcement
updated_keeps now i p d = ground (arith, d)

click_reads :
    (now : ℕ) (m : Announcement) (u : Updates)
    → u.toast ≡ some m
    → m.item.read ≡ false
    → ((step (toast_clicked now) u).announcements ≡ map (read_if m.ref) u.announcements)
      × ((step (toast_clicked now) u).posted ≡ m.item.id ∷ u.posted)
unfolding step open_detail open_panel mark_read sync_badges
click_reads now m u e r =
    subst
      (λ o.
        ((follow_toast now o u).announcements ≡ map (read_if m.ref) u.announcements)
        × ((follow_toast now o u).posted ≡ m.item.id ∷ u.posted))
      (sym e) (ground (arith, r))

merged_ref :
    (i : Item) (p : Updates)
    → ((merged_with i p).ref ≡ p.next_ref) × ((merged_with i p).item.id ≡ i.id)
unfolding merged_with
merged_ref i p = elim (Option-cases (find_announcement i.id p.announcements)) [
  | inl n ↦ rw n (refl, refl)
  | inr (q, n) ↦ rw n (refl, refl)
]

unread_item : (now : ℕ) (a : Item) → is_unread now a ≡ true → a.read ≡ false
unfolding is_unread
unread_item now a e = ground (arith, e)

-- After the update, no listed object is the toast's.
detached :
    (r n : ℕ) (a : Item) (m : Announcement) (as' : List Announcement)
    → a.id ≡ n
    → m.ref ≡ suc r
    → All (λ b. b.ref < r) as'
    → All (λ b. (b.ref == r) ≡ false) (sort (m ∷ without n (sort (object r a ∷ without a.id as'))))
detached r n a m as' e f v =
    let P = λ (b : Announcement). (b.ref == r) ≡ false in
    let Q = λ (b : Announcement). P b ⊎ (b.item.id ≡ n) in
    let old : All P as' = weaken (λ b. b.ref < r) P as' (λ b h. ground (arith, h)) v in
    let rest : All P (without a.id as') =
      without_all P a.id as' (weaken P (λ b. P b ⊎ (b.item.id ≡ a.id)) as' (λ b h. inl h) old) in
    let both : All Q (sort (object r a ∷ without a.id as')) =
      sort_all Q (object r a ∷ without a.id as')
        (inr e, weaken P Q (without a.id as') (λ b h. inl h) rest) in
    sort_all P (m ∷ without n (sort (object r a ∷ without a.id as')))
      (ground (arith, f), without_all P n (sort (object r a ∷ without a.id as')) both)

find_inserted :
    (a : Announcement) (bs : List Announcement)
    → has_id a.item.id bs ≡ false
    → find_announcement a.item.id (insert a bs) ≡ some a
unfolding insert find_announcement has_id
find_inserted a [] h = ground arith
find_inserted a (b ∷ bs) h = ground (arith, h, find_inserted a bs (ground (arith, h)))

find_put :
    (a : Announcement) (as' : List Announcement)
    → find_announcement a.item.id (sort (a ∷ without a.item.id as')) ≡ some a
unfolding sort
find_put a as' =
    let h : has_id a.item.id (without a.item.id as') ≡ false =
      without-has_id a.item.id a.item.id as' ∙ ground arith in
    find_inserted a (sort (without a.item.id as'))
      (sort-has_id a.item.id (without a.item.id as') ∙ h)

-- The update keeps whether the announcement was read.
merged_read :
    (i : Item) (p : Updates) (b : Announcement)
    → find_announcement i.id p.announcements ≡ some b
    → (merged_with i p).item.read ≡ b.item.read
unfolding merged_with
merged_read i p b e = rw e refl

-- While the panel is closed, a new announcement is published and shown in a toast, then updated, and
-- the toast is clicked: the server is told that the announcement is read, but nothing changes in the
-- list, whose entry for it is still marked as not read.
pub old_toast_marks_nothing :
    (hs : List Happening) (now then' later : ℕ) (a i : Item)
    → All Feeds hs
    → has_id a.id (run hs mounted).announcements ≡ false
    → (run hs mounted).panel_open ≡ false
    → (run hs mounted).destroyed ≡ false
    → is_unread now a ≡ true
    → i.id ≡ a.id
    → let u =
        step (pushed then' updated true i) (step (pushed now published true a) (run hs mounted)) in
      let w = step (toast_clicked later) u in
      (w.announcements ≡ u.announcements)
      × (w.posted ≡ a.id ∷ u.posted)
      × ((b : Announcement) × (find_announcement a.id w.announcements ≡ some b)
          × (b.item.read ≡ false))
old_toast_marks_nothing hs now then' later a i o h c d n e =
    let s = run hs mounted in
    let v = mounted-run-Listed hs o in
    let p = step (pushed now published true a) s in
    let u = step (pushed then' updated true i) p in
    let (pt, pa, pn, pd) = published_shown now a s h (v.known a.id ∙ h) c d n in
    let (ut, ua, up) = updated_keeps then' i p pd in
    let (mr, mi) = merged_ref i p in
    let (wa, wp) = click_reads later (object s.next_ref a) u (ut ∙ pt) (unread_item now a n) in
    let P = λ (b : Announcement). (b.ref == s.next_ref) ≡ false in
    let m = merged_with i p in
    let z : All P u.announcements = subst (All P) (sym ua) (
      subst (λ k. All P (sort (m ∷ without k p.announcements))) (sym mi)
        (subst (λ xs. All P (sort (m ∷ without i.id xs))) (sym pa)
          (detached s.next_ref i.id a m s.announcements (sym e) (mr ∙ pn) v.older))) in
    let found : find_announcement i.id p.announcements ≡ some (object s.next_ref a) =
      subst (λ xs. find_announcement i.id xs ≡ some (object s.next_ref a)) (sym pa)
        (subst
          (λ k.
            find_announcement k (sort (object s.next_ref a ∷ without a.id s.announcements))
            ≡ some (object s.next_ref a))
          (sym e) (find_put (object s.next_ref a) s.announcements)) in
    let same : (step (toast_clicked later) u).announcements ≡ u.announcements =
      wa ∙ mark_elsewhere s.next_ref u.announcements z in
    let listed : find_announcement a.id u.announcements ≡ some m =
      subst (λ xs. find_announcement a.id xs ≡ some m) (sym ua)
        (subst (λ k. find_announcement k (sort (m ∷ without m.item.id p.announcements)) ≡ some m)
          (mi ∙ e) (find_put m p.announcements)) in
    let unread : m.item.read ≡ false =
      merged_read i p (object s.next_ref a) found ∙ unread_item now a n in
    (same, wp, (m, subst (λ xs. find_announcement a.id xs ≡ some m) (sym same) listed, unread))
