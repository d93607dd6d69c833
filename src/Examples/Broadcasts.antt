-- ===== src/Examples/Broadcasts.antt =====
-- The announcements of a widget: theorems at concrete inputs.
use trace_ux.Base.{some, ℕ, ◌≡◌, refl, true, false, List, [], ◌∷◌, arith, filter}
use trace_ux.Panel.Announcements.{
  Announcement, Item, mounted, is_unread, unread_count, first_expiry, sync_badges, has_id,
  find_announcement, includes, without, sort, insert, precedes, notify, show_toast, published,
  updated, put_announcement, merged_with, tell_host, toast_published, upsert_announcement,
  on_socket, allocate, take_feed, on_feed, Happening, fed, pushed, toast_clicked, page_shown, step,
  run,
}
use trace_ux.Panel.Announcements.Badge.{badge_stays_true}
use trace_ux.Panel.Announcements.Listing.{Listed, mounted-run-Listed}
use trace_ux.Panel.Announcements.News.{News, toasts_show_unlisted}
use trace_ux.Panel.Announcements.Stale.{old_toast_marks_nothing}

abbrev notice : ℕ → ℕ → Item
notice n at = record { id = n; published_at = at; updated_at = 0; content = n; read = false }

-- A first answer, a publication, and the page that is shown again.
abbrev morning : List Happening
morning =
    fed 900_000 true (notice 1 800 ∷ notice 2 100 ∷ [])
    ∷ pushed 1_000_000 published true (notice 3 1_000)
    ∷ page_shown 1_500_000
    ∷ []

badge_stays_true_example :
    (run morning mounted).badge ≡ unread_count 200_000_000 (run morning mounted).announcements
unfolding run step on_feed on_socket upsert_announcement merged_with put_announcement take_feed
    allocate sync_badges tell_host toast_published show_toast notify find_announcement includes
    without sort insert precedes is_unread unread_count first_expiry filter
badge_stays_true_example =
    badge_stays_true morning 200_000_000 refl (omega arith, (omega arith, (omega arith, tt)))
      (omega arith) (omega arith)

mounted-run-Listed_example : Listed (run morning mounted)
unfolding includes
mounted-run-Listed_example = mounted-run-Listed morning ((refl, (refl, tt)), (tt, (tt, tt)))

toasts_show_unlisted_example :
    News
      (run morning mounted)
      (step (pushed 2_000_000 published true (notice 4 2_000)) (run morning mounted))
unfolding includes
toasts_show_unlisted_example =
    toasts_show_unlisted morning (pushed 2_000_000 published true (notice 4 2_000))
      ((refl, (refl, tt)), (tt, (tt, tt)))

abbrev corrected : Item
corrected = record (notice 4 2_000) { updated_at = 2_100; content = 5 }

old_toast_marks_nothing_example :
    let u =
      step
        (pushed 2_100_000 updated true corrected)
        (step (pushed 2_000_000 published true (notice 4 2_000)) (run morning mounted)) in
    let w = step (toast_clicked 2_200_000) u in
    (w.announcements ≡ u.announcements)
    × (w.posted ≡ 4 ∷ u.posted)
    × ((b : Announcement) × (find_announcement 4 w.announcements ≡ some b) × (b.item.read ≡ false))
unfolding run step on_feed on_socket upsert_announcement merged_with put_announcement take_feed
    allocate sync_badges tell_host toast_published show_toast notify find_announcement includes
    without sort insert precedes is_unread unread_count first_expiry has_id filter
old_toast_marks_nothing_example =
    old_toast_marks_nothing morning 2_000_000 2_100_000 2_200_000 (notice 4 2_000) corrected
      ((refl, (refl, tt)), (tt, (tt, tt))) refl refl refl refl refl
