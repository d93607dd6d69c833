-- ===== src/Panel/Campaigns/Reports.antt =====
-- What a widget reports of a campaign's delivery (tracker/src/widget.ts, finishActiveDelivery,
-- closePanel and showCampaign).
use trace_ux.Base.{
  ℕ, ◌+◌, ◌≡◌, ◌⊎◌, ◌&&◌, true, false, not, ◌||◌, ◌==◌, Option, none, some, List, [], ◌∷◌, arith,
  if◌then◌else◌,
}
use trace_ux.Panel.Campaigns.{
  Outcome, dismissed, skipped, answered, Campaigns, has_token, finish_delivery, open_panel,
  close_panel, on_submit, show_campaign, Happening, opened, faded, closed, submits, skips,
  time_is_up, shown, removed, step, run,
}

abbrev pub is_for : ℕ → Option ℕ → ℕ
is_for n none = 0
is_for n (some m) = if m == n then 1 else 0

-- How often a delivery was reported as ended, and how often it was shown.
unfoldable pub ended : ℕ → List Outcome → ℕ
ended n [] = 0
ended n (dismissed m ∷ os) = (if m == n then 1 else 0) + ended n os
ended n (skipped m ∷ os) = (if m == n then 1 else 0) + ended n os
ended n (answered m ∷ os) = is_for n m + ended n os

-- How often the delivery was taken on: the panel was closed when the campaign was shown.
unfoldable pub taken_on : ℕ → List Happening → Campaigns → ℕ
unfolding step
taken_on n [] c = 0
taken_on n (shown m ∷ hs) c =
    (if m == n && not c.panel_open && c.has_feedback then 1 else 0)
    + taken_on n hs (step (shown m) c)
taken_on n (opened b ∷ hs) c = taken_on n hs (step (opened b) c)
taken_on n (faded ∷ hs) c = taken_on n hs (step faded c)
taken_on n (closed ∷ hs) c = taken_on n hs (step closed c)
taken_on n (submits ∷ hs) c = taken_on n hs (step submits c)
taken_on n (skips ∷ hs) c = taken_on n hs (step skips c)
taken_on n (time_is_up ∷ hs) c = taken_on n hs (step time_is_up c)
taken_on n (removed ∷ hs) c = taken_on n hs (step removed c)

-- No form is submitted while the closed panel fades out.
abbrev pub InTime : Campaigns → Type 0
InTime c = (c.panel_open ≡ true) ⊎ (c.form ≡ none)

abbrev pub NoneLate : List Happening → Campaigns → Type 0
NoneLate [] c = Unit
NoneLate (shown m ∷ hs) c = NoneLate hs (step (shown m) c)
NoneLate (opened b ∷ hs) c = NoneLate hs (step (opened b) c)
NoneLate (faded ∷ hs) c = NoneLate hs (step faded c)
NoneLate (closed ∷ hs) c = NoneLate hs (step closed c)
NoneLate (submits ∷ hs) c = InTime c × NoneLate hs (step submits c)
NoneLate (skips ∷ hs) c = NoneLate hs (step skips c)
NoneLate (time_is_up ∷ hs) c = NoneLate hs (step time_is_up c)
NoneLate (removed ∷ hs) c = NoneLate hs (step removed c)

-- One more report is due while the delivery is on the screen and not done with.
abbrev pub due : ℕ → Campaigns → ℕ
due n c = if c.delivery_done then 0 else is_for n c.active

-- The reports and the one that is due account for every time that the delivery was taken on. A
-- delivery on the screen stays so until the panel closes; exactly what was submitted is done with,
-- and an open form is the present survey's.
record Settled (n k : ℕ) (c : Campaigns) : Type 0 where
  home : c.home ≡ none
  account : ended n c.reports + due n c ≡ k
  on_screen : (not (has_token c.active) || c.panel_open) ≡ true
  done : (not (has_token c.active) || not c.submitted || c.delivery_done) ≡ true
  only : (not (has_token c.active) || c.submitted || not c.delivery_done) ≡ true
  fits :
      (c.panel_open ≡ false) ⊎ (c.form ≡ none) ⊎ ((c.form ≡ some c.active) × (c.submitted ≡ false))

-- A form that is submitted while its panel fades out: the delivery is reported as dismissed, and then
-- as answered.
pub late_answer_repeats :
    (n : ℕ) (c : Campaigns)
    → c.has_feedback ≡ true
    → c.panel_open ≡ false
    → (run (shown n ∷ closed ∷ submits ∷ []) c).reports
      ≡ answered (some n) ∷ dismissed n ∷ c.reports
unfolding run step show_campaign open_panel close_panel finish_delivery on_submit
late_answer_repeats n c f p = ground (arith, f, p)
