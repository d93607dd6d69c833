-- ===== src/Panel/Campaigns.antt =====
-- The feedback campaigns of a mounted widget (tracker/src/widget.ts): which delivery is on the
-- screen, and what is reported of it. A delivery is its token; a survey without one has none. The
-- form keeps the survey that it was built for, and can be clicked until the panel has faded out.
pub mod Reports
use trace_ux.Base.{
  ℕ, zero, suc, ◌+◌, Bool, true, false, not, ◌&&◌, ◌||◌, Option, none, some, List, [], ◌∷◌,
  if◌then◌else◌,
}

pub data Outcome : Type 0 where
  dismissed : ℕ → Outcome
  skipped : ℕ → Outcome
  answered : Option ℕ → Outcome

-- `home` is the survey that the widget was mounted with, `active` the present one, `form` that of the
-- form that can be clicked; `reports` are newest first, `finished` counts the calls of onCampaignFinished.
pub record Campaigns : Type 0 where
  pub has_feedback : Bool
  pub home : Option ℕ
  pub active : Option ℕ
  pub form : Option (Option ℕ)
  pub submitted : Bool
  pub delivery_done : Bool
  pub panel_open : Bool
  pub closes_soon : Bool
  pub destroyed : Bool
  pub finished : ℕ
  pub reports : List Outcome

abbrev pub has_token : Option ℕ → Bool
has_token none = false
has_token (some n) = true

-- `finishActiveDelivery`.
abbrev pub report : (ℕ → Outcome) → Option ℕ → List Outcome → List Outcome
report action none os = os
report action (some n) os = action n ∷ os

unfoldable pub finish_delivery : (ℕ → Outcome) → Campaigns → Campaigns
finish_delivery action c =
    if not (has_token c.active) || c.delivery_done
    then c
    else record c { delivery_done = true; reports = report action c.active c.reports }

-- The panel opens with a section, or changes to it; the feedback's is built anew.
unfoldable pub open_panel : Bool → Campaigns → Campaigns
open_panel feedback c = record c {
  panel_open = true;
  form = if feedback && not c.submitted then some c.active else none;
}

abbrev pub reset_campaign : Campaigns → Campaigns
reset_campaign c =
    if has_token c.active
    then record c {
      active = c.home;
      submitted = false;
      delivery_done = false;
      finished = suc c.finished;
      panel_open = false;
      closes_soon = false;
    }
    else record c { panel_open = false; closes_soon = false }

unfoldable pub close_panel : Bool → Campaigns → Campaigns
unfolding finish_delivery
close_panel record_dismissal c =
    if not c.panel_open
    then record c { closes_soon = false }
    else reset_campaign
        (if record_dismissal && not c.submitted then finish_delivery dismissed c else c)

-- The panel that closed has faded out.
unfoldable pub fade : Campaigns → Campaigns
fade c = if c.panel_open then c else record c { form = none }

-- The form's buttons, with the survey that it was built for.
abbrev pub submit_form : Option (Option ℕ) → Campaigns → Campaigns
submit_form none c = c
submit_form (some survey) c = record c {
  delivery_done = has_token survey || c.delivery_done;
  submitted = true;
  closes_soon = true;
  form = none;
  reports = answered survey ∷ c.reports;
}

unfoldable pub on_submit : Campaigns → Campaigns
on_submit c = submit_form c.form c

abbrev pub skip_form : Option (Option ℕ) → Campaigns → Campaigns
skip_form none c = c
skip_form (some survey) c =
    if has_token survey then close_panel false (finish_delivery skipped c) else c

unfoldable pub on_skip : Campaigns → Campaigns
unfolding finish_delivery close_panel
on_skip c = skip_form c.form c

-- Three seconds after a response.
unfoldable pub on_close_timer : Campaigns → Campaigns
unfolding close_panel
on_close_timer c =
    let c' = record c { closes_soon = false } in
    if not c.closes_soon
    then c
    else if c.panel_open && not c.destroyed
    then close_panel true c'
    else c'

unfoldable pub show_campaign : ℕ → Campaigns → Campaigns
unfolding open_panel
show_campaign n c =
    if c.panel_open || not c.has_feedback
    then c
    else open_panel true (record c { active = some n; submitted = false; delivery_done = false })

unfoldable pub destroy : Campaigns → Campaigns
destroy c = record c { destroyed = true; closes_soon = false; form = none }

pub data Happening : Type 0 where
  opened : (feedback : Bool) → Happening
  faded : Happening
  closed : Happening
  submits : Happening
  skips : Happening
  time_is_up : Happening
  shown : ℕ → Happening
  removed : Happening

unfoldable pub step : Happening → Campaigns → Campaigns
step (opened feedback) c = open_panel feedback c
step faded c = fade c
step closed c = close_panel true c
step submits c = on_submit c
step skips c = on_skip c
step time_is_up c = on_close_timer c
step (shown n) c = show_campaign n c
step removed c = destroy c

unfoldable pub run : List Happening → Campaigns → Campaigns
run [] c = c
run (h ∷ hs) c = run hs (step h c)

-- The survey that a widget is mounted with comes from the configuration and has no delivery.
unfoldable pub mounted : Bool → Campaigns
mounted has_feedback = record {
  has_feedback = has_feedback;
  home = none;
  active = none;
  form = none;
  submitted = false;
  delivery_done = false;
  panel_open = false;
  closes_soon = false;
  destroyed = false;
  finished = 0;
  reports = [];
}
