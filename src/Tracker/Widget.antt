-- ===== src/Tracker/Widget.antt =====
-- The feedback trigger, the mount of the widget and the campaigns of tracker/src/main.ts:
-- feedbackAvailable, campaignSurvey, mountWidgetIfConfigured, expandFeedbackCampaign,
-- onCampaignFinished. The widget module is loaded and mounted outside (tracker/src/widget.ts); what
-- it answers is an argument. Mounted widgets have numbers: `live` holds those not destroyed.
pub mod Expand
pub mod Races
pub mod Feedback
use trace_ux.Base.{
  ℕ, suc, Bool, true, false, not, ◌&&◌, ◌||◌, Option, none, some, List, [], ◌∷◌, ◌++◌, Str, str_eq,
  ◌==◌, take, if◌then◌else◌, is_empty,
}
use trace_ux.Tracker.Config.{codes}

pub data AnswerType : Type 0 where
  sentiment stars scale_10 : AnswerType

pub record Campaign : Type 0 where
  pub key : Str
  pub question : Str
  pub answer_type : AnswerType
  pub allow_comment : Bool

pub record FeedbackCfg : Type 0 where
  pub enabled : Bool
  pub campaign : Option Campaign
  pub mode : Str
  pub pages : List Str
  pub actions : List Str

pub record WidgetCfg : Type 0 where
  pub enabled : Bool
  pub master_enabled : Option Bool
  pub updates_enabled : Bool
  pub tickets_enabled : Bool

-- `widget` and `feedback` of the configuration, and the caller's opt-in.
pub record Setup : Type 0 where
  pub opt_in : Bool
  pub widget : Option WidgetCfg
  pub feedback : Option FeedbackCfg

-- `some`, over a list.
unfoldable pub any {ℓ} : {A : Type ℓ} → (A → Bool) → List A → Bool
any p [] = false
any p (x ∷ xs) = p x || any p xs

abbrev pub action_listed : Option Str → List Str → Bool
unfolding any
action_listed none actions = false
action_listed (some a) actions = not (is_empty a) && any (str_eq a) actions

abbrev pub available_by_trigger : (Str → Bool) → Option Str → FeedbackCfg → Bool
unfolding any
available_by_trigger matches action f =
    if str_eq f.mode (codes "action")
    then action_listed action f.actions
    else if str_eq f.mode (codes "page")
    then any matches f.pages
    else true

abbrev pub available_from : (Str → Bool) → Option Str → FeedbackCfg → Bool
available_from matches action f =
    if not f.enabled
    then false
    else elim f.campaign [ some c ↦ true | none ↦ available_by_trigger matches action f ]

-- `matches` tells whether a page pattern fits the current address, the browser's RegExp.
unfoldable pub feedback_available : (Str → Bool) → Option Str → Option FeedbackCfg → Bool
feedback_available matches action none = false
feedback_available matches action (some f) = available_from matches action f

pub data Question : Type 0 where
  choice : Str → Str → List Str → Question
  rating : Str → Str → ℕ → ℕ → Question
  optional_text : Str → Str → Question

pub record Survey : Type 0 where
  pub survey_id : Str
  pub questions : List Question
  pub delivery_token : Option Str

abbrev pub first_question : AnswerType → Str → Question
first_question sentiment q = choice (codes "rating") q (codes "Good" ∷ codes "Bad" ∷ [])
first_question stars q = rating (codes "rating") q 1 5
first_question scale_10 q = rating (codes "rating") q 1 10

unfoldable pub campaign_survey : Campaign → Option Str → Survey
campaign_survey c token = record {
  survey_id = c.key;
  questions =
      first_question c.answer_type c.question
      ∷ (if c.allow_comment
          then optional_text (codes "comment") (codes "Anything else?") ∷ []
          else []);
  delivery_token = token;
}

-- Where a call of `expand` stands; campaignOpening is set but while it is `idle`. It asks for the
-- eligibility, goes on with a campaign's key and token, or waits for the module to mount anew.
pub data Phase : Type 0 where
  idle asking : Phase
  showing remounting : Str → Str → Phase

pub data ExpandResult : Type 0 where
  opened : Str → ExpandResult
  skipped_widget_open : ExpandResult
  ineligible_disabled ineligible_recurrence ineligible_not_found : ExpandResult
  unavailable_stopped unavailable_widget_disabled unavailable_network : ExpandResult

pub record Mount : Type 0 where
  pub widget : Option ℕ
  pub is_open : Bool
  pub live : List ℕ
  pub next : ℕ
  pub loading : Bool
  pub pending_action : Option Str
  pub phase : Phase
  pub acks : List Str
  pub results : List ExpandResult
  pub disposed : Bool

abbrev pub unmounted : Mount
unmounted = record {
  widget = none;
  is_open = false;
  live = [];
  next = 0;
  loading = false;
  pending_action = none;
  phase = idle;
  acks = [];
  results = [];
  disposed = false;
}

unfoldable pub without : ℕ → List ℕ → List ℕ
without r [] = []
without r (x ∷ xs) = if x == r then without r xs else x ∷ without r xs

-- `unifiedWidget?.destroy(); unifiedWidget = null`.
unfoldable pub destroy : Mount → Mount
destroy m = elim m.widget [
  | none ↦ m
  | some w ↦ record m { widget = none; is_open = false; live = without w m.live }
]

-- `unifiedWidget = mountUnifiedWidget(…)`, which may give nothing.
unfoldable pub assign_mounted : Bool → Mount → Mount
assign_mounted mounts m =
    if mounts
    then record m {
      widget = some m.next;
      is_open = false;
      live = m.next ∷ m.live;
      next = suc m.next;
    }
    else record m { widget = none; is_open = false }

abbrev pub has_some {ℓ} : {A : Type ℓ} → Option A → Bool
has_some none = false
has_some (some a) = true

-- The parts of mountWidgetIfConfigured behind its first two guards.
abbrev pub mount_enabled : (Option Str → Bool) → WidgetCfg → Option Str → Mount → Mount
mount_enabled available w action m =
    let acts = has_some action && available action in
    if has_some m.widget
    then (if acts then record m { is_open = true } else m)
    else let m' = if acts then record m { pending_action = action } else m in
      if m.loading
      then m'
      else if not (available action) && not w.updates_enabled && not w.tickets_enabled
      then m'
      else record m' { loading = true }

unfoldable pub mount_widget : Setup → (Option Str → Bool) → Option Str → Mount → Mount
mount_widget s available action m = if not s.opt_in || m.disposed then m else elim s.widget [
  | none ↦ m
  | some w ↦ if w.enabled then mount_enabled available w action m else m
]

-- The import of mountWidgetIfConfigured ends: it failed, or the module is there and the widget
-- mounts or not.
unfoldable pub import_failed : Mount → Mount
import_failed m = record m {
  widget = none;
  is_open = false;
  pending_action = none;
  loading = false;
}

unfoldable pub import_done : (Option Str → Bool) → Bool → Mount → Mount
unfolding assign_mounted
import_done available mounts m =
    if m.disposed
    then record m { loading = false }
    else let m' = assign_mounted mounts (record m { pending_action = none; loading = false }) in
      if has_some m.pending_action && available m.pending_action && mounts
      then record m' { is_open = true }
      else m'
