-- ===== src/Tracker/Widget/Expand.antt =====
-- `expand` and the events of the widget's mount (tracker/src/main.ts, expandFeedbackCampaign,
-- onCampaignFinished and the widget's part of shutdown). A call of `expand` waits three times; each
-- stretch between two waits is one function here.
use trace_ux.Base.{
  Bool, true, false, not, ◌&&◌, ◌||◌, Option, none, some, List, [], ◌∷◌, Str, str_eq, if◌then◌else◌,
  is_empty,
}
use trace_ux.Tracker.Config.{codes}
use trace_ux.Tracker.Init.{blank_string}
use trace_ux.Tracker.Widget.{
  Campaign, Setup, WidgetCfg, Phase, idle, asking, showing, remounting, ExpandResult, opened,
  skipped_widget_open, ineligible_disabled, ineligible_recurrence, ineligible_not_found,
  unavailable_stopped, unavailable_widget_disabled, unavailable_network, Mount, mount_widget,
  import_failed, import_done, destroy, assign_mounted, has_some,
}

-- `master_enabled ?? enabled ?? false`.
abbrev pub master : Option WidgetCfg → Bool
master none = false
master (some w) = elim w.master_enabled [ some b ↦ b | none ↦ w.enabled ]

abbrev pub busy : Phase → Bool
busy idle = false
busy asking = true
busy (showing k t) = true
busy (remounting k t) = true

abbrev pub result : ExpandResult → Mount → Mount
result r m = record m { results = r ∷ m.results }

-- The `finally` block.
abbrev pub finish : ExpandResult → Mount → Mount
finish r m = record m { results = r ∷ m.results; phase = idle }

-- `unifiedWidget?.isOpen()`.
abbrev pub widget_open : Mount → Bool
widget_open m = has_some m.widget && m.is_open

unfoldable pub expand_begin : Setup → Bool → Str → Mount → Mount
unfolding blank_string
expand_begin s stopped id m =
    if m.disposed || stopped
    then result unavailable_stopped m
    else if not s.opt_in || not (master s.widget)
    then result unavailable_widget_disabled m
    else if busy m.phase || widget_open m
    then result skipped_widget_open m
    else if blank_string id
    then result ineligible_not_found m
    else record m { phase = asking }

-- The answer of the eligibility endpoint, as far as the code reads it.
pub data Reply : Type 0 where
  failed : Reply
  answered : Bool → Str → Str → Option Campaign → Reply

abbrev pub refusal : Str → ExpandResult
refusal reason =
    if str_eq reason (codes "widget_disabled")
    then unavailable_widget_disabled
    else if str_eq reason (codes "disabled")
    then ineligible_disabled
    else if str_eq reason (codes "recurrence")
    then ineligible_recurrence
    else ineligible_not_found

abbrev pub granted : Bool → Str → Str → Option Campaign → Mount → Mount
granted eligible reason token none m = finish (refusal reason) m
granted eligible reason token (some c) m =
    if eligible && not (is_empty token)
    then record m { phase = showing c.key token }
    else finish (refusal reason) m

unfoldable pub expand_reply : Reply → Mount → Mount
expand_reply failed m = finish unavailable_network m
expand_reply (answered eligible reason token c) m = granted eligible reason token c m

abbrev pub shown : Str → Str → Mount → Mount
shown key token m = record m {
  is_open = true;
  acks = token ∷ m.acks;
  results = opened key ∷ m.results;
  phase = idle;
}

-- `shows` is what showCampaign of a mounted widget returns.
unfoldable pub expand_show : Bool → Str → Str → Mount → Mount
unfolding destroy
expand_show shows key token m =
    if widget_open m
    then finish skipped_widget_open m
    else if has_some m.widget && shows
    then shown key token m
    else record (destroy m) { phase = remounting key token }

unfoldable pub expand_remounted : Bool → Bool → Bool → Str → Str → Mount → Mount
unfolding assign_mounted
expand_remounted imported mounts shows key token m =
    if not imported
    then finish unavailable_network m
    else if mounts && shows
    then shown key token (assign_mounted mounts m)
    else finish unavailable_network (assign_mounted mounts m)

-- What the network, the page and the visitor do. `importing` carries what mountUnifiedWidget gave.
pub data Event : Type 0 where
  mount : Option Str → Event
  importing : Bool → Event
  import_breaks : Event
  expand : Bool → Str → Event
  replied : Reply → Event
  proceed : Bool → Event
  remounted : Bool → Bool → Bool → Event
  visitor_opens visitor_closes : Event
  campaign_finished : Event
  stop : Event

abbrev pub on_reply : Phase → Reply → Mount → Mount
on_reply idle r m = m
on_reply asking r m = expand_reply r m
on_reply (showing k t) r m = m
on_reply (remounting k t) r m = m

-- `if (widgetLoading) await widgetLoading` comes first.
abbrev pub on_proceed : Phase → Bool → Mount → Mount
on_proceed idle shows m = m
on_proceed asking shows m = m
on_proceed (showing k t) shows m = if m.loading then m else expand_show shows k t m
on_proceed (remounting k t) shows m = m

abbrev pub on_remounted : Phase → Bool → Bool → Bool → Mount → Mount
on_remounted idle i o s m = m
on_remounted asking i o s m = m
on_remounted (showing k t) i o s m = m
on_remounted (remounting k t) i o s m = expand_remounted i o s k t m

unfoldable pub step : Setup → (Option Str → Bool) → Event → Mount → Mount
step s available (mount action) m = mount_widget s available action m
step s available (importing mounts) m = if m.loading then import_done available mounts m else m
step s available import_breaks m = if m.loading then import_failed m else m
step s available (expand stopped id) m = expand_begin s stopped id m
step s available (replied r) m = on_reply m.phase r m
step s available (proceed shows) m = on_proceed m.phase shows m
step s available (remounted i o shows) m = on_remounted m.phase i o shows m
step s available visitor_opens m = if has_some m.widget then record m { is_open = true } else m
step s available visitor_closes m = record m { is_open = false }
step s available campaign_finished m =
    if available none then m else mount_widget s available none (destroy m)
step s available stop m =
    if m.disposed then m else record (destroy m) { pending_action = none; disposed = true }

unfoldable pub run : Setup → (Option Str → Bool) → List Event → Mount → Mount
run s available [] m = m
run s available (e ∷ es) m = run s available es (step s available e m)
