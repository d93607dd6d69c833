-- ===== src/Examples/Widgets.antt =====
-- The feedback widget: theorems at concrete inputs.
use trace_ux.Base.{◌≡◌, Bool, true, false, Option, none, some, List, [], ◌∷◌, Str}
use trace_ux.Tracker.Config.{codes}
use trace_ux.Tracker.Widget.{Setup, WidgetCfg, unmounted}
use trace_ux.Tracker.Widget.Expand.{Event, mount, importing, expand, replied, failed, run}
use trace_ux.Tracker.Widget.Races.{expand_calls, answered_or_open, expands_answered}

abbrev updates : WidgetCfg
updates = record {
  enabled = true;
  master_enabled = none;
  updates_enabled = true;
  tickets_enabled = false;
}

abbrev setup : Setup
setup = record { opt_in = true; widget = some updates; feedback = none }

abbrev never : Option Str → Bool
never a = false

abbrev one_failed_call : List Event
one_failed_call = mount none ∷ importing true ∷ expand false (codes "nps") ∷ replied failed ∷ []

expands_answered_example :
    answered_or_open (run setup never one_failed_call unmounted) ≡ expand_calls one_failed_call
expands_answered_example = expands_answered setup never one_failed_call
