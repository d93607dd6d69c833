-- ===== src/Examples/Scene.antt =====
-- A page, a site's configuration and a tracker, for the examples of tracker/src/main.ts.
use trace_ux.Base.{ℕ, ◌≡◌, refl, true, false, none, some, [], Str}
use trace_ux.Tracker.Config.{Config, sample_unit, codes}
use trace_ux.Tracker.Message.{RrwebEvent, Identity, Page}
use trace_ux.Tracker.State.{Tracker, Store, Env, gives_stop}
use trace_ux.Tracker.Session.Start.{initial, load, bootstrap, start, starts_afresh, is_stale}
use trace_ux.Tracker.Session.Run.{all_parts}

abbrev pub home : Page
home = record {
  href = codes "https://shop.test/";
  title = codes "Shop";
  referrer = [];
  utm_source = [];
  utm_medium = [];
  utm_campaign = [];
  lang = codes "en";
  viewport_w = 800;
  viewport_h = 600;
  screen_w = 800;
  screen_h = 600;
}

-- The clock at `now`, and the identifier that the browser would make up.
abbrev pub at : ℕ → Str → Env
at now id = record {
  now = now;
  new_id = id;
  record_outcome = gives_stop;
  replaceable = λ m. true;
  page = home;
}

abbrev pub nobody : Identity
nobody = record { user_id = []; client_id = []; remote_id = [] }

abbrev pub site : Config
site = record {
  sample_rate = sample_unit;
  checkout_interval_ms = 30_000;
  inline_stylesheet = true;
  slim_dom = true;
  mask_inputs = true;
  flush_interval_ms = 5_000;
  recording_enabled = true;
  logs = record { enabled = true; severities = none; minimum_severity = some (codes "warn") };
}

abbrev pub empty_store : Store
empty_store = record {
  writable = true;
  sid = [];
  sid_ts = 0;
  seq = 0;
  log_seq = 0;
  page_count = 0;
  active = 0;
}

abbrev pub click : RrwebEvent
click = record { kind = 3; source = some 2; payload = 7 }

abbrev pub mutation : RrwebEvent
mutation = record { kind = 3; source = some 0; payload = 8 }

abbrev pub first_env : Env
first_env = at 1_000_000 (codes "a")

-- The tracker that a fresh tab gets.
unfoldable pub fresh : Tracker
unfolding bootstrap initial all_parts
fresh = bootstrap first_env (initial site nobody empty_store first_env (codes "a") 0 0 0 0)

pub fresh_starts : start site 0 false nobody empty_store first_env ≡ some fresh
unfolding fresh start load starts_afresh is_stale
fresh_starts = refl
