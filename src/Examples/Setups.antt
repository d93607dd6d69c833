-- ===== src/Examples/Setups.antt =====
-- Configuration and the owner of a page: theorems at concrete inputs.
use trace_ux.Base.{ℕ, ◌≤◌, arith, ◌≡◌, false, some, List, [], ◌∷◌}
use trace_ux.Tracker.Config.{codes, Answer, no_reply, fetch_config, accept}
use trace_ux.Tracker.Config.Fetch.{first_accepted, fetch_config_total}
use trace_ux.Tracker.Handle.{Handle}
use trace_ux.Tracker.Init.{Options, Privacy}
use trace_ux.Tracker.Init.Ownership.{inits, starts, Happening}

abbrev silence : ℕ → Answer × ℕ
silence i = (no_reply, 2_000)

fetch_config_total_example :
    let (cfg, requests, ms) = fetch_config silence in
    (cfg ≡ first_accepted (accept no_reply) (accept no_reply) (accept no_reply))
    × (1 ≤ requests)
    × (requests ≤ 3)
    × (ms ≤ 17_200)
fetch_config_total_example = fetch_config_total silence (omega arith) (omega arith) (omega arith)

abbrev shop : Options
shop = record { site_key = codes "shop"; protocol = some (codes "https:") }

abbrev open_browser : Privacy
open_browser = record { do_not_track = false; opted_out = false; storage_blocked = false }

abbrev first_visit : List Happening
first_visit = inits shop open_browser ∷ starts ∷ []
