-- ===== src/Tracker/Config/Fetch.antt =====
-- How long fetchConfig of tracker/src/main.ts can take, and what it returns.
use trace_ux.Base.{ℕ, ◌≤◌, ◌≡◌, arith, Option, none, some}
use trace_ux.Tracker.Config.{Config, Answer, accept, fetch_from, fetch_config, defaults}

-- The first answer that is accepted, else the defaults.
abbrev pub first_accepted : Option Config → Option Config → Option Config → Config
first_accepted (some c) b a = c
first_accepted none (some c) a = c
first_accepted none none (some c) = c
first_accepted none none none = defaults

-- Whatever the server answers, the configuration is that of the first of three attempts that is
-- accepted, or the defaults; it takes one to three requests, and at most 17.2 seconds where no
-- attempt outlives its time-out of 3, 5 and 8 seconds.
pub fetch_config_total :
    (answers : ℕ → Answer × ℕ)
    → (answers 0).1 ≤ 3_000
    → (answers 1).1 ≤ 5_000
    → (answers 2).1 ≤ 8_000
    → let (cfg, requests, ms) = fetch_config answers in
      (cfg ≡ first_accepted (accept (answers 0).0) (accept (answers 1).0) (accept (answers 2).0))
      × (1 ≤ requests)
      × (requests ≤ 3)
      × (ms ≤ 17_200)
unfolding fetch_config fetch_from
fetch_config_total answers h k l = ground (arith, h, k, l)
