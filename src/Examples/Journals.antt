-- ===== src/Examples/Journals.antt =====
-- The page of logs: theorems at concrete inputs.
use trace_ux.Base.{ℕ, ◌*◌, ◌≡◌, refl, true, List, [], ◌∷◌, arith, take}
use trace_ux.Dashboard.Logs.{
  Log, blank, TimeWindow, has_log, in_window, refreshed, Happening, filters_change, ticks,
  rows_came, more_asked, page_came, run,
}
use trace_ux.Dashboard.Logs.Merged.{Unique, no_log_twice}
use trace_ux.Dashboard.Logs.Gaps.{refresh_leaves_no_gap}

abbrev line : ℕ → Log
line n = record { id = n; timestamp_ms = 1_000 * n; created_at = n }

abbrev whole_time : TimeWindow
whole_time = record { from_ms = 0; to_ms = 0 }

-- A refresh brings two new logs; an older page overlaps; an answer to the filters before comes late.
abbrev evening : List Happening
evening =
    filters_change true
    ∷ rows_came 1 whole_time (line 3 ∷ line 2 ∷ [])
    ∷ ticks
    ∷ more_asked true
    ∷ rows_came 1 whole_time (line 5 ∷ line 4 ∷ line 3 ∷ [])
    ∷ page_came 1 (line 2 ∷ line 1 ∷ [])
    ∷ filters_change true
    ∷ rows_came 1 whole_time (line 5 ∷ [])
    ∷ []

no_log_twice_example : Unique (run evening blank).logs
unfolding has_log
no_log_twice_example = no_log_twice evening (
  tt,
  (
    (refl, (refl, tt)),
    (tt, (tt, ((refl, (refl, (refl, tt))), ((refl, (refl, tt)), (tt, ((refl, tt), tt)))))),
  ),
)

abbrev older_logs : List Log
older_logs = line 3 ∷ line 2 ∷ line 1 ∷ []

refresh_leaves_no_gap_example :
    refreshed whole_time (take 2 (line 4 ∷ older_logs)) (take 2 older_logs)
    ≡ take 3 (line 4 ∷ older_logs)
unfolding has_log in_window
refresh_leaves_no_gap_example =
    refresh_leaves_no_gap whole_time (line 4 ∷ []) older_logs 2 2 (refl, (refl, (refl, (refl, tt))))
      (omega arith) (refl, (refl, tt))
