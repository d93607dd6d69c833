-- ===== src/Tracker/Logs/Selection.antt =====
-- Which severities a site records (tracker/src/main.ts, logSeverities).
use trace_ux.Base.{
  ◌≤◌, ◌≡◌, ◌↔◌, true, none, some, List, [], ◌∷◌, Str, arith, ◌⊎◌, inl, inr, Option-cases,
  Bool-cases, ap, ◌∙◌, ◌||◌, ◌==◌,
}
use trace_ux.Tracker.Config.{LogSeverity, error, log_severity_rank, LogCfg}
use trace_ux.Tracker.Logs.{
  is_log_severity, known_severities, at_least, log_severities, includes, or_severity,
  all_severities, parsed, cons_if,
}

-- A configured list names a severity.
abbrev pub Names : LogSeverity → List Str → Type 0
Names s [] = ⊥
Names s (c ∷ cs) = (is_log_severity c ≡ some s) ⊎ Names s cs

same_rank : (x s : LogSeverity) → ((log_severity_rank x == log_severity_rank s) ≡ true) → x ≡ s
unfolding log_severity_rank
same_rank x s h = ground arith

rank_refl : (s : LogSeverity) → (log_severity_rank s == log_severity_rank s) ≡ true
rank_refl s = ground arith

included-Names :
    (s : LogSeverity) (cs : List Str) → includes (known_severities cs) s ≡ true → Names s cs
unfolding includes known_severities
included-Names s [] h = ground (arith, h)
included-Names s (c ∷ cs) h = elim (Option-cases (is_log_severity c)) [
  | inl e ↦ inr (included-Names s cs (rw (e, cons_if) at h))
  | inr (x, e) ↦
      let h' : ((log_severity_rank x == log_severity_rank s) || includes (known_severities cs) s)
          ≡ true =
        rw (e, cons_if) at h in
      elim (Bool-cases (log_severity_rank x == log_severity_rank s)) [
        | inl q ↦ inl (e ∙ ap some (same_rank x s q))
        | inr q ↦ inr (included-Names s cs (rw q at h'))
      ]
]

Names-included :
    (s : LogSeverity) (cs : List Str) → Names s cs → includes (known_severities cs) s ≡ true
unfolding includes known_severities
Names-included s [] n = absurd n
Names-included s (c ∷ cs) (inl e) = rw (e, cons_if, rank_refl s)
Names-included s (c ∷ cs) (inr n) = elim (Option-cases (is_log_severity c)) [
  | inl e ↦ rw (e, cons_if) (Names-included s cs n)
  | inr (x, e) ↦ rw (e, cons_if) (ground (arith, Names-included s cs n))
]

at_least-includes :
    (m s : LogSeverity)
    → (includes (at_least m all_severities) s ≡ true) ↔ (log_severity_rank m ≤ log_severity_rank s)
unfolding includes at_least log_severity_rank
at_least-includes m s = (λ h. ground (arith, h), λ h. ground (arith, h))

-- With a list, a severity is recorded exactly where the list names it. Without one, exactly where
-- its rank is at least that of the configured minimum, which is `error` where it is missing or
-- unknown.
pub log_severities_iff :
    (cfg : LogCfg) (s : LogSeverity)
    → ((cs : List Str) × (cfg.severities ≡ some cs)
        × ((includes (log_severities cfg) s ≡ true) ↔ Names s cs))
      ⊎ ((cfg.severities ≡ none)
          × ((includes (log_severities cfg) s ≡ true) ↔ (
              log_severity_rank (or_severity (parsed cfg.minimum_severity) error)
              ≤ log_severity_rank s)))
unfolding log_severities
log_severities_iff cfg s = elim (Option-cases cfg.severities) [
  | inl e ↦ inr (e, rw (e, log_severities) (at_least-includes _ s))
  | inr (cs, e) ↦ inl (cs, e, rw (e, log_severities) (included-Names s cs, Names-included s cs))
]
