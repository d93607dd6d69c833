-- ===== src/Examples/Deliveries.antt =====
-- The campaigns of a widget: theorems at concrete inputs.
use trace_ux.Base.{List, [], ◌∷◌, true}
use trace_ux.Panel.Campaigns.{Happening, opened, faded, closed, submits, skips, shown}

abbrev campaigns : List Happening
campaigns =
    opened true
    ∷ shown 7
    ∷ closed
    ∷ faded
    ∷ shown 7
    ∷ submits
    ∷ closed
    ∷ shown 8
    ∷ skips
    ∷ opened true
    ∷ []
