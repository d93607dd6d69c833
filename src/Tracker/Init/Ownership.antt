-- ===== src/Tracker/Init/Ownership.antt =====
-- One tracker owns a page (tracker/src/main.ts, init and shutdown).
use trace_ux.Base.{◌≡◌, ◌≢◌, true, false, none, some, List, [], ◌∷◌, arith, if◌then◌else◌}
use trace_ux.Tracker.Handle.{Handle, create_queued_handle, fail, settle_all, stop, Op, stops, apply}
use trace_ux.Tracker.Init.{
  Window, Options, Privacy, refuses, created, init, on_instance, stop_instance, finish_start,
}

-- What can happen to a page: a call of `init`, the end of `start` for the instance, and the calls
-- of its handle.
pub data Happening : Type 0 where
  inits : Options → Privacy → Happening
  starts : Happening
  stopped : Happening
  used : Op → Happening

unfoldable pub happen : Happening → Window → Window
happen (inits o p) w = (init o p w).1
happen starts w = finish_start w
happen stopped w = stop_instance w
happen (used o) w = on_instance o w

-- The page is claimed exactly while the window names an instance.
pub record Owned (w : Window) : Type 0 where
  pub claimed : w.started ≡ true → w.instance ≢ none
  pub unclaimed : w.started ≡ false → w.instance ≡ none

abbrev new_handle : Privacy → Handle
new_handle p = if refuses p then fail create_queued_handle else create_queued_handle

unfoldable pub happen_all : List Happening → Window → Window
happen_all [] w = w
happen_all (h ∷ hs) w = happen_all hs (happen h w)

-- A tracker that is stopped before it runs keeps the page: its handle has failed for good, and
-- every later `init` on the page, however often and with whatever options, gives out that handle.
pub early_stop_blocks :
    (h : Handle) (o : Options) (p : Privacy)
    → h.runtime ≡ false
    → let w = finish_start (stop_instance (record { started = true; instance = some h })) in
      (w.started ≡ true)
      × (((init o p w).1 ≡ w) × ((init o p w).0 ≢ created))
      × ((g : Handle) × (w.instance ≡ some g) × (g.failed ≡ true) × (g.runtime ≡ false))
unfolding init stop_instance finish_start apply stop settle_all
early_stop_blocks h o p r = (
  ground arith,
  (ground arith, λ e. ground (arith, e)),
  (apply stops h, ground arith, ground arith, ground arith),
)
