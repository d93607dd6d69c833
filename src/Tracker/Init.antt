-- ===== src/Tracker/Init.antt =====
-- `init` of tracker/src/main.ts: one tracker owns a page. The window's two variables are the
-- state; `instance` is the queued handle that they share with every caller, so an operation on the
-- handle shows here. Handles that the window no longer names are not kept.
pub mod Ownership
use trace_ux.Base.{
  ℕ, Bool, true, false, not, ◌&&◌, ◌||◌, Option, none, some, List, [], ◌∷◌, Str, str_eq, ◌==◌, leb,
  if◌then◌else◌, is_empty, is_space,
}
use trace_ux.Tracker.Config.{codes}
use trace_ux.Tracker.Handle.{Handle, create_queued_handle, fail, Op, stops, activates, apply}

pub record Window : Type 0 where
  pub started : Bool
  pub instance : Option Handle

abbrev pub blank : Window
blank = record { started = false; instance = none }

-- What `new URL(options.origin)` gives: nothing where it throws, else the protocol.
pub record Options : Type 0 where
  pub site_key : Str
  pub protocol : Option Str

-- `navigator.doNotTrack` and the opt-out key; `storage_blocked` where reading the key throws, which
-- happens only where tracking is allowed so far.
pub record Privacy : Type 0 where
  pub do_not_track : Bool
  pub opted_out : Bool
  pub storage_blocked : Bool

pub data InitError : Type 0 where
  requires_site_key requires_origin : InitError

-- What the caller gets: an exception, the inert handle, or the window's instance, new or shared.
pub data InitResult : Type 0 where
  throws : InitError → InitResult
  noop shared created : InitResult

-- A string that `trim` leaves empty.
unfoldable pub blank_string : Str → Bool
blank_string [] = true
blank_string (c ∷ cs) = is_space c && blank_string cs

abbrev pub is_http : Option Str → Bool
is_http none = false
is_http (some p) = str_eq p (codes "http:") || str_eq p (codes "https:")

abbrev pub refuses : Privacy → Bool
refuses p = p.do_not_track || not p.storage_blocked && p.opted_out

abbrev existing : Option Handle → InitResult
existing none = noop
existing (some h) = shared

-- In a browser; elsewhere `init` returns the inert handle at once.
unfoldable pub init : Options → Privacy → Window → InitResult × Window
unfolding blank_string create_queued_handle
init o p w =
    if blank_string o.site_key
    then (throws requires_site_key, w)
    else if not (is_http o.protocol)
    then (throws requires_origin, w)
    else if w.started
    then (existing w.instance, w)
    else (
      created,
      record {
        started = true;
        instance = some (if refuses p then fail create_queued_handle else create_queued_handle);
      },
    )

-- What callers and `start` do with the instance. `shutdown` of a tracker that runs gives the page
-- up; `start` activates the handle only where it has not failed.
unfoldable pub on_instance : Op → Window → Window
on_instance o w = elim w.instance [ none ↦ w | some h ↦ record w { instance = some (apply o h) } ]

abbrev release : Handle → Window → Window
release h w = if h.runtime then blank else record w { instance = some (apply stops h) }

unfoldable pub stop_instance : Window → Window
stop_instance w = elim w.instance [ none ↦ w | some h ↦ release h w ]

abbrev activated : Handle → Window → Window
activated h w = if h.failed then w else record w { instance = some (apply activates h) }

unfoldable pub finish_start : Window → Window
finish_start w = elim w.instance [ none ↦ w | some h ↦ activated h w ]
