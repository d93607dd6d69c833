-- ===== src/Tracker/Message.antt =====
-- What the tracker sends (the arguments of `send` in tracker/src/main.ts), and what it reads from
-- the page and from its caller.
use trace_ux.Base.{ℕ, Bool, Option, List, Str}
use trace_ux.Tracker.Logs.{PendingLog}

-- An rrweb event: its type, the source of an incremental snapshot, and the rest of it.
pub record RrwebEvent : Type 0 where
  pub kind : ℕ
  pub source : Option ℕ
  pub payload : ℕ

pub record Identity : Type 0 where
  pub user_id : Str
  pub client_id : Str
  pub remote_id : Str

-- `location`, `document`, `navigator`, `window` and `screen`, as they stand when a handler runs.
-- The utm fields are the page's own query parameters, empty where they are missing.
pub record Page : Type 0 where
  pub href : Str
  pub title : Str
  pub referrer : Str
  pub utm_source : Str
  pub utm_medium : Str
  pub utm_campaign : Str
  pub lang : Str
  pub viewport_w : ℕ
  pub viewport_h : ℕ
  pub screen_w : ℕ
  pub screen_h : ℕ

pub record CustomEvent : Type 0 where
  pub ts : ℕ
  pub name : Str
  pub track_id : Str
  pub notify : Bool
  pub details : Option Str

pub record Answer : Type 0 where
  pub id : Str
  pub label : Str
  pub value : Str

-- `rating` is what `Math.round(Number(input.rating)) || 0` gives: none stands for a negative number.
pub record FeedbackInput : Type 0 where
  pub rating : Option ℕ
  pub comment : Str
  pub survey_id : Str
  pub answers : List Answer
  pub delivery_token : Str

pub record Feedback : Type 0 where
  pub visitor_key : Str
  pub user_id : Str
  pub survey_id : Str
  pub rating : ℕ
  pub comment : Str
  pub answers : List Answer
  pub delivery_token : Str

-- A batch, by its `type`; the first field of each is `session_id`.
pub data Message : Type 0 where
  events : Str → ℕ → List RrwebEvent → Message
  logs : Str → List PendingLog → Message
  ping : Str → ℕ → ℕ → Message
  custom : Str → CustomEvent → Message
  feedback : Str → Feedback → Message
  page : Str → ℕ → Str → Str → ℕ → Message
  hello : Str → Page → Identity → Message

pub record Sent : Type 0 where
  pub message : Message
  pub beacon : Bool
