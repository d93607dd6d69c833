-- ===== src/Lib.antt =====
-- TraceUX records what the visitors of a site do in their browser and replays it to the site's
-- team. This library models the program's browser code, the tracker that runs on the site
-- (tracker/src/main.ts) with its widget (tracker/src/widget.ts), and the dashboard (dashboard/src): its
-- replay, its lists of recordings and logs, and its helpers. It proves what they rely on.
--
-- The parts and their files
--
--   Base, Base/Tests, Base/Lists    what the other files share: the native numbers, Boolean tests,
--     JavaScript strings as lists of UTF-16 code units, lists
--   Tracker/Config, Tracker/Logs    `fetchConfig` and the selection of console messages
--   Tracker/State, Tracker/Message  the variables of `start` as one record, and what `send` is given
--   Tracker/Session                 the handlers of `start`: Record (emit, flush, captureLog, trackPage
--     and what they send), Visit (endSession, newSession, the timers, page and visibility events,
--     shutdown), Start (the session storage that is read, and the bootstrap), Run (the events)
--   Tracker/Transport               send, transmit, retryable and scheduleRetry
--   Tracker/Handle                  createQueuedHandle: calls before and after the start
--   Tracker/Init, Tracker/Ids       init with the window's two variables, and newId
--   Tracker/Widget                  feedbackAvailable, campaignSurvey, mountWidgetIfConfigured,
--     expandFeedbackCampaign (Expand) and sendFeedback (Feedback)
--   Panel/Connection                tracker/src/widget.ts: connectWidgetSocket, the retries of the
--     socket, and the polls of announcements and tickets
--   Panel/Tickets                   tracker/src/widget.ts: the ticket list, the open conversation and
--     the toasts
--   Panel/Announcements             tracker/src/widget.ts: loadAnnouncements, syncBadges, the events
--     of the socket that name announcements, toasts and openDetail
--   Panel/Campaigns                 tracker/src/widget.ts: showCampaign, closePanel and the reports of
--     a delivery
--   Dashboard/CssAssets             lib/cssAssets.ts
--   Dashboard/Select                components/ui/Select/hooks/useSelect.ts
--   Dashboard/Sessions              pages/Sessions/hooks/useSessions.ts: the pages of the list, the
--     results that are kept, and what is shown (Screen)
--   Dashboard/Logs                  pages/Logs/Logs.helpers.ts and hooks/useLogs.ts: the time window,
--     live refreshes and older pages
--   Dashboard/Analyze, Dashboard/Text   pages/Analyze/Analyze.helpers.ts
--   Replay/Loader                   pages/Replay/hooks/useReplay.ts: the pages of a recording, the
--     window that is kept, seeks, jumps and prefetching
--   Replay/Player                   components/replay/ReplayPlayer/hooks/useReplayPlayer.ts: seeking,
--     playing, buffering and the player that is built anew
--   Examples                        the theorems at concrete inputs
--
-- How they interact: `init` claims the page and hands out a queued handle, fetches the
-- configuration and calls `start`, which reads the session storage, goes on with a visit or makes
-- one up, and activates the handle. From then on the browser's events and the handle's calls move
-- the tracker's state, and whatever it sends goes through the transport. A replay asks the server
-- for the pages of a recording, puts the stylesheets in (Dashboard/CssAssets) and feeds them to the
-- player. The player hands the seeks that lie outside its window to the loader, which answers each
-- with a window and a landing; Replay/Player/Landing joins the two.
--
-- How the model corresponds to the code
--
-- Each handler of `start` is a function from the state to the state, which the relation of events
-- in Tracker/Session/Run puts in any order; the theorems are about all of those orders. What the
-- browser gives (the clock, the page, identifiers, whether a recorder gives a stop function) is the
-- argument Env of the handler. The messages sent are kept in the state, newest first. `pageIdx` is
-- kept as `page_count`, one more than the index. `open_recorders` counts the recorders that were
-- started and not stopped. Times are milliseconds and natural numbers, and the clock is taken not to
-- run backwards so far that a total gets negative. Random numbers are scaled to whole parts. In
-- Tracker/Transport and Tracker/Widget the code between two awaits is one function, and the answers
-- of the network come as events in any order. Tracker/Session ends where `send` is called: what
-- becomes of a message, its retries included, is in Tracker/Transport.
--
-- In Replay a loop that awaits pages is a task of the state, with the rounds that its bound in the
-- code has left, and a page or a failure moves it on. Positions are kept on the recording's own
-- clock, the code's offsets with the time of the first event added, and a resume point as one more,
-- since the code's can be -1. rrweb is outside: what it reports is an event, what it is told an
-- output. To the player, the loader's landings and its jumps are events.
--
-- In Panel a timer that is set may fire at any moment, and the answers and the socket's events come
-- in any order; the four parts of the widget are modelled apart, each with its own events.
-- Announcements are objects that are changed in place: each has a number, and a copy gets the next.
-- A feedback form keeps the survey it was built for, and can be clicked until a closed panel has faded.
--
-- In Dashboard/Sessions and Dashboard/Logs a request keeps what the code's closure captured, and its
-- answer, or its failure, comes at any later time, or twice; what the server answers is a function in
-- the event. Queries, recordings and logs are numbers.
--
-- Two definitions run on fuel. The digits of a number (Dashboard/Text) get one more step than the
-- number. The loop that loads a list of recordings again (Dashboard/Sessions) gets as many rounds as
-- rows are wanted: each round but the last brings forty. Both are proved to be enough.
--
-- Not modelled: the server (Go), rrweb, the DOM and its rendering, JSON.stringify, regular
-- expressions (the page patterns of a feedback trigger are an argument), the rest of the widget's own
-- interface (its views and their place on the screen), the speed, full screen and stage of the replay
-- player, the filters that the lists keep in the address, and the dashboard's pages but for the files
-- named above.
pub mod Base
pub mod Dashboard
mod Examples
pub mod Panel
pub mod Replay
pub mod Tracker
