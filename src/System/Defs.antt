-- ===== src/System/Defs.antt =====
-- The state that the tasks share, and one step of one task. `none` is a step that cannot be taken in
-- the state, or that panics. The channels hold any number of messages: a full one would only make a
-- task wait.
use mathlib.Core.Option
use rust_hft.Common.{
  ℕ, zero, suc, ◌+◌, ◌-◌, ◌%◌, ◌^◌, ◌==◌, Bool, true, false, Option, none, some, List, [], ◌∷◌,
  ◌++◌, String, if◌then◌else◌, length, get_elem?, ltb,
}
use rust_hft.Double.{Double}
use rust_hft.Types.{MarketEvent, depth_snapshot, reconnect, DepthSnapshot, ValidatedOrder}
use rust_hft.Config.{Config}
use rust_hft.Watchdog
use rust_hft.Watchdog.{Watchdog, is_silent}
use rust_hft.Ingestion.{Codec, Read, Handled, on_read}
use rust_hft.Dashboard.{SharedState, sample_second}
use rust_hft.Dashboard.Server.{Handler, halt_handler, resume_handler, perform}
use rust_hft.Execution
use rust_hft.Execution.{PaperExecutor, Stats, log_stats, execute_with_state}
use rust_hft.Pipeline
use rust_hft.Pipeline.{Pipeline, Reading, handle_event}

-- The ingestion task connects or waits to connect again, reads from a socket, or has returned.
pub data Link : Type 0 where
  down : Link
  up : Link
  stopped : Link

pub record System (F : Type 0) : Type 0 where
  pub thread : Pipeline F
  pub watchdog : Watchdog
  -- the market channel, the oldest event first
  pub queue : List MarketEvent
  pub link : Link
  -- tasks for a first snapshot, before and after they clear the resync flag
  pub starting : ℕ
  pub fetching : ℕ
  -- the pollers that sleep, and those that fetch
  pub pollers : ℕ
  pub refetching : ℕ
  -- whether the file HALT exists, and what the poller for it has seen and not yet stored
  pub halt_file : Bool
  pub seen : Option Bool
  pub executor : PaperExecutor F
  -- how many of the orders the executor has taken from its channel
  pub executed : ℕ
  -- the statistics that the executor's task has logged
  pub logged : List (Stats F)

pub data Action : Type 0 where
  connected : Action
  refused : Action
  cancelled : Action
  start_fetch : Action
  -- the answer to a fetch; `none` is an error
  fetched : Option DepthSnapshot → Action
  poll : Action
  refetched : Option DepthSnapshot → Action
  read_socket : ℕ → Read → Action
  handle : Reading → Action
  wake : ℕ → Action
  look : Action
  store : Action
  -- somebody makes or removes the file HALT
  put_file : Bool → Action
  -- requests for /halt and /resume, and whether they write or remove the file HALT
  halt_request : Bool → Action
  resume_request : Bool → Action
  sample : Action
  execute : String → Action

abbrev pub take_one : ℕ → Option ℕ
take_one zero = none
take_one (suc n) = some n

-- What is sent, as the channel's new end.
abbrev pub events_of : Option MarketEvent → List MarketEvent
events_of none = []
events_of (some event) = event ∷ []

abbrev pub snapshots_of : Option DepthSnapshot → List MarketEvent
snapshots_of none = []
snapshots_of (some snap) = depth_snapshot snap ∷ []

module _ {F : Type 0} ⦃d : Double F⦄ where
  -- The state in which `main` has spawned the tasks.
  unfoldable pub begin : Config F → Bool → ℕ → System F
  unfolding Pipeline.start Watchdog.new Execution.new
  begin cfg halt now = record {
    thread = Pipeline.start cfg halt now;
    watchdog = Watchdog.new now;
    queue = [];
    link = down;
    starting = 0;
    fetching = 0;
    pollers = 0;
    refetching = 0;
    halt_file = halt;
    seen = none;
    executor = Execution.new cfg.symbol;
    executed = 0;
    logged = [];
  }

  abbrev pub push : System F → List MarketEvent → System F
  push s events = record s { queue = s.queue ++ events }

  abbrev pub with_flag : System F → Bool → System F
  with_flag s flag = record s { thread = record (s.thread) { resync_needed = flag } }

  abbrev pub with_dash : System F → SharedState F → System F
  with_dash s dash = record s { thread = record (s.thread) { dash_state = dash } }

  abbrev pub with_halt : System F → Bool → System F
  with_halt s flag = with_dash s (record (s.thread.dash_state) { halt_flag = flag })

  -- `connect_async` has returned a socket: the tasks for it are spawned.
  abbrev pub on_connected : Link → System F → Option (System F)
  on_connected down s =
      some (record s { link = up; starting = s.starting + 1; pollers = s.pollers + 1 })
  on_connected up s = none
  on_connected stopped s = none

  -- The end of a round of the outer loop.
  abbrev pub lost : System F → System F
  lost s = record (push s (reconnect ∷ [])) { link = down }

  abbrev pub on_refused : Link → System F → Option (System F)
  on_refused down s = some (lost s)
  on_refused up s = none
  on_refused stopped s = none

  abbrev pub on_start_fetch : Option ℕ → System F → Option (System F)
  on_start_fetch none s = none
  on_start_fetch (some n) s =
      some (with_flag (record s { starting = n; fetching = s.fetching + 1 }) false)

  abbrev pub on_fetched : Option ℕ → System F → Option DepthSnapshot → Option (System F)
  on_fetched none s o = none
  on_fetched (some n) s o = some (push (record s { fetching = n }) (snapshots_of o))

  -- A poller wakes; `compare_exchange(true, false)`.
  abbrev pub on_poll : Option ℕ → Bool → System F → Option (System F)
  on_poll none flag s = none
  on_poll (some n) false s = some s
  on_poll (some n) true s =
      some (with_flag (record s { pollers = n; refetching = s.refetching + 1 }) false)

  -- A failed fetch sets the flag again.
  abbrev pub on_refetched : Option ℕ → System F → Option DepthSnapshot → Option (System F)
  on_refetched none s o = none
  on_refetched (some n) s none =
      some (with_flag (record s { refetching = n; pollers = s.pollers + 1 }) true)
  on_refetched (some n) s (some snap) =
      some (push (record s { refetching = n; pollers = s.pollers + 1 }) (depth_snapshot snap ∷ []))

  abbrev pub after_read : System F → Handled → System F
  after_read s h =
      let s' = push (record s { watchdog = h.watchdog }) (events_of h.sent) in
      if h.goes_on then s' else lost s'

  abbrev pub on_read_socket : Link → Codec → System F → ℕ → Read → Option (System F)
  on_read_socket down codec s now r = none
  on_read_socket up codec s now r = Option.map (after_read s) (on_read codec s.watchdog now r)
  on_read_socket stopped codec s now r = none

  -- The thread takes the oldest event.
  abbrev pub on_handle : List MarketEvent → System F → Reading → Option (System F)
  on_handle [] s at = none
  on_handle (event ∷ queue) s at =
      Option.map (λ p. record s { thread = p; queue = queue }) (handle_event s.thread event at)

  abbrev pub on_wake : System F → ℕ → ℕ → System F
  on_wake s timeout_secs now =
      if is_silent s.watchdog timeout_secs now then push s (reconnect ∷ []) else s

  abbrev pub on_store : Option Bool → System F → Option (System F)
  on_store none s = none
  on_store (some flag) s = some (with_halt (record s { seen = none }) flag)

  -- A handler of the dashboard's server runs.
  abbrev pub on_request : System F → Handler → Bool → System F
  on_request s h worked =
      let r = perform h worked (record { state = s.thread.dash_state; halt_file = s.halt_file }) in
      with_dash (record s { halt_file = r.halt_file }) r.state

  -- The oldest order that the executor has not taken; `orders` has the newest first.
  abbrev pub next_order : System F → Option (ValidatedOrder F)
  next_order s = get_elem? s.thread.orders (length s.thread.orders - 1 - s.executed)

  -- The statistics after every hundredth order; the task counts the orders in a `u64`.
  abbrev pub stats_after : List (Stats F) → ℕ → PaperExecutor F → List (Stats F)
  stats_after logged order_count x =
      if order_count % 2 ^ 64 % 100 == 0 then logged ++ (log_stats x ∷ []) else logged

  abbrev pub after_execute : System F → PaperExecutor F × SharedState F → System F
  after_execute s (x, dash) =
      let order_count = s.executed + 1 in
      with_dash
        (record s {
          executor = x;
          executed = order_count;
          logged = stats_after s.logged order_count x;
        })
        dash

  abbrev pub on_execute : System F → String → Option (ValidatedOrder F) → Option (System F)
  on_execute s now none = none
  on_execute s now (some order) =
      Option.map (after_execute s) (execute_with_state s.executor s.thread.dash_state now order)

  unfoldable pub step : Codec → ℕ → System F → Action → Option (System F)
  step codec timeout_secs s connected = on_connected s.link s
  step codec timeout_secs s refused = on_refused s.link s
  step codec timeout_secs s cancelled = some (record s { link = stopped })
  step codec timeout_secs s start_fetch = on_start_fetch (take_one s.starting) s
  step codec timeout_secs s (fetched o) = on_fetched (take_one s.fetching) s o
  step codec timeout_secs s poll = on_poll (take_one s.pollers) s.thread.resync_needed s
  step codec timeout_secs s (refetched o) = on_refetched (take_one s.refetching) s o
  step codec timeout_secs s (read_socket now r) = on_read_socket s.link codec s now r
  step codec timeout_secs s (handle at) = on_handle s.queue s at
  step codec timeout_secs s (wake now) = some (on_wake s timeout_secs now)
  step codec timeout_secs s look = some (record s { seen = some s.halt_file })
  step codec timeout_secs s store = on_store s.seen s
  step codec timeout_secs s (put_file exists) = some (record s { halt_file = exists })
  step codec timeout_secs s (halt_request worked) = some (on_request s halt_handler worked)
  step codec timeout_secs s (resume_request worked) = some (on_request s resume_handler worked)
  step codec timeout_secs s sample = some (with_dash s (sample_second s.thread.dash_state))
  step codec timeout_secs s (execute now) =
      if ltb s.executed (length s.thread.orders) then on_execute s now (next_order s) else none

  -- A schedule that can be taken to its end.
  unfoldable pub run_all : Codec → ℕ → System F → List Action → Option (System F)
  run_all codec timeout_secs s [] = some s
  run_all codec timeout_secs s (a ∷ actions) =
      Option.bind (step codec timeout_secs s a) (λ s'. run_all codec timeout_secs s' actions)
