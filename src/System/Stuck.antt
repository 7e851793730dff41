-- ===== src/System/Stuck.antt =====
-- A book that waits for a snapshot that nobody fetches.
mod Idle
pub use Idle.{HasNone, IsIdle, IsStuck}
use mathlib.Core.Option
use mathlib.Core.Bool.{false≢true}
use rust_hft.Common.{
  ℕ, zero, suc, ◌+◌, ◌≡◌, ◌≢◌, refl, sym, ap, ◌∙◌, Bool, true, false, Option, none, some, List, [],
  ◌∷◌, ◌++◌, ◌⊎◌, inl, inr, String, length, ltb, if◌then◌else◌,
}
use rust_hft.Double.{Double}
use rust_hft.Types.{
  MarketEvent, depth_update, depth_snapshot, trade, reconnect, DepthUpdate, DepthSnapshot,
  ValidatedOrder,
}
use rust_hft.Orderbook
use rust_hft.Orderbook.{Orderbook}
use rust_hft.Orderbook.Sync.{handle_update_buffering}
use rust_hft.Watchdog.{is_silent}
use rust_hft.Execution.{execute_with_state}
use rust_hft.Ingestion.{Codec, Read, Handled, on_read}
use rust_hft.Ingestion.Reads.{Ends}
use rust_hft.Ingestion.Sends.{IsFeed, on_read-IsFeed, goes_on_lem}
use rust_hft.Pipeline.{Pipeline, Reading}
use rust_hft.Pipeline.Rounds.{Round, book_after, resync_after, handle_event-Round}
use rust_hft.System.Defs.{
  System, Link, down, up, stopped, Action, connected, refused, cancelled, start_fetch, fetched,
  poll, refetched, read_socket, handle, wake, look, store, put_file, halt_request, resume_request,
  sample, execute, events_of, lost, push, on_connected, on_refused, on_start_fetch, on_fetched,
  on_poll, on_refetched, after_read, on_read_socket, on_handle, on_wake, on_store, after_execute,
  next_order, on_execute, with_flag, take_one, step, run_all,
}
use rust_hft.System.Steps.{take_one_succ, Holds, map-Holds, IsAlong, run_all-Holds}
use rust_hft.System.Stuck.Idle.{
  HasNone, ++-HasNone, SentOnly, handle-SentOnly, push-SentOnly, aside-SentOnly, read-SentOnly,
}

module _ {F : Type 0} ⦃d : Double F⦄ where
  -- All but the end of the socket or of the program.
  abbrev pub StaysUp : System F → Action → Type 0
  StaysUp s cancelled = ⊥
  StaysUp s (read_socket now r) = ¬ Ends r
  StaysUp s a = Unit

  step-SentOnly :
      (orders : List (ValidatedOrder F)) (codec : Codec) (timeout_secs : ℕ) (s : System F)
      (a : Action)
      → StaysUp s a
      → SentOnly orders s
      → Holds (SentOnly orders) (step codec timeout_secs s a)
  unfolding step
  step-SentOnly orders codec t s connected b ((i, l), o) = rw i.link_up tt
  step-SentOnly orders codec t s refused b ((i, l), o) = rw i.link_up tt
  step-SentOnly orders codec t s cancelled b h = absurd b
  step-SentOnly orders codec t s start_fetch b ((i, l), o) = rw i.none_starting tt
  step-SentOnly orders codec t s (fetched answer) b ((i, l), o) = rw i.none_fetching tt
  step-SentOnly orders codec t s poll b h =
      by_poller (take_one s.pollers) s.thread.resync_needed h.0.0.none_asked
    where
      by_poller :
          (o : Option ℕ) (flag : Bool) → flag ≡ false → Holds (SentOnly orders) (on_poll o flag s)
      by_poller none flag e = tt
      by_poller (some n) false e = h
      by_poller (some n) true e = absurd (false≢true (sym e))
  step-SentOnly orders codec t s (refetched answer) b ((i, l), o) = rw i.none_refetching tt
  step-SentOnly orders codec t s (read_socket now r) b h = by_link s.link
    where
      by_link : (link : Link) → Holds (SentOnly orders) (on_read_socket link codec s now r)
      by_link down = tt
      by_link up = read-SentOnly orders s codec now r b h
      by_link stopped = tt
  step-SentOnly orders codec t s (handle at) b h = handle-SentOnly orders s s.queue at refl h
  step-SentOnly orders codec t s (wake now) b h = by_silence (is_silent s.watchdog t now)
    where
      by_silence : (b : Bool) → SentOnly orders (if b then push s (reconnect ∷ []) else s)
      by_silence true = push-SentOnly orders s (reconnect ∷ []) tt h
      by_silence false = h
  step-SentOnly orders codec t s look b h = aside-SentOnly orders s _ refl h
  step-SentOnly orders codec t s store b h = by_seen s.seen
    where
      by_seen : (seen : Option Bool) → Holds (SentOnly orders) (on_store seen s)
      by_seen none = tt
      by_seen (some flag) = aside-SentOnly orders s _ refl h
  step-SentOnly orders codec t s (put_file exists) b h = aside-SentOnly orders s _ refl h
  step-SentOnly orders codec t s (halt_request worked) b h = aside-SentOnly orders s _ refl h
  step-SentOnly orders codec t s (resume_request worked) b h = aside-SentOnly orders s _ refl h
  step-SentOnly orders codec t s sample b h = aside-SentOnly orders s _ refl h
  step-SentOnly orders codec t s (execute now) b h =
      by_due (ltb s.executed (length s.thread.orders)) (next_order s)
    where
      by_order : (o : Option (ValidatedOrder F)) → Holds (SentOnly orders) (on_execute s now o)
      by_order none = tt
      by_order (some order) =
          map-Holds (SentOnly orders) (after_execute s)
            (execute_with_state s.executor s.thread.dash_state now order)
            (λ r e. aside-SentOnly orders s _ refl h)

      by_due :
          (b : Bool) (o : Option (ValidatedOrder F))
          → Holds (SentOnly orders) (if b then on_execute s now o else none)
      by_due true o = by_order o
      by_due false o = tt

  -- Once the book waits for a snapshot that nobody fetches and nobody asks for, then whatever the tasks
  -- and the exchange do, as long as the socket stays open the book never gets live and no order is
  -- sent.
  pub run_all-IsStuck :
      (codec : Codec) (timeout_secs : ℕ) (s : System F) (actions : List Action) (s' : System F)
      → IsStuck s
      → IsAlong StaysUp codec timeout_secs s actions
      → run_all codec timeout_secs s actions ≡ some s'
      → IsStuck s' × (s'.thread.orders ≡ s.thread.orders)
  run_all-IsStuck codec t s actions s' h w e = rw e at (
      run_all-Holds StaysUp (SentOnly s.thread.orders) codec t
        (step-SentOnly s.thread.orders codec t) actions s w (h, refl))

  -- A socket's first fetch that fails leaves the book waiting, if no older task still runs.
  pub failed_fetch-IsStuck :
      (codec : Codec) (timeout_secs : ℕ) (s : System F)
      → s.link ≡ down
      → HasNone s.queue
      → s.starting ≡ 0
      → s.fetching ≡ 0
      → s.refetching ≡ 0
      → Orderbook.is_live s.thread.book ≡ false
      → (s' : System F) × (run_all codec timeout_secs s
            (connected ∷ start_fetch ∷ fetched none ∷ [])
          ≡ some s')
        × IsStuck s'
  unfolding run_all step Option.bind
  failed_fetch-IsStuck codec t s e q a b c l = (
    push (with_flag (record s { link = up; pollers = s.pollers + 1 }) false) [],
    rw (by_link s s.link e, take_one_succ s.starting, take_one_succ s.fetching) refl,
    (
      record {
        link_up = refl;
        none_sent = ++-HasNone s.queue [] q tt;
        none_asked = refl;
        none_starting = a;
        none_fetching = b;
        none_refetching = c;
      },
      l,
    ),
  )
    where
      by_link :
          (s : System F) (link : Link)
          → link ≡ down
          → on_connected link s
            ≡ some (record s { link = up; starting = s.starting + 1; pollers = s.pollers + 1 })
      by_link s down e = refl
      by_link s up e = cc
      by_link s stopped e = cc

  -- If the market goes silent while no task fetches, the watchdog's `Reconnect` empties the book, and it
  -- waits.
  pub wake-IsStuck :
      (codec : Codec) (timeout_secs : ℕ) (s : System F) (now : ℕ) (at : Reading)
      → IsIdle s
      → s.queue ≡ []
      → is_silent s.watchdog timeout_secs now ≡ true
      → (s' : System F) × (run_all codec timeout_secs s (wake now ∷ handle at ∷ []) ≡ some s')
        × IsStuck s'
  unfolding run_all step Option.bind Orderbook.is_live Orderbook.reset
  wake-IsStuck codec t s now at i e w =
      let r = handle_event-Round s.thread reconnect at in
      (
        record s { thread = r.next; queue = [] },
        rw (w, e, r.returned) refl,
        (
          record {
            link_up = i.link_up;
            none_sent = tt;
            none_asked = r.resync_is ∙ i.none_asked;
            none_starting = i.none_starting;
            none_fetching = i.none_fetching;
            none_refetching = i.none_refetching;
          },
          ap Orderbook.is_live r.book_is,
        ),
      )
