-- ===== src/System/Recovery.antt =====
-- What the tasks keep of the way back to a live book.
mod Fetches
pub use Fetches.{Recovers, IsPending, is_covered}
use mathlib.Core.Option
use mathlib.Core.Bool.{false≢true}
use rust_hft.Common.{
  ℕ, zero, suc, ◌+◌, ◌<◌, ◌≡◌, ◌≢◌, refl, sym, ap, ◌∙◌, Bool, true, false, Bool-cases, Option,
  Option-cases, String, none, some, List, [], ◌∷◌, ◌++◌, ◌⊎◌, inl, inr, arith, if◌then◌else◌, ltb,
  length,
}
use rust_hft.Double.{Double}
use rust_hft.Types.{
  MarketEvent, depth_update, depth_snapshot, trade, reconnect, DepthUpdate, DepthSnapshot,
}
use rust_hft.Orderbook
use rust_hft.Execution.{execute_with_state}
use rust_hft.Types.{ValidatedOrder}
use rust_hft.Watchdog.{is_silent}
use rust_hft.Ingestion.{Codec, Read, Handled, on_read}
use rust_hft.Ingestion.Sends.{IsFeed, on_read-IsFeed}
use rust_hft.Pipeline.{Reading}
use rust_hft.Pipeline.Rounds.{handle_event-Round}
use rust_hft.System.Defs.{
  System, Link, down, up, stopped, Action, connected, refused, cancelled, start_fetch, fetched,
  poll, refetched, read_socket, handle, wake, look, store, put_file, halt_request, resume_request,
  sample, execute, take_one, events_of, push, lost, on_connected, on_refused, on_start_fetch,
  on_fetched, on_poll, on_refetched, after_read, on_read_socket, on_handle, on_wake, on_store,
  after_execute, next_order, on_execute, step, run_all,
}
use rust_hft.System.Steps.{Holds, map-Holds, IsAlong, run_all-Holds}
use rust_hft.System.Recovery.Fetches.{
  connected-Recovers, start_fetch-Recovers, fetched-Recovers, poll-Recovers, refetched-Recovers,
}
use rust_hft.System.Resync.{
  covered, covered-push, covered-push_feed, handle_covered, resync_after_kept,
}

pub down≢up : down ≢ up
down≢up e = cc

stopped≢up : stopped ≢ up
stopped≢up e = cc

module _ {F : Type 0} ⦃d : Double F⦄ where
  -- The steps that leave a way back: not the failure of a socket's first fetch, which nobody repeats,
  -- and not the watchdog's `Reconnect`, after which nobody asks for a snapshot.
  abbrev pub IsBenign : ℕ → System F → Action → Type 0
  IsBenign timeout_secs s (fetched none) = ⊥
  IsBenign timeout_secs s (wake now) = is_silent s.watchdog timeout_secs now ≡ false
  IsBenign timeout_secs s a = Unit

  lost-Recovers : (s : System F) → Recovers (lost s)
  lost-Recovers s = record { served = λ u. absurd (down≢up u); coming = λ u. absurd (down≢up u) }

  read-Recovers :
      (s : System F) (codec : Codec) (now : ℕ) (r : Read)
      → Recovers s
      → Holds Recovers (Option.map (after_read s) (on_read codec s.watchdog now r))
  read-Recovers s codec now r h =
      map-Holds Recovers (after_read s) (on_read codec s.watchdog now r)
        (λ k e. by_goes_on k k.goes_on (on_read-IsFeed codec s.watchdog now r k e))
    where
      by_goes_on :
          (k : Handled) (b : Bool)
          → IsFeed k.sent
          → let s' = push (record s { watchdog = k.watchdog }) (events_of k.sent) in
            Recovers (if b then s' else lost s')
      by_goes_on k true f = record {
        served = h.served;
        coming = λ u. elim (h.coming u) [
          | inl c ↦ inl (covered-push_feed (Orderbook.is_live s.thread.book) s.queue k.sent f ∙ c)
          | inr p ↦ inr p
        ];
      }
      by_goes_on k false f =
          lost-Recovers (push (record s { watchdog = k.watchdog }) (events_of k.sent))

  pub handle-Recovers :
      (s : System F) (queue : List MarketEvent) (at : Reading)
      → s.queue ≡ queue
      → Recovers s
      → Holds Recovers (on_handle queue s at)
  handle-Recovers s [] at e h = tt
  handle-Recovers s (event ∷ queue) at e h =
      let r = handle_event-Round s.thread event at in
      rw r.returned (record {
        served = h.served;
        coming = λ u. elim (h.coming u) [
          | inl c ↦ elim (handle_covered s.thread event queue (rw e at c)) [
            | inl k ↦ inl (rw r.book_is k)
            | inr k ↦ inr (inl (r.resync_is ∙ k))
          ]
          | inr (inl k) ↦ inr (inl (r.resync_is ∙ resync_after_kept s.thread event k))
          | inr (inr k) ↦ inr (inr k)
        ];
      })

  execute-Recovers :
      (s : System F) (now : String) (o : Option (ValidatedOrder F))
      → Recovers s
      → Holds Recovers (on_execute s now o)
  execute-Recovers s now none h = tt
  execute-Recovers s now (some order) h =
      map-Holds Recovers (after_execute s)
        (execute_with_state s.executor s.thread.dash_state now order)
        (λ r e. record { served = h.served; coming = h.coming })

  wake-Recovers :
      (s : System F) (timeout_secs now : ℕ)
      → is_silent s.watchdog timeout_secs now ≡ false
      → Recovers s
      → Recovers (on_wake s timeout_secs now)
  wake-Recovers s timeout_secs now e h = rw e h

  read_socket-Recovers :
      (s : System F) (link : Link) (codec : Codec) (now : ℕ) (r : Read)
      → Recovers s
      → Holds Recovers (on_read_socket link codec s now r)
  read_socket-Recovers s down codec now r h = tt
  read_socket-Recovers s up codec now r h = read-Recovers s codec now r h
  read_socket-Recovers s stopped codec now r h = tt

  refused-Recovers : (s : System F) (link : Link) → Holds Recovers (on_refused link s)
  refused-Recovers s down = lost-Recovers s
  refused-Recovers s up = tt
  refused-Recovers s stopped = tt

  store-Recovers :
      (s : System F) (seen : Option Bool) → Recovers s → Holds Recovers (on_store seen s)
  store-Recovers s none h = tt
  store-Recovers s (some flag) h = record { served = h.served; coming = h.coming }

  -- Every benign step keeps the way back.
  pub step-Recovers :
      (codec : Codec) (timeout_secs : ℕ) (s : System F) (a : Action)
      → IsBenign timeout_secs s a
      → Recovers s
      → Holds Recovers (step codec timeout_secs s a)
  unfolding step
  step-Recovers codec t s connected b h = connected-Recovers s s.link h
  step-Recovers codec t s refused b h = refused-Recovers s s.link
  step-Recovers codec t s cancelled b h = record {
    served = λ u. absurd (stopped≢up u);
    coming = λ u. absurd (stopped≢up u);
  }
  step-Recovers codec t s start_fetch b h = start_fetch-Recovers s (take_one s.starting) h
  step-Recovers codec t s (fetched (some snap)) b h =
      fetched-Recovers s (take_one s.fetching) snap h
  step-Recovers codec t s (fetched none) b h = absurd b
  step-Recovers codec t s poll b h = poll-Recovers s (take_one s.pollers) s.thread.resync_needed h
  step-Recovers codec t s (refetched o) b h = refetched-Recovers s (take_one s.refetching) o h
  step-Recovers codec t s (read_socket now r) b h = read_socket-Recovers s s.link codec now r h
  step-Recovers codec t s (handle at) b h = handle-Recovers s s.queue at refl h
  step-Recovers codec t s (wake now) b h = wake-Recovers s t now b h
  step-Recovers codec t s look b h = record { served = h.served; coming = h.coming }
  step-Recovers codec t s store b h = store-Recovers s s.seen h
  step-Recovers codec t s (put_file exists) b h = record { served = h.served; coming = h.coming }
  step-Recovers codec t s (halt_request worked) b h = record {
    served = h.served;
    coming = h.coming;
  }
  step-Recovers codec t s (resume_request worked) b h = record {
    served = h.served;
    coming = h.coming;
  }
  step-Recovers codec t s sample b h = record { served = h.served; coming = h.coming }
  step-Recovers codec t s (execute now) b h = by_due (ltb s.executed (length s.thread.orders))
    where
      by_due : (b : Bool) → Holds Recovers (if b then on_execute s now (next_order s) else none)
      by_due true = execute-Recovers s now (next_order s) h
      by_due false = tt
