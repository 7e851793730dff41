-- ===== src/System/Messages.antt =====
-- True messages along the schedules of all tasks, and what they keep true of the thread's book.
use mathlib.Core.Option
use rust_hft.Common.{
  ℕ, ◌≡◌, refl, ◌+◌, Bool, true, false, Option, none, some, List, [], ◌∷◌, String, All, All-append,
  length, ltb, if◌then◌else◌,
}
use rust_hft.Double.{Double}
use rust_hft.Types.{MarketEvent, reconnect, depth_snapshot, DepthSnapshot, ValidatedOrder}
use rust_hft.Orderbook.{Orderbook}
use rust_hft.Orderbook.Exchange.{Exchange, Shows}
use rust_hft.Watchdog.{is_silent}
use rust_hft.Execution.{execute_with_state}
use rust_hft.Dashboard.{sample_second}
use rust_hft.Ingestion.{Codec, Read, Handled, on_read}
use rust_hft.Pipeline.{Pipeline, Reading}
use rust_hft.Pipeline.Rounds.{book_after, handle_event-Round}
use rust_hft.Pipeline.Exchange.{IsHonest}
use rust_hft.System.Defs.{
  System, Link, down, up, stopped, Action, connected, refused, cancelled, start_fetch, fetched,
  poll, refetched, read_socket, handle, wake, look, store, put_file, halt_request, resume_request,
  sample, execute, events_of, lost, push, on_connected, on_refused, on_start_fetch, on_fetched,
  on_poll, on_refetched, after_read, on_read_socket, on_handle, on_store, after_execute, next_order,
  on_execute, take_one, step, run_all,
}
use rust_hft.System.Steps.{Holds, map-Holds, IsAlong, run_all-Holds}

module _ {F : Type 0} ⦃d : Double F⦄ (x : Exchange F) where
  -- Snapshots show the exchange's state, and what is read from the socket reports it.
  abbrev pub TellsTruth : Codec → System F → Action → Type 0
  TellsTruth codec s (fetched (some snap)) = Shows x snap
  TellsTruth codec s (refetched (some snap)) = Shows x snap
  TellsTruth codec s (read_socket now r) =
      (h : Handled) → on_read codec s.watchdog now r ≡ some h → All (IsHonest x) (events_of h.sent)
  TellsTruth codec s a = Unit

  module _ (Q : Orderbook F → Type 0)
      (keeps : (p : Pipeline F) (event : MarketEvent)
        → IsHonest x event
        → Q p.book
        → Q (book_after p event)) where
    -- The book has the property, and only true messages are in the channel.
    pub record IsTrue (s : System F) : Type 0 where
      pub book_true : Q s.thread.book
      pub queue_true : All (IsHonest x) s.queue

    push-IsTrue :
        (s : System F) (events : List MarketEvent)
        → All (IsHonest x) events
        → IsTrue s
        → IsTrue (push s events)
    push-IsTrue s events e h = record {
      book_true = h.book_true;
      queue_true = All-append (IsHonest x) s.queue events h.queue_true e;
    }

    -- A step that changes neither the book nor the channel.
    aside-IsTrue :
        (s s' : System F)
        → s'.thread.book ≡ s.thread.book
        → s'.queue ≡ s.queue
        → IsTrue s
        → IsTrue s'
    aside-IsTrue s s' e f h = record {
      book_true = rw e h.book_true;
      queue_true = rw f h.queue_true;
    }

    handle-IsTrue :
        (s : System F) (queue : List MarketEvent) (at : Reading)
        → All (IsHonest x) queue
        → IsTrue s
        → Holds IsTrue (on_handle queue s at)
    handle-IsTrue s [] at q h = tt
    handle-IsTrue s (event ∷ queue) at q h =
        let r = handle_event-Round s.thread event at in
        rw r.returned (record {
          book_true = rw r.book_is (keeps s.thread event q.0 h.book_true);
          queue_true = q.1;
        })

    fetched-IsTrue :
        (s : System F) (o : Option ℕ) (snap : DepthSnapshot)
        → Shows x snap
        → IsTrue s
        → Holds IsTrue (on_fetched o s (some snap))
    fetched-IsTrue s none snap e h = tt
    fetched-IsTrue s (some n) snap e h =
        push-IsTrue (record s { fetching = n }) (depth_snapshot snap ∷ []) (e, tt)
          (aside-IsTrue s (record s { fetching = n }) refl refl h)

    fetch_failed-IsTrue :
        (s : System F) (o : Option ℕ) → IsTrue s → Holds IsTrue (on_fetched o s none)
    fetch_failed-IsTrue s none h = tt
    fetch_failed-IsTrue s (some n) h =
        push-IsTrue (record s { fetching = n }) [] tt
          (aside-IsTrue s (record s { fetching = n }) refl refl h)

    refetched-IsTrue :
        (s : System F) (o : Option ℕ) (snap : DepthSnapshot)
        → Shows x snap
        → IsTrue s
        → Holds IsTrue (on_refetched o s (some snap))
    refetched-IsTrue s none snap e h = tt
    refetched-IsTrue s (some n) snap e h =
        let s' : System F = record s { refetching = n; pollers = s.pollers + 1 } in
        push-IsTrue s' (depth_snapshot snap ∷ []) (e, tt) (aside-IsTrue s s' refl refl h)

    refetch_failed-IsTrue :
        (s : System F) (o : Option ℕ) → IsTrue s → Holds IsTrue (on_refetched o s none)
    refetch_failed-IsTrue s none h = tt
    refetch_failed-IsTrue s (some n) h = aside-IsTrue s _ refl refl h

    lost-IsTrue : (s : System F) → IsTrue s → IsTrue (lost s)
    lost-IsTrue s h =
        let h' = push-IsTrue s (reconnect ∷ []) (tt, tt) h in
        record { book_true = h'.book_true; queue_true = h'.queue_true }

    read-IsTrue :
        (s : System F) (codec : Codec) (now : ℕ) (r : Read)
        → TellsTruth codec s (read_socket now r)
        → IsTrue s
        → Holds IsTrue (Option.map (after_read s) (on_read codec s.watchdog now r))
    read-IsTrue s codec now r e h =
        map-Holds IsTrue (after_read s) (on_read codec s.watchdog now r) (λ k f.
          let s0 : System F = record s { watchdog = k.watchdog } in
          by_goes_on (push s0 (events_of k.sent)) k.goes_on
            (push-IsTrue s0 (events_of k.sent) (e k f) (aside-IsTrue s s0 refl refl h)))
      where
        by_goes_on : (s' : System F) (b : Bool) → IsTrue s' → IsTrue (if b then s' else lost s')
        by_goes_on s' true k = k
        by_goes_on s' false k = lost-IsTrue s' k

    connected-IsTrue : (s : System F) (link : Link) → IsTrue s → Holds IsTrue (on_connected link s)
    connected-IsTrue s down h = aside-IsTrue s _ refl refl h
    connected-IsTrue s up h = tt
    connected-IsTrue s stopped h = tt

    refused-IsTrue : (s : System F) (link : Link) → IsTrue s → Holds IsTrue (on_refused link s)
    refused-IsTrue s down h = lost-IsTrue s h
    refused-IsTrue s up h = tt
    refused-IsTrue s stopped h = tt

    start_fetch-IsTrue :
        (s : System F) (o : Option ℕ) → IsTrue s → Holds IsTrue (on_start_fetch o s)
    start_fetch-IsTrue s none h = tt
    start_fetch-IsTrue s (some n) h = aside-IsTrue s _ refl refl h

    poll-IsTrue :
        (s : System F) (o : Option ℕ) (flag : Bool) → IsTrue s → Holds IsTrue (on_poll o flag s)
    poll-IsTrue s none flag h = tt
    poll-IsTrue s (some n) false h = h
    poll-IsTrue s (some n) true h = aside-IsTrue s _ refl refl h

    read_socket-IsTrue :
        (s : System F) (link : Link) (codec : Codec) (now : ℕ) (r : Read)
        → TellsTruth codec s (read_socket now r)
        → IsTrue s
        → Holds IsTrue (on_read_socket link codec s now r)
    read_socket-IsTrue s down codec now r e h = tt
    read_socket-IsTrue s up codec now r e h = read-IsTrue s codec now r e h
    read_socket-IsTrue s stopped codec now r e h = tt

    wake-IsTrue :
        (s : System F) (b : Bool) → IsTrue s → IsTrue (if b then push s (reconnect ∷ []) else s)
    wake-IsTrue s true h = push-IsTrue s (reconnect ∷ []) (tt, tt) h
    wake-IsTrue s false h = h

    store-IsTrue : (s : System F) (seen : Option Bool) → IsTrue s → Holds IsTrue (on_store seen s)
    store-IsTrue s none h = tt
    store-IsTrue s (some flag) h = aside-IsTrue s _ refl refl h

    execute-IsTrue :
        (s : System F) (now : String) (due : Bool) (o : Option (ValidatedOrder F))
        → IsTrue s
        → Holds IsTrue (if due then on_execute s now o else none)
    execute-IsTrue s now false o h = tt
    execute-IsTrue s now true none h = tt
    execute-IsTrue s now true (some order) h =
        map-Holds IsTrue (after_execute s)
          (execute_with_state s.executor s.thread.dash_state now order)
          (λ r e. aside-IsTrue s _ refl refl h)

    step-IsTrue :
        (codec : Codec) (timeout_secs : ℕ) (s : System F) (a : Action)
        → TellsTruth codec s a
        → IsTrue s
        → Holds IsTrue (step codec timeout_secs s a)
    unfolding step sample_second
    step-IsTrue codec t s connected e h = connected-IsTrue s s.link h
    step-IsTrue codec t s refused e h = refused-IsTrue s s.link h
    step-IsTrue codec t s cancelled e h = aside-IsTrue s _ refl refl h
    step-IsTrue codec t s start_fetch e h = start_fetch-IsTrue s (take_one s.starting) h
    step-IsTrue codec t s (fetched (some snap)) e h =
        fetched-IsTrue s (take_one s.fetching) snap e h
    step-IsTrue codec t s (fetched none) e h = fetch_failed-IsTrue s (take_one s.fetching) h
    step-IsTrue codec t s poll e h = poll-IsTrue s (take_one s.pollers) s.thread.resync_needed h
    step-IsTrue codec t s (refetched (some snap)) e h =
        refetched-IsTrue s (take_one s.refetching) snap e h
    step-IsTrue codec t s (refetched none) e h = refetch_failed-IsTrue s (take_one s.refetching) h
    step-IsTrue codec t s (read_socket now r) e h = read_socket-IsTrue s s.link codec now r e h
    step-IsTrue codec t s (handle at) e h = handle-IsTrue s s.queue at h.queue_true h
    step-IsTrue codec t s (wake now) e h = wake-IsTrue s (is_silent s.watchdog t now) h
    step-IsTrue codec t s look e h = aside-IsTrue s _ refl refl h
    step-IsTrue codec t s store e h = store-IsTrue s s.seen h
    step-IsTrue codec t s (put_file exists) e h = aside-IsTrue s _ refl refl h
    step-IsTrue codec t s (halt_request worked) e h = aside-IsTrue s _ refl refl h
    step-IsTrue codec t s (resume_request worked) e h = aside-IsTrue s _ refl refl h
    step-IsTrue codec t s sample e h = aside-IsTrue s _ refl refl h
    step-IsTrue codec t s (execute now) e h =
        execute-IsTrue s now (ltb s.executed (length s.thread.orders)) (next_order s) h

    -- A schedule of true messages keeps the property.
    pub run_all-IsTrue :
        (codec : Codec) (timeout_secs : ℕ) (actions : List Action) (s s' : System F)
        → IsAlong (TellsTruth codec) codec timeout_secs s actions
        → IsTrue s
        → run_all codec timeout_secs s actions ≡ some s'
        → Q s'.thread.book
    run_all-IsTrue codec t actions s s' w h e =
        let kept : IsTrue s' =
          rw e at
            (run_all-Holds (TellsTruth codec) IsTrue codec t (step-IsTrue codec t) actions s w h) in
        kept.book_true
