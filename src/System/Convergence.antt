-- ===== src/System/Convergence.antt =====
-- Two schedules of all tasks at one exchange, and the books that they leave.
use rust_hft.Common.{ℕ, ◌≡◌, refl, Bool, some, List, []}
use rust_hft.Double.{Double}
use rust_hft.Double.Laws.{IsFloat}
use rust_hft.Types.{MarketEvent, depth_update, depth_snapshot, trade, reconnect}
use rust_hft.Config.{Config}
use rust_hft.Orderbook
use rust_hft.Orderbook.{Orderbook, live}
use rust_hft.Orderbook.Validity.{IsValid, []-IsSide}
use rust_hft.Orderbook.Exchange.{Exchange, InSync, buffering-InSync}
use rust_hft.Orderbook.Shape.{Shaped, handle_update-Shaped, handle_snapshot-Shaped, snapshot_unique}
use rust_hft.Ingestion.{Codec}
use rust_hft.Pipeline
use rust_hft.Pipeline.{Pipeline}
use rust_hft.Pipeline.Rounds.{book_after}
use rust_hft.Pipeline.Safety.{book_after-IsValid}
use rust_hft.Pipeline.Exchange.{IsHonest, book_after-InSync}
use rust_hft.System.Defs.{System, Action, begin, run_all}
use rust_hft.System.Steps.{IsAlong}
use rust_hft.System.Messages.{TellsTruth, run_all-IsTrue}

module _ {F : Type 0} ⦃d : Double F⦄ (laws : IsFloat F) (x : Exchange F) where
  -- The book mirrors the exchange while live, its sides are sorted, and it is set up as configured.
  record Follows (cfg : Config F) (b : Orderbook F) : Type 0 where
    in_sync : InSync x b
    valid : IsValid b
    shaped : Shaped cfg.symbol cfg.orderbook.depth_levels b

  book_after-Shaped :
      (cfg : Config F) (p : Pipeline F) (event : MarketEvent)
      → Shaped cfg.symbol cfg.orderbook.depth_levels p.book
      → Shaped cfg.symbol cfg.orderbook.depth_levels (book_after p event)
  unfolding Orderbook.reset
  book_after-Shaped cfg p (depth_update update) h =
      handle_update-Shaped cfg.symbol cfg.orderbook.depth_levels p.book update p.resync_needed h
  book_after-Shaped cfg p (depth_snapshot snap) h =
      handle_snapshot-Shaped cfg.symbol cfg.orderbook.depth_levels p.book snap h
  book_after-Shaped cfg p (trade t) h = h
  book_after-Shaped cfg p reconnect h = h

  book_after-Follows :
      (cfg : Config F) (p : Pipeline F) (event : MarketEvent)
      → IsHonest x event
      → Follows cfg p.book
      → Follows cfg (book_after p event)
  book_after-Follows cfg p event e h = record {
    in_sync = book_after-InSync x p event e h.in_sync;
    valid = book_after-IsValid laws p event h.valid;
    shaped = book_after-Shaped cfg p event h.shaped;
  }

  run_all-Follows :
      (cfg : Config F) (halt : Bool) (now : ℕ) (codec : Codec) (timeout_secs : ℕ)
      (actions : List Action) (s : System F)
      → IsAlong (TellsTruth x codec) codec timeout_secs (begin cfg halt now) actions
      → run_all codec timeout_secs (begin cfg halt now) actions ≡ some s
      → Follows cfg s.thread.book
  unfolding begin Pipeline.start Orderbook.new
  run_all-Follows cfg halt now codec t actions s w e =
      run_all-IsTrue x (Follows cfg) (book_after-Follows cfg) codec t actions (begin cfg halt now) s
        w
        (record {
          book_true = record {
            in_sync = buffering-InSync x _ [] refl tt;
            valid = record { bids_side = []-IsSide; asks_side = []-IsSide };
            shaped = (refl, refl);
          };
          queue_true = tt;
        })
        e

  -- Two runs of the program with one configuration, each from its own start and through its own
  -- schedule of tasks, failures and reconnects, that read and fetch only true messages of one exchange:
  -- if both books are live at the same id, a strategy sees the same in both. (Of the doubles, `IsFloat`
  -- is assumed.)
  pub snapshot-agrees :
      (cfg : Config F) (halt halt' : Bool) (now now' : ℕ) (codec codec' : Codec) (timeout_secs : ℕ)
      (actions actions' : List Action) (s s' : System F)
      → IsAlong (TellsTruth x codec) codec timeout_secs (begin cfg halt now) actions
      → IsAlong (TellsTruth x codec') codec' timeout_secs (begin cfg halt' now') actions'
      → run_all codec timeout_secs (begin cfg halt now) actions ≡ some s
      → run_all codec' timeout_secs (begin cfg halt' now') actions' ≡ some s'
      → (n : ℕ) → s.thread.book.state ≡ live n
      → s'.thread.book.state ≡ live n
      → (at : ℕ) → Orderbook.snapshot s.thread.book at ≡ Orderbook.snapshot s'.thread.book at
  snapshot-agrees cfg halt halt' now now' codec codec' t actions actions' s s' w w' e e' n l l' =
      let h = run_all-Follows cfg halt now codec t actions s w e in
      let h' = run_all-Follows cfg halt' now' codec' t actions' s' w' e' in
      snapshot_unique cfg.symbol cfg.orderbook.depth_levels x n s.thread.book s'.thread.book h.valid
        h'.valid h.shaped h'.shaped (h.in_sync.mirrors n l) (h'.in_sync.mirrors n l')
