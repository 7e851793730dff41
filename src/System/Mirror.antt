-- ===== src/System/Mirror.antt =====
-- The thread's book and the exchange's own, over the schedules of all tasks.
use rust_hft.Common.{ℕ, ◌≡◌, refl, Bool, some, List, []}
use rust_hft.Double.{Double}
use rust_hft.Config.{Config}
use rust_hft.Orderbook
use rust_hft.Orderbook.{live}
use rust_hft.Orderbook.Exchange.{Exchange, IsMirror, InSync, buffering-InSync}
use rust_hft.Ingestion.{Codec}
use rust_hft.Pipeline
use rust_hft.Pipeline.{Reading}
use rust_hft.Pipeline.Exchange.{book_after-InSync}
use rust_hft.System.Defs.{System, Action, begin, run_all}
use rust_hft.System.Steps.{IsAlong}
use rust_hft.System.Messages.{TellsTruth, run_all-IsTrue}

module _ {F : Type 0} ⦃d : Double F⦄ (x : Exchange F) where
  -- If what is read from the socket reports the exchange's state and the fetched snapshots show it, then
  -- however the tasks interleave, with failed fetches, lost sockets and the watchdog's signals, a live
  -- book holds at every price just what the exchange holds at the book's id.
  pub run_all-IsMirror :
      (cfg : Config F) (halt : Bool) (now : ℕ) (codec : Codec) (timeout_secs : ℕ)
      (actions : List Action) (s : System F)
      → IsAlong (TellsTruth x codec) codec timeout_secs (begin cfg halt now) actions
      → run_all codec timeout_secs (begin cfg halt now) actions ≡ some s
      → (n : ℕ) → s.thread.book.state ≡ live n
      → IsMirror x n s.thread.book.bids s.thread.book.asks
  unfolding begin Pipeline.start Orderbook.new
  run_all-IsMirror cfg halt now codec t actions s w e n l =
      let h =
        run_all-IsTrue x (InSync x) (book_after-InSync x) codec t actions (begin cfg halt now) s w
          (record { book_true = buffering-InSync x _ [] refl tt; queue_true = tt }) e in
      h.mirrors n l
