-- ===== src/System/Resync.antt =====
-- How the tasks get a live book back: the resync flag, the snapshot tasks and the market channel.
use rust_hft.Common.{
  ◌≡◌, refl, Bool, true, false, Option, none, some, List, [], ◌∷◌, ◌++◌, ◌⊎◌, inl, inr,
}
use rust_hft.Double.{Double}
use rust_hft.Types.{MarketEvent, depth_update, depth_snapshot, trade, reconnect, DepthSnapshot}
use rust_hft.Orderbook
use rust_hft.Orderbook.{Orderbook, SyncState, buffering, live}
use rust_hft.Orderbook.Sync.{handle_update-is_live, handle_update-resync}
use rust_hft.Ingestion.Sends.{IsFeed}
use rust_hft.System.Defs.{events_of}
use rust_hft.Pipeline.{Pipeline}
use rust_hft.Pipeline.Rounds.{book_after, resync_after, handle_snapshot-live}

-- Whether the book is live once the thread has taken all these events, if no update shows a gap.
abbrev pub covered : Bool → List MarketEvent → Bool
covered is_live [] = is_live
covered is_live (depth_update update ∷ queue) = covered is_live queue
covered is_live (depth_snapshot snap ∷ queue) = covered true queue
covered is_live (trade t ∷ queue) = covered is_live queue
covered is_live (reconnect ∷ queue) = covered false queue

pub covered-push :
    (b : Bool) (queue : List MarketEvent) (snap : DepthSnapshot)
    → covered b (queue ++ (depth_snapshot snap ∷ [])) ≡ true
covered-push b [] snap = refl
covered-push b (depth_update update ∷ queue) snap = covered-push b queue snap
covered-push b (depth_snapshot s ∷ queue) snap = covered-push true queue snap
covered-push b (trade t ∷ queue) snap = covered-push b queue snap
covered-push b (reconnect ∷ queue) snap = covered-push false queue snap

-- What a read sends behind the others changes nothing.
pub covered-push_feed :
    (b : Bool) (queue : List MarketEvent) (sent : Option MarketEvent)
    → IsFeed sent
    → covered b (queue ++ events_of sent) ≡ covered b queue
covered-push_feed b [] none f = refl
covered-push_feed b [] (some (depth_update u)) f = refl
covered-push_feed b [] (some (trade t)) f = refl
covered-push_feed b [] (some (depth_snapshot s)) f = absurd f
covered-push_feed b [] (some reconnect) f = absurd f
covered-push_feed b (depth_update update ∷ queue) sent f = covered-push_feed b queue sent f
covered-push_feed b (depth_snapshot s ∷ queue) sent f = covered-push_feed true queue sent f
covered-push_feed b (trade t ∷ queue) sent f = covered-push_feed b queue sent f
covered-push_feed b (reconnect ∷ queue) sent f = covered-push_feed false queue sent f

module _ {F : Type 0} ⦃d : Double F⦄ where
  -- The thread's round keeps this for the rest of the channel.
  pub handle_covered :
      (p : Pipeline F) (event : MarketEvent) (queue : List MarketEvent)
      → covered (Orderbook.is_live p.book) (event ∷ queue) ≡ true
      → (covered (Orderbook.is_live (book_after p event)) queue ≡ true)
        ⊎ (resync_after p event ≡ true)
  unfolding Orderbook.is_live Orderbook.reset
  handle_covered p (depth_update update) queue h =
      elim (handle_update-is_live p.book update p.resync_needed) [
        | inl e ↦ inl (rw e h)
        | inr e ↦ inr e
      ]
  handle_covered p (depth_snapshot snap) queue h = inl (rw (handle_snapshot-live p.book snap) h)
  handle_covered p (trade t) queue h = inl h
  handle_covered p reconnect queue h = inl h

  pub resync_after_kept :
      (p : Pipeline F) (event : MarketEvent) → p.resync_needed ≡ true → resync_after p event ≡ true
  resync_after_kept p (depth_update update) h = rw h (handle_update-resync p.book update)
  resync_after_kept p (depth_snapshot snap) h = h
  resync_after_kept p (trade t) h = h
  resync_after_kept p reconnect h = h
