-- ===== src/DataLoader/Synthetic.antt =====
-- The made-up events, and the order book that they are fed to.
use rust_hft.Common.{
  ℕ, zero, suc, ◌+◌, ◌<◌, ◌^◌, ◌%◌, ◌≡◌, refl, ap, ◌∙◌, arith, false, List, ◌∷◌, String, length,
  inl,
}
use rust_hft.Double.{Double}
use rust_hft.Types.{DepthUpdate}
use rust_hft.Orderbook
use rust_hft.Orderbook.{Orderbook, live, advance}
use rust_hft.Orderbook.Stream.{Fed, feed, feed-nil, feed_applied}
use rust_hft.DataLoader.Defs.{Printer, Walk, next_event, events_from, generate_synthetic_data}

module _ {F : Type 0} ⦃d : Double F⦄ (p : Printer F) (symbol : String) where
  -- Every one of the events was applied, and the book is at the id `last`.
  pub record IsAllApplied (events : List DepthUpdate) (last : ℕ) (fed : Fed F) : Type 0 where
    pub all_applied : fed.applied ≡ events
    pub no_resync : fed.resync_needed ≡ false
    pub at_last : fed.book.state ≡ live last

  length-events_from : (n i : ℕ) (w : Walk F) → length (events_from p symbol n i w) ≡ n
  unfolding events_from
  length-events_from zero i w = refl
  length-events_from (suc n) i w =
      let rest = length-events_from n (i + 1) (next_event p symbol i w).0 in omega arith

  feed-events_from :
      (n i : ℕ) (w : Walk F) (b : Orderbook F)
      → b.state ≡ live w.last_id
      → w.last_id + n < 2 ^ 64
      → let events = events_from p symbol n i w in
        IsAllApplied events (w.last_id + n) (feed b false events)
  unfolding events_from next_event
  feed-events_from zero i w b e h =
      rw (feed-nil b false)
        (record { all_applied = refl; no_resync = refl; at_last = e ∙ ap live (omega arith) })
  feed-events_from (suc n) i w b e h =
      let r = next_event p symbol i w in
      let no_wrap : (w.last_id + 1) % 2 ^ 64 ≡ w.last_id + 1 = omega arith in
      let rest = feed-events_from n (i + 1) r.0 (advance b r.1) refl (omega arith) in
      rw (feed_applied w.last_id b r.1 (events_from p symbol n (i + 1) r.0) e (inl refl)) (record {
        all_applied = ap (λ us. r.1 ∷ us) rest.all_applied;
        no_resync = rest.no_resync;
        at_last = rest.at_last ∙ ap live (omega arith);
      })

  -- The synthetic data has as many events as asked for, and a new book that takes its snapshot applies
  -- every event, asks for no resync and ends at the id 1000 plus the number of events. (The ids are
  -- assumed not to wrap.)
  pub generate_synthetic_data-IsAllApplied :
      (num_events depth_levels : ℕ)
      → 1000 + num_events < 2 ^ 64
      → let (snapshot, events) = generate_synthetic_data p symbol num_events in
        let book =
          (Orderbook.handle_snapshot {F = F} (Orderbook.new symbol depth_levels) snapshot).0 in
        (length events ≡ num_events)
        × IsAllApplied events (1000 + num_events) (feed book false events)
  unfolding generate_synthetic_data Orderbook.new Orderbook.handle_snapshot Orderbook.position
  generate_synthetic_data-IsAllApplied num_events depth_levels h =
      (length-events_from num_events 0 _, feed-events_from num_events 0 _ _ refl h)
