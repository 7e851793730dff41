-- ===== src/Tests/Book.antt =====
-- The order book on concrete messages.
use rust_hft.Common.{ℕ, ◌≤◌, ◌≡◌, refl, true, false, none, some, [], ◌∷◌, ◌⊎◌, arith, length, head?}
use rust_hft.Common.Int.{ℤ}
use rust_hft.Double.Fixed.{fixed}
use rust_hft.Types.{DepthUpdate}
use rust_hft.BTreeMap.{get, insert, remove}
use rust_hft.Orderbook.{
  live, handle_snapshot, handle_update, apply_levels, snapshot, to_price, price_to_key, position,
  replay, snapshot_level, apply_level,
}
use rust_hft.Orderbook.Levels.{get-apply_levels, last_quote, after_batch}
use rust_hft.Orderbook.Validity.{IsValid}
use rust_hft.Orderbook.Updates.{Acts, outcome, handle_update-Acts}
use rust_hft.Orderbook.Stream.{feed, IsSound, feed-IsSound}
use rust_hft.Orderbook.Sequence.{meets}
use rust_hft.Orderbook.Snapshots.{handle_snapshot-feed}
use rust_hft.Orderbook.Depth.{IsBest, snapshot-IsBest}
use rust_hft.Tests.Data.{
  decimal_double, units, first_update, second_update, third_update, update, first_snapshot,
  live_book, buffering_book,
}

-- A price of 99.0 has the key 9,900,000,000.
key_of_price : price_to_key (units 99) ≡ 9_900_000_000
unfolding price_to_key fixed
key_of_price = refl

-- The snapshot is taken over and the buffered updates are applied.
synced :
    ((handle_snapshot (buffering_book (first_update ∷ second_update ∷ [])) first_snapshot).0.state
      ≡ live 105)
    × (get 9_850_000_000
          (handle_snapshot
            (buffering_book (first_update ∷ second_update ∷ []))
            first_snapshot).0.bids
        ≡ some (units 4))
    × (get 9_900_000_000
          (handle_snapshot
            (buffering_book (first_update ∷ second_update ∷ []))
            first_snapshot).0.bids
        ≡ none)
unfolding handle_snapshot replay snapshot_level apply_levels apply_level position price_to_key
    insert remove fixed
synced = (refl, refl, refl)

handle_snapshot-feed_example :
    let buf = first_update ∷ second_update ∷ [] in
    let start = (handle_snapshot (buffering_book []) first_snapshot).0 in
    let r = feed start false buf in
    let book = (handle_snapshot (buffering_book buf) first_snapshot).0 in
    (r.resync_needed ≡ false)
    × (((meets 100 buf ≡ true)
          × (book ≡ r.book)
          × ((handle_update book third_update false).resync_needed ≡ false))
        ⊎ ((meets 100 buf ≡ false)
            × (book ≡ start)
            × ((handle_update book third_update false).resync_needed ≡ true)))
handle_snapshot-feed_example =
    handle_snapshot-feed (buffering_book (first_update ∷ second_update ∷ [])) first_snapshot
      (first_update ∷ second_update ∷ []) third_update 95 refl (omega arith) (omega arith)
      (
        refl,
        omega arith,
        omega arith,
        (refl, omega arith, omega arith, (refl, omega arith, omega arith, tt)),
      )

-- An update of the ids 104 to 106 that follows 95: the snapshot's 100 lies in between.
abbrev sparse_update : DepthUpdate
sparse_update = record (update 95 106 (("100.0", "2.0") ∷ []) []) { first_update_id = 104 }

dropped :
    ((handle_snapshot (buffering_book (sparse_update ∷ [])) first_snapshot).0.state ≡ live 100)
    × ((feed
          (handle_snapshot (buffering_book []) first_snapshot).0
          false
          (sparse_update ∷ [])).book.state
        ≡ live 106)
unfolding handle_snapshot handle_update feed position
dropped = (refl, refl)

feed-IsSound_example :
    IsSound 100 live_book (feed live_book false (first_update ∷ second_update ∷ []))
feed-IsSound_example = feed-IsSound (first_update ∷ second_update ∷ []) 100 live_book refl

get-apply_levels_example :
    let r = apply_levels live_book.bids live_book.asks second_update in
    (get 9_900_000_000 r.0
      ≡ after_batch
          (last_quote 9_900_000_000 second_update.bids)
          (get 9_900_000_000 live_book.bids))
    × (get 9_900_000_000 r.1
        ≡ after_batch
            (last_quote 9_900_000_000 second_update.asks)
            (get 9_900_000_000 live_book.asks))
get-apply_levels_example =
    get-apply_levels live_book.bids live_book.asks second_update 9_900_000_000

live_book-IsValid : IsValid live_book
unfolding fixed
live_book-IsValid = record {
  bids_side = record { sorted = (tt, tt); quoted = (refl, tt) };
  asks_side = record { sorted = (tt, tt); quoted = (refl, tt) };
}

-- The ids of the update begin before the book's and end after it.
handle_update-Acts_example :
    IsValid (outcome live_book first_update false).book
    × Acts live_book first_update false (live 100) (outcome live_book first_update false)
handle_update-Acts_example = handle_update-Acts live_book first_update false live_book-IsValid

snapshot-IsBest_example :
    let s = snapshot live_book 7 in
    (length s.bids ≤ 5)
    × (length s.asks ≤ 5)
    × (((live_book.bids ≡ []) × (s.bids ≡ []))
        ⊎ ((e : ℕ × ℤ) × (head? s.bids ≡ some (to_price e)) × IsBest ◌≤◌ live_book.bids e))
    × (((live_book.asks ≡ []) × (s.asks ≡ []))
        ⊎ ((e : ℕ × ℤ) × (head? s.asks ≡ some (to_price e))
            × IsBest (λ x y. y ≤ x) live_book.asks e))
snapshot-IsBest_example = snapshot-IsBest live_book 7 4 live_book-IsValid refl
