-- ===== src/Orderbook/Stream.antt =====
-- A live book along a stream of updates, and the chain of those that it applied.
use rust_hft.Common.{
  ℕ, ◌≡◌, refl, sym, ◌∙◌, Bool, true, false, List, [], ◌∷◌, inl, inr, Result, ok, err, String,
}
use mathlib.Core.Bool.{false≢true}
use rust_hft.Double.{Double}
use rust_hft.BTreeMap.{BTreeMap}
use rust_hft.Types.{DepthUpdate}
use rust_hft.Orderbook.Defs.{Orderbook, live, apply_levels, handle_update, advance}
use rust_hft.Orderbook.Sync.{
  Continues, IsStale, IsGap, handle_update_live, handle_update-resync, verdicts,
}

-- Updates that each continue the one before, from the id `n` to the last one's id.
pub data Chain : ℕ → List DepthUpdate → ℕ → Type 0 where
  done : {n : ℕ} → Chain n [] n
  link :
      {n m : ℕ} {u : DepthUpdate} {us : List DepthUpdate}
      → Continues n u
      → Chain u.last_update_id us m
      → Chain n (u ∷ us) m

-- The updates that a stream of calls applied, and what it left.
pub record Fed (F : Type 0) : Type 0 where
  pub book : Orderbook F
  pub resync_needed : Bool
  pub applied : List DepthUpdate

abbrev pub noted : Result Bool String → DepthUpdate → List DepthUpdate → List DepthUpdate
noted (ok true) u us = u ∷ us
noted (ok false) u us = us
noted (err e) u us = us

module _ {F : Type 0} ⦃d : Double F⦄ where
  -- `handle_update` for each update in turn.
  unfoldable pub feed : Orderbook F → Bool → List DepthUpdate → Fed F
  feed b resync [] = record { book = b; resync_needed = resync; applied = [] }
  feed b resync (u ∷ us) =
      let r = handle_update b u resync in
      let rest = feed r.book r.resync_needed us in
      record rest { applied = noted r.result u rest.applied }

  -- The levels of the updates, in order, on the two sides.
  abbrev pub apply_all : BTreeMap F → BTreeMap F → List DepthUpdate → BTreeMap F × BTreeMap F
  apply_all bids asks [] = (bids, asks)
  apply_all bids asks (u ∷ us) =
      let sides = apply_levels bids asks u in apply_all sides.0 sides.1 us

  feed-resync : (us : List DepthUpdate) (b : Orderbook F) → (feed b true us).resync_needed ≡ true
  unfolding feed
  feed-resync [] b = refl
  feed-resync (u ∷ us) b =
      rw (handle_update-resync b u) (feed-resync us (handle_update b u true).book)

  pub feed-nil :
      (b : Orderbook F) (resync : Bool)
      → feed b resync [] ≡ record { book = b; resync_needed = resync; applied = [] }
  unfolding feed
  feed-nil b resync = refl

  -- The three ways in which a stream goes on.
  module _ (n : ℕ) (b : Orderbook F) (u : DepthUpdate) (us : List DepthUpdate)
      (e : b.state ≡ live n) where
    pub feed_applied :
        Continues n u
        → let rest = feed (advance b u) false us in
          feed b false (u ∷ us) ≡ record rest { applied = u ∷ rest.applied }
    unfolding feed
    feed_applied c = let (x, y, z) = (handle_update_live n b u false e).0 c in simp (x, y, z)

    pub feed_stale : IsStale n u → feed b false (u ∷ us) ≡ feed b false us
    unfolding feed
    feed_stale c = let (x, y, z) = (handle_update_live n b u false e).1 c in simp (x, y, z)

    feed_gap : IsGap n u → (feed b false (u ∷ us)).resync_needed ≡ true
    unfolding feed
    feed_gap c = let (x, y, z) = (handle_update_live n b u false e).2 c in simp (x, z, feed-resync)

  -- What a fed book owes to the book that it started from.
  abbrev pub IsSound : ℕ → Orderbook F → Fed F → Type 0
  IsSound n b r =
      r.resync_needed ≡ false
      → (m : ℕ) × (r.book.state ≡ live m)
        × Chain n r.applied m
        × ((r.book.bids, r.book.asks) ≡ apply_all b.bids b.asks r.applied)

  feed_none : (n : ℕ) (b : Orderbook F) → b.state ≡ live n → IsSound n b (feed b false [])
  unfolding feed
  feed_none n b e = λ q. (n, e, Chain.done, refl)

  -- A live book that is fed any updates and asks for no resync is live at the end of a chain of the
  -- updates that it applied, each continuing the one before, and holds just their levels.
  pub feed-IsSound :
      (us : List DepthUpdate) (n : ℕ) (b : Orderbook F)
      → b.state ≡ live n
      → IsSound n b (feed b false us)
  feed-IsSound [] n b e = feed_none n b e
  feed-IsSound (u ∷ us) n b e = elim (verdicts n u) [
    | inl c ↦ rw (feed_applied n b u us e c) (λ q.
        let (m, at, chain, sides) = feed-IsSound us u.last_update_id (advance b u) refl q in
        (m, at, Chain.link c chain, sides))
    | inr (inl s) ↦ rw (feed_stale n b u us e s) (feed-IsSound us n b e)
    | inr (inr g) ↦ λ q. absurd (false≢true (sym q ∙ feed_gap n b u us e g))
  ]
