-- ===== src/Orderbook/Updates.antt =====
-- What `handle_update` does in every state of the book, by what the book then holds.
use rust_hft.Common.{
  ℕ, ◌≡◌, refl, ◌∙◌, ap, Bool, true, false, List, [], ◌∷◌, ◌++◌, ◌⊎◌, inl, inr, Result, ok, String,
}
use rust_hft.Double.{Double}
use rust_hft.BTreeMap.{get}
use rust_hft.Types.{DepthUpdate}
use rust_hft.Orderbook.Defs.{
  Orderbook, SyncState, buffering, live, reset, update_in, handle_update, advance,
}
use rust_hft.Orderbook.Levels.{last_quote, after_batch, get-apply_levels}
use rust_hft.Orderbook.Sync.{Continues, IsStale, IsGap, verdicts, update_in_live}
use rust_hft.Orderbook.Validity.{IsValid, handle_update-IsValid}

-- What a call returns: the book, the resync flag and the result.
pub record Outcome (F : Type 0) : Type 0 where
  pub book : Orderbook F
  pub resync_needed : Bool
  pub result : Result Bool String

module _ {F : Type 0} ⦃d : Double F⦄ (b : Orderbook F) (u : DepthUpdate) (resync : Bool) where
  -- The book's set-up is kept.
  abbrev IsAlike : Orderbook F → Type 0
  IsAlike b' = (b'.symbol ≡ b.symbol) × (b'.depth_levels ≡ b.depth_levels)

  -- The update is added to the buffer, and nothing else happens.
  pub record IsBuffered (buf : List DepthUpdate) (r : Outcome F) : Type 0 where
    pub waits : r.book.state ≡ buffering (buf ++ (u ∷ []))
    pub bids_kept : r.book.bids ≡ b.bids
    pub asks_kept : r.book.asks ≡ b.asks
    pub alike : IsAlike r.book
    pub flag_kept : r.resync_needed ≡ resync
    pub answers : r.result ≡ ok false

  -- The book is live at the update's last id, and every key of a side holds the last quantity that the
  -- update quotes for it, nothing if that is zero, and what it held before if it is not quoted.
  pub record IsApplied (r : Outcome F) : Type 0 where
    pub at_last : r.book.state ≡ live u.last_update_id
    pub bids_at : (k : ℕ) → get k r.book.bids ≡ after_batch (last_quote k u.bids) (get k b.bids)
    pub asks_at : (k : ℕ) → get k r.book.asks ≡ after_batch (last_quote k u.asks) (get k b.asks)
    pub alike : IsAlike r.book
    pub flag_kept : r.resync_needed ≡ resync
    pub answers : r.result ≡ ok true

  -- Nothing happens.
  pub record IsIgnored (r : Outcome F) : Type 0 where
    pub unchanged : r.book ≡ b
    pub flag_kept : r.resync_needed ≡ resync
    pub answers : r.result ≡ ok false

  -- The book has no level and no buffered update, and a snapshot is asked for.
  pub record IsEmptied (r : Outcome F) : Type 0 where
    pub waits : r.book.state ≡ buffering []
    pub no_bids : r.book.bids ≡ []
    pub no_asks : r.book.asks ≡ []
    pub alike : IsAlike r.book
    pub flag_set : r.resync_needed ≡ true
    pub answers : r.result ≡ ok false

  abbrev pub Acts : SyncState → Outcome F → Type 0
  Acts (buffering buf) r = IsBuffered buf r
  Acts (live n) r =
      (Continues n u × IsApplied r) ⊎ ((IsStale n u × IsIgnored r) ⊎ (IsGap n u × IsEmptied r))

  abbrev pub outcome : Outcome F
  outcome =
      let r = handle_update b u resync in
      record { book = r.book; resync_needed = r.resync_needed; result = r.result }

  applied :
      (r : Outcome F)
      → r.book ≡ advance b u
      → r.resync_needed ≡ resync
      → r.result ≡ ok true
      → IsApplied r
  applied r e f g = record {
    at_last = ap (λ x. x.state) e;
    bids_at = λ k. ap (λ x. get k x.bids) e ∙ (get-apply_levels b.bids b.asks u k).0;
    asks_at = λ k. ap (λ x. get k x.asks) e ∙ (get-apply_levels b.bids b.asks u k).1;
    alike = (ap (λ x. x.symbol) e, ap (λ x. x.depth_levels) e);
    flag_kept = f;
    answers = g;
  }

  emptied :
      (r : Outcome F)
      → r.book ≡ reset b
      → r.resync_needed ≡ true
      → r.result ≡ ok false
      → IsEmptied r
  unfolding reset
  emptied r e f g = record {
    waits = ap (λ x. x.state) e;
    no_bids = ap (λ x. x.bids) e;
    no_asks = ap (λ x. x.asks) e;
    alike = (ap (λ x. x.symbol) e, ap (λ x. x.depth_levels) e);
    flag_set = f;
    answers = g;
  }

  update_in-Acts :
      (s : SyncState)
      → let r = update_in s b u resync in
        Acts s (record { book = r.book; resync_needed = r.resync_needed; result = r.result })
  unfolding update_in
  update_in-Acts (buffering buf) = record {
    waits = refl;
    bids_kept = refl;
    asks_kept = refl;
    alike = (refl, refl);
    flag_kept = refl;
    answers = refl;
  }
  update_in-Acts (live n) = elim (verdicts n u) [
    | inl c ↦ let (e, f, g) = (update_in_live n b u resync).0 c in inl (c, applied _ e g f)
    | inr (inl c) ↦
        let (e, f, g) = (update_in_live n b u resync).1 c in
        inr (inl (c, record { unchanged = e; flag_kept = g; answers = f }))
    | inr (inr c) ↦
        let (e, f, g) = (update_in_live n b u resync).2 c in inr (inr (c, emptied _ e g f))
  ]

  -- On a book whose sides are sorted and quote no zero, `handle_update` keeps them so and does this.
  -- A book that buffers adds the update to its buffer. A live book at the id `n` takes an update that
  -- was sent right after `n`, or whose range covers it: it is live at the update's last id and every
  -- key of a side holds the last quantity quoted for it, nothing if that is zero, or what it held before
  -- if it is not quoted. It ignores any other that ends no later than `n`. After a gap it has no level
  -- and no buffered update, and asks for a resync. It answers true just when it took the update, and
  -- otherwise leaves the resync flag alone.
  pub handle_update-Acts : IsValid b → IsValid outcome.book × Acts b.state outcome
  unfolding handle_update
  handle_update-Acts h = (handle_update-IsValid b u resync h, update_in-Acts b.state)
