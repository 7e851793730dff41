-- ===== src/Orderbook/Sync.antt =====
-- The sequence rule of `handle_update`, one update at a time and along a stream.
use mathlib.Core.Bool.{true≢false}
use rust_hft.Common.{
  ℕ, ◌≡◌, ◌≢◌, ap, ◌≤◌, ◌<◌, ◌∙◌, refl, Bool, true, false, ◌⊎◌, inl, inr, ok, arith,
}
use rust_hft.Double.{Double}
use rust_hft.Types.{DepthUpdate}
use rust_hft.Orderbook.Defs.{
  Orderbook, SyncState, buffering, live, reset, update_in, handle_update, advance, is_live,
  is_live_state,
}

-- The update follows the id `n`: it was sent right after it, or its range covers it.
abbrev pub Continues : ℕ → DepthUpdate → Type 0
Continues n u = (u.prev_last_update_id ≡ n) ⊎ ((u.prev_last_update_id < n) × (n < u.last_update_id))

-- The update brings nothing new.
abbrev pub IsStale : ℕ → DepthUpdate → Type 0
IsStale n u = (u.prev_last_update_id ≢ n) × (u.last_update_id ≤ n)

-- The update was sent after others that are missing.
abbrev pub IsGap : ℕ → DepthUpdate → Type 0
IsGap n u = (n < u.prev_last_update_id) × (n < u.last_update_id)

-- The three cases are all there are.
pub verdicts : (n : ℕ) (u : DepthUpdate) → Continues n u ⊎ (IsStale n u ⊎ IsGap n u)
verdicts n u = grind arith

module _ {F : Type 0} ⦃d : Double F⦄ where
  pub update_in_live :
      (n : ℕ) (b : Orderbook F) (u : DepthUpdate) (resync : Bool)
      → let r = update_in (live n) b u resync in
        (Continues n u → (r.book ≡ advance b u) × (r.result ≡ ok true) × (r.resync_needed ≡ resync))
        × (IsStale n u → (r.book ≡ b) × (r.result ≡ ok false) × (r.resync_needed ≡ resync))
        × (IsGap n u → (r.book ≡ reset b) × (r.result ≡ ok false) × (r.resync_needed ≡ true))
  unfolding update_in
  update_in_live n b u resync = (ground arith, ground arith, ground arith)

  -- The three cases on a live book, by the code that they run.
  pub handle_update_live :
      (n : ℕ) (b : Orderbook F) (u : DepthUpdate) (resync : Bool)
      → b.state ≡ live n
      → let r = handle_update b u resync in
        (Continues n u → (r.book ≡ advance b u) × (r.result ≡ ok true) × (r.resync_needed ≡ resync))
        × (IsStale n u → (r.book ≡ b) × (r.result ≡ ok false) × (r.resync_needed ≡ resync))
        × (IsGap n u → (r.book ≡ reset b) × (r.result ≡ ok false) × (r.resync_needed ≡ true))
  unfolding handle_update
  handle_update_live n b u resync e = simp e (update_in_live n b u resync)

  -- A request for a resync stays: only the ingestion task clears the flag.
  pub handle_update-resync :
      (b : Orderbook F) (u : DepthUpdate) → (handle_update b u true).resync_needed ≡ true
  unfolding handle_update
  handle_update-resync b u = kept b.state
    where
      kept : (s : SyncState) → (update_in s b u true).resync_needed ≡ true
      kept (buffering buf) = refl
      kept (live n) = ground arith

  -- `handle_update` returns no error, and if it returns true the book is live.
  pub handle_update-answer :
      (b : Orderbook F) (u : DepthUpdate) (resync : Bool)
      → let r = handle_update b u resync in
        ((r.result ≡ ok true) × (is_live r.book ≡ true)) ⊎ (r.result ≡ ok false)
  unfolding handle_update is_live update_in
  handle_update-answer b u resync = by_state b.state
    where
      by_state :
          (s : SyncState)
          → let r = update_in s b u resync in
            ((r.result ≡ ok true) × (is_live_state r.book.state ≡ true)) ⊎ (r.result ≡ ok false)
      by_state (buffering buf) = inr refl
      by_state (live n) = elim (verdicts n u) [
        | inl c ↦
            let (x, y, z) = (update_in_live n b u resync).0 c in
            inl (y, ap (λ o. is_live_state o.state) x)
        | inr (inl s) ↦ let (x, y, z) = (update_in_live n b u resync).1 s in inr y
        | inr (inr g) ↦ let (x, y, z) = (update_in_live n b u resync).2 g in inr y
      ]

  -- An update leaves a live book live and another one as it is, or a resync is asked for.
  pub handle_update-is_live :
      (b : Orderbook F) (u : DepthUpdate) (resync : Bool)
      → let r = handle_update b u resync in (is_live r.book ≡ is_live b) ⊎ (r.resync_needed ≡ true)
  unfolding handle_update is_live update_in
  handle_update-is_live b u resync = by_state b.state refl
    where
      by_state :
          (s : SyncState)
          → b.state ≡ s
          → let r = update_in s b u resync in
            (is_live_state r.book.state ≡ is_live_state s) ⊎ (r.resync_needed ≡ true)
      by_state (buffering buf) e = inl refl
      by_state (live n) e = elim (verdicts n u) [
        | inl c ↦ inl (ap (λ o. is_live_state o.state) ((update_in_live n b u resync).0 c).0)
        | inr (inl c) ↦ inl (
            ap (λ o. is_live_state o.state) ((update_in_live n b u resync).1 c).0
            ∙ ap is_live_state e)
        | inr (inr c) ↦ inr ((update_in_live n b u resync).2 c).2
      ]

  -- A book that is not live stays so under updates, and asks for nothing.
  pub handle_update_buffering :
      (b : Orderbook F) (u : DepthUpdate) (resync : Bool)
      → is_live b ≡ false
      → let r = handle_update b u resync in (is_live r.book ≡ false) × (r.resync_needed ≡ resync)
  unfolding handle_update is_live update_in
  handle_update_buffering b u resync = by_state b.state
    where
      by_state :
          (s : SyncState)
          → is_live_state s ≡ false
          → let r = update_in s b u resync in
            (is_live_state r.book.state ≡ false) × (r.resync_needed ≡ resync)
      by_state (buffering buf) h = (refl, refl)
      by_state (live n) h = absurd (true≢false h)
