-- ===== src/Orderbook/Exchange.antt =====
-- The book against the exchange's own: what the exchange holds at each id, and messages that say so.
use mathlib.Core.Path.{subst}
use rust_hft.Common.{
  ℕ, suc, ◌≡◌, refl, sym, ap, ◌∙◌, Bool, true, false, ◌&&◌, Bool-cases, Option, none, some, List,
  [], ◌∷◌, ◌++◌, foldl, String, All, All-append, ◌==◌, ◌⊎◌, inl, inr, arith, if◌then◌else◌,
}
use rust_hft.Double.{Double, gt, zero_f}
use rust_hft.BTreeMap.{BTreeMap, get, get-insert}
use rust_hft.Types.{DepthUpdate, DepthSnapshot}
use rust_hft.Orderbook.Defs.{
  Orderbook, SyncState, buffering, live, price_to_key, parse_or_zero, snapshot_level,
  is_first_valid, position, buffered, with_snapshot, go_live, replay, apply_levels, advance, reset,
  update_in, handle_update, handle_snapshot,
}
use rust_hft.Orderbook.Sync.{Continues, verdicts, update_in_live}
use rust_hft.Orderbook.Levels.{last_quote, after_batch, get-apply_levels}

-- The quantities that the exchange holds at an id, by the key of the price.
pub record Exchange (F : Type 0) : Type 0 where
  pub bids_at : ℕ → ℕ → Option F
  pub asks_at : ℕ → ℕ → Option F

module _ {F : Type 0} ⦃d : Double F⦄ where
  -- The last positive quantity that a snapshot quotes for a key.
  pub last_positive : ℕ → List (String × String) → Option F
  last_positive k [] = none
  last_positive k ((p, q) ∷ levels) = elim (last_positive k levels) [
    | some later ↦ some later
    | none ↦
        if gt (parse_or_zero {F = F} q) zero_f && (price_to_key (parse_or_zero {F = F} p) == k)
        then some (parse_or_zero q)
        else none
  ]

  abbrev or_old : Option F → Option F → Option F
  or_old none old = old
  or_old (some q) old = some q

  get-snapshot_level :
      (k : ℕ) (m : BTreeMap F) (p q : String)
      → get k (snapshot_level m (p, q)) ≡ (
          if gt (parse_or_zero {F = F} q) zero_f && (price_to_key (parse_or_zero {F = F} p) == k)
          then some (parse_or_zero q)
          else get k m)
  unfolding snapshot_level
  get-snapshot_level k m p q =
      ground (arith, get-insert (price_to_key (parse_or_zero {F = F} p)) k (parse_or_zero q) m)

  get-snapshot_level-batch :
      (k : ℕ) (levels : List (String × String)) (m : BTreeMap F)
      → get k (foldl snapshot_level m levels) ≡ or_old (last_positive k levels) (get k m)
  unfolding last_positive
  get-snapshot_level-batch k [] m = refl
  get-snapshot_level-batch k ((p, q) ∷ levels) m = ground (
    arith,
    get-snapshot_level-batch k levels (snapshot_level m (p, q)),
    get-snapshot_level k m p q,
  )

  module _ (x : Exchange F) where
    -- The sides hold what the exchange holds at the id `n`.
    abbrev pub IsMirror : ℕ → BTreeMap F → BTreeMap F → Type 0
    IsMirror n bids asks = (k : ℕ) → (get k bids ≡ x.bids_at n k) × (get k asks ≡ x.asks_at n k)

    -- The update takes the exchange's state at any id that it continues, or whose successor lies in its
    -- range, to the state at its last id.
    abbrev pub Reports : DepthUpdate → Type 0
    Reports u =
        (n k : ℕ)
        → Continues n u ⊎ (is_first_valid n u ≡ true)
        → (x.bids_at u.last_update_id k ≡ after_batch (last_quote k u.bids) (x.bids_at n k))
          × (x.asks_at u.last_update_id k ≡ after_batch (last_quote k u.asks) (x.asks_at n k))

    -- The snapshot quotes the exchange's state at its id.
    abbrev pub Shows : DepthSnapshot → Type 0
    Shows snap =
        (k : ℕ)
        → (last_positive k snap.bids ≡ x.bids_at snap.last_update_id k)
          × (last_positive k snap.asks ≡ x.asks_at snap.last_update_id k)

    -- A live book holds what the exchange holds at its id, and a buffer only what the exchange reports.
    pub record InSync (b : Orderbook F) : Type 0 where
      pub mirrors : (n : ℕ) → b.state ≡ live n → IsMirror n b.bids b.asks
      pub reported : All Reports (buffered b.state)

    apply_levels-IsMirror :
        (n : ℕ) (bids asks : BTreeMap F) (u : DepthUpdate)
        → Reports u
        → Continues n u ⊎ (is_first_valid n u ≡ true)
        → IsMirror n bids asks
        → let sides = apply_levels bids asks u in IsMirror u.last_update_id sides.0 sides.1
    apply_levels-IsMirror n bids asks u r c h k =
        let (e, f) = get-apply_levels bids asks u k in
        let (g, i) = r n k c in
        (
          e ∙ ap (after_batch (last_quote k u.bids)) (h k).0 ∙ sym g,
          f ∙ ap (after_batch (last_quote k u.asks)) (h k).1 ∙ sym i,
        )

    -- The first event is in the snapshot's range, or comes after others.
    abbrev MayStart : Bool → ℕ → List DepthUpdate → Type 0
    MayStart false q us = Unit
    MayStart true q [] = Unit
    MayStart true q (u ∷ us) = is_first_valid q u ≡ true

    abbrev IsReplayed : BTreeMap F × BTreeMap F × ℕ → Type 0
    IsReplayed (bids, asks, last_id) = IsMirror last_id bids asks

    replay-IsMirror :
        (us : List DepthUpdate) (first : Bool) (q : ℕ) (bids asks : BTreeMap F)
        → All Reports us
        → MayStart first q us
        → IsMirror q bids asks
        → IsReplayed (replay first q bids asks us)
    unfolding replay
    replay-IsMirror [] first q bids asks r c h = h
    replay-IsMirror (u ∷ us) true q bids asks r c h =
        replay-IsMirror us false u.last_update_id _ _ r.1 tt
          (apply_levels-IsMirror q bids asks u r.0 (inr c) h)
    replay-IsMirror (u ∷ us) false q bids asks r c h =
        elim (Bool-cases (u.prev_last_update_id == q)) [
          | inl e ↦ rw e (
              replay-IsMirror us false u.last_update_id _ _ r.1 tt
                (apply_levels-IsMirror q bids asks u r.0 (inl (inl (ground arith))) h))
          | inr e ↦ rw e h
        ]

    live-InSync : (b : Orderbook F) (m : ℕ) → b.state ≡ live m → IsMirror m b.bids b.asks → InSync b
    live-InSync b m e h = record {
      mirrors = λ n f.
          let same : live m ≡ live n = sym e ∙ f in
          let at : m ≡ n = cc in subst (λ i. IsMirror i b.bids b.asks) at h;
      reported = subst (λ s. All Reports (buffered s)) (sym e) tt;
    }

    pub buffering-InSync :
        (b : Orderbook F) (buf : List DepthUpdate)
        → b.state ≡ buffering buf
        → All Reports buf
        → InSync b
    buffering-InSync b buf e r = record {
      mirrors = λ n f. let clash : buffering buf ≡ live n = sym e ∙ f in cc;
      reported = subst (λ s. All Reports (buffered s)) (sym e) r;
    }

    go_live-InSync :
        (b : Orderbook F) (s : ℕ) (buf : List DepthUpdate)
        → All Reports buf
        → IsMirror s b.bids b.asks
        → InSync (go_live b s buf (position (is_first_valid s) buf))
    unfolding position
    go_live-InSync b s [] r h = live-InSync (record b { state = live s }) s refl h
    go_live-InSync b s (u ∷ us) r h = elim (Bool-cases (is_first_valid s u)) [
      | inl e ↦ rw e (live-InSync _ _ refl (replay-IsMirror (u ∷ us) true s b.bids b.asks r e h))
      | inr e ↦ rw e (later (position (is_first_valid s) us) (go_live-InSync b s us r.1 h))
    ]
      where
        later :
            (o : Option ℕ)
            → InSync (go_live b s us o)
            → InSync (go_live b s (u ∷ us) (elim o [ none ↦ none | some i ↦ some (suc i) ]))
        later none k = k
        later (some i) k = k

    pub handle_snapshot-InSync :
        (b : Orderbook F) (snap : DepthSnapshot)
        → Shows snap
        → InSync b
        → InSync (handle_snapshot b snap).0
    unfolding handle_snapshot
    handle_snapshot-InSync b snap shows h =
        go_live-InSync (with_snapshot b snap) snap.last_update_id (buffered b.state) h.reported
          (λ k. (
            get-snapshot_level-batch k snap.bids []
                ∙ from_none (last_positive k snap.bids)
                ∙ (shows k).0,
            get-snapshot_level-batch k snap.asks []
                ∙ from_none (last_positive k snap.asks)
                ∙ (shows k).1,
          ))
      where
        from_none : (o : Option F) → or_old o none ≡ o
        from_none none = refl
        from_none (some q) = refl

    pub reset-InSync : (b : Orderbook F) → InSync (reset b)
    unfolding reset
    reset-InSync b = buffering-InSync _ [] refl tt

    pub handle_update-InSync :
        (b : Orderbook F) (u : DepthUpdate) (resync : Bool)
        → Reports u
        → InSync b
        → InSync (handle_update b u resync).book
    unfolding handle_update update_in
    handle_update-InSync b u resync r h = by_state b.state refl
      where
        by_state : (s : SyncState) → b.state ≡ s → InSync (update_in s b u resync).book
        by_state (buffering buf) e =
            buffering-InSync _ (buf ++ (u ∷ [])) refl
              (All-append Reports buf (u ∷ []) (rw e at h.reported) (r, tt))
        by_state (live n) e = elim (verdicts n u) [
          | inl c ↦ rw ((update_in_live n b u resync).0 c).0 (
              live-InSync (advance b u) u.last_update_id refl
                (apply_levels-IsMirror n b.bids b.asks u r (inl c) (h.mirrors n e)))
          | inr (inl c) ↦ rw ((update_in_live n b u resync).1 c).0 h
          | inr (inr c) ↦ rw ((update_in_live n b u resync).2 c).0 (reset-InSync b)
        ]
