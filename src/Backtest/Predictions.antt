-- ===== src/Backtest/Predictions.antt =====
-- A run of the backtest against a run of the thread, and its ledger against the paper account.
use mathlib.Core.Option
use mathlib.Core.List.{append-nil, append_assoc, map-append}
use rust_hft.Common.{
  ◌≡◌, refl, sym, ap, ◌∙◌, Bool-cases, Option, Option-cases, none, some, List, [], ◌∷◌, ◌++◌, map,
  inl, inr,
}
use rust_hft.Double.{Double, qty_epsilon}
use rust_hft.Types.{DepthUpdate, MarketEvent, depth_update, ValidatedOrder}
use rust_hft.Pnl.{
  FifoPnl, PaperAccount, new_account, on_sell, account_on_buy, account_on_sell, credit,
}
use rust_hft.Pnl.Fills.{fill}
use rust_hft.Pnl.Fills
use rust_hft.Dashboard.{SharedState}
use rust_hft.Execution.Fills.{fill_of, fills}
use rust_hft.Pipeline.{Pipeline, Reading, handle_event}
use rust_hft.Pipeline.Rounds.{handle_event-Round}
use rust_hft.Pipeline.Safety
use rust_hft.Backtest.Defs.{
  Backtester, Trade, TradeSide, bought, sold, step, walk, book_trade, book_trades, result_of, run,
}
use rust_hft.Backtest.Live.{
  fill_at, trade_fill, shadow, round_of, Matches, idle-Matches, round-Matches,
}

-- The updates as the thread's events.
abbrev pub live_events : List (DepthUpdate × Reading) → List (MarketEvent × Reading)
live_events updates = map (λ u. (depth_update u.0, u.1)) updates

module _ {F : Type 0} ⦃d : Double F⦄ where
  fills-append : (xs ys : List (ValidatedOrder F)) → fills (xs ++ ys) ≡ fills ys ++ fills xs
  fills-append [] ys = sym (append-nil (fills ys))
  fills-append (x ∷ xs) ys =
      ap (λ fs. fs ++ fill_of x.signal) (fills-append xs ys)
      ∙ append_assoc (fills ys) (fills xs) (fill_of x.signal)

  -- What follows a round.
  follow-Matches :
      (p : Pipeline F) (o : Option (Pipeline F)) (o' : Option (Backtester F × List (Trade F)))
      (m : Matches p o o') (f : Pipeline F → Option (Pipeline F))
      (g : Backtester F → Option (Backtester F × List (Trade F)))
      → Matches m.next (f m.next) (g (shadow m.next))
      → Matches p
          (Option.bind o f)
          (Option.bind o' (λ x. Option.map (λ y. (y.0, x.1 ++ y.1)) (g x.0)))
  unfolding Option.bind
  follow-Matches p o o' m f g rest = record {
    next = rest.next;
    made = m.made ++ rest.made;
    sent = rest.sent ++ m.sent;
    returned = rw m.returned rest.returned;
    stepped = rw m.stepped (rw rest.stepped refl);
    orders_are =
        rest.orders_are
        ∙ ap (λ os. rest.sent ++ os) m.orders_are
        ∙ sym (append_assoc rest.sent m.sent p.orders);
    fills_are =
        map-append trade_fill m.made rest.made
        ∙ ap (λ fs. fs ++ map trade_fill rest.made) m.fills_are
        ∙ ap (λ fs. fills m.sent ++ fs) rest.fills_are
        ∙ sym (fills-append rest.sent m.sent);
  }

  run-Matches :
      (updates : List (DepthUpdate × Reading)) (p : Pipeline F) (s : SharedState F)
      → p.dash_state.halt_flag ≡ s.halt_flag
      → p.dash_state.cash_bits ≡ s.cash_bits
      → Matches p (Safety.run p (live_events updates)) (walk (shadow p) (map (round_of s) updates))
  unfolding Safety.run walk Option.bind
  run-Matches [] p s h c = idle-Matches p
  run-Matches ((update, at) ∷ updates) p s h c =
      let m = round-Matches p s update at h c in
      let r = handle_event-Round p (depth_update update) at in
      let found : some r.next ≡ some m.next = sym r.returned ∙ m.returned in
      let same : r.next ≡ m.next = cc in
      let rest =
        run-Matches updates m.next s
          (ap (λ q. q.dash_state.halt_flag) (sym same) ∙ r.kept.halt_kept ∙ h)
          (ap (λ q. q.dash_state.cash_bits) (sym same) ∙ r.kept.cash_kept ∙ c) in
      follow-Matches p (handle_event p (depth_update update) at)
        (step (shadow p) (round_of s (update, at))) m (λ q. Safety.run q (live_events updates))
        (λ b. walk b (map (round_of s) updates)) rest

  credit-pnl :
      (a : PaperAccount F) (price : F) (s : FifoPnl F) (matched : F)
      → (credit a price (s, matched)).pnl ≡ s
  credit-pnl a price s matched = elim (Bool-cases (d.le matched qty_epsilon)) [
    | inl e ↦ rw e refl
    | inr e ↦ rw e refl
  ]

  book_trade-fill :
      (t : Trade F) (side : TradeSide) (a b : PaperAccount F)
      → fill a (fill_at side t.price t.qty) ≡ some b
      → book_trade a.pnl t side ≡ some b.pnl
  unfolding fill account_on_buy account_on_sell
  book_trade-fill t bought a b e =
      let same : account_on_buy a t.price t.qty ≡ b = cc in ap (λ x. some x.pnl) same
  book_trade-fill t sold a b e = elim (Option-cases (on_sell a.pnl t.price t.qty)) [
    | inl f ↦ let e' : none ≡ some b = rw f at e in cc
    | inr ((s, matched), f) ↦
        let e' : some (credit a t.price (s, matched)) ≡ some b = rw f at e in
        let same : credit a t.price (s, matched) ≡ b = cc in
        rw f (ap some (sym (credit-pnl a t.price s matched) ∙ ap (λ x. x.pnl) same))
  ]

  book_trades-run :
      (trades : List (Trade F)) (a b : PaperAccount F)
      → Fills.run a (map trade_fill trades) ≡ some b
      → book_trades a.pnl trades ≡ some b.pnl
  unfolding Fills.run book_trades Option.bind
  book_trades-run [] a b e = let same : a ≡ b = cc in ap (λ x. some x.pnl) same
  book_trades-run (t ∷ trades) a b e = elim (Option-cases (fill a (trade_fill t))) [
    | inl f ↦ let e' : none ≡ some b = rw f at e in cc
    | inr (c, f) ↦ rw (book_trade-fill t t.side a c f) (book_trades-run trades c b (rw f at e))
  ]

  -- A backtest predicts what the thread does: from the same book, strategy and risk checker and before
  -- any order, on the same updates, clocks and identifiers and with the kill switch and the balance as
  -- the thread reads them at its start, it makes just the trades that the thread sends as orders, ends
  -- with the same book, strategy and risk checker, and reports the profit that the paper account
  -- realizes once the orders are executed.
  pub run_predicts :
      (p p' : Pipeline F) (updates : List (DepthUpdate × Reading)) (capital fee_pct : F)
      (a : PaperAccount F)
      → p.orders ≡ []
      → Safety.run p (live_events updates) ≡ some p'
      → Fills.run (new_account capital fee_pct) (fills p'.orders) ≡ some a
      → (trades : List (Trade F)) × (map trade_fill trades ≡ fills p'.orders)
        × (run (shadow p) (map (round_of p.dash_state) updates) none
            ≡ some (shadow p', result_of trades a.pnl))
  unfolding run Option.bind new_account
  run_predicts p p' updates capital fee_pct a n e f =
      let m = run-Matches updates p p.dash_state refl refl in
      let found : some m.next ≡ some p' = sym m.returned ∙ e in
      let same : m.next ≡ p' = cc in
      let all : m.sent ≡ p'.orders =
        sym (append-nil m.sent)
        ∙ ap (λ os. m.sent ++ os) (sym n)
        ∙ sym m.orders_are
        ∙ ap (λ q. q.orders) same in
      let traded = m.fills_are ∙ ap fills all in
      (
        m.made,
        traded,
        rw (m.stepped, ← same)
            (let booked = book_trades-run m.made (new_account capital fee_pct) a (rw traded f) in
              rw booked refl),
      )
