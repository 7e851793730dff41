-- ===== src/Pipeline/Orders.antt =====
-- What the strategy and the risk checks do in a round of the thread: the order that it may send.
use mathlib.Core.Bool.{true≢false}
use rust_hft.Common.{
  ◌≡◌, ◌≢◌, refl, sym, ap, ◌∙◌, true, false, Option-cases, some, ◌∷◌, ◌⊎◌, inl, inr, Result, ok,
  err,
}
use rust_hft.Double.{Double}
use rust_hft.Types.{MarketEvent, depth_update, DepthUpdate, Signal, buy, sell, hold, ValidatedOrder}
use rust_hft.Orderbook
use rust_hft.Orderbook.{Orderbook}
use rust_hft.Strategy.Trait.{on_orderbook}
use rust_hft.Risk.{RiskChecker, RiskError, Env, is_halted, check}
use rust_hft.Risk.SeenIds.{HasWindow, Explains-HasWindow}
use rust_hft.Risk.Gates.{is_accepted, Explains, check-Explains}
use rust_hft.Dashboard.{first_price}
use rust_hft.Pipeline.Defs.{
  Pipeline, Reading, env_of, with_answer, submit, with_price, mid_of, show_snapshot, trade_on,
}
use rust_hft.Pipeline.Keeps.{
  Keeps, check_halted, note_order-halt_flag, is_halted-on, with_price-Keeps,
}

module _ {F : Type 0} ⦃d : Double F⦄ where
  pub check-ne-none :
      (s : RiskChecker F) (env : Env F) (signal : Signal F) (mid : F)
      → signal ≢ hold
      → (r : RiskChecker F × Result (ValidatedOrder F) (RiskError F)) × (check s env signal mid
          ≡ some r)
  check-ne-none s env signal mid n = elim (Option-cases (check s env signal mid)) [
    | inl e ↦ absurd (n (rw e at (check-Explains s env signal mid)))
    | inr found ↦ found
  ]

  -- What the risk checks add to a round: at most one order, and nothing else but their own state.
  pub record Sends (p : Pipeline F) (env : Env F) (signal : Signal F) (p' : Pipeline F)
      : Type 0 where
    book_kept : p'.book ≡ p.book
    strat_kept : p'.strat ≡ p.strat
    window_kept : HasWindow p.risk → HasWindow p'.risk
    dash_kept : p'.dash_state ≡ p.dash_state
    resync_kept : p'.resync_needed ≡ p.resync_needed
    wiring_kept : p'.risk.halt_flag ≡ p.risk.halt_flag
    held : is_halted p.risk env ≡ true → p'.orders ≡ p.orders
    sent :
        (p'.orders ≡ p.orders)
        ⊎ ((o : ValidatedOrder F) × (p'.orders ≡ o ∷ p.orders) × (o.signal ≡ signal))

  with_answer-Sends :
      (p : Pipeline F) (env : Env F) (signal : Signal F)
      (r : RiskChecker F × Result (ValidatedOrder F) (RiskError F))
      → Explains p.risk env signal (some r)
      → (is_halted p.risk env ≡ true → is_accepted (some r) ≡ false)
      → Sends p env signal (with_answer p r)
  with_answer-Sends p env signal (risk, ok order) (h, i, j, l) n = record {
    book_kept = refl;
    strat_kept = refl;
    window_kept = Explains-HasWindow p.risk env signal risk (ok order) (h, i, j, l);
    dash_kept = refl;
    resync_kept = refl;
    wiring_kept = ap (λ k. k.halt_flag) l ∙ note_order-halt_flag _ env.uuid env.now;
    held = λ k. absurd (true≢false (n k));
    sent = inr (order, refl, ap (λ o. o.signal) h);
  }
  with_answer-Sends p env signal (risk, err e) h n = record {
    book_kept = refl;
    strat_kept = refl;
    window_kept = Explains-HasWindow p.risk env signal risk (err e) h;
    dash_kept = refl;
    resync_kept = refl;
    wiring_kept = elim h [ inl k ↦ ap (λ k. k.halt_flag) k | inr k ↦ ap (λ k. k.halt_flag) k ];
    held = λ k. refl;
    sent = inl refl;
  }

  submit-Sends :
      (p : Pipeline F) (env : Env F) (signal : Signal F) (mid : F)
      → (p' : Pipeline F) × (submit p env signal mid ≡ some p') × Sends p env signal p'
  submit-Sends p env hold mid = (
    p,
    refl,
    record {
      book_kept = refl;
      strat_kept = refl;
      window_kept = λ w. w;
      dash_kept = refl;
      resync_kept = refl;
      wiring_kept = refl;
      held = λ k. refl;
      sent = inl refl;
    },
  )
  submit-Sends p env (buy price qty) mid =
      let (r, e) = check-ne-none p.risk env (buy price qty) mid (λ h. cc) in
      (
        with_answer p r,
        rw e refl,
        with_answer-Sends p env (buy price qty) r
            (rw e at (check-Explains p.risk env (buy price qty) mid))
            (λ h. rw e at (check_halted p.risk env (buy price qty) mid h)),
      )
  submit-Sends p env (sell price qty) mid =
      let (r, e) = check-ne-none p.risk env (sell price qty) mid (λ h. cc) in
      (
        with_answer p r,
        rw e refl,
        with_answer-Sends p env (sell price qty) r
            (rw e at (check-Explains p.risk env (sell price qty) mid))
            (λ h. rw e at (check_halted p.risk env (sell price qty) mid h)),
      )

  -- What a round did: it took the strategy through the snapshot of a live book, with at most one order
  -- that carries the strategy's signal; or it sent nothing and left the strategy alone.
  pub record Traded (p : Pipeline F) (event : MarketEvent) (at : Reading) (p' : Pipeline F)
      : Type 0 where
    pub update : DepthUpdate
    pub from_update : event ≡ depth_update update
    pub book_live : Orderbook.is_live p'.book ≡ true
    pub strat_moved : p'.strat ≡ (on_orderbook p.strat (Orderbook.snapshot p'.book at.unix_ms)).0
    pub sent :
        (p'.orders ≡ p.orders)
        ⊎ ((o : ValidatedOrder F) × (p'.orders ≡ o ∷ p.orders)
            × (o.signal ≡ (on_orderbook p.strat (Orderbook.snapshot p'.book at.unix_ms)).1))

  abbrev pub Sent : Pipeline F → MarketEvent → Reading → Pipeline F → Type 0
  Sent p event at p' = ((p'.orders ≡ p.orders) × (p'.strat ≡ p.strat)) ⊎ Traded p event at p'

  -- The dashboard shows a live book only if the book is live.
  abbrev pub IsShown : Pipeline F → Type 0
  IsShown p = p.dash_state.is_live ≡ true → Orderbook.is_live p.book ≡ true

  pub trade_on-Traded :
      (p : Pipeline F) (update : DepthUpdate) (at : Reading)
      → Orderbook.is_live p.book ≡ true
      → (p' : Pipeline F) × (trade_on p (Orderbook.snapshot p.book at.unix_ms) at ≡ some p')
        × (p'.book ≡ p.book)
        × (HasWindow p.risk → HasWindow p'.risk)
        × (p'.resync_needed ≡ p.resync_needed)
        × Keeps p p'
        × Traded p (depth_update update) at p'
  unfolding trade_on
  trade_on-Traded p update at e =
      let snap = Orderbook.snapshot p.book at.unix_ms in
      let dash = with_price (first_price snap.bids) p.dash_state in
      let r = on_orderbook p.strat snap in
      let (p', f, s) =
        submit-Sends (record p { dash_state = dash; strat = r.0 }) (env_of dash at) r.1
          (mid_of snap) in
      let k = with_price-Keeps p (first_price snap.bids) in
      (
        show_snapshot snap p',
        rw f refl,
        s.book_kept,
        s.window_kept,
        s.resync_kept,
        record {
          account_kept = ap (λ x. x.account) s.dash_kept ∙ k.account_kept;
          cash_kept = ap (λ x. x.cash_bits) s.dash_kept ∙ k.cash_kept;
          buys_kept = ap (λ x. x.buy_count) s.dash_kept ∙ k.buys_kept;
          sells_kept = ap (λ x. x.sell_count) s.dash_kept ∙ k.sells_kept;
          halt_kept = ap (λ x. x.halt_flag) s.dash_kept ∙ k.halt_kept;
          wiring_kept = s.wiring_kept;
          held = λ h i. s.held (is_halted-on p.risk (env_of dash at) h (k.halt_kept ∙ i));
        },
        record {
          update = update;
          from_update = refl;
          book_live = ap Orderbook.is_live s.book_kept ∙ e;
          strat_moved =
              s.strat_kept
              ∙ sym (
                  ap (λ k. (on_orderbook p.strat (Orderbook.snapshot k at.unix_ms)).0) s.book_kept);
          sent = rw s.book_kept s.sent;
        },
      )
