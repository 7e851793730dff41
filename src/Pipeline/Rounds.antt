-- ===== src/Pipeline/Rounds.antt =====
-- One round of the thread, event by event: what it sends, what it leaves and what it shows.
use mathlib.Core.Bool.{false≢true}
use rust_hft.Common.{ℕ, ◌≡◌, refl, Bool, true, false, Option, none, some, inl, inr, ok}
use rust_hft.Double.{Double}
use rust_hft.Types.{
  MarketEvent, depth_update, depth_snapshot, trade, reconnect, DepthUpdate, DepthSnapshot,
}
use rust_hft.Orderbook
use rust_hft.Orderbook.{Orderbook}
use rust_hft.Orderbook.Sync.{handle_update-answer}
use rust_hft.Risk.SeenIds.{HasWindow}
use rust_hft.Dashboard.{incr}
use rust_hft.Pipeline.Defs.{Pipeline, Reading, flagged, after_update, handle_event}
use rust_hft.Pipeline.Keeps.{Keeps}
use rust_hft.Pipeline.Orders.{Sent, IsShown, trade_on-Traded}

module _ {F : Type 0} ⦃d : Double F⦄ where
  -- A round's result, the book that it leaves, and what else is known of it.
  pub record Round (p : Pipeline F) (book : Orderbook F) (resync : Bool) (event : MarketEvent)
      (at : Reading) (r : Option (Pipeline F)) : Type 0 where
    pub next : Pipeline F
    pub returned : r ≡ some next
    pub is_sent : Sent p event at next
    pub book_is : next.book ≡ book
    pub resync_is : next.resync_needed ≡ resync
    pub kept : Keeps p next
    pub window_kept : HasWindow p.risk → HasWindow next.risk
    pub is_shown : IsShown p → IsShown next

  -- The round's state once `handle_update` has returned.
  abbrev updated : Pipeline F → ℕ → Orderbook F → Bool → Pipeline F
  updated p n b resync = record p { event_count = n; book = b; resync_needed = resync }

  -- The two answers of `handle_update` that there are.
  after_true :
      (p : Pipeline F) (n : ℕ) (b : Orderbook F) (resync : Bool) (update : DepthUpdate)
      (at : Reading)
      → Orderbook.is_live b ≡ true
      → Round p b resync (depth_update update) at (after_update (updated p n b resync) (ok true) at)
  unfolding after_update
  after_true p n b resync update at e =
      let p0 = updated p n b resync in
      let dash = flagged p.dash_state (Orderbook.is_live b) in
      let (p', f, k, w, m, c, t) = trade_on-Traded (record p0 { dash_state = dash }) update at e in
      record {
        next = p';
        returned = rw e (rw e at f);
        is_sent = inr (record {
          update = t.update;
          from_update = t.from_update;
          book_live = t.book_live;
          strat_moved = t.strat_moved;
          sent = t.sent;
        });
        book_is = k;
        resync_is = m;
        kept = record {
          account_kept = c.account_kept;
          cash_kept = c.cash_kept;
          buys_kept = c.buys_kept;
          sells_kept = c.sells_kept;
          halt_kept = c.halt_kept;
          wiring_kept = c.wiring_kept;
          held = c.held;
        };
        window_kept = w;
        is_shown = λ h q. t.book_live;
      }

  after_false :
      (p : Pipeline F) (n : ℕ) (b : Orderbook F) (resync : Bool) (update : DepthUpdate)
      (at : Reading)
      → Round p b resync
          (depth_update update)
          at
          (after_update (updated p n b resync) (ok false) at)
  unfolding after_update
  after_false p n b resync update at = record {
    next = record (updated p n b resync) { dash_state = flagged p.dash_state false };
    returned = refl;
    is_sent = inl (refl, refl);
    book_is = refl;
    resync_is = refl;
    kept = record {
      account_kept = refl;
      cash_kept = refl;
      buys_kept = refl;
      sells_kept = refl;
      halt_kept = refl;
      wiring_kept = refl;
      held = λ h k. refl;
    };
    window_kept = λ w. w;
    is_shown = λ h q. absurd (false≢true q);
  }

  pub handle_snapshot-live :
      (b : Orderbook F) (snap : DepthSnapshot)
      → Orderbook.is_live (Orderbook.handle_snapshot b snap).0 ≡ true
  unfolding Orderbook.handle_snapshot Orderbook.is_live
  handle_snapshot-live b snap = by_found (
      Orderbook.position (Orderbook.is_first_valid snap.last_update_id)
        (Orderbook.buffered b.state))
    where
      by_found :
          (i : Option ℕ)
          → Orderbook.is_live (
              Orderbook.go_live
                (Orderbook.with_snapshot b snap)
                snap.last_update_id
                (Orderbook.buffered b.state)
                i)
            ≡ true
      by_found none = refl
      by_found (some i) = refl

  -- The book after an event.
  abbrev pub book_after : Pipeline F → MarketEvent → Orderbook F
  book_after p (depth_update update) = (Orderbook.handle_update p.book update p.resync_needed).book
  book_after p (depth_snapshot snap) = (Orderbook.handle_snapshot p.book snap).0
  book_after p (trade t) = p.book
  book_after p reconnect = Orderbook.reset p.book

  -- The resync flag after an event.
  abbrev pub resync_after : Pipeline F → MarketEvent → Bool
  resync_after p (depth_update update) =
      (Orderbook.handle_update p.book update p.resync_needed).resync_needed
  resync_after p (depth_snapshot snap) = p.resync_needed
  resync_after p (trade t) = p.resync_needed
  resync_after p reconnect = p.resync_needed

  pub handle_event-Round :
      (p : Pipeline F) (event : MarketEvent) (at : Reading)
      → Round p (book_after p event) (resync_after p event) event at (handle_event p event at)
  unfolding handle_event
  handle_event-Round p (depth_update update) at =
      let r = Orderbook.handle_update p.book update p.resync_needed in
      elim (handle_update-answer p.book update p.resync_needed) [
        | inl (e, l) ↦ rw e (after_true p (incr p.event_count) r.book r.resync_needed update at l)
        | inr e ↦ rw e (after_false p (incr p.event_count) r.book r.resync_needed update at)
      ]
  handle_event-Round p (depth_snapshot snap) at = record {
    next = record p {
      event_count = incr p.event_count;
      book = (Orderbook.handle_snapshot p.book snap).0;
    };
    returned = refl;
    is_sent = inl (refl, refl);
    book_is = refl;
    resync_is = refl;
    kept = record {
      account_kept = refl;
      cash_kept = refl;
      buys_kept = refl;
      sells_kept = refl;
      halt_kept = refl;
      wiring_kept = refl;
      held = λ h k. refl;
    };
    window_kept = λ w. w;
    is_shown = λ h q. handle_snapshot-live p.book snap;
  }
  handle_event-Round p (trade t) at = record {
    next = record p { event_count = incr p.event_count };
    returned = refl;
    is_sent = inl (refl, refl);
    book_is = refl;
    resync_is = refl;
    kept = record {
      account_kept = refl;
      cash_kept = refl;
      buys_kept = refl;
      sells_kept = refl;
      halt_kept = refl;
      wiring_kept = refl;
      held = λ h k. refl;
    };
    window_kept = λ w. w;
    is_shown = λ h. h;
  }
  handle_event-Round p reconnect at = record {
    next = record p {
      event_count = incr p.event_count;
      book = Orderbook.reset p.book;
      dash_state = record (p.dash_state) { connected = false; is_live = false };
    };
    returned = refl;
    is_sent = inl (refl, refl);
    book_is = refl;
    resync_is = refl;
    kept = record {
      account_kept = refl;
      cash_kept = refl;
      buys_kept = refl;
      sells_kept = refl;
      halt_kept = refl;
      wiring_kept = refl;
      held = λ h k. refl;
    };
    window_kept = λ w. w;
    is_shown = λ h q. absurd (false≢true q);
  }
