-- ===== src/System/Recovery/Fetches.antt =====
-- The tasks that fetch a snapshot, for a new socket and on a resync.
use rust_hft.Common.{
  ℕ, ◌+◌, ◌<◌, ◌≡◌, refl, Bool, true, false, Option, none, some, ◌⊎◌, inl, inr, arith,
}
use rust_hft.Double.{Double}
use rust_hft.Types.{DepthSnapshot}
use rust_hft.Orderbook
use rust_hft.System.Defs.{
  System, Link, down, up, stopped, on_connected, on_start_fetch, on_fetched, on_poll, on_refetched,
}
use rust_hft.System.Steps.{Holds}
use rust_hft.System.Resync.{covered, covered-push}

module _ {F : Type 0} ⦃d : Double F⦄ where
  -- A snapshot task that still runs, or the flag that a poller will see.
  abbrev pub IsPending : System F → Type 0
  IsPending s = (s.thread.resync_needed ≡ true) ⊎ (0 < s.starting + s.fetching + s.refetching)

  abbrev pub is_covered : System F → Bool
  is_covered s = covered (Orderbook.is_live s.thread.book) s.queue

  -- While a socket is read, a poller exists, and the events in the channel make the book live or a
  -- snapshot is on its way or asked for.
  pub record Recovers (s : System F) : Type 0 where
    pub served : s.link ≡ up → 0 < s.pollers + s.refetching
    pub coming : s.link ≡ up → (is_covered s ≡ true) ⊎ IsPending s

  pub start_fetch-Recovers :
      (s : System F) (o : Option ℕ) → Recovers s → Holds Recovers (on_start_fetch o s)
  start_fetch-Recovers s none h = tt
  start_fetch-Recovers s (some n) h = record {
    served = h.served;
    coming = λ u. inr (inr (omega arith));
  }

  pub fetched-Recovers :
      (s : System F) (o : Option ℕ) (snap : DepthSnapshot)
      → Recovers s
      → Holds Recovers (on_fetched o s (some snap))
  fetched-Recovers s none snap h = tt
  fetched-Recovers s (some n) snap h = record {
    served = h.served;
    coming = λ u. inl (covered-push (Orderbook.is_live s.thread.book) s.queue snap);
  }

  pub poll-Recovers :
      (s : System F) (o : Option ℕ) (flag : Bool) → Recovers s → Holds Recovers (on_poll o flag s)
  poll-Recovers s none flag h = tt
  poll-Recovers s (some n) false h = h
  poll-Recovers s (some n) true h = record {
    served = λ u. omega arith;
    coming = λ u. inr (inr (omega arith));
  }

  pub refetched-Recovers :
      (s : System F) (o : Option ℕ) (answer : Option DepthSnapshot)
      → Recovers s
      → Holds Recovers (on_refetched o s answer)
  refetched-Recovers s none answer h = tt
  refetched-Recovers s (some n) none h = record {
    served = λ u. omega arith;
    coming = λ u. inr (inl refl);
  }
  refetched-Recovers s (some n) (some snap) h = record {
    served = λ u. omega arith;
    coming = λ u. inl (covered-push (Orderbook.is_live s.thread.book) s.queue snap);
  }

  pub connected-Recovers :
      (s : System F) (link : Link) → Recovers s → Holds Recovers (on_connected link s)
  connected-Recovers s down h = record {
    served = λ u. omega arith;
    coming = λ u. inr (inr (omega arith));
  }
  connected-Recovers s up h = tt
  connected-Recovers s stopped h = tt
