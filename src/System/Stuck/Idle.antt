-- ===== src/System/Stuck/Idle.antt =====
-- A system that fetches no snapshot and asks for none, and what keeps it so.
use mathlib.Core.Option
use mathlib.Core.Bool.{false≢true}
use rust_hft.Common.{
  ℕ, ◌≡◌, refl, sym, ap, ◌∙◌, false, Option, none, some, List, [], ◌∷◌, ◌++◌, inl, inr,
}
use rust_hft.Double.{Double}
use rust_hft.Types.{MarketEvent, depth_update, depth_snapshot, trade, reconnect, ValidatedOrder}
use rust_hft.Orderbook
use rust_hft.Orderbook.{Orderbook}
use rust_hft.Orderbook.Sync.{handle_update_buffering}
use rust_hft.Ingestion.{Codec, Read, on_read}
use rust_hft.Ingestion.Reads.{Ends}
use rust_hft.Ingestion.Sends.{IsFeed, on_read-IsFeed, goes_on_lem}
use rust_hft.Pipeline.{Pipeline, Reading}
use rust_hft.Pipeline.Rounds.{book_after, resync_after, handle_event-Round}
use mathlib.Core.Path.{subst}
use rust_hft.System.Defs.{System, up, events_of, push, after_read, on_handle}
use rust_hft.System.Steps.{Holds, map-Holds}

-- No snapshot is in the channel.
abbrev pub HasNone : List MarketEvent → Type 0
HasNone [] = Unit
HasNone (depth_update update ∷ queue) = HasNone queue
HasNone (depth_snapshot snap ∷ queue) = ⊥
HasNone (trade t ∷ queue) = HasNone queue
HasNone (reconnect ∷ queue) = HasNone queue

pub ++-HasNone : (xs ys : List MarketEvent) → HasNone xs → HasNone ys → HasNone (xs ++ ys)
++-HasNone [] ys h k = k
++-HasNone (depth_update update ∷ xs) ys h k = ++-HasNone xs ys h k
++-HasNone (depth_snapshot snap ∷ xs) ys h k = absurd h
++-HasNone (trade t ∷ xs) ys h k = ++-HasNone xs ys h k
++-HasNone (reconnect ∷ xs) ys h k = ++-HasNone xs ys h k

IsFeed-HasNone : (o : Option MarketEvent) → IsFeed o → HasNone (events_of o)
IsFeed-HasNone none f = tt
IsFeed-HasNone (some (depth_update u)) f = tt
IsFeed-HasNone (some (trade t)) f = tt
IsFeed-HasNone (some (depth_snapshot s)) f = absurd f
IsFeed-HasNone (some reconnect) f = absurd f

module _ {F : Type 0} ⦃d : Double F⦄ where
  -- A socket is read, no snapshot is in the channel or being fetched, and none is asked for.
  pub record IsIdle (s : System F) : Type 0 where
    pub link_up : s.link ≡ up
    pub none_sent : HasNone s.queue
    pub none_asked : s.thread.resync_needed ≡ false
    pub none_starting : s.starting ≡ 0
    pub none_fetching : s.fetching ≡ 0
    pub none_refetching : s.refetching ≡ 0

  abbrev pub IsStuck : System F → Type 0
  IsStuck s = IsIdle s × (Orderbook.is_live s.thread.book ≡ false)

  -- What holds along a schedule: the state is stuck, and the orders are the old ones.
  abbrev pub SentOnly : List (ValidatedOrder F) → System F → Type 0
  SentOnly orders s = IsStuck s × (s.thread.orders ≡ orders)

  quiet_round :
      (p : Pipeline F) (event : MarketEvent) (queue : List MarketEvent)
      → HasNone (event ∷ queue)
      → p.resync_needed ≡ false
      → Orderbook.is_live p.book ≡ false
      → HasNone queue
        × (Orderbook.is_live (book_after p event) ≡ false)
        × (resync_after p event ≡ false)
  unfolding Orderbook.is_live Orderbook.reset
  quiet_round p (depth_update update) queue h f l =
      let (a, b) = handle_update_buffering p.book update p.resync_needed l in (h, a, b ∙ f)
  quiet_round p (depth_snapshot snap) queue h f l = absurd h
  quiet_round p (trade t) queue h f l = (h, l, f)
  quiet_round p reconnect queue h f l = (h, refl, f)

  pub handle-SentOnly :
      (orders : List (ValidatedOrder F)) (s : System F) (queue : List MarketEvent) (at : Reading)
      → s.queue ≡ queue
      → SentOnly orders s
      → Holds (SentOnly orders) (on_handle queue s at)
  handle-SentOnly orders s [] at e h = tt
  handle-SentOnly orders s (event ∷ queue) at e ((i, l), o) =
      let r = handle_event-Round s.thread event at in
      let (q, l', f) = quiet_round s.thread event queue (rw e at i.none_sent) i.none_asked l in
      let next_not_live : Orderbook.is_live r.next.book ≡ false =
        ap Orderbook.is_live r.book_is ∙ l' in
      rw r.returned (
        (
          record {
            link_up = i.link_up;
            none_sent = q;
            none_asked = r.resync_is ∙ f;
            none_starting = i.none_starting;
            none_fetching = i.none_fetching;
            none_refetching = i.none_refetching;
          },
          next_not_live,
        ),
        elim r.is_sent [
          | inl (k, m) ↦ k ∙ o
          | inr t ↦ absurd (false≢true (sym next_not_live ∙ t.book_live))
        ],
      )

  -- More in the channel, but no snapshot.
  pub push-SentOnly :
      (orders : List (ValidatedOrder F)) (s : System F) (events : List MarketEvent)
      → HasNone events
      → SentOnly orders s
      → SentOnly orders (push s events)
  push-SentOnly orders s events n ((i, l), o) = (
    (
      record {
        link_up = i.link_up;
        none_sent = ++-HasNone s.queue events i.none_sent n;
        none_asked = i.none_asked;
        none_starting = i.none_starting;
        none_fetching = i.none_fetching;
        none_refetching = i.none_refetching;
      },
      l,
    ),
    o,
  )

  -- A change outside what the state is stuck in.
  abbrev pub IsAside : System F → System F → Type 0
  IsAside s s' = s' ≡ record s' {
    link = s.link;
    queue = s.queue;
    starting = s.starting;
    fetching = s.fetching;
    refetching = s.refetching;
    thread = record (s'.thread) {
      book = s.thread.book;
      resync_needed = s.thread.resync_needed;
      orders = s.thread.orders;
    };
  }

  pub aside-SentOnly :
      (orders : List (ValidatedOrder F)) (s s' : System F)
      → IsAside s s'
      → SentOnly orders s
      → SentOnly orders s'
  aside-SentOnly orders s s' e ((i, l), o) = (
    (
      record {
        link_up = ap (λ x. x.link) e ∙ i.link_up;
        none_sent = subst HasNone (sym (ap (λ x. x.queue) e)) i.none_sent;
        none_asked = ap (λ x. x.thread.resync_needed) e ∙ i.none_asked;
        none_starting = ap (λ x. x.starting) e ∙ i.none_starting;
        none_fetching = ap (λ x. x.fetching) e ∙ i.none_fetching;
        none_refetching = ap (λ x. x.refetching) e ∙ i.none_refetching;
      },
      ap (λ x. Orderbook.is_live x.thread.book) e ∙ l,
    ),
    ap (λ x. x.thread.orders) e ∙ o,
  )

  pub read-SentOnly :
      (orders : List (ValidatedOrder F)) (s : System F) (codec : Codec) (now : ℕ) (r : Read)
      → ¬ Ends r
      → SentOnly orders s
      → Holds (SentOnly orders) (Option.map (after_read s) (on_read codec s.watchdog now r))
  read-SentOnly orders s codec now r n h =
      map-Holds (SentOnly orders) (after_read s) (on_read codec s.watchdog now r) (λ k e.
        let f = IsFeed-HasNone k.sent (on_read-IsFeed codec s.watchdog now r k e) in
        rw (goes_on_lem codec s.watchdog now r k e n) (
          push-SentOnly orders (record s { watchdog = k.watchdog }) (events_of k.sent) f
            (aside-SentOnly orders s (record s { watchdog = k.watchdog }) refl h)))
