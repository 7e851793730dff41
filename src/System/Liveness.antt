-- ===== src/System/Liveness.antt =====
-- The way back to a live book, as a schedule.
use mathlib.Core.Option
use native.Mathlib.Decide.{dec_lt}
use rust_hft.Common.{
  ℕ, ◌+◌, ◌-◌, ◌<◌, ◌≡◌, refl, Bool, true, false, some, List, [], ◌∷◌, ◌⊎◌, inl, inr, arith,
}
use rust_hft.Double.{Double}
use rust_hft.Types.{MarketEvent, DepthSnapshot, depth_snapshot}
use rust_hft.Config.{Config}
use rust_hft.Orderbook
use rust_hft.Ingestion.{Codec}
use rust_hft.Pipeline.{Reading}
use rust_hft.Pipeline.Rounds.{handle_event-Round, handle_snapshot-live}
use rust_hft.System.Defs.{
  System, up, Action, handle, start_fetch, fetched, poll, refetched, push, with_flag, begin, step,
  run_all,
}
use rust_hft.System.Steps.{take_one_pos, IsAlong, run_all-Holds}
use rust_hft.System.Recovery.{
  Recovers, IsPending, IsBenign, handle-Recovers, step-Recovers, down≢up,
}

-- What the program does of itself: a poller wakes, a fetch starts or is answered, the thread takes an
-- event.
abbrev pub IsRoutine : Action → Type 0
IsRoutine start_fetch = Unit
IsRoutine (fetched (some snap)) = Unit
IsRoutine poll = Unit
IsRoutine (refetched (some snap)) = Unit
IsRoutine (handle at) = Unit
IsRoutine a = ⊥

abbrev pub AllRoutine : List Action → Type 0
AllRoutine [] = Unit
AllRoutine (a ∷ actions) = IsRoutine a × AllRoutine actions

some_task : (a b c : ℕ) → 0 < a + b + c → (0 < a) ⊎ ((0 < b) ⊎ (0 < c))
some_task a b c h = grind arith

module _ {F : Type 0} ⦃d : Double F⦄ where
  -- A schedule of routine steps after which the book is live.
  pub record GoesLive (codec : Codec) (timeout_secs : ℕ) (s : System F) : Type 0 where
    pub actions : List Action
    pub last : System F
    pub ran : run_all codec timeout_secs s actions ≡ some last
    pub routine : AllRoutine actions
    pub live : Orderbook.is_live last.thread.book ≡ true

  -- One step before such a schedule.
  after_step :
      (codec : Codec) (t : ℕ) (s : System F) (a : Action) (s' : System F)
      → step codec t s a ≡ some s'
      → IsRoutine a
      → GoesLive codec t s'
      → GoesLive codec t s
  unfolding run_all Option.bind
  after_step codec t s a s' e k g = record {
    actions = a ∷ g.actions;
    last = g.last;
    ran = rw e g.ran;
    routine = (k, g.routine);
    live = g.live;
  }

  at_once :
      (codec : Codec) (t : ℕ) (s : System F)
      → Orderbook.is_live s.thread.book ≡ true
      → GoesLive codec t s
  unfolding run_all
  at_once codec t s h = record { actions = []; last = s; ran = refl; routine = tt; live = h }

  snapshot_ahead :
      (codec : Codec) (t : ℕ) (at : Reading) (s : System F) (snap : DepthSnapshot)
      → s.queue ≡ depth_snapshot snap ∷ []
      → GoesLive codec t s
  unfolding step
  snapshot_ahead codec t at s snap e =
      let r = handle_event-Round s.thread (depth_snapshot snap) at in
      after_step codec t s (handle at) (record s { thread = r.next; queue = [] })
        (rw (e, r.returned) refl) tt
        (at_once codec t _ (rw r.book_is (handle_snapshot-live s.thread.book snap)))

  module _ (codec : Codec) (t : ℕ) (at : Reading) (snap : DepthSnapshot) where
    from_fetching : (s : System F) → s.queue ≡ [] → 0 < s.fetching → GoesLive codec t s
    unfolding step
    from_fetching s e h =
        after_step codec t s (fetched (some snap))
          (push (record s { fetching = s.fetching - 1 }) (depth_snapshot snap ∷ []))
          (rw (take_one_pos s.fetching h) refl) tt (snapshot_ahead codec t at _ snap (rw e refl))

    from_refetching : (s : System F) → s.queue ≡ [] → 0 < s.refetching → GoesLive codec t s
    unfolding step
    from_refetching s e h =
        after_step codec t s (refetched (some snap))
          (push (record s { refetching = s.refetching - 1; pollers = s.pollers + 1 })
            (depth_snapshot snap ∷ []))
          (rw (take_one_pos s.refetching h) refl) tt (snapshot_ahead codec t at _ snap (rw e refl))

    from_starting : (s : System F) → s.queue ≡ [] → 0 < s.starting → GoesLive codec t s
    unfolding step
    from_starting s e h =
        after_step codec t s start_fetch
          (with_flag (record s { starting = s.starting - 1; fetching = s.fetching + 1 }) false)
          (rw (take_one_pos s.starting h) refl) tt (from_fetching _ e (omega arith))

    from_flag :
        (s : System F)
        → s.queue ≡ []
        → s.thread.resync_needed ≡ true
        → 0 < s.pollers
        → GoesLive codec t s
    unfolding step
    from_flag s e f h =
        after_step codec t s poll
          (with_flag (record s { pollers = s.pollers - 1; refetching = s.refetching + 1 }) false)
          (rw (f, take_one_pos s.pollers h) refl) tt (from_refetching _ e (omega arith))

    from_pending :
        (s : System F)
        → s.queue ≡ []
        → 0 < s.pollers + s.refetching
        → IsPending s
        → GoesLive codec t s
    from_pending s e p (inl f) = elim (dec_lt 0 s.refetching) [
      | yes h ↦ from_refetching s e h
      | no h ↦ from_flag s e f (omega arith)
    ]
    from_pending s e p (inr n) = elim (some_task s.starting s.fetching s.refetching n) [
      | inl h ↦ from_starting s e h
      | inr (inl h) ↦ from_fetching s e h
      | inr (inr h) ↦ from_refetching s e h
    ]

    -- The thread empties the channel; then the book is live, or a snapshot can come.
    from_queue :
        (queue : List MarketEvent) (s : System F)
        → s.queue ≡ queue
        → s.link ≡ up
        → Recovers s
        → GoesLive codec t s
    unfolding step
    from_queue [] s e u h = elim (h.coming u) [
      | inl c ↦ at_once codec t s (rw e at c)
      | inr p ↦ from_pending s e (h.served u) p
    ]
    from_queue (event ∷ queue) s e u h =
        let r = handle_event-Round s.thread event at in
        let s' : System F = record s { thread = r.next; queue = queue } in
        let kept : Recovers s' = rw r.returned at (handle-Recovers s (event ∷ queue) at e h) in
        after_step codec t s (handle at) s' (rw (e, r.returned) refl) tt
          (from_queue queue s' refl u kept)

  begin-Recovers : (cfg : Config F) (halt : Bool) (now : ℕ) → Recovers (begin cfg halt now)
  unfolding begin
  begin-Recovers cfg halt now = record {
    served = λ u. absurd (down≢up u);
    coming = λ u. absurd (down≢up u);
  }

  -- From the start, whatever the tasks and the exchange did as long as no socket's first fetch failed
  -- and the watchdog did not fire: while a socket is read, there is a schedule of nothing but polls,
  -- fetches that are answered and the thread's rounds after which the book is live.
  pub run_all-GoesLive :
      (cfg : Config F) (halt : Bool) (now : ℕ) (codec : Codec) (timeout_secs : ℕ)
      (actions : List Action) (s : System F) (at : Reading) (snap : DepthSnapshot)
      → IsAlong (IsBenign timeout_secs) codec timeout_secs (begin cfg halt now) actions
      → run_all codec timeout_secs (begin cfg halt now) actions ≡ some s
      → s.link ≡ up
      → GoesLive codec timeout_secs s
  run_all-GoesLive cfg halt now codec t actions s at snap w e u =
      let kept =
        run_all-Holds (IsBenign t) Recovers codec t (step-Recovers codec t) actions
          (begin cfg halt now) w (begin-Recovers cfg halt now) in
      from_queue codec t at snap s.queue s refl u (rw e at kept)
