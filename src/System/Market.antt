-- ===== src/System/Market.antt =====
-- The steps of the tasks that bring the market's events, and the actions by what they change.
use mathlib.Core.Bool.{false≢true}
use rust_hft.Common.{
  ℕ, ◌≡◌, refl, Bool, true, false, Option, none, some, String, [], ◌∷◌, if◌then◌else◌,
}
use rust_hft.Double.{Double}
use rust_hft.Types.{reconnect, DepthSnapshot}
use rust_hft.Watchdog.{is_silent}
use rust_hft.Ingestion.{Codec, Read, Handled, on_read}
use rust_hft.Pipeline.{Reading}
use rust_hft.System.Defs.{
  System, Link, down, up, stopped, Action, connected, refused, cancelled, start_fetch, fetched,
  poll, refetched, read_socket, handle, wake, look, store, put_file, halt_request, resume_request,
  sample, execute, events_of, lost, push, on_connected, on_refused, on_start_fetch, on_fetched,
  on_poll, on_refetched, after_read, on_read_socket, take_one, step,
}
use rust_hft.System.Steps.{Holds, map-Holds}

-- The actions of the ingestion task, its fetches and pollers, and the watchdog.
abbrev pub is_market : Action → Bool
is_market connected = true
is_market refused = true
is_market cancelled = true
is_market start_fetch = true
is_market (fetched o) = true
is_market poll = true
is_market (refetched o) = true
is_market (read_socket now r) = true
is_market (wake now) = true
is_market a = false

module _ {F : Type 0} ⦃d : Double F⦄ where
  -- What such a step leaves: the thread but for the resync flag, and the tasks for orders and the file.
  abbrev pub IsApart : System F → System F → Type 0
  IsApart s s' = s' ≡ record s' {
    thread = record (s.thread) { resync_needed = s'.thread.resync_needed };
    halt_file = s.halt_file;
    seen = s.seen;
    executor = s.executor;
    executed = s.executed;
  }

  read-IsApart : (s : System F) (h : Handled) → IsApart s (after_read s h)
  read-IsApart s h = by_goes_on h.goes_on
    where
      by_goes_on :
          (b : Bool)
          → let s' = push (record s { watchdog = h.watchdog }) (events_of h.sent) in
            IsApart s (if b then s' else lost s')
      by_goes_on true = refl
      by_goes_on false = refl

  -- Each of the actions, with what it depends on as an argument.
  connected-IsApart : (s : System F) (link : Link) → Holds (IsApart s) (on_connected link s)
  connected-IsApart s down = refl
  connected-IsApart s up = tt
  connected-IsApart s stopped = tt

  refused-IsApart : (s : System F) (link : Link) → Holds (IsApart s) (on_refused link s)
  refused-IsApart s down = refl
  refused-IsApart s up = tt
  refused-IsApart s stopped = tt

  start_fetch-IsApart : (s : System F) (o : Option ℕ) → Holds (IsApart s) (on_start_fetch o s)
  start_fetch-IsApart s none = tt
  start_fetch-IsApart s (some n) = refl

  fetched-IsApart :
      (s : System F) (o : Option ℕ) (answer : Option DepthSnapshot)
      → Holds (IsApart s) (on_fetched o s answer)
  fetched-IsApart s none answer = tt
  fetched-IsApart s (some n) answer = refl

  poll-IsApart : (s : System F) (o : Option ℕ) (flag : Bool) → Holds (IsApart s) (on_poll o flag s)
  poll-IsApart s none flag = tt
  poll-IsApart s (some n) false = refl
  poll-IsApart s (some n) true = refl

  refetched-IsApart :
      (s : System F) (o : Option ℕ) (answer : Option DepthSnapshot)
      → Holds (IsApart s) (on_refetched o s answer)
  refetched-IsApart s none answer = tt
  refetched-IsApart s (some n) none = refl
  refetched-IsApart s (some n) (some snap) = refl

  read_socket-IsApart :
      (s : System F) (link : Link) (codec : Codec) (now : ℕ) (r : Read)
      → Holds (IsApart s) (on_read_socket link codec s now r)
  read_socket-IsApart s down codec now r = tt
  read_socket-IsApart s up codec now r =
      map-Holds (IsApart s) (after_read s) (on_read codec s.watchdog now r)
        (λ h e. read-IsApart s h)
  read_socket-IsApart s stopped codec now r = tt

  wake-IsApart : (s : System F) (b : Bool) → IsApart s (if b then push s (reconnect ∷ []) else s)
  wake-IsApart s true = refl
  wake-IsApart s false = refl

  pub step-IsApart :
      (codec : Codec) (timeout_secs : ℕ) (s : System F) (a : Action)
      → is_market a ≡ true
      → Holds (IsApart s) (step codec timeout_secs s a)
  unfolding step
  step-IsApart codec t s connected m = connected-IsApart s s.link
  step-IsApart codec t s refused m = refused-IsApart s s.link
  step-IsApart codec t s cancelled m = refl
  step-IsApart codec t s start_fetch m = start_fetch-IsApart s (take_one s.starting)
  step-IsApart codec t s (fetched o) m = fetched-IsApart s (take_one s.fetching) o
  step-IsApart codec t s poll m = poll-IsApart s (take_one s.pollers) s.thread.resync_needed
  step-IsApart codec t s (refetched o) m = refetched-IsApart s (take_one s.refetching) o
  step-IsApart codec t s (read_socket now r) m = read_socket-IsApart s s.link codec now r
  step-IsApart codec t s (wake now) m = wake-IsApart s (is_silent s.watchdog t now)
  step-IsApart codec t s (handle at) m = absurd (false≢true m)
  step-IsApart codec t s look m = absurd (false≢true m)
  step-IsApart codec t s store m = absurd (false≢true m)
  step-IsApart codec t s (put_file exists) m = absurd (false≢true m)
  step-IsApart codec t s (halt_request worked) m = absurd (false≢true m)
  step-IsApart codec t s (resume_request worked) m = absurd (false≢true m)
  step-IsApart codec t s sample m = absurd (false≢true m)
  step-IsApart codec t s (execute now) m = absurd (false≢true m)

  -- A property of what such steps leave is kept by them.
  pub market-Holds :
      (P : System F → Type 0) (codec : Codec) (timeout_secs : ℕ) (s : System F) (a : Action)
      → is_market a ≡ true
      → ((s' : System F) → IsApart s s' → P s')
      → Holds P (step codec timeout_secs s a)
  market-Holds P codec t s a m keeps = by_result (step codec t s a) (step-IsApart codec t s a m)
    where
      by_result : (o : Option (System F)) → Holds (IsApart s) o → Holds P o
      by_result none h = tt
      by_result (some s') h = keeps s' h

-- The actions by what they change.
pub data View : Action → Type 0 where
  of_market : {a : Action} → is_market a ≡ true → View a
  of_handle : {at : Reading} → View (handle at)
  of_look : View look
  of_store : View store
  of_put_file : {exists : Bool} → View (put_file exists)
  of_halt : {worked : Bool} → View (halt_request worked)
  of_resume : {worked : Bool} → View (resume_request worked)
  of_sample : View sample
  of_execute : {now : String} → View (execute now)

pub view : (a : Action) → View a
view connected = of_market refl
view refused = of_market refl
view cancelled = of_market refl
view start_fetch = of_market refl
view (fetched o) = of_market refl
view poll = of_market refl
view (refetched o) = of_market refl
view (read_socket now r) = of_market refl
view (handle at) = of_handle
view (wake now) = of_market refl
view look = of_look
view store = of_store
view (put_file exists) = of_put_file
view (halt_request worked) = of_halt
view (resume_request worked) = of_resume
view sample = of_sample
view (execute now) = of_execute
