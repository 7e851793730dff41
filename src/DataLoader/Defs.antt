-- ===== src/DataLoader/Defs.antt =====
-- The functions of src/backtest/data_loader.rs. The trimming and the JSON reader are arguments, and so
-- are the rounding and the printing of a double. The arithmetic of `u64` wraps, as in a release build.
use package.text.Mathlib.Text.{◌==◌ as str_eq}
use rust_hft.Common.{
  ℕ, zero, suc, ◌+◌, ◌*◌, ◌/◌, ◌%◌, ◌^◌, Bool, false, not, ◌||◌, Option, none, some, List, [], ◌∷◌,
  ◌++◌, map, retain, String, Result, ok, err, ◌>>=◌, map_err, if◌then◌else◌,
}
use rust_hft.Double.{Double, ◌⊕◌, ◌⊖◌, ◌⊗◌, ◌⊘◌}
use rust_hft.Types.{DepthUpdate, DepthSnapshot}

-- The errors: of the file or the reading of a line, and of the JSON reader with the line's number.
pub data LoadError (E J : Type 0) : Type 0 where
  io : E → LoadError E J
  bad_line : ℕ → J → LoadError E J

-- What the loader calls: `File::open` with the lines that it then reads, `trim`, and
-- `serde_json::from_str`.
pub record Source (E J : Type 0) : Type 0 where
  pub open_file : String → Result (List (Result String E)) E
  pub trim : String → String
  pub from_str : String → Result DepthUpdate J

abbrev pub after_line : List DepthUpdate → Option DepthUpdate → List DepthUpdate
after_line updates none = updates
after_line updates (some update) = updates ++ (update ∷ [])

module _ {E J : Type 0} (src : Source E J) where
  -- What one line gives: nothing if it is blank.
  unfoldable pub line_update : ℕ → String → Result (Option DepthUpdate) (LoadError E J)
  line_update line_num line =
      let trimmed = src.trim line in
      if str_eq trimmed ""
      then ok none
      else map_err (bad_line (line_num + 1)) (src.from_str trimmed) >>= λ update. ok (some update)

  -- The loop over the lines, from the one that has `line_num` lines before it.
  unfoldable pub load_lines :
      ℕ → List DepthUpdate → List (Result String E) → Result (List DepthUpdate) (LoadError E J)
  unfolding line_update
  load_lines line_num updates [] = ok updates
  load_lines line_num updates (err e ∷ lines) = err (io e)
  load_lines line_num updates (ok line ∷ lines) = line_update line_num line >>= λ update.
      load_lines (line_num + 1) (after_line updates update) lines

  unfoldable pub load_depth_updates : String → Result (List DepthUpdate) (LoadError E J)
  unfolding load_lines
  load_depth_updates path = map_err io (src.open_file path) >>= load_lines 0 []

-- `f64::round`, `{:.2}` and `{:.4}`.
pub record Printer (F : Type 0) : Type 0 where
  pub round : F → F
  pub two_places : F → String
  pub four_places : F → String

abbrev pub base_update_id : ℕ
base_update_id = 1000

-- `0x5DEECE66D`
abbrev pub first_state : ℕ
first_state = 25_214_903_917

abbrev pub next_state : ℕ → ℕ
next_state rng_state =
    (rng_state * 6_364_136_223_846_793_005 % 2 ^ 64 + 1_442_695_040_888_963_407) % 2 ^ 64

-- The variables of the snapshot's loop.
pub record Quoted (F : Type 0) : Type 0 where
  pub rng_state : ℕ
  pub snap_bids : List (String × String)
  pub snap_asks : List (String × String)
  pub prev_bid_prices : List F
  pub prev_ask_prices : List F

-- The variables of the loop over the events, but for the events.
pub record Walk (F : Type 0) : Type 0 where
  pub rng_state : ℕ
  pub mid : F
  pub last_id : ℕ
  pub prev_bid_prices : List F
  pub prev_ask_prices : List F

module _ {F : Type 0} ⦃d : Double F⦄ (p : Printer F) where
  abbrev pub base_price : F
  base_price = d.lit 65000 0

  -- The number for a state of the generator.
  abbrev pub rand_of : ℕ → F
  rand_of rng_state = d.of_u64 (rng_state / 2 ^ 33) ⊘ d.of_u64 (2 ^ 31)

  abbrev pub qty_of : ℕ → F
  qty_of rng_state = d.lit 25 2 ⊕ rand_of rng_state ⊗ d.lit 15 1

  abbrev pub level_of : F → F → String × String
  level_of price qty = (p.two_places price, p.four_places qty)

  -- The body of the snapshot's loop, and the rounds that are left.
  unfoldable pub quote_level : ℕ → Quoted F → Quoted F
  quote_level i q =
      let bid_price = base_price ⊖ (d.of_u64 i ⊕ d.lit 1 0) ⊗ d.lit 10 0 in
      let ask_price = base_price ⊕ (d.of_u64 i ⊕ d.lit 1 0) ⊗ d.lit 10 0 in
      let rng = next_state q.rng_state in
      record {
        rng_state = rng;
        snap_bids = q.snap_bids ++ (level_of bid_price (qty_of rng) ∷ []);
        snap_asks = q.snap_asks ++ (level_of ask_price (qty_of rng) ∷ []);
        prev_bid_prices = q.prev_bid_prices ++ (bid_price ∷ []);
        prev_ask_prices = q.prev_ask_prices ++ (ask_price ∷ []);
      }

  unfoldable pub quote_levels : ℕ → ℕ → Quoted F → Quoted F
  unfolding quote_level
  quote_levels zero i q = q
  quote_levels (suc left) i q = quote_levels left (i + 1) (quote_level i q)

  -- `new_prices.iter().any(|&np| (np - p).abs() < 0.005)`
  abbrev pub is_requoted : List F → F → Bool
  is_requoted [] price = false
  is_requoted (np ∷ new_prices) price =
      d.lt (d.abs (np ⊖ price)) (d.lit 5 3) || is_requoted new_prices price

  -- The deletions of the levels that are not quoted again.
  unfoldable pub deletions : List F → List F → List (String × String)
  deletions prev_prices new_prices =
      map (λ price. (p.two_places price, "0.0000"))
        (retain (λ price. not (is_requoted new_prices price)) prev_prices)

  -- The fresh levels, and the generator's state behind them.
  unfoldable pub fresh_levels : ℕ → List F → List (String × String) × ℕ
  fresh_levels rng [] = ([], rng)
  fresh_levels rng (price ∷ prices) =
      let rng' = next_state rng in
      let rest = fresh_levels rng' prices in (level_of price (qty_of rng') ∷ rest.0, rest.1)

  -- One round of the loop over the events.
  unfoldable pub next_event : String → ℕ → Walk F → Walk F × DepthUpdate
  unfolding deletions fresh_levels
  next_event symbol i w =
      let rng = next_state w.rng_state in
      let mid = w.mid ⊕ p.round (rand_of rng ⊗ d.lit 20 0 ⊖ d.lit 10 0) in
      let new_bid_prices = (mid ⊖ d.lit 10 0) ∷ (mid ⊖ d.lit 20 0) ∷ [] in
      let new_ask_prices = (mid ⊕ d.lit 10 0) ∷ (mid ⊕ d.lit 20 0) ∷ [] in
      let bids = fresh_levels rng new_bid_prices in
      let asks = fresh_levels bids.1 new_ask_prices in
      let last_update_id = (w.last_id + 1) % 2 ^ 64 in
      (
        record {
          rng_state = asks.1;
          mid = mid;
          last_id = last_update_id;
          prev_bid_prices = new_bid_prices;
          prev_ask_prices = new_ask_prices;
        },
        record {
          event_type = "depthUpdate";
          event_time = (1_700_000_000_000 + i * 100 % 2 ^ 64) % 2 ^ 64;
          symbol = symbol;
          first_update_id = (w.last_id + 1) % 2 ^ 64;
          last_update_id = last_update_id;
          prev_last_update_id = w.last_id;
          bids = deletions w.prev_bid_prices new_bid_prices ++ bids.0;
          asks = deletions w.prev_ask_prices new_ask_prices ++ asks.0;
        },
      )

  -- The rounds that are left, from the round `i` on.
  unfoldable pub events_from : String → ℕ → ℕ → Walk F → List DepthUpdate
  unfolding next_event
  events_from symbol zero i w = []
  events_from symbol (suc left) i w =
      let r = next_event symbol i w in r.1 ∷ events_from symbol left (i + 1) r.0

  unfoldable pub generate_synthetic_data : String → ℕ → DepthSnapshot × List DepthUpdate
  unfolding quote_levels events_from
  generate_synthetic_data symbol num_events =
      let q = quote_levels 5 0 (record {
        rng_state = first_state;
        snap_bids = [];
        snap_asks = [];
        prev_bid_prices = [];
        prev_ask_prices = [];
      }) in
      (
        record { last_update_id = base_update_id; bids = q.snap_bids; asks = q.snap_asks },
        events_from symbol num_events 0 (record {
          rng_state = q.rng_state;
          mid = base_price;
          last_id = base_update_id;
          prev_bid_prices = q.prev_bid_prices;
          prev_ask_prices = q.prev_ask_prices;
        }),
      )
