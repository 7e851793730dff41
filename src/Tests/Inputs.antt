-- ===== src/Tests/Inputs.antt =====
-- Reads from the socket, files of updates and command lines on concrete inputs.
use package.text.Mathlib.Text.{◌==◌ as str_eq}
use package.text.Mathlib.TextEquality.{eq_iff}
use mathlib.Core.Bool.{false≢true}
use rust_hft.Common.{
  if◌then◌else◌, ℕ, ◌≡◌, ◌≢◌, ◌+◌, refl, sym, ◌∙◌, false, none, some, List, [], ◌∷◌, ◌++◌, arith,
  String, Result, ok, err, length,
}
use rust_hft.Common.Int.{ℤ}
use rust_hft.Types.{DepthUpdate}
use rust_hft.Orderbook
use rust_hft.Orderbook.Stream.{feed}
use rust_hft.Watchdog.{Watchdog}
use rust_hft.Ingestion.{Codec, received, text, on_read}
use rust_hft.Ingestion.Reads.{Handles, on_read-Handles}
use rust_hft.DataLoader.{Source, io, bad_line, Printer, load_depth_updates, generate_synthetic_data}
use rust_hft.DataLoader.Lines.{Holds, load_depth_updates-Holds}
use rust_hft.DataLoader.Lines
use rust_hft.DataLoader.Synthetic.{IsAllApplied, generate_synthetic_data-IsAllApplied}
use rust_hft.BacktestCommand.{Options, default_options, parse_args}
use rust_hft.BacktestCommand.Args.{command_line, parse_args-command_line}
use rust_hft.Tests.Data.{decimal_double, first_update, second_update}

abbrev codec : Codec
codec = record { depth_update_of = λ s. some first_update; trade_of = λ s. none }

abbrev watch : Watchdog
watch = record { last_seen_ms = 5 }

on_read-Handles_example :
    Handles codec watch 7 (received (text "{}")) (on_read codec watch 7 (received (text "{}")))
on_read-Handles_example = on_read-Handles codec watch 7 (received (text "{}"))

-- A file with two updates, a blank line and a broken one.
abbrev lines : List (Result String String)
lines = ok "1" ∷ ok "" ∷ ok "2" ∷ []

abbrev rest : List (Result String String)
rest = ok "x" ∷ []

abbrev read_number : String → Result DepthUpdate String
read_number s =
    if str_eq s "1"
    then ok first_update
    else if str_eq s "2"
    then ok second_update
    else err "no update"

abbrev two_updates : Source String String
two_updates = record {
  open_file = λ path. ok (lines ++ rest);
  trim = λ s. s;
  from_str = read_number;
}

text_ne : {a b : String} → str_eq a b ≡ false → a ≢ b
text_ne {a} {b} e f = false≢true (sym e ∙ (eq_iff a b).1 f)

lines-Holds : Holds two_updates lines (first_update ∷ second_update ∷ [])
lines-Holds =
    Lines.Holds.update_line (text_ne refl, refl)
      (Lines.Holds.blank_line refl
        (Lines.Holds.update_line (text_ne refl, refl) Lines.Holds.no_line))

load_depth_updates-Holds_example :
    (rest ≡ [] → load_depth_updates two_updates "data" ≡ ok (first_update ∷ second_update ∷ []))
    × ((e : String) (more : List (Result String String))
        → rest ≡ err e ∷ more
        → load_depth_updates two_updates "data" ≡ err (io e))
    × ((line : String) (j : String) (more : List (Result String String))
        → rest ≡ ok line ∷ more
        → ¬ (two_updates.trim line ≡ "")
        → two_updates.from_str (two_updates.trim line) ≡ err j
        → load_depth_updates two_updates "data" ≡ err (bad_line (length lines + 1) j))
load_depth_updates-Holds_example =
    load_depth_updates-Holds two_updates "data" lines (rest) (first_update ∷ second_update ∷ [])
      refl lines-Holds

abbrev printer : Printer ℤ
printer = record { round = λ x. x; two_places = λ x. "1.00"; four_places = λ x. "1.0000" }

generate_synthetic_data-IsAllApplied_example :
    let (snapshot, events) = generate_synthetic_data printer "btcusdt" 4 in
    let book = (Orderbook.handle_snapshot {F = ℤ} (Orderbook.new "btcusdt" 5) snapshot).0 in
    (length events ≡ 4) × IsAllApplied printer "btcusdt" events (1000 + 4) (feed book false events)
generate_synthetic_data-IsAllApplied_example =
    generate_synthetic_data-IsAllApplied printer "btcusdt" 4 5 (omega arith)

-- Numbers with one digit.
abbrev parse_digit : String → Result ℕ String
parse_digit s = if str_eq s "7" then ok 7 else err "invalid digit"

abbrev recorded : Options
recorded = record { data_path = some "data"; strategy_name = "noop"; num_events = 7 }

parse_args-command_line_example :
    parse_args {E = String} {J = String} parse_digit
      (command_line (λ n. "7") recorded)
      default_options
    ≡ ok recorded
parse_args-command_line_example =
    parse_args-command_line parse_digit (λ n. "7") recorded refl (text_ne refl, text_ne refl)

abbrev good_lines : Source String String
good_lines = record two_updates { open_file = λ path. ok lines }
