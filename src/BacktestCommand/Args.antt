-- ===== src/BacktestCommand/Args.antt =====
-- The command line: the options that it sets, and the line for options.
use package.text.Mathlib.Text.{◌==◌ as str_eq}
use package.text.Mathlib.TextEquality.{eq_iff}
use rust_hft.Common.{
  ℕ, ◌≡◌, ◌≢◌, refl, Bool-cases, Option, none, some, List, [], ◌∷◌, String, Result, ok, inl, inr,
}
use rust_hft.BacktestCommand.Defs.{Options, default_options, positional, arg_of, parse_args}

-- The line that spells all options out, flags first.
abbrev pub command_line : (ℕ → String) → Options → List String
command_line print o =
    "--strategy"
    ∷ o.strategy_name
    ∷ "--events"
    ∷ print o.num_events
    ∷ elim o.data_path [ none ↦ [] | some path ↦ path ∷ [] ]

-- A path that is no flag.
abbrev pub IsPath : Option String → Type 0
IsPath none = Unit
IsPath (some path) = (path ≢ "--strategy") × (path ≢ "--events")

arg_of_path : (path : String) → IsPath (some path) → arg_of path ≡ positional
unfolding arg_of
arg_of_path path (n, m) = elim (Bool-cases (str_eq path "--strategy")) [
  | inl e ↦ absurd (n ((eq_iff path "--strategy").0 e))
  | inr e ↦ elim (Bool-cases (str_eq path "--events")) [
    | inl f ↦ absurd (m ((eq_iff path "--events").0 f))
    | inr f ↦ rw (e, f) refl
  ]
]

module _ {E J N : Type 0} (parse : String → Result ℕ N) (print : ℕ → String) where
  -- Parsing the line for some options gives those options, if numbers parse as they are printed and
  -- the path is no flag.
  pub parse_args-command_line :
      (o : Options)
      → parse (print o.num_events) ≡ ok o.num_events
      → IsPath o.data_path
      → parse_args {E = E} {J = J} parse (command_line print o) default_options ≡ ok o
  unfolding parse_args arg_of
  parse_args-command_line o e p = rw e (by_path o.data_path p)
    where
      by_path :
          (path : Option String)
          → IsPath path
          → parse_args {E = E} {J = J} parse
              (elim path [ none ↦ [] | some path ↦ path ∷ [] ])
              (record {
                data_path = none;
                strategy_name = o.strategy_name;
                num_events = o.num_events;
              })
            ≡ ok (record {
              data_path = path;
              strategy_name = o.strategy_name;
              num_events = o.num_events;
            })
      by_path none p = refl
      by_path (some path) p = rw (arg_of_path path p) refl
