-- ===== src/DataLoader/Lines.antt =====
-- What a file of recorded updates loads as, and the line that an error names.
use package.text.Mathlib.Text.{◌==◌ as str_eq}
use package.text.Mathlib.TextEquality.{eq_iff}
use rust_hft.Common.{
  ℕ, ◌+◌, ◌≡◌, refl, ◌∙◌, ap, arith, Bool-cases, none, some, ◌>>=◌, map_err, List, [], ◌∷◌, ◌++◌,
  String, length, Result, ok, err, inl, inr,
}
use mathlib.Core.List.{append-nil, append_assoc}
use rust_hft.Types.{DepthUpdate}
use rust_hft.DataLoader.Defs.{
  Source, io, bad_line, after_line, line_update, load_lines, load_depth_updates,
}

module _ {E J : Type 0} (src : Source E J) where
  abbrev pub IsBlank : String → Type 0
  IsBlank line = src.trim line ≡ ""

  abbrev pub HasUpdate : String → DepthUpdate → Type 0
  HasUpdate line u = (¬ IsBlank line) × (src.from_str (src.trim line) ≡ ok u)

  -- The lines were read, and the ones that are not blank hold these updates in order.
  pub data Holds : List (Result String E) → List DepthUpdate → Type 0 where
    no_line : Holds [] []
    blank_line :
        {line : String} {lines : List (Result String E)} {us : List DepthUpdate}
        → IsBlank line
        → Holds lines us
        → Holds (ok line ∷ lines) us
    update_line :
        {line : String} {lines : List (Result String E)} {u : DepthUpdate} {us : List DepthUpdate}
        → HasUpdate line u
        → Holds lines us
        → Holds (ok line ∷ lines) (u ∷ us)

  line_update_blank : (n : ℕ) (line : String) → IsBlank line → line_update src n line ≡ ok none
  unfolding line_update
  line_update_blank n line b = rw ((eq_iff (src.trim line) "").1 b) refl

  line_update_text :
      (n : ℕ) (line : String) (r : Result DepthUpdate J)
      → ¬ IsBlank line
      → src.from_str (src.trim line) ≡ r
      → line_update src n line ≡ (map_err (bad_line (n + 1)) r >>= λ u. ok (some u))
  unfolding line_update
  line_update_text n line r b e = elim (Bool-cases (str_eq (src.trim line) "")) [
    | inl f ↦ absurd (b ((eq_iff (src.trim line) "").0 f))
    | inr f ↦ rw (f, e) refl
  ]

  -- Good lines in front only count and add their updates.
  load_lines-Holds :
      (n : ℕ) (acc us : List DepthUpdate) (lines rest : List (Result String E))
      → Holds lines us
      → load_lines src n acc (lines ++ rest) ≡ load_lines src (n + length lines) (acc ++ us) rest
  unfolding load_lines
  load_lines-Holds n acc us [] rest no_line =
      rw (append-nil acc) (ap (λ k. load_lines src k acc rest) (omega arith))
  load_lines-Holds n acc us (ok line ∷ lines) rest (blank_line b h) =
      rw (line_update_blank n line b) (
        load_lines-Holds (n + 1) acc us lines rest h
        ∙ ap (λ k. load_lines src k (acc ++ us) rest) (omega arith))
  load_lines-Holds n acc (u ∷ us) (ok line ∷ lines) rest (update_line b h) =
      rw (line_update_text n line (ok u) b.0 b.1) (
        load_lines-Holds (n + 1) (acc ++ (u ∷ [])) us lines rest h
        ∙ ap (λ a. load_lines src (n + 1 + length lines) a rest) (append_assoc acc (u ∷ []) us)
        ∙ ap (λ k. load_lines src k (acc ++ (u ∷ us)) rest) (omega arith))
  load_lines-Holds n acc us (err e ∷ lines) rest h = elim h [ ]

  -- If the file opens and its lines are good ones, then the rest: without more lines, loading
  -- returns the updates of the lines that are not blank, in order; if the next line cannot be read, it
  -- returns that error; and if the JSON reader refuses the next line, it returns its error with
  -- the line's number, which is one more than the number of good lines.
  pub load_depth_updates-Holds :
      (path : String) (lines rest : List (Result String E)) (us : List DepthUpdate)
      → src.open_file path ≡ ok (lines ++ rest)
      → Holds lines us
      → (rest ≡ [] → load_depth_updates src path ≡ ok us)
        × ((e : E) (more : List (Result String E))
            → rest ≡ err e ∷ more
            → load_depth_updates src path ≡ err (io e))
        × ((line : String) (j : J) (more : List (Result String E))
            → rest ≡ ok line ∷ more
            → ¬ IsBlank line
            → src.from_str (src.trim line) ≡ err j
            → load_depth_updates src path ≡ err (bad_line (length lines + 1) j))
  unfolding load_depth_updates
  load_depth_updates-Holds path lines rest us o h =
      let go : load_lines src 0 [] (lines ++ rest) ≡ load_lines src (length lines) us rest =
        load_lines-Holds 0 [] us lines rest h ∙ ap (λ k. load_lines src k us rest) (omega arith) in
      rw o (
        λ e. go ∙ ap (load_lines src (length lines) us) e,
        λ e more f. go ∙ ap (load_lines src (length lines) us) f,
        λ line j more f b k.
            go
            ∙ ap (load_lines src (length lines) us) f
            ∙ ap (λ r. r >>= λ o. load_lines src (length lines + 1) (after_line us o) more)
                (line_update_text (length lines) line (err j) b k),
      )
