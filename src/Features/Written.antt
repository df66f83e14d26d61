-- ===== src/Features/Written.antt =====
-- `read_feature_csv` after `write_csv`: the rows come back.
use teecam.Prelude.{
  ℕ, ◌≡◌, refl, ap, ◌∙◌, inl, inr, Bool-cases, some, some-injective, List, [], ◌∷◌, ◌++◌, map, All,
  All-append, Text, codes, text_eq, Dict, lookup, Result, ok,
}
use teecam.Features.Names.{meta_names}
use teecam.Features.Tables.{
  Table, FeatureRow, Cell, text_cell, whole_cell, number_cell, cell_text, texts_of, field, cells_of,
  lines_of, write_csv, numbers_of, converted, read_feature_csv,
}
use teecam.Features.Back.{field-some, convert_rows, read-lines_of}

-- The row that was written has these values under these names, in any order and among any others.
pub record Holds {Number : Type 0} (features : List Text) (row : Dict (Cell Number))
    (r : FeatureRow Number) : Type 0 where
  pub run_id : lookup (codes "run_id") row ≡ some (text_cell r.run_id)
  pub scenario : lookup (codes "scenario") row ≡ some (text_cell r.scenario)
  pub is_attack : lookup (codes "is_attack") row ≡ some (whole_cell r.is_attack)
  pub start : lookup (codes "window_start_ns") row ≡ some (whole_cell r.window_start_ns)
  pub numbers : All (λ entry. lookup entry.0 row ≡ some (number_cell entry.1)) r.features
  pub names : map (λ entry. entry.0) r.features ≡ features

-- Row by row.
abbrev pub AllHold :
    {Number : Type 0} → List Text → List (Dict (Cell Number)) → List (FeatureRow Number) → Type 0
AllHold features [] [] = Unit
AllHold features [] (r ∷ rs) = ⊥
AllHold features (row ∷ rows) [] = ⊥
AllHold features (row ∷ rows) (r ∷ rs) = Holds features row r × AllHold features rows rs

module _ {Number : Type 0} (text_of_nat : ℕ → Text) (text_of_number : Number → Text) where
  lookup-texts_of :
      (row : Dict (Cell Number)) (name : Text) {cell : Cell Number}
      → lookup name row ≡ some cell
      → lookup name (texts_of text_of_nat text_of_number row)
        ≡ some (cell_text text_of_nat text_of_number cell)
  unfolding lookup texts_of
  lookup-texts_of [] name e = absurd (cc e)
  lookup-texts_of ((key, other) ∷ row) name {cell} e = elim (Bool-cases (text_eq key name)) [
    | inl y ↦
        let same : other ≡ cell = some-injective (rw y at e) in
        rw y (ap (λ (c : Cell Number). some (cell_text text_of_nat text_of_number c)) same)
    | inr n ↦ rw n (lookup-texts_of row name (rw n at e))
  ]

  field-texts_of :
      (row : Dict (Cell Number)) (name : Text) {cell : Cell Number}
      → lookup name row ≡ some cell
      → field (texts_of text_of_nat text_of_number row) name
        ≡ ok (cell_text text_of_nat text_of_number cell)
  field-texts_of row name e =
      field-some (texts_of text_of_nat text_of_number row) name (lookup-texts_of row name e)

  module _ (float : Text → Result Number) (int : Text → Result ℕ) (features : List Text)
      (float-text : (x : Number) → float (text_of_number x) ≡ ok x)
      (int-text : (n : ℕ) → int (text_of_nat n) ≡ ok n) where
    numbers_of-texts_of :
        (row : Dict (Cell Number)) (entries : Dict Number)
        → All (λ entry. lookup entry.0 row ≡ some (number_cell entry.1)) entries
        → numbers_of float
            (texts_of text_of_nat text_of_number row)
            (map (λ entry. entry.0) entries)
          ≡ ok entries
    unfolding numbers_of cell_text
    numbers_of-texts_of row [] h = refl
    numbers_of-texts_of row ((name, x) ∷ entries) h =
        rw
          (
            numbers_of,
            field-texts_of row name h.0,
            float-text x,
            numbers_of-texts_of row entries h.1,
          )
          refl

    converted-texts_of :
        (row : Dict (Cell Number)) (r : FeatureRow Number)
        → Holds features row r
        → converted float int features (texts_of text_of_nat text_of_number row) ≡ ok r
    unfolding converted cell_text
    converted-texts_of row r h =
        let numbers : numbers_of float (texts_of text_of_nat text_of_number row) features
            ≡ ok r.features =
          rw h.names at (numbers_of-texts_of row r.features h.numbers) in
        rw
          (
            converted,
            numbers,
            field-texts_of row (codes "run_id") h.run_id,
            field-texts_of row (codes "scenario") h.scenario,
            field-texts_of row (codes "is_attack") h.is_attack,
            int-text r.is_attack,
            field-texts_of row (codes "window_start_ns") h.start,
            int-text r.window_start_ns,
          )
          refl

    convert_rows-texts_of :
        (rows : List (Dict (Cell Number))) (rs : List (FeatureRow Number))
        → AllHold features rows rs
        → convert_rows float int features (map (texts_of text_of_nat text_of_number) rows) ≡ ok rs
    unfolding convert_rows
    convert_rows-texts_of [] [] h = refl
    convert_rows-texts_of [] (r ∷ rs) h = absurd h
    convert_rows-texts_of (row ∷ rows) [] h = absurd h
    convert_rows-texts_of (row ∷ rows) (r ∷ rs) h =
        rw (convert_rows, converted-texts_of row r h.0, convert_rows-texts_of rows rs h.1) refl

    cells_of-returns :
        (row : Dict (Cell Number)) (names : List Text)
        → All (λ name. (cell : Cell Number) × (lookup name row ≡ some cell)) names
        → (cells : List Text) × (cells_of (texts_of text_of_nat text_of_number row) names
            ≡ ok cells)
    unfolding cells_of
    cells_of-returns row [] h = ([], refl)
    cells_of-returns row (name ∷ names) h =
        let (cell, e) = h.0 in
        let (cells, f) = cells_of-returns row names h.1 in
        (
          cell_text text_of_nat text_of_number cell ∷ cells,
          rw (cells_of, field-texts_of row name e, f) refl,
        )

    names-known :
        (row : Dict (Cell Number)) (entries : Dict Number)
        → All (λ entry. lookup entry.0 row ≡ some (number_cell entry.1)) entries
        → All
            (λ name. (cell : Cell Number) × (lookup name row ≡ some cell))
            (map (λ entry. entry.0) entries)
    names-known row [] h = tt
    names-known row ((name, x) ∷ entries) h = ((number_cell x, h.0), names-known row entries h.1)

    lines_of-returns :
        (rows : List (Dict (Cell Number))) (rs : List (FeatureRow Number))
        → AllHold features rows rs
        → (lines : List (List Text)) × (lines_of
              (meta_names ++ features)
              (map (texts_of text_of_nat text_of_number) rows)
            ≡ ok lines)
    unfolding lines_of
    lines_of-returns [] rs h = ([], refl)
    lines_of-returns (row ∷ rows) [] h = absurd h
    lines_of-returns (row ∷ rows) (r ∷ rs) h =
        let known = rw h.0.names at (names-known row r.features h.0.numbers) in
        let all =
          All-append (λ (name : Text). (cell : Cell Number) × (lookup name row ≡ some cell))
            meta_names features
            (
              (text_cell r.run_id, h.0.run_id),
              (
                (text_cell r.scenario, h.0.scenario),
                (
                  (whole_cell r.is_attack, h.0.is_attack),
                  ((whole_cell r.window_start_ns, h.0.start), tt),
                ),
              ),
            )
            known in
        let (cells, e) = cells_of-returns row (meta_names ++ features) all in
        let (lines, f) = lines_of-returns rows rs h.1 in (cells ∷ lines, rw (lines_of, e, f) refl)

    -- If `float` and `int` read back what `str` writes for a number and for a whole number,
    -- `write_csv` writes any rows that have the four columns of each window and a number for each of
    -- the features, and `read_feature_csv` of the table for the same features returns for each row its
    -- own run, scenario, label, start and numbers, in the order of the rows.
    pub read_feature_csv-write_csv :
        (rows : List (Dict (Cell Number))) (rs : List (FeatureRow Number))
        → AllHold features rows rs
        → (table : Table) × (write_csv text_of_nat text_of_number rows features ≡ ok table)
          × (read_feature_csv float int table features ≡ ok rs)
    unfolding write_csv
    read_feature_csv-write_csv rows rs h =
        let (lines, e) = lines_of-returns rows rs h in
        (
          record { fieldnames = meta_names ++ features; lines = lines },
          rw (write_csv, e) refl,
          read-lines_of float int features (map (texts_of text_of_nat text_of_number) rows) e
              ∙ convert_rows-texts_of rows rs h,
        )
