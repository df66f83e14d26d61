-- ===== src/Features/Tables.antt =====
-- `write_csv` and `read_feature_csv` of cote3mon/features.py, with a table of texts for the file.
use teecam.Prelude.{
  ℕ, List, [], ◌∷◌, ◌++◌, map, none, some, Text, codes, Dict, lookup, insert, Result, ok, err,
  key_error, ◌>>=◌,
}
use teecam.Features.Names.{meta_names}

-- A file of the `csv` module: the names of the columns, and the cells of each line.
pub record Table : Type 0 where
  pub fieldnames : List Text
  pub lines : List (List Text)

-- `row[name]`
unfoldable pub field : {A : Type 0} → Dict A → Text → Result A
unfolding lookup
field row name = elim (lookup name row) [ none ↦ err key_error | some cell ↦ ok cell ]

-- The cells that `writer.writerow` writes for the names.
unfoldable pub cells_of : Dict Text → List Text → Result (List Text)
unfolding field
cells_of row [] = ok []
cells_of row (name ∷ names) = do cell ← field row name; rest ← cells_of row names; ok (cell ∷ rest)

unfoldable pub lines_of : List Text → List (Dict Text) → Result (List (List Text))
unfolding cells_of
lines_of names [] = ok []
lines_of names (row ∷ rows) = do
  cells ← cells_of row names
  rest ← lines_of names rows
  ok (cells ∷ rest)

-- The values of a row of windows.
pub data Cell (Number : Type 0) : Type 0 where
  text_cell : Text → Cell Number
  whole_cell : ℕ → Cell Number
  number_cell : Number → Cell Number

module _ {Number : Type 0} (text_of_nat : ℕ → Text) (text_of_number : Number → Text) where
  -- What the `csv` module writes for a value: `str(value)`.
  unfoldable pub cell_text : Cell Number → Text
  cell_text (text_cell text) = text
  cell_text (whole_cell n) = text_of_nat n
  cell_text (number_cell x) = text_of_number x

  unfoldable pub texts_of : Dict (Cell Number) → Dict Text
  unfolding cell_text
  texts_of [] = []
  texts_of ((name, cell) ∷ row) = (name, cell_text cell) ∷ texts_of row

  -- `write_csv`
  unfoldable pub write_csv : List (Dict (Cell Number)) → List Text → Result Table
  unfolding lines_of texts_of
  write_csv rows features = do
    lines ← lines_of (meta_names ++ features) (map texts_of rows)
    ok (record { fieldnames = meta_names ++ features; lines = lines })

-- A line of `csv.DictReader`: a dict of the cells under their names, the last of a name that stands
-- twice
unfoldable pub fill_dict : List Text → List Text → Dict Text → Dict Text
unfolding insert
fill_dict [] cells row = row
fill_dict (name ∷ names) [] row = row
fill_dict (name ∷ names) (cell ∷ cells) row = fill_dict names cells (insert name cell row)

pub record FeatureRow (Number : Type 0) : Type 0 where
  pub features : Dict Number
  pub run_id : Text
  pub scenario : Text
  pub is_attack : ℕ
  pub window_start_ns : ℕ

module _ {Number : Type 0} (float : Text → Result Number) where
  -- `{name: float(row[name]) for name in features}`
  unfoldable pub numbers_of : Dict Text → List Text → Result (Dict Number)
  unfolding field
  numbers_of row [] = ok []
  numbers_of row (name ∷ names) = do
    cell ← field row name
    number ← float cell
    rest ← numbers_of row names
    ok ((name, number) ∷ rest)

module _ {Number : Type 0} (float : Text → Result Number) (int : Text → Result ℕ) where
  unfoldable pub converted : List Text → Dict Text → Result (FeatureRow Number)
  unfolding numbers_of field
  converted features row = do
    numbers ← numbers_of float row features
    run_id ← field row (codes "run_id")
    scenario ← field row (codes "scenario")
    attack_cell ← field row (codes "is_attack")
    is_attack ← int attack_cell
    start_cell ← field row (codes "window_start_ns")
    start ← int start_cell
    ok (record {
      features = numbers;
      run_id = run_id;
      scenario = scenario;
      is_attack = is_attack;
      window_start_ns = start;
    })

  unfoldable pub convert_lines :
      List Text → List Text → List (List Text) → Result (List (FeatureRow Number))
  unfolding converted fill_dict
  convert_lines features names [] = ok []
  convert_lines features names (line ∷ lines) = do
    row ← converted features (fill_dict names line [])
    rest ← convert_lines features names lines
    ok (row ∷ rest)

  -- `read_feature_csv`
  unfoldable pub read_feature_csv : Table → List Text → Result (List (FeatureRow Number))
  unfolding convert_lines
  read_feature_csv table features = convert_lines features table.fieldnames table.lines
