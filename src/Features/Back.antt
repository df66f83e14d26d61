-- ===== src/Features/Back.antt =====
-- What `read_feature_csv` makes of the lines of some rows.
use teecam.Prelude.{
  ℕ, ◌≡◌, refl, inl, inr, arith, List, [], ◌∷◌, ◌++◌, none, some, Option-cases, true, Bool-cases,
  if◌then◌else◌, All, Text, codes, text_eq, text_eq_refl, text_eq_iff, Dict, lookup, insert,
  lookup-insert, contains, All-weaken, Result, ok, err, key_error, ◌>>=◌, Result-cases,
  ok-injective,
}
use teecam.Features.Names.{meta_names}
use teecam.Features.Tables.{
  FeatureRow, field, cells_of, lines_of, fill_dict, numbers_of, converted, convert_lines,
  read_feature_csv,
}

field-none :
    (row : Dict Text) (name : Text) → lookup name row ≡ none → field row name ≡ err key_error
unfolding field
field-none row name e = rw (field, e) refl

pub field-some :
    (row : Dict Text) (name : Text) {cell : Text}
    → lookup name row ≡ some cell
    → field row name ≡ ok cell
unfolding field
field-some row name e = rw (field, e) refl

-- A name of the columns is looked up in the line as in the row that was written.
lookup-fill_dict :
    (row : Dict Text) (names cells : List Text) (d : Dict Text) (name : Text)
    → cells_of row names ≡ ok cells
    → lookup name (fill_dict names cells d)
      ≡ (if contains name names then lookup name row else lookup name d)
unfolding cells_of fill_dict contains
lookup-fill_dict row [] cells d name e = refl
lookup-fill_dict row (n ∷ names) cells d name e = elim (Option-cases (lookup n row)) [
  | inl x ↦ absurd (let w = rw (cells_of, field-none row n x) at e in cc w)
  | inr (cell, x) ↦ elim (Result-cases (cells_of row names)) [
    | inr (raised, f) ↦ absurd (let w = rw (cells_of, field-some row n x, f) at e in cc w)
    | inl (rest, f) ↦
        let same : cell ∷ rest ≡ cells = ok-injective (rw (cells_of, field-some row n x, f) at e) in
        let next = lookup-fill_dict row names rest (insert n cell d) name f in
        let put = lookup-insert n name cell d in
        rw (← same, fill_dict)
          (elim (Bool-cases (text_eq n name)) [
            | inl y ↦
                let is : n ≡ name = (text_eq_iff n name).0 y in
                let here : text_eq name n ≡ true = rw is (text_eq_refl name) in
                let there : lookup name row ≡ some cell = (rw is at x) in
                (ground (arith, next, put, y, here, there))
            | inr y ↦ ground (arith, next, put, y, text_eq_iff n name, text_eq_iff name n)
          ])
  ]
]

-- Two rows with the same cells under some names.
abbrev SameOn : Dict Text → Dict Text → List Text → Type 0
SameOn row other = All (λ name. lookup name row ≡ lookup name other)

field-same :
    (row other : Dict Text) (name : Text)
    → lookup name row ≡ lookup name other
    → field row name ≡ field other name
unfolding field
field-same row other name e = rw (field, e) refl

SameOn-fill_dict :
    (row : Dict Text) (names cells : List Text) (asked : List Text)
    → cells_of row names ≡ ok cells
    → All (λ name. contains name names ≡ true) asked
    → SameOn (fill_dict names cells []) row asked
SameOn-fill_dict row names cells [] e h = tt
SameOn-fill_dict row names cells (name ∷ asked) e h =
    let found = lookup-fill_dict row names cells [] name e in
    ((rw h.0 at found), SameOn-fill_dict row names cells asked e h.1)

contains_left : (k : Text) (ks js : List Text) → contains k ks ≡ true → contains k (ks ++ js) ≡ true
unfolding contains
contains_left k [] js h = absurd (cc h)
contains_left k (i ∷ ks) js h = ground (arith, contains_left k ks js)

contains_right :
    (k : Text) (ks js : List Text) → contains k js ≡ true → contains k (ks ++ js) ≡ true
unfolding contains
contains_right k [] js h = h
contains_right k (i ∷ ks) js h = rw (contains_right k ks js h) (ground arith)

contains_self : (names : List Text) → All (λ name. contains name names ≡ true) names
unfolding contains
contains_self [] = tt
contains_self (name ∷ names) = (
  rw (text_eq_refl name) refl,
  All-weaken (λ k h. rw h (ground arith)) names (contains_self names),
)

module _ {Number : Type 0} (float : Text → Result Number) where
  numbers_of-same :
      (row other : Dict Text) (names : List Text)
      → SameOn row other names
      → numbers_of float row names ≡ numbers_of float other names
  unfolding numbers_of
  numbers_of-same row other [] h = refl
  numbers_of-same row other (name ∷ names) h =
      rw (numbers_of, field-same row other name h.0, numbers_of-same row other names h.1) refl

module _ {Number : Type 0} (float : Text → Result Number) (int : Text → Result ℕ) where
  converted-same :
      (row other : Dict Text) (features : List Text)
      → SameOn row other meta_names
      → SameOn row other features
      → converted float int features row ≡ converted float int features other
  unfolding converted
  converted-same row other features meta h =
      rw
        (
          converted,
          numbers_of-same float row other features h,
          field-same row other (codes "run_id") meta.0,
          field-same row other (codes "scenario") meta.1.0,
          field-same row other (codes "is_attack") meta.1.1.0,
          field-same row other (codes "window_start_ns") meta.1.1.1.0,
        )
        refl

  -- The rows converted as they are, with no file between.
  unfoldable pub convert_rows : List Text → List (Dict Text) → Result (List (FeatureRow Number))
  convert_rows features [] = ok []
  convert_rows features (row ∷ rows) = do
    first ← converted float int features row
    rest ← convert_rows features rows
    ok (first ∷ rest)

  convert_lines-lines_of :
      (features : List Text) (rows : List (Dict Text)) {lines : List (List Text)}
      → lines_of (meta_names ++ features) rows ≡ ok lines
      → convert_lines float int features (meta_names ++ features) lines ≡ convert_rows features rows
  unfolding lines_of convert_lines convert_rows
  convert_lines-lines_of features [] {lines} e =
      let same : [] ≡ lines = ok-injective e in rw (← same) refl
  convert_lines-lines_of features (row ∷ rows) {lines} e =
      let names = meta_names ++ features in
      elim (Result-cases (cells_of row names)) [
        | inr (raised, f) ↦ absurd (let w = rw (lines_of, f) at e in cc w)
        | inl (cells, f) ↦ elim (Result-cases (lines_of names rows)) [
          | inr (raised, g) ↦ absurd (let w = rw (lines_of, f, g) at e in cc w)
          | inl (rest, g) ↦
              let same : cells ∷ rest ≡ lines = ok-injective (rw (lines_of, f, g) at e) in
              let meta = SameOn-fill_dict row names cells meta_names f (
                All-weaken (λ k h. contains_left k meta_names features h) meta_names
                  (contains_self meta_names)) in
              let others = SameOn-fill_dict row names cells features f (
                All-weaken (λ k h. contains_right k meta_names features h) features
                  (contains_self features)) in
              rw
                (
                  ← same,
                  convert_lines,
                  converted-same (fill_dict names cells []) row features meta others,
                  convert_lines-lines_of features rows g,
                )
                refl
        ]
      ]

  -- The table of some lines is read as the rows of the lines.
  pub read-lines_of :
      (features : List Text) (rows : List (Dict Text)) {lines : List (List Text)}
      → lines_of (meta_names ++ features) rows ≡ ok lines
      → read_feature_csv float int
          (record { fieldnames = meta_names ++ features; lines = lines })
          features
        ≡ convert_rows features rows
  unfolding read_feature_csv
  read-lines_of features rows e = convert_lines-lines_of features rows e
