-- ===== src/Prelude/Dicts.antt =====
-- Python's `dict` with texts or byte strings for keys, in insertion order.
use mathlib.Core.Path.{◌≡◌, refl}
use mathlib.Core.Logic.{inl, inr}
use mathlib.Core.Bool.{true}
use mathlib.Core.Option.{Option, none, some}
use mathlib.Core.List.{List, [], ◌∷◌}
use native.Mathlib.Omega.{arith}
use teecam.Prelude.Tests.{Bool-cases, if◌then◌else◌}
use teecam.Prelude.Lists.{All, All-weaken}
use teecam.Prelude.Texts.{Text, text_eq, text_eq_iff, text_eq_refl}

abbrev pub Dict {ℓ} : Type ℓ → Type ℓ
Dict V = List (Text × V)

module _ {ℓ} {V : Type ℓ} where
  -- `d.get(k)`
  unfoldable pub lookup : Text → Dict V → Option V
  lookup k [] = none
  lookup k ((j, v) ∷ d) = if text_eq j k then some v else lookup k d

  -- `d[k] = v`: an old key keeps its place
  unfoldable pub insert : Text → V → Dict V → Dict V
  insert k v [] = (k, v) ∷ []
  insert k v ((j, w) ∷ d) = if text_eq j k then (j, v) ∷ d else (j, w) ∷ insert k v d

  -- `d[k] = f(d[k])`, with `first` for a key that is missing, as in a `defaultdict`
  abbrev pub update : V → (V → V) → Text → Dict V → Dict V
  update first f k d = insert k (f (elim (lookup k d) [ none ↦ first | some v ↦ v ])) d

  -- `d.keys()`
  unfoldable pub keys : Dict V → List Text
  keys [] = []
  keys ((j, w) ∷ d) = j ∷ keys d

  -- `del d[k]`
  unfoldable pub erase : Text → Dict V → Dict V
  erase k [] = []
  erase k ((j, w) ∷ d) = if text_eq j k then d else (j, w) ∷ erase k d

  -- No key stands twice.
  abbrev pub IsDict : Dict V → Type ℓ
  IsDict [] = Unit
  IsDict ((j, w) ∷ d) = (lookup j d ≡ none) × IsDict d

  pub lookup-insert :
      (k j : Text) (v : V) (d : Dict V)
      → lookup j (insert k v d) ≡ (if text_eq k j then some v else lookup j d)
  unfolding lookup insert
  lookup-insert k j v [] = refl
  lookup-insert k j v ((i, w) ∷ d) =
      ground (arith, lookup-insert k j v d, text_eq_iff i k, text_eq_iff i j, text_eq_iff k j)

  pub insert-IsDict : (k : Text) (v : V) (d : Dict V) → IsDict d → IsDict (insert k v d)
  unfolding lookup insert
  insert-IsDict k v [] h = (refl, tt)
  insert-IsDict k v ((i, w) ∷ d) h =
      ground
        (arith, insert-IsDict k v d h.1, lookup-insert k i v d, text_eq_iff i k, text_eq_iff k i)

  pub lookup-erase :
      (k j : Text) (d : Dict V)
      → IsDict d
      → lookup j (erase k d) ≡ (if text_eq k j then none else lookup j d)
  unfolding lookup erase
  lookup-erase k j [] h = ground arith
  lookup-erase k j ((i, w) ∷ d) h =
      ground (arith, lookup-erase k j d h.1, text_eq_iff i k, text_eq_iff i j, text_eq_iff k j)

  pub erase-IsDict : (k : Text) (d : Dict V) → IsDict d → IsDict (erase k d)
  unfolding erase
  erase-IsDict k [] h = tt
  erase-IsDict k ((i, w) ∷ d) h = ground (arith, erase-IsDict k d h.1, lookup-erase k i d h.1)

  -- A property of the entries that stays.
  pub All-insert {κ} :
      (P : Text × V → Type κ) (k : Text) (v : V) (d : Dict V)
      → ((j : Text) → text_eq j k ≡ true → P (j, v))
      → P (k, v)
      → All P d
      → All P (insert k v d)
  unfolding insert
  All-insert P k v [] q p h = (p, tt)
  All-insert P k v ((i, w) ∷ d) q p h = elim (Bool-cases (text_eq i k)) [
    | inl e ↦ rw e (q i e, h.1)
    | inr e ↦ rw e (h.0, All-insert P k v d q p h.1)
  ]

  pub All-erase {κ} : (P : Text × V → Type κ) (k : Text) (d : Dict V) → All P d → All P (erase k d)
  unfolding erase
  All-erase P k [] h = tt
  All-erase P k ((i, w) ∷ d) h = elim (Bool-cases (text_eq i k)) [
    | inl e ↦ rw e h.1
    | inr e ↦ rw e (h.0, All-erase P k d h.1)
  ]

  -- A key is found, and its value has what all the values have.
  pub lookup-keys {κ} :
      (P : V → Type κ) (d : Dict V)
      → All (λ e. P e.1) d
      → All (λ k. (v : V) × (lookup k d ≡ some v) × P v) (keys d)
  unfolding lookup keys
  lookup-keys P [] h = tt
  lookup-keys P ((j, w) ∷ d) h = (
    (w, rw (text_eq_refl j) refl, h.0),
    All-weaken
        (λ k found. elim (Bool-cases (text_eq j k)) [
          | inl y ↦ (w, rw y refl, h.0)
          | inr n ↦ (found.0, rw n found.1, found.2)
        ])
        (keys d) (lookup-keys P d h.1),
  )
