-- ===== src/Base/Maps.antt =====
-- Go's maps with string keys. A map that the program only reads and writes is a function; one that
-- it iterates over is an association list, whose order stands for the order of the iteration.
use Prim.Native.String.{String}
use mathlib.Core.Bool.{Bool, true, false, ◌||◌}
use mathlib.Core.Path.{◌≡◌}
use mathlib.Core.Option.{Option, none, some}
use mathlib.Core.List.{List, [], ◌∷◌, map}
use native.Mathlib.Omega.{arith}
use text.Mathlib.Text.{◌==◌}
use text.Mathlib.TextEquality.{eq_iff}
use text.Mathlib.TextPositions.{eq_refl}
use model_lib.Base.Tests.{if◌then◌else◌}

module _ {ℓ} {V : Type ℓ} where
  -- m[k] = v
  abbrev pub put : (String → Option V) → String → V → String → Option V
  put m k v j = if k == j then some v else m j

  -- delete(m, k)
  abbrev pub delete : (String → Option V) → String → String → Option V
  delete m k j = if k == j then none else m j

  pub put_self : (m : String → Option V) (k : String) (v : V) → put m k v k ≡ some v
  put_self m k v = simp eq_refl

  -- m[key] = value, where an entry that is there keeps its place
  unfoldable pub insert : String → V → List (String × V) → List (String × V)
  insert key value [] = (key, value) ∷ []
  insert key value (entry ∷ entries) = elim (entry.0 == key) [
    | true ↦ (entry.0, value) ∷ entries
    | false ↦ entry ∷ insert key value entries
  ]

  -- value, ok := m[key]
  unfoldable pub lookup : String → List (String × V) → Option V
  lookup key [] = none
  lookup key (entry ∷ entries) = elim (entry.0 == key) [
    | true ↦ some entry.1
    | false ↦ lookup key entries
  ]

  abbrev pub keys : List (String × V) → List String
  keys = map (λ e. e.0)

  -- for k := range m { m[k] = v }
  unfoldable pub fill : V → List (String × V) → List (String × V)
  fill v [] = []
  fill v ((k, w) ∷ m) = (k, v) ∷ fill v m

  -- After m[key] = value, the value is read at the key, and what was there at every other one.
  pub lookup-insert :
      (key other : String) (value : V) (entries : List (String × V))
      → lookup other (insert key value entries)
        ≡ (if key == other then some value else lookup other entries)
  unfolding insert lookup
  lookup-insert key other value [] = ground arith
  lookup-insert key other value (entry ∷ entries) = ground (
    arith,
    lookup-insert key other value entries,
    eq_iff entry.0 other,
    eq_iff entry.0 key,
    eq_iff key other,
  )

-- A key among keys, and keys without repetition
unfoldable pub has_key : String → List String → Bool
has_key id [] = false
has_key id (x ∷ xs) = x == id || has_key id xs

unfoldable pub Distinct : List String → Type 0
unfolding has_key
Distinct [] = Unit
Distinct (x ∷ xs) = (has_key x xs ≡ false) × Distinct xs
