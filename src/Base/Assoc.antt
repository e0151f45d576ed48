-- ===== src/Base/Assoc.antt =====
-- Go's `map[string]V` as an association list with at most one entry for a key.
use mathlib.Core.Path.{◌≡◌, refl}
use mathlib.Core.Option.{Option, none, some}
use mathlib.Core.List.{List, [], ◌∷◌}
use native.Mathlib.Omega.{arith}
use go_db.Base.Tests.{if◌then◌else◌}
use go_db.Base.ByteStrings.{Bytes, bytes_eq, bytes_eq_iff}

abbrev pub Assoc {ℓ} : Type ℓ → Type ℓ
Assoc V = List (Bytes × V)

module _ {ℓ} {V : Type ℓ} where
  -- `m[k]` with the second result
  unfoldable pub lookup : Bytes → Assoc V → Option V
  lookup key [] = none
  lookup key ((other, held) ∷ rest) = if bytes_eq other key then some held else lookup key rest

  -- `m[k] = v`
  unfoldable pub insert : Bytes → V → Assoc V → Assoc V
  insert key value [] = (key, value) ∷ []
  insert key value ((other, held) ∷ rest) =
      if bytes_eq other key then (other, value) ∷ rest else (other, held) ∷ insert key value rest

  -- `delete(m, k)`
  unfoldable pub remove : Bytes → Assoc V → Assoc V
  remove key [] = []
  remove key ((other, held) ∷ rest) =
      let kept = remove key rest in if bytes_eq other key then kept else (other, held) ∷ kept

  pub lookup-insert :
      (key asked : Bytes) (value : V) (map : Assoc V)
      → lookup asked (insert key value map)
        ≡ (if bytes_eq key asked then some value else lookup asked map)
  unfolding insert lookup
  lookup-insert key asked value [] = refl
  lookup-insert key asked value ((other, held) ∷ rest) = ground (
    arith,
    lookup-insert key asked value rest,
    bytes_eq_iff other asked,
    bytes_eq_iff other key,
    bytes_eq_iff key asked,
  )

  pub lookup-remove :
      (key asked : Bytes) (map : Assoc V)
      → lookup asked (remove key map) ≡ (if bytes_eq key asked then none else lookup asked map)
  unfolding remove lookup
  lookup-remove key asked [] = ground arith
  lookup-remove key asked ((other, held) ∷ rest) = ground (
    arith,
    lookup-remove key asked rest,
    bytes_eq_iff other asked,
    bytes_eq_iff other key,
    bytes_eq_iff key asked,
  )
