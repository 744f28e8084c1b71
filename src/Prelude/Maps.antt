-- ===== src/Prelude/Maps.antt =====
-- Go's maps with string keys, as association lists; a missing key reads as the zero value.
use Prim.Native.String.{String}
use mathlib.Core.Path.{◌≡◌, refl}
use mathlib.Core.Bool.{Bool, false}
use mathlib.Core.List.{List, [], ◌∷◌}
use mathlib.Core.Option.{Option, none, some}
use native.Mathlib.Omega.{arith}
use text.Mathlib.TextEquality.{eq_iff}
use sigame_server.Prelude.Tests.{if◌then◌else◌, string_eq, ◌==◌}

abbrev pub Dict {ℓ} : Type ℓ → Type ℓ
Dict V = List (String × V)

module _ {ℓ} {V : Type ℓ} where
  -- The entry of a key; the first one counts.
  unfoldable pub lookup : String → Dict V → Option V
  lookup key [] = none
  lookup key ((k, value) ∷ entries) =
      let rest = lookup key entries in if k == key then some value else rest

  -- A write replaces the entry of the key, or adds one at the end.
  unfoldable pub insert : String → V → Dict V → Dict V
  insert key value [] = (key, value) ∷ []
  insert key value ((k, old) ∷ entries) =
      let rest = insert key value entries in
      if k == key then (key, value) ∷ entries else (k, old) ∷ rest

  pub lookup-insert :
      (key other : String) (value : V) (entries : Dict V)
      → lookup other (insert key value entries)
        ≡ (if key == other then some value else lookup other entries)
  unfolding insert lookup
  lookup-insert key other value [] = refl
  lookup-insert key other value ((k, old) ∷ entries) =
      ground (
        arith,
        lookup-insert key other value entries,
        eq_iff k other,
        eq_iff k key,
        eq_iff key other,
      )

-- `m[k]` of a `map[string]bool`, false where the key is missing.
unfoldable pub flag : String → Dict Bool → Bool
unfolding lookup
flag k m = elim (lookup k m) [ none ↦ false | some b ↦ b ]

pub flag-insert :
    (k j : String) (b : Bool) (m : Dict Bool)
    → flag j (insert k b m) ≡ (if k == j then b else flag j m)
unfolding flag
flag-insert k j b m = ground (arith, lookup-insert k j b m)
