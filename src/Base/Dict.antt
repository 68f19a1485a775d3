-- ===== src/Base/Dict.antt =====
-- A dictionary with text keys as an association list: Python's `dict`, or a key/value table.
use mathlib.Core.Path.{◌≡◌, refl}
use mathlib.Core.Option.{Option, none, some}
use mathlib.Core.List.{List, [], ◌∷◌}
use native.Mathlib.Omega.{arith}
use text.Mathlib.TextEquality.{eq_iff}
use Prim.Native.String.{String}
use cryptogpt_one_intent_wal.Base.Tests.{if◌then◌else◌, str_eq}

abbrev pub Dict {ℓ} : Type ℓ → Type ℓ
Dict V = List (String × V)

module _ {ℓ} {V : Type ℓ} where
  -- `d.get(key)`
  abbrev pub lookup : String → Dict V → Option V
  lookup key [] = none
  lookup key ((name, value) ∷ rest) = if str_eq name key then some value else lookup key rest

  -- `d[key] = value`
  abbrev pub insert : String → V → Dict V → Dict V
  insert key value [] = (key, value) ∷ []
  insert key value ((name, old) ∷ rest) =
      let later = insert key value rest in
      if str_eq name key then (key, value) ∷ rest else (name, old) ∷ later

  pub lookup-insert :
      (written read : String) (value : V) (table : Dict V)
      → lookup read (insert written value table)
        ≡ (if str_eq written read then some value else lookup read table)
  lookup-insert written read value [] = refl
  lookup-insert written read value ((name, old) ∷ rest) =
      let later = lookup-insert written read value rest in
      ground (arith, eq_iff name written, eq_iff name read, eq_iff written read, later)
