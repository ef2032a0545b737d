-- ===== src/GoMap.antt =====
-- Go's `map[string]V` as the list of its entries in the order in which a `range` loop visits them.
-- The runtime leaves that order open, so theorems about a loop quantify over every list of entries.
pub mod Laws
use go_yandex_practicum_metr.Prelude.{
  String, Bool, ◌==◌, Option, none, some, List, [], ◌∷◌, ◌≡◌, if◌then◌else◌,
}

abbrev pub GoMap {ℓ} : Type ℓ → Type ℓ
GoMap V = List (String × V)

module _ {ℓ} {V : Type ℓ} where
  -- `v, ok := m[key]`
  unfoldable pub lookup : String → GoMap V → Option V
  lookup key [] = none
  lookup key ((name, held) ∷ rest) = if name == key then some held else lookup key rest

  -- `m[key] = new`
  unfoldable pub insert : String → V → GoMap V → GoMap V
  insert key new [] = (key, new) ∷ []
  insert key new ((name, held) ∷ rest) =
      if name == key then (name, new) ∷ rest else (name, held) ∷ insert key new rest

  -- A map has at most one entry for a key.
  abbrev pub NodupKeys : GoMap V → Type ℓ
  NodupKeys [] = Unit
  NodupKeys ((k, v) ∷ m) = (lookup k m ≡ none) × NodupKeys m

  -- Equal contents, whatever the order of the entries.
  abbrev pub SameContents : GoMap V → GoMap V → Type ℓ
  SameContents m n = (k : String) → lookup k m ≡ lookup k n
