-- ===== src/GoMap/Laws.antt =====
-- Laws of the model of Go's maps: reading after writing, and no key twice.
use go_yandex_practicum_metr.Prelude.{
  String, ◌==◌, eq_iff, eq_refl, some, [], ◌∷◌, ◌≡◌, refl, arith, if◌then◌else◌,
}
use go_yandex_practicum_metr.GoMap.{GoMap, lookup, insert, NodupKeys}

module _ {ℓ} {V : Type ℓ} where
  -- What a key reads as once another, or the same, has been written.
  pub lookup-insert :
      (key asked : String) (new : V) (entries : GoMap V)
      → lookup asked (insert key new entries)
        ≡ (if key == asked then some new else lookup asked entries)
  unfolding insert lookup
  lookup-insert key asked new ((name, held) ∷ rest) =
      let later = lookup-insert key asked new rest in
      ground (arith, later, eq_iff name asked, eq_iff key asked, eq_iff name key)
  lookup-insert key asked new [] = refl

  pub insert-NodupKeys : (k : String) (v : V) (m : GoMap V) → NodupKeys m → NodupKeys (insert k v m)
  unfolding lookup insert
  insert-NodupKeys k v [] h = (refl, tt)
  insert-NodupKeys k v ((i, w) ∷ m) (fresh, h) =
      ground (arith, insert-NodupKeys k v m h, lookup-insert k i v m, eq_iff i k, eq_iff k i)

  pub lookup-insert_self : (k : String) (v : V) (m : GoMap V) → lookup k (insert k v m) ≡ some v
  lookup-insert_self k v m = simp (lookup-insert, eq_refl)
