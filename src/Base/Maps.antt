-- ===== src/Base/Maps.antt =====
-- Go's maps with an integer key, as association lists.
use Prim.Native.Nat.{ℕ, ◌<◌}
use mathlib.Core.Path.{◌≡◌, refl}
use mathlib.Core.Logic.{◌≢◌}
use mathlib.Core.List.{List, [], ◌∷◌, ◌++◌}
use mathlib.Core.Option.{Option, none, some}
use native.Mathlib.Omega.{arith}
use ezproxy.Base.Tests.{◌==◌, if◌then◌else◌}
use ezproxy.Base.Lists.{All}

module _ {ℓ} {V : Type ℓ} where
  unfoldable pub lookup : ℕ → List (ℕ × V) → Option V
  lookup key [] = none
  lookup key ((other, value) ∷ rest) = if other == key then some value else lookup key rest

  unfoldable pub insert : ℕ → V → List (ℕ × V) → List (ℕ × V)
  insert key value [] = (key, value) ∷ []
  insert key value ((other, old) ∷ rest) =
      if other == key then (key, value) ∷ rest else (other, old) ∷ insert key value rest

  -- The other keys keep their values.
  pub lookup-insert :
      (key asked : ℕ) (value : V) (rest : List (ℕ × V))
      → lookup asked (insert key value rest)
        ≡ (if key == asked then some value else lookup asked rest)
  unfolding lookup insert
  lookup-insert key asked value [] = refl
  lookup-insert key asked value (first ∷ rest) = ground (arith, lookup-insert key asked value rest)

  -- A new key goes to the end.
  pub insert_fresh :
      (k : ℕ) (v : V) (m : List (ℕ × V)) → lookup k m ≡ none → insert k v m ≡ m ++ (k, v) ∷ []
  unfolding lookup insert
  insert_fresh k v [] h = refl
  insert_fresh k v ((j, w) ∷ m) h = ground (arith, insert_fresh k v m)

  pub lookup_above : (k : ℕ) (m : List (ℕ × V)) → All (λ e. e.0 < k) m → lookup k m ≡ none
  unfolding lookup
  lookup_above k [] h = refl
  lookup_above k ((j, w) ∷ m) h = ground (arith, lookup_above k m h.1)

  pub lookup-append :
      (j k : ℕ) (v : V) (m : List (ℕ × V))
      → lookup j m ≡ none
      → j ≢ k
      → lookup j (m ++ (k, v) ∷ []) ≡ none
  unfolding lookup
  lookup-append j k v [] h l = ground arith
  lookup-append j k v ((i, w) ∷ m) h l = ground (arith, lookup-append j k v m)
