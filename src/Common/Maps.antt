-- ===== src/Common/Maps.antt =====
-- `HashMap<String, V>` of the Rust standard library, as an association list in which a key stands
-- once. A new key goes to the end: the order of iteration, which the library leaves open, is here
-- the order of insertion.
use Prim.Native.String.{String}
use mathlib.Core.Path.{◌≡◌, refl, subst}
use mathlib.Core.Bool.{Bool, true, false}
use mathlib.Core.Option.{Option, none, some}
use mathlib.Core.List.{List, [], ◌∷◌}
use native.Mathlib.Omega.{arith}
use ugoite.Common.Tests.{◌==◌, str_eq_iff, if◌then◌else◌}
use ugoite.Common.Lists.{All}

abbrev pub HashMap {ℓ} : Type ℓ → Type ℓ
HashMap V = List (String × V)

module _ {ℓ} {V : Type ℓ} where
  -- `HashMap::get`
  unfoldable pub lookup : String → HashMap V → Option V
  lookup k [] = none
  lookup k ((j, v) ∷ m) = if j == k then some v else lookup k m

  -- `HashMap::insert`
  unfoldable pub put : String → V → HashMap V → HashMap V
  put k v [] = (k, v) ∷ []
  put k v ((j, w) ∷ m) = if j == k then (k, v) ∷ m else (j, w) ∷ put k v m

  -- `entry(key).or_insert_with(|| v)`
  unfoldable pub put_if_absent : String → V → HashMap V → HashMap V
  unfolding lookup put
  put_if_absent k v m = elim (lookup k m) [ none ↦ put k v m | some _ ↦ m ]

  pub lookup-put :
      (k j : String) (v : V) (m : HashMap V)
      → lookup j (put k v m) ≡ (if k == j then some v else lookup j m)
  unfolding lookup put
  lookup-put k j v [] = refl
  lookup-put k j v ((i, w) ∷ m) =
      ground (arith, str_eq_iff k j, str_eq_iff i k, str_eq_iff i j, lookup-put k j v m)

module _ {ℓ κ} {V : Type ℓ} (P : V → Type κ) where
  -- A predicate on every value of a map.
  abbrev pub AllValues : HashMap V → Type κ
  AllValues m = All (λ e. P e.1) m

  pub AllValues-put :
      (k : String) (v : V) (m : HashMap V) → P v → AllValues m → AllValues (put k v m)
  unfolding put
  AllValues-put k v [] p h = (p, tt)
  AllValues-put k v ((j, w) ∷ m) p (q, h) = pick (j == k) (AllValues-put k v m p h)
    where
      pick :
          (b : Bool)
          → AllValues (put k v m)
          → AllValues (if b then (k, v) ∷ m else (j, w) ∷ put k v m)
      pick true r = (p, h)
      pick false r = (q, r)

  pub AllValues-lookup :
      (k : String) (m : HashMap V) {v : V} → lookup k m ≡ some v → AllValues m → P v
  unfolding lookup
  AllValues-lookup k [] e h = cc
  AllValues-lookup k ((j, w) ∷ m) {v} e (q, h) = pick (j == k) e (λ e'. AllValues-lookup k m e' h)
    where
      pick :
          (b : Bool)
          → (if b then some w else lookup k m) ≡ some v
          → (lookup k m ≡ some v → P v)
          → P v
      pick true e' rest = subst P (cc) q
      pick false e' rest = rest e'
