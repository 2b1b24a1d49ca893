-- ===== src/Prelude/Dict.antt =====
-- Go's `map[K]V` as an association list. The program never depends on the order of a map.
use mathlib.Core.Logic.{◌⊎◌, inl, inr}
use mathlib.Core.Path.{◌≡◌, refl}
use mathlib.Core.Option.{Option, none, some}
use mathlib.Core.List.{List, [], ◌∷◌}
use native.Mathlib.Omega.{arith}
use xgoal.Prelude.Tests.{if◌then◌else◌, Bool-cases}
use xgoal.Prelude.Equality.{Eq, ◌==◌, ==_iff, ==_self}

abbrev pub Dict {ℓ} : Type ℓ → Type ℓ → Type ℓ
Dict K V = List (K × V)

module _ {ℓ} {K V : Type ℓ} ⦃e : Eq K⦄ where
  -- v, ok := m[k]
  unfoldable pub get : K → Dict K V → Option V
  get k [] = none
  get k ((j, v) ∷ m) = if j == k then some v else get k m

  -- m[k] = v
  unfoldable pub put : K → V → Dict K V → Dict K V
  put k v [] = (k, v) ∷ []
  put k v ((j, w) ∷ m) = if j == k then (k, v) ∷ m else (j, w) ∷ put k v m

  -- delete(m, k)
  unfoldable pub remove : K → Dict K V → Dict K V
  remove k [] = []
  remove k ((j, w) ∷ m) = let rest = remove k m in if j == k then rest else (j, w) ∷ rest

  pub get-put :
      (k j : K) (v : V) (m : Dict K V) → get j (put k v m) ≡ (if k == j then some v else get j m)
  unfolding get put
  get-put k j v [] = refl
  get-put k j v ((i, w) ∷ m) = ground (arith, ==_iff k j, ==_iff i k, ==_iff i j, get-put k j v m)

  pub get-remove :
      (k j : K) (m : Dict K V) → get j (remove k m) ≡ (if k == j then none else get j m)
  unfolding get remove
  get-remove k j [] = ground arith
  get-remove k j ((i, w) ∷ m) = ground (arith, ==_iff k j, ==_iff i k, ==_iff i j, get-remove k j m)

  pub get-put_self : (k : K) (v : V) (m : Dict K V) → get k (put k v m) ≡ some v
  get-put_self k v m = simp (get-put, ==_self)

module _ {ℓ} {K V : Type ℓ} ⦃e : Eq K⦄ (i k : K) (new : V) (m : Dict K V) where
  -- a write under a free key leaves every entry
  pub get-put_free : {r : V} → get i m ≡ none → get k m ≡ some r → get k (put i new m) ≡ some r
  get-put_free free h = ground (arith, get-put i k new m, ==_iff i k)

  -- an entry after a write is the old one, or the new one in the place of the one overwritten
  pub get-put_over :
      (g r : V)
      → get i m ≡ some g
      → get k m ≡ some r
      → (r' : V) × (get k (put i new m) ≡ some r') × ((r' ≡ r) ⊎ ((g ≡ r) × (r' ≡ new)))
  get-put_over g r found h = elim (Bool-cases (i == k)) [
    | inl same ↦ (new, ground (arith, get-put i k new m), inr (ground (arith, ==_iff i k), refl))
    | inr other ↦ (r, ground (arith, get-put i k new m), inl refl)
  ]

pub ruleset dict_laws = (get-put, get-remove)
