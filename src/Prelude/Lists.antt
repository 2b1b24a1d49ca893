-- ===== src/Prelude/Lists.antt =====
-- Lists measured by native numbers, membership as a Boolean test, and predicates on all members.
use Prim.Native.Nat.{ℕ, suc, ◌+◌}
use mathlib.Core.Path.{◌≡◌, sym}
use mathlib.Core.Bool.{Bool, true, false, ◌&&◌, ◌||◌, false≢true}
use mathlib.Core.Logic.{inl, inr}
use mathlib.Core.List.{List, [], ◌∷◌, ◌++◌, Memᴰ}
use native.Mathlib.Omega.{arith}
use xgoal.Prelude.Tests.{Bool-cases}
use xgoal.Prelude.Equality.{Eq, ◌==◌, ==_iff}

module _ {ℓ} {A : Type ℓ} where
  abbrev pub length : List A → ℕ
  length [] = 0
  length (x ∷ xs) = suc (length xs)

  pub length-append : (xs ys : List A) → length (xs ++ ys) ≡ length xs + length ys
  length-append [] ys = omega arith
  length-append (x ∷ xs) ys = omega (arith, length-append xs ys)

  abbrev pub is_empty : List A → Bool
  is_empty [] = true
  is_empty (x ∷ xs) = false

  abbrev pub all_of : (A → Bool) → List A → Bool
  all_of p [] = true
  all_of p (x ∷ xs) = p x && all_of p xs

-- A predicate that holds of every member.
abbrev pub All {ℓ κ} : {A : Type ℓ} → (A → Type κ) → List A → Type κ
All P [] = Unit
All P (x ∷ xs) = P x × All P xs

module _ {ℓ} {A : Type ℓ} ⦃e : Eq A⦄ where
  unfoldable pub contains : A → List A → Bool
  contains a [] = false
  contains a (x ∷ xs) = x == a || contains a xs

  pub contains_of_Memᴰ : {a : A} {xs : List A} → Memᴰ a xs → contains a xs ≡ true
  unfolding contains
  contains_of_Memᴰ {a} {xs} (Memᴰ.head {x = x} {xs = xs'} p) = ground (arith, ==_iff x a, sym p)
  contains_of_Memᴰ (Memᴰ.tail m) = ground (arith, contains_of_Memᴰ m)

  pub Memᴰ_of_contains : (a : A) (xs : List A) → contains a xs ≡ true → Memᴰ a xs
  unfolding contains
  Memᴰ_of_contains a [] h = absurd (false≢true h)
  Memᴰ_of_contains a (x ∷ xs) h = elim (Bool-cases (x == a)) [
    | inl same ↦ Memᴰ.head (sym ((==_iff x a).0 same))
    | inr other ↦ Memᴰ.tail (Memᴰ_of_contains a xs (ground arith))
  ]
