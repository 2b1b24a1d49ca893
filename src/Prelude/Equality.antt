-- ===== src/Prelude/Equality.antt =====
-- Go's `==` on comparable values, as an interface with an instance for each type.
use Prim.Native.Nat.{ℕ}
use Prim.Native.String.{String}
use mathlib.Core.Path.{◌≡◌, refl}
use mathlib.Core.Logic.{◌↔◌, ◌≢◌}
use mathlib.Core.Bool.{Bool, true, false, decide}
use native.Mathlib.Omega.{arith}
use text.Mathlib.Text.{◌==◌ as str_eq}
use text.Mathlib.TextEquality.{eq_iff}
use xgoal.Prelude.Tests.{nat_beq, nat_beq_iff}

pub record Eq {ℓ} (A : Type ℓ) : Type ℓ where
  pub equal : A → A → Bool
  pub equal_iff : (a b : A) → (equal a b ≡ true) ↔ (a ≡ b)

infix 50 ◌==◌
abbrev pub ◌==◌ {ℓ} : {A : Type ℓ} ⦃e : Eq A⦄ → A → A → Bool
◌==◌ ⦃e⦄ = e.equal

pub ==_iff {ℓ} : {A : Type ℓ} ⦃e : Eq A⦄ (a b : A) → ((a == b) ≡ true) ↔ (a ≡ b)
==_iff ⦃e⦄ = e.equal_iff

pub ==_self {ℓ} : {A : Type ℓ} ⦃e : Eq A⦄ (a : A) → (a == a) ≡ true
==_self a = (==_iff a a).1 refl

pub ==_ne {ℓ} : {A : Type ℓ} ⦃e : Eq A⦄ (a b : A) → a ≢ b → (a == b) ≡ false
==_ne a b h = ground (arith, ==_iff a b)

pub decide_iff_path {ℓ} :
    {A : Type ℓ} (d : Discrete A) (a b : A) → (decide (d a b) ≡ true) ↔ (a ≡ b)
unfolding decide
decide_iff_path d a b = elim (d a b) as (λ (x : Dec (a ≡ b)). (decide x ≡ true) ↔ (a ≡ b)) [
  | yes p ↦ (λ _. p, λ _. refl)
  | no n ↦ (λ e. cc, λ p. absurd (n p))
]

abbrev pub eq_of_discrete {ℓ} : {A : Type ℓ} → Discrete A → Eq A
eq_of_discrete d = record { equal = λ a b. decide (d a b); equal_iff = decide_iff_path d }

instance abbrev pub nat_eq : Eq ℕ
nat_eq = record { equal = nat_beq; equal_iff = nat_beq_iff }

instance abbrev pub string_eq : Eq String
string_eq = record { equal = str_eq; equal_iff = eq_iff }

unfoldable pub String-discrete : Discrete String
String-discrete s t =
    (elim (str_eq s t) as (λ v. ((v ≡ true) ↔ (s ≡ t)) → Dec (s ≡ t)) [
      | true ↦ λ f. yes (f.0 refl)
      | false ↦ λ f. no (λ p. absurd (false_ne_true (f.1 p)))
    ])
      (eq_iff s t)
  where
    false_ne_true : ◌≢◌ {A = Bool} false true
    false_ne_true e = cc
