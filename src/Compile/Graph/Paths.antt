-- ===== src/Compile/Graph/Paths.antt =====
-- Paths of a dependency graph, and how many of its keys are outside a set.
use xgoal.Prelude.{
  ℕ, suc, ◌<◌, ◌≤◌, ◌≡◌, ◌⊎◌, refl, sym, ap, String, string_eq, true, false, List, [], ◌∷◌, ◌==◌,
  ==_iff, contains, length, arith, Bool-cases, inl, inr, if◌then◌else◌,
}
use xgoal.Compile.Graph.{delete}

-- membership in a set of keys
abbrev pub In : String → List String → Type 0
In k ks = contains k ks ≡ true

pub contains-head : (k : String) (ks : List String) → In k (k ∷ ks)
unfolding contains
contains-head k ks = ground (arith, ==_iff k k)

pub contains-tail : (k j : String) (ks : List String) → In k ks → In k (j ∷ ks)
unfolding contains
contains-tail k j ks h = ground arith

-- a key of a longer set is its first, or a key of the rest
pub contains-cons : (k j : String) (ks : List String) → In k (j ∷ ks) → (k ≡ j) ⊎ In k ks
unfolding contains
contains-cons k j ks h = elim (Bool-cases (j == k)) [
  | inl same ↦ inl (sym ((==_iff j k).0 same))
  | inr other ↦ inr (ground arith)
]

pub delete-absent : (k : String) (ks : List String) → contains k ks ≡ false → delete k ks ≡ ks
unfolding contains delete
delete-absent k [] h = refl
delete-absent k (j ∷ js) h = ground (arith, delete-absent k js)

pub delete-head : (k : String) (ks : List String) → contains k ks ≡ false → delete k (k ∷ ks) ≡ ks
unfolding delete
delete-head k ks h = ground (arith, ==_iff k k, delete-absent k ks h)

-- how many of the keys are outside the set
pub outside : List String → List String → ℕ
outside set [] = 0
outside set (k ∷ ks) = if contains k set then outside set ks else suc (outside set ks)

pub outside-le-length : (set ks : List String) → outside set ks ≤ length ks
unfolding outside
outside-le-length set [] = omega arith
outside-le-length set (k ∷ ks) = ground (arith, outside-le-length set ks)

outside_mono : (n : String) (set ks : List String) → outside (n ∷ set) ks ≤ outside set ks
unfolding outside contains
outside_mono n set [] = omega arith
outside_mono n set (k ∷ ks) = ground (arith, outside_mono n set ks)

pub outside_less :
    (n : String) (set ks : List String)
    → In n ks
    → contains n set ≡ false
    → outside (n ∷ set) ks < outside set ks
unfolding outside contains
outside_less n set [] there new = cc
outside_less n set (k ∷ ks) there new = elim (Bool-cases (k == n)) [
  | inl same ↦
      let e = (==_iff k n).0 same in
      ground (arith, ==_iff n k, ==_iff k n, ap (λ x. contains x set) e, outside_mono n set ks)
  | inr other ↦ ground (arith, outside_mono n set ks, outside_less n set ks)
]

module _ (next : String → List String) where
  -- one or more edges
  pub data Leads : String → String → Type 0 where
    edge : {a b : String} → In b (next a) → Leads a b
    more : {a b c : String} → In b (next a) → Leads b c → Leads a c

  pub Leads-trans : {a b c : String} → Leads a b → Leads b c → Leads a c
  Leads-trans (edge h) q = more h q
  Leads-trans (more h p) q = more h (Leads-trans p q)
