-- ===== src/Domain/Transitions/Check.antt =====
-- A fact about every allowed transition of a table follows from a check of the table's rows.
use xgoal.Prelude.{
  ◌||◌, not, sym, ◌≡◌, ◌⊎◌, inl, inr, Bool, true, List, [], ◌∷◌, arith, Eq, ◌==◌, ==_iff, contains,
  all_of, Bool-cases,
}
use xgoal.Domain.Transitions.{Transitions, allows, exists, IsClosed}

module _ {T : Type 0} ⦃e : Eq T⦄ where
  all_of-contains :
      (p : T → Bool) (b : T) (xs : List T) → all_of p xs ≡ true → contains b xs ≡ true → p b ≡ true
  unfolding contains
  all_of-contains p b [] h m = cc
  all_of-contains p b (x ∷ xs) h m = ground (arith, ==_iff x b, all_of-contains p b xs)

  unfoldable pub holds_on : (T → T → Bool) → Transitions T → Bool
  holds_on p t = all_of (λ row. all_of (p row.0) row.1) t

  pub holds_on-allows :
      (p : T → T → Bool) (t : Transitions T)
      → holds_on p t ≡ true
      → (a b : T) → allows t a b ≡ true
      → p a b ≡ true
  unfolding holds_on allows
  holds_on-allows p [] h a b m = cc
  holds_on-allows p ((s, targets) ∷ rest) h a b m = elim (Bool-cases (s == a)) [
    | inl same ↦ ground (arith, ==_iff s a, all_of-contains (p s) b targets)
    | inr other ↦ ground (arith, holds_on-allows p rest (ground arith) a b)
  ]

  -- the check of `IsClosed`
  pub IsClosed-by_check : (t : Transitions T) → holds_on (λ _ b. exists t b) t ≡ true → IsClosed t
  IsClosed-by_check t = holds_on-allows (λ _ b. exists t b) t

  -- the check that one leaves the region `p` through `gate` only
  abbrev pub leaves_through : (T → Bool) → T → T → T → Bool
  leaves_through p gate a b = not (p a) || b == gate || p b

  leaves :
      (p : T → Bool) (gate a b : T)
      → leaves_through p gate a b ≡ true
      → p a ≡ true
      → (gate ≡ b) ⊎ (p b ≡ true)
  leaves p gate a b h pa = elim (Bool-cases (b == gate)) [
    | inl same ↦ inl (sym ((==_iff b gate).0 same))
    | inr other ↦ inr (ground arith)
  ]

  pub leaves_by_check :
      (t : Transitions T) (p : T → Bool) (gate : T)
      → holds_on (leaves_through p gate) t ≡ true
      → (a b : T) → p a ≡ true
      → allows t a b ≡ true
      → (gate ≡ b) ⊎ (p b ≡ true)
  leaves_by_check t p gate h a b pa step =
      leaves p gate a b (holds_on-allows (leaves_through p gate) t h a b step) pa
