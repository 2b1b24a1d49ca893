-- ===== src/Scope/Matching/Remember.antt =====
-- The tables of matchSegments: what they hold while keys are open, and that one remembered search
-- keeps it.
use xgoal.Prelude.{
  ◌≡◌, refl, sym, ap, ◌∙◌, ◌⊎◌, inl, inr, Bool, true, false, none, some, ◌==◌, ==_iff, arith,
  Bool-cases, if◌then◌else◌,
}
use xgoal.Prelude.Dict.{Dict, get, put, get-put}
use xgoal.Policy.Paths.{text_eq}
use xgoal.Scope.Matching.{Key, key_eq, Tables, value_at, Search, remember, or_search, answer}

pub value_at-put :
    (q k : Key) (b : Bool) (d : Dict Key Bool)
    → value_at q (put k b d) ≡ (if k == q then b else value_at q d)
value_at-put q k b d = rw (get-put k q b d, value_at) (pick (k == q))
  where
    pick :
        (c : Bool)
        → elim (if c then some b else get q d) as (λ _. Bool) [ none ↦ false | some x ↦ x ]
          ≡ (if c then b else value_at q d)
    pick true = refl
    pick false = refl

-- each visited key is still open, or has its value in the memo
pub record Good (value : Key → Bool) (is_open : Key → Type 0) (t : Tables) : Type 0 where
  pub right : (q : Key) → value_at q t.visited ≡ true → is_open q ⊎ (value_at q t.memo ≡ value q)

pub record Finds (value : Key → Bool) (is_open : Key → Type 0) (v : Bool) (r : Bool × Tables)
    : Type 0 where
  pub found : r.0 ≡ v
  pub good : Good value is_open r.1

module _ (value : Key → Bool) (is_open : Key → Type 0) (k : Key) where
  abbrev pub Opened : Key → Type 0
  Opened q = (q ≡ k) ⊎ is_open q

  pub Good-mark :
      (t : Tables)
      → Good value is_open t
      → Good value Opened (record t { visited = put k true t.visited })
  Good-mark t g = record {
    right = λ q h. elim (Bool-cases (k == q)) [
      | inl same ↦ inl (inl (sym ((==_iff k q).0 same)))
      | inr other ↦ elim (g.right q (ground (arith, value_at-put q k true t.visited))) [
        | inl o ↦ inl (inr o)
        | inr e ↦ inr e
      ]
    ];
  }

  pub Good-memo :
      (t : Tables) (b : Bool)
      → b ≡ value k
      → Good value Opened t
      → Good value is_open (record t { memo = put k b t.memo })
  Good-memo t b e g = record {
    right = λ q h. elim (Bool-cases (k == q)) [
      | inl same ↦ inr (value_at-put q k b t.memo ∙ (rw same (e ∙ ap value ((==_iff k q).0 same))))
      | inr other ↦ elim (g.right q h) [
        | inl (inl p) ↦ absurd (ground (arith, (==_iff k q).1 (sym p)))
        | inl (inr o) ↦ inl o
        | inr m ↦ inr (ground (arith, value_at-put q k b t.memo))
      ]
    ];
  }

  pub remember-Finds :
      (search : Search) (t : Tables)
      → (is_open k → ⊥)
      → Good value is_open t
      → ((u : Tables) → Good value Opened u → Finds value Opened (value k) (search u))
      → Finds value is_open (value k) (remember k search t)
  unfolding remember
  remember-Finds search t closed g run = elim (Bool-cases (value_at k t.visited)) [
    | inl seen ↦
        rw (seen, remember)
          (record {
            found = elim (g.right k seen) [ inl o ↦ absurd (closed o) | inr e ↦ e ];
            good = g;
          })
    | inr fresh ↦
        let f = run (record t { visited = put k true t.visited }) (Good-mark t g) in
        rw (fresh, remember) (record { found = f.found; good = Good-memo _ _ f.found f.good })
  ]

module _ {value : Key → Bool} {is_open : Key → Type 0} where
  pub or-Finds :
      (a b : Bool) (first second : Search) (t : Tables)
      → Finds value is_open a (first t)
      → ((u : Tables) → Good value is_open u → Finds value is_open b (second u))
      → Finds value is_open (elim a [ true ↦ true | false ↦ b ]) (or_search first second t)
  or-Finds true b first second t f g = rw (f.found, or_search) f
  or-Finds false b first second t f g = rw (f.found, or_search) (g (first t).1 f.good)

  pub branch-Finds :
      (b : Bool) {v w : Bool} {r q : Bool × Tables}
      → Finds value is_open v r
      → Finds value is_open w q
      → Finds value is_open
          (elim b [ true ↦ v | false ↦ w ])
          (elim b as (λ _. Bool × Tables) [ true ↦ r | false ↦ q ])
  branch-Finds true f g = f
  branch-Finds false f g = g

  pub answer-Finds :
      (b : Bool) (u : Tables) → Good value is_open u → Finds value is_open b (answer b u)
  answer-Finds b u g = record { found = refl; good = g }
