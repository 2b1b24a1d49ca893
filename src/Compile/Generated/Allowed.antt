-- ===== src/Compile/Generated/Allowed.antt =====
-- The ids that prepareGenerated of internal/goalcompile/generated.go gives and allows.
use Prim.Native.String.{◌++◌ as ◌<>◌}
use text.Mathlib.Text.{starts_with}
use text.Mathlib.TextPositions.{starts_with-append}
use xgoal.Prelude.{
  ◌≡◌, sym, subst, ◌⊎◌, inl, inr, String, string_eq, true, false, ◌||◌, Option, List, [], ◌∷◌, ◌==◌,
  nat_eq, contains, map, is_empty, arith, All, Bool-cases,
}
use xgoal.Prelude.Exec.{Result, ok, err}
use xgoal.Compile.Graph.Paths.{In, contains-head, contains-tail, contains-cons}
use xgoal.Compile.Proposal.{
  Contract, Plan, Generated, CompileError, generated_valid, normalize_plan,
}
use xgoal.Compile.Coverage.{ValidationCapabilities}
use xgoal.Compile.Generated.{
  Prepared, Ready, namespaced, in_criteria, in_works, prepare_one, prepare_each, install,
  prepare_generated,
}

namespaced-IsOwn :
    (goal_id old : String) → starts_with (namespaced goal_id old) (goal_id <> "__") ≡ true
unfolding namespaced
namespaced-IsOwn goal_id old = elim (Bool-cases (starts_with old (goal_id <> "__"))) [
  | inl own ↦ rw own own
  | inr other ↦ rw other (starts_with-append (goal_id <> "__") old)
]

-- the id is the goal's own, and not one of a project's validator
abbrev pub IsOwn : String → List String → Generated → Type 0
IsOwn goal_id trusted g =
    (starts_with g.id (goal_id <> "__") ≡ true) × (contains g.id trusted ≡ false)

abbrev pub ids_of : List Generated → List String
ids_of gs = map (λ (g : Generated). g.id) gs

abbrev pub Sub : List String → List String → Type 0
Sub xs ys = (k : String) → In k xs → In k ys

not_in_part :
    (k : String) (xs ys : List String) → Sub xs ys → contains k ys ≡ false → contains k xs ≡ false
not_in_part k xs ys sub out = elim (Bool-cases (contains k xs)) [
  | inl there ↦ absurd (ground (arith, sub k there))
  | inr gone ↦ gone
]

-- what the loop's result has
record Installed (goal_id : String) (trusted allowed : List String) (r : List Generated × Prepared)
    : Type 0 where
  own : All (IsOwn goal_id trusted) r.0
  only : (k : String) → In k r.1.allowed → In k allowed ⊎ In k (ids_of r.0)

data Outcome (goal_id : String) (trusted allowed : List String)
    : Result CompileError (List Generated × Prepared) → Type 0 where
  refused : {e : CompileError} → Outcome goal_id trusted allowed (err e)
  installed :
      {r : List Generated × Prepared}
      → Installed goal_id trusted allowed r
      → Outcome goal_id trusted allowed (ok r)

one_more :
    (goal_id id : String) (trusted allowed : List String) (g : Generated)
    {r : Result CompileError (List Generated × Prepared)}
    → IsOwn goal_id trusted (record g { id = id })
    → Outcome goal_id trusted (id ∷ allowed) r
    → Outcome goal_id trusted allowed
        (elim r as (λ _. Result CompileError (List Generated × Prepared)) [
          | err e ↦ err e
          | ok (rest, m') ↦ ok (record g { id = id } ∷ rest, m')
        ])
one_more goal_id id trusted allowed g own refused = refused
one_more goal_id id trusted allowed g own (installed {r = (rest, m')} i) =
    installed {r = (record g { id = id } ∷ rest, m')} (record {
      own = (own, i.own);
      only = λ k h. elim (i.only k h) [
        | inl there ↦ elim (contains-cons k id allowed there) [
          | inl e ↦
              inr (subst (λ x. In x (id ∷ ids_of rest)) (sym e) (contains-head id (ids_of rest)))
          | inr old ↦ inl old
        ]
        | inr later ↦ inr (contains-tail k id (ids_of rest) later)
      ];
    })

prepare_each-Outcome :
    (goal_id : String) (trusted : List String) (gs : List Generated) (m : Prepared)
    → Sub trusted m.allowed
    → Outcome goal_id trusted m.allowed (prepare_each goal_id trusted gs m)
unfolding prepare_each
prepare_each-Outcome goal_id trusted [] m sub = installed (record { own = tt; only = λ k h. inl h })
prepare_each-Outcome goal_id trusted (g ∷ gs) m sub =
    let id = namespaced goal_id g.id in
    elim (Bool-cases (contains g.id trusted)) [
      | inl taken ↦ rw (taken, prepare_each) refused
      | inr free ↦ elim (Bool-cases (contains id m.allowed)) [
        | inl clash ↦ rw (free, clash, prepare_each) refused
        | inr new ↦
            elim (Bool-cases (in_criteria g.id m.criteria == 0 || in_works g.id m.works == 0)) [
              | inl idle ↦ rw (free, new, idle, prepare_each) refused
              | inr used ↦
                  rw (free, new, used, prepare_each)
                    (one_more goal_id id trusted m.allowed g
                      (namespaced-IsOwn goal_id g.id, not_in_part id trusted m.allowed sub new)
                      (unfold prepare_one in
                        prepare_each-Outcome goal_id trusted gs (prepare_one id g m)
                          (λ k h. contains-tail k id m.allowed (sub k h))))
            ]
      ]
    ]

-- what prepareGenerated returns has
pub record IsReady (goal_id : String) (trusted : List String) (r : Ready) : Type 0 where
  pub own : All (IsOwn goal_id trusted) r.contract.generated_validators
  pub only :
      (k : String) → In k r.allowed → In k trusted ⊎ In k (ids_of r.contract.generated_validators)

data Answer (goal_id : String) (trusted : List String) : Result CompileError Ready → Type 0 where
  failed : {e : CompileError} → Answer goal_id trusted (err e)
  ready : {r : Ready} → IsReady goal_id trusted r → Answer goal_id trusted (ok r)

install-Answer :
    (goal_id : String) (trusted : List String) (c : Contract) (p : Plan)
    (done : List Generated × Prepared)
    → Installed goal_id trusted trusted done
    → Answer goal_id trusted (install c p done)
unfolding install
install-Answer goal_id trusted c p (gs, m) i = elim (Bool-cases (generated_valid gs)) [
  | inl fine ↦ rw (fine, install) (ready (record { own = i.own; only = i.only }))
  | inr bad ↦ rw (bad, install) failed
]

Answer-after :
    (goal_id : String) (trusted : List String) (c : Contract) (p : Plan)
    {r : Result CompileError (List Generated × Prepared)}
    → Outcome goal_id trusted trusted r
    → Answer goal_id trusted
        (elim r as (λ _. Result CompileError Ready) [ err e ↦ err e | ok done ↦ install c p done ])
Answer-after goal_id trusted c p refused = failed
Answer-after goal_id trusted c p (installed {r = r} i) = install-Answer goal_id trusted c p r i

no_generated :
    (goal_id : String) (trusted : List String) (gs : List Generated)
    → is_empty gs ≡ true
    → All (IsOwn goal_id trusted) gs
no_generated goal_id trusted [] h = tt
no_generated goal_id trusted (g ∷ gs) h = absurd (ground arith)

prepare_generated-Answer :
    (goal_id : String) (c : Contract) (p : Plan) (trusted : List String)
    (caps : Option ValidationCapabilities)
    → Answer goal_id trusted (prepare_generated goal_id c p trusted caps)
unfolding prepare_generated
prepare_generated-Answer goal_id c p trusted caps =
    elim (Bool-cases (generated_valid c.generated_validators)) [
      | inr bad ↦ rw (bad, prepare_generated) failed
      | inl fine ↦ elim (Bool-cases (is_empty c.generated_validators)) [
        | inl nothing ↦
            rw (fine, nothing, prepare_generated)
              (ready (record {
                own = no_generated goal_id trusted c.generated_validators nothing;
                only = λ k h. inl h;
              }))
        | inr many ↦
            rw (fine, many, prepare_generated)
              (Answer-after goal_id trusted c (normalize_plan p)
                (prepare_each-Outcome goal_id trusted c.generated_validators _ (λ k h. h)))
      ]
    ]

ready_of_Answer :
    (goal_id : String) (trusted : List String) {r : Result CompileError Ready} (done : Ready)
    → Answer goal_id trusted r
    → r ≡ ok done
    → IsReady goal_id trusted done
ready_of_Answer goal_id trusted done failed h = absurd (ground arith)
ready_of_Answer goal_id trusted done (ready {r = r} i) h =
    subst (λ x. IsReady goal_id trusted x) (let e : r ≡ done = ground arith in e) i

-- Where prepareGenerated succeeds, the id of each generated validator of its contract begins with
-- the goal's prefix and is not that of a trusted validator of the project, and an allowed validator
-- is a trusted one of the project or a generated one of that contract.
pub prepare_generated-IsReady :
    (goal_id : String) (c : Contract) (p : Plan) (trusted : List String)
    (caps : Option ValidationCapabilities) (r : Ready)
    → prepare_generated goal_id c p trusted caps ≡ ok r
    → IsReady goal_id trusted r
prepare_generated-IsReady goal_id c p trusted caps r h =
    ready_of_Answer goal_id trusted r (prepare_generated-Answer goal_id c p trusted caps) h
