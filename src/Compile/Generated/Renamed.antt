-- ===== src/Compile/Generated/Renamed.antt =====
-- What prepareGenerated of internal/goalcompile/generated.go leaves of the proposal: it renames
-- validators and nothing else.
use xgoal.Prelude.{
  ◌≡◌, refl, sym, ap, ◌∙◌, ◌⊎◌, inl, inr, String, string_eq, nat_eq, ◌||◌, Option, List, [], ◌∷◌,
  ◌==◌, contains, map, is_empty, arith, Bool-cases,
}
use xgoal.Prelude.Exec.{ok, Result-cases}
use xgoal.Compile.Proposal.{
  Contract, AcceptanceCriterion, Plan, PlanWork, Generated, generated_valid, normalize_plan,
}
use xgoal.Compile.Coverage.{ValidationCapabilities}
use xgoal.Compile.WorkGraph.{criterion_ids}
use xgoal.Compile.Generated.{
  Prepared, Ready, namespaced, renamed, in_criteria, in_works, prepare_one, prepare_each, install,
  prepare_generated,
}

-- the work items, each without its validators
abbrev pub outline : List PlanWork → List PlanWork
outline ws = map (λ (w : PlanWork). record w { validators = [] }) ws

abbrev ids : List AcceptanceCriterion → List String
ids cs = map (λ (c : AcceptanceCriterion). c.id) cs

works-renamed :
    (old id : String) (ws : List PlanWork)
    → outline (map (λ (w : PlanWork). record w { validators = renamed old id w.validators }) ws)
      ≡ outline ws
works-renamed old id [] = refl
works-renamed old id (w ∷ ws) = ap (λ x. record w { validators = [] } ∷ x) (works-renamed old id ws)

criteria-renamed :
    (old id : String) (cs : List AcceptanceCriterion)
    → ids (
        map (λ (c : AcceptanceCriterion). record c { validators = renamed old id c.validators }) cs)
      ≡ ids cs
criteria-renamed old id [] = refl
criteria-renamed old id (c ∷ cs) = ap (λ x. c.id ∷ x) (criteria-renamed old id cs)

-- the outline and the ids of the criteria are as before
record Keeps (m m' : Prepared) : Type 0 where
  works : outline m'.works ≡ outline m.works
  criteria : ids m'.criteria ≡ ids m.criteria

-- The prepared plan is the proposed one or its normal form, but for the validators, and the
-- contract's criteria have the ids that they had.
pub record IsRenamed (c : Contract) (p : Plan) (r : Ready) : Type 0 where
  pub items :
      (outline r.plan.work_items ≡ outline p.work_items)
      ⊎ (outline r.plan.work_items ≡ outline (normalize_plan p).work_items)
  pub criteria : criterion_ids r.contract ≡ criterion_ids c

module _ (goal_id : String) (trusted : List String) where
  prepare_each-Keeps :
      (gs : List Generated) (m : Prepared) (rest : List Generated) (m' : Prepared)
      → prepare_each goal_id trusted gs m ≡ ok (rest, m')
      → Keeps m m'
  unfolding prepare_each prepare_one
  prepare_each-Keeps [] m rest m' h = record { works = ground arith; criteria = ground arith }
  prepare_each-Keeps (g ∷ gs) m rest m' h =
      let id = namespaced goal_id g.id in
      elim (Bool-cases (contains g.id trusted)) [
        | inl bad ↦ absurd (ground arith)
        | inr fine ↦ elim (Bool-cases (contains id m.allowed)) [
          | inl bad ↦ absurd (ground arith)
          | inr new ↦
              elim (Bool-cases (in_criteria g.id m.criteria == 0 || in_works g.id m.works == 0)) [
                | inl bad ↦ absurd (ground arith)
                | inr used ↦
                    elim (Result-cases (prepare_each goal_id trusted gs (prepare_one id g m))) [
                      | inr (e, failed) ↦ absurd (ground arith)
                      | inl ((rest', m1), done) ↦
                          let k = prepare_each-Keeps gs (prepare_one id g m) rest' m1 done in
                          let same : m1 ≡ m' = ground arith in
                          record {
                            works =
                                ap (λ (x : Prepared). outline x.works) (sym same)
                                ∙ (k.works ∙ works-renamed g.id id m.works);
                            criteria =
                                ap (λ (x : Prepared). ids x.criteria) (sym same)
                                ∙ (k.criteria ∙ criteria-renamed g.id id m.criteria);
                          }
                    ]
              ]
        ]
      ]

  pub prepare_generated-IsRenamed :
      (c : Contract) (p : Plan) (caps : Option ValidationCapabilities) (r : Ready)
      → prepare_generated goal_id c p trusted caps ≡ ok r
      → IsRenamed c p r
  unfolding prepare_generated install
  prepare_generated-IsRenamed c p caps r h =
      elim (Bool-cases (generated_valid c.generated_validators)) [
        | inr bad ↦ absurd (ground arith)
        | inl fine ↦ elim (Bool-cases (is_empty c.generated_validators)) [
          | inl nothing ↦ record { items = inl (ground arith); criteria = ground arith }
          | inr many ↦
              let start : Prepared = record {
                criteria = c.acceptance_criteria;
                works = (normalize_plan p).work_items;
                allowed = trusted;
                capabilities = caps;
              } in
              elim (Result-cases (prepare_each goal_id trusted c.generated_validators start)) [
                | inr (e, failed) ↦ absurd (ground arith)
                | inl ((gs, m'), done) ↦
                    let k = prepare_each-Keeps c.generated_validators start gs m' done in
                    elim (Bool-cases (generated_valid gs)) [
                      | inr bad ↦ absurd (ground arith)
                      | inl good ↦ record {
                        items = inr (ground (arith, k.works));
                        criteria = ground (arith, k.criteria);
                      }
                    ]
              ]
        ]
      ]
