-- ===== src/Store/Visits.antt =====
-- The states in which one record of the memory store is between the calls of a run.
use xgoal.Prelude.{
  ◌≡◌, refl, sym, ◌∙◌, ap, inl, inr, Bool, true, false, Option, some, List, [], ◌∷◌, ◌++◌, arith,
  Eq,
}
use xgoal.Domain.Transitions.{Transitions}
use xgoal.Domain.Transitions.Check.{holds_on, leaves_through, leaves_by_check}
use xgoal.Store.Memory.{Memory}
use xgoal.Store.Step.{Step}
use xgoal.Store.Refinement.{apply-Step}
use xgoal.Store.Track.{Moves, advance-Stays}
use xgoal.Prelude.Word.{Int64}
use xgoal.Store.Ops.{Op, apply, run}

module _ {R T : Type 0} (look : Memory → Option R) (state : R → T) where
  -- after a first part of the calls the record is in the state
  pub record Seen (m : Memory) (s : T) (ops : List Op) : Type 0 where
    pub before : List Op
    pub after : List Op
    pub splits : ops ≡ before ++ after
    pub seen : R
    pub is_there : look (run before m) ≡ some seen
    pub in_state : state seen ≡ s

  -- the states are seen between the calls, each before those that stand in front of it
  abbrev pub Visits : Memory → List T → List Op → Type 0
  Visits m [] ops = Unit
  Visits m (s ∷ earlier) ops = (p : Seen m s ops) × Visits m earlier p.before

  Seen-later :
      {m : Memory} {s : T} (op : Op) {ops : List Op}
      → Seen (apply op m).1 s ops
      → Seen m s (op ∷ ops)
  unfolding run
  Seen-later op p = record {
    before = op ∷ p.before;
    after = p.after;
    splits = ap (λ x. op ∷ x) p.splits;
    seen = p.seen;
    is_there = p.is_there;
    in_state = p.in_state;
  }

  Seen-next :
      {m : Memory} {s : T} (op : Op) (ops : List Op) (r : R)
      → look (apply op m).1 ≡ some r
      → state r ≡ s
      → Seen m s (op ∷ ops)
  unfolding run
  Seen-next op ops r there at = record {
    before = op ∷ [];
    after = ops;
    splits = refl;
    seen = r;
    is_there = there;
    in_state = at;
  }

module _ {R T : Type 0} ⦃e : Eq T⦄ (t : Transitions T) (state : R → T) (version : R → Int64)
    (look : Memory → Option R)
    (advance : (m m' : Memory)
      → Step m m'
      → (r : R) → look m ≡ some r
      → (r' : R) × (look m' ≡ some r') × Moves t state version r r')
    (p : T → Bool) (gate : T) (only_gate : holds_on (leaves_through p gate) t ≡ true) where
  -- A record that leaves the region `p` during a run is seen in the only state by which the table
  -- leads out of it.
  pub leaves-Seen :
      (ops : List Op) (m : Memory) (r r' : R)
      → look m ≡ some r
      → p (state r) ≡ true
      → look (run ops m) ≡ some r'
      → p (state r') ≡ false
      → Seen look state m gate ops
  unfolding run
  leaves-Seen [] m r r' there inside after outside =
      absurd (let same : r ≡ r' = ground arith in ground (arith, ap (λ x. p (state x)) same))
  leaves-Seen (op ∷ ops) m r r' there inside after outside =
      let (r1, there1, move) =
        advance-Stays t state version look advance m (apply op m).1 r (apply-Step m op) there in
      elim move [
        | inl same ↦ Seen-later look state op (
            leaves-Seen ops (apply op m).1 r1 r' there1 (ap (λ x. p (state x)) same ∙ inside) after
              outside)
        | inr (step, up) ↦
            elim (leaves_by_check t p gate only_gate (state r) (state r1) inside step) [
              | inl out ↦ Seen-next look state op ops r1 there1 (sym out)
              | inr still ↦
                  Seen-later look state op
                    (leaves-Seen ops (apply op m).1 r1 r' there1 still after outside)
            ]
      ]
