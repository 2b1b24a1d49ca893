-- ===== src/Store/Track.antt =====
-- One record of the memory store of internal/store/memory.go, followed along its state machine over
-- runs of the methods.
use xgoal.Prelude.{
  ℕ, zero, suc, ◌≤◌, arith, ◌≡◌, refl, ◌∙◌, ap, subst, ◌⊎◌, inl, inr, true, Option, some, List, [],
  ◌∷◌, Eq, length,
}
use xgoal.Prelude.Word.{Int64, incr}
use xgoal.Domain.Transitions.{Transitions, allows, IsHistory, last}
use xgoal.Store.Memory.{Memory}
use xgoal.Store.Step.{Step, Stays}
use xgoal.Store.Refinement.{apply-Step}
use xgoal.Store.Ops.{Op, apply, run}

-- the version after `n` moves
abbrev pub bump : ℕ → Int64 → Int64
bump zero v = v
bump (suc n) v = bump n (incr v)

module _ {R T : Type 0} ⦃e : Eq T⦄ (t : Transitions T) (state : R → T) (version : R → Int64) where
  abbrev pub Moves : R → R → Type 0
  Moves r r' = (r' ≡ r) ⊎ ((allows t (state r) (state r') ≡ true) × (version r' ≡ incr (version r)))

  -- the record that `o` holds has come from `r` in so many calls, by at most one transition and one
  -- version in each
  pub record Follows (calls : ℕ) (r : R) (o : Option R) : Type 0 where
    pub now : R
    pub moves : List T
    pub is_there : o ≡ some now
    pub is_history : IsHistory t (state r) moves
    pub ends : last (state r) moves ≡ state now
    pub counts : version now ≡ bump (length moves) (version r)
    pub few : length moves ≤ calls

  follow_move :
      {n : ℕ} {r r' : R} {o : Option R} → Moves r r' → Follows n r' o → Follows (suc n) r o
  follow_move {n} {r} {r'} {o} (inl same) f =
      subst (λ x. Follows (suc n) x o) same
        (record {
          now = f.now;
          moves = f.moves;
          is_there = f.is_there;
          is_history = f.is_history;
          ends = f.ends;
          counts = f.counts;
          few = omega (arith, f.few);
        })
  follow_move {n} {r} {r'} (inr (step, up)) f = record {
    now = f.now;
    moves = state r' ∷ f.moves;
    is_there = f.is_there;
    is_history = (step, f.is_history);
    ends = f.ends;
    counts = f.counts ∙ ap (bump (length f.moves)) up;
    few = omega (arith, f.few);
  }

  module _ (look : Memory → Option R)
      (advance : (m m' : Memory)
        → Step m m'
        → (r : R) → look m ≡ some r
        → (r' : R) × (look m' ≡ some r') × Moves r r') where
    pub advance-Stays :
        (m m' : Memory) (r : R)
        → Stays m m'
        → look m ≡ some r
        → (r' : R) × (look m' ≡ some r') × Moves r r'
    advance-Stays m m' r (inl same) h = (r, ap look same ∙ h, inl refl)
    advance-Stays m m' r (inr step) h = advance m m' step r h

    pub follow :
        (ops : List Op) (m : Memory) (r : R)
        → look m ≡ some r
        → Follows (length ops) r (look (run ops m))
    unfolding run
    follow [] m r h = record {
      now = r;
      moves = [];
      is_there = h;
      is_history = tt;
      ends = refl;
      counts = refl;
      few = omega arith;
    }
    follow (op ∷ ops) m r h =
        let (r', there, move) = advance-Stays m (apply op m).1 r (apply-Step m op) h in
        follow_move move (follow ops (apply op m).1 r' there)
