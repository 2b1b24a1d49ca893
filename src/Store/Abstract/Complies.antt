-- ===== src/Store/Abstract/Complies.antt =====
-- A call of internal/store/memory.go beside the abstract store: the two ways to keep the promise.
use mathlib.Core.Path.{fun_ext}
use xgoal.Prelude.{String, string_eq, nat_eq, ◌≡◌, ap, ◌∙◌, Option, inl, inr}
use xgoal.Prelude.Dict.{Dict, get, put, remove, get-put, get-remove}
use xgoal.Prelude.Exec.{Result, ok, err}
use xgoal.Domain.Attempt.{attempt_state_eq}
use xgoal.Domain.Lease.{lease_state_eq}
use xgoal.Store.Memory.{Memory, StoreError}
use xgoal.Store.Ops.{Op, apply}
use xgoal.Store.Abstract.{view, with_entry, without_entry, Accepts, effect, Meets}

abbrev pub lookup : {V : Type 0} → Dict String V → String → Option V
lookup m k = get k m

pub entry_written :
    {V : Type 0} (i : String) (v : V) (m : Dict String V)
    → lookup (put i v m) ≡ with_entry i v (lookup m)
entry_written i v m = fun_ext (λ k. get-put i k v m)

pub entry_removed :
    {V : Type 0} (i : String) (m : Dict String V) → lookup (remove i m) ≡ without_entry i (lookup m)
entry_removed i m = fun_ext (λ k. get-remove i k m)

abbrev pub Complies : Op → Memory → Type 0
Complies op m = Meets op (view m) (apply op m).0 (view (apply op m).1)

module _ (op : Op) (m : Memory) where
  pub refused :
      (e : StoreError) → apply op m ≡ (err e, m) → (Accepts op (view m) → ⊥) → Complies op m
  refused e same out = inr (
    out,
    (e, ap (λ (r : Result StoreError (Unit {0}) × Memory). r.0) same),
    ap (λ (r : Result StoreError (Unit {0}) × Memory). view r.1) same,
  )

  pub accepted :
      (m' : Memory)
      → apply op m ≡ (ok tt, m')
      → Accepts op (view m)
      → view m' ≡ effect op (view m)
      → Complies op m
  accepted m' same good new = inl (
    good,
    ap (λ (r : Result StoreError (Unit {0}) × Memory). r.0) same,
    ap (λ (r : Result StoreError (Unit {0}) × Memory). view r.1) same ∙ new,
  )
