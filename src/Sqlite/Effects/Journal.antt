-- ===== src/Sqlite/Effects/Journal.antt =====
-- The rows of the journal of internal/store/sqlite/effect.go under writes, and the answers to a
-- request.
use xgoal.Prelude.{
  ◌≡◌, refl, sym, ap, subst, ◌∙◌, inl, inr, String, string_eq, Bool, true, false, not, ◌&&◌, none,
  some, [], ◌∷◌, ◌==◌, nat_eq, ==_iff, arith, Bool-cases, Option-cases,
}
use xgoal.Prelude.Exec.{ok}
use xgoal.Prelude.Dict.{Dict, get, put}
use xgoal.Prelude.Checks.{refuse, refuse-none}
use xgoal.Prelude.Steps.{◌>>=◌, >>=-ok, check, check-ok, ok_equal}
use xgoal.Domain.Model.{Effect}
use xgoal.Sqlite.Tables.{Database, idempotency_conflict, PreparedEvent, append_event}
use xgoal.Sqlite.Effects.{
  EffectRequest, scan_effect, row_of_key, is_replay, new_effect, insert_effect, replay_or_insert,
}

-- one request, whatever became of it
pub record SameRequest (a b : Effect) : Type 0 where
  pub id : b.id ≡ a.id
  pub key : b.key ≡ a.key
  pub kind : b.kind ≡ a.kind
  pub request_json : b.request_json ≡ a.request_json
  pub request_hash : b.request_hash ≡ a.request_hash

pub SameRequest-refl : (a : Effect) → SameRequest a a
SameRequest-refl a = record {
  id = refl;
  key = refl;
  kind = refl;
  request_json = refl;
  request_hash = refl;
}

pub SameRequest-trans : {a b c : Effect} → SameRequest a b → SameRequest b c → SameRequest a c
SameRequest-trans p q = record {
  id = q.id ∙ p.id;
  key = q.key ∙ p.key;
  kind = q.kind ∙ p.kind;
  request_json = q.request_json ∙ p.request_json;
  request_hash = q.request_hash ∙ p.request_hash;
}

-- the journal has a row of the effect's key with its request
pub record IsJournalled (e : Effect) (rows : Dict String Effect) : Type 0 where
  pub row : Effect
  pub stored : row_of_key e.key rows ≡ some row
  pub same : SameRequest e row

pub row_of_key-key :
    (key : String) (rows : Dict String Effect) (e : Effect)
    → row_of_key key rows ≡ some e
    → e.key ≡ key
unfolding row_of_key
row_of_key-key key [] e h = absurd (ground arith)
row_of_key-key key ((j, v) ∷ rows) e h = elim (Bool-cases (v.key == key)) [
  | inl same ↦
      let f : v ≡ e = ground arith in
      subst (λ (x : Effect). x.key ≡ key) f ((==_iff v.key key).0 same)
  | inr other ↦ row_of_key-key key rows e (ground arith)
]

-- a row that is overwritten keeps its request
pub overwritten :
    (key id : String) (c new r : Effect) (rows : Dict String Effect)
    → get id rows ≡ some c
    → SameRequest c new
    → row_of_key key rows ≡ some r
    → (r' : Effect) × (row_of_key key (put id new rows) ≡ some r') × SameRequest r r'
unfolding row_of_key get put
overwritten key id c new r [] there s h = absurd (ground arith)
overwritten key id c new r ((j, v) ∷ rows) there s h = elim (Bool-cases (j == id)) [
  | inl here ↦
      let f : v ≡ c = ground arith in
      let k : new.key ≡ v.key = s.key ∙ ap (λ (x : Effect). x.key) (sym f) in
      elim (Bool-cases (v.key == key)) [
        | inl hit ↦
            let g : v ≡ r = ground arith in
            (
              new,
              ground (arith, ap (λ x. x == key) k),
              subst (λ x. SameRequest x new) (sym f ∙ g) s,
            )
        | inr miss ↦ (r, ground (arith, ap (λ x. x == key) k), SameRequest-refl r)
      ]
  | inr elsewhere ↦ elim (Bool-cases (v.key == key)) [
    | inl hit ↦ (r, ground arith, SameRequest-refl r)
    | inr miss ↦
        let (r', stored, same) = overwritten key id c new r rows (ground arith) s (ground arith) in
        (r', ground arith, same)
  ]
]

-- a new row comes after the others
pub inserted_keeps :
    (key id : String) (new r : Effect) (rows : Dict String Effect)
    → get id rows ≡ none
    → row_of_key key rows ≡ some r
    → row_of_key key (put id new rows) ≡ some r
unfolding row_of_key get put
inserted_keeps key id new r [] free h = absurd (ground arith)
inserted_keeps key id new r ((j, v) ∷ rows) free h =
    ground (arith, inserted_keeps key id new r rows)

pub inserted_there :
    (id : String) (new : Effect) (rows : Dict String Effect)
    → get id rows ≡ none
    → row_of_key new.key rows ≡ none
    → row_of_key new.key (put id new rows) ≡ some new
unfolding row_of_key get put
inserted_there id new [] free h = ground (arith, ==_iff new.key new.key)
inserted_there id new ((j, v) ∷ rows) free h = ground (arith, inserted_there id new rows)

-- how a request that succeeds was answered
pub data Answered (r : EffectRequest) (hash : String) (t : Database)
    : (Effect × Bool) × Database → Type 0 where
  replayed :
      {e : Effect}
      → row_of_key r.key t.effects ≡ some e
      → e.kind ≡ r.kind
      → e.request_hash ≡ hash
      → Answered r hash t ((e, false), t)
  inserted :
      {e : Effect} {t' : Database}
      → row_of_key r.key t.effects ≡ none
      → get r.id t.effects ≡ none
      → e.key ≡ r.key
      → t'.effects ≡ put r.id e t.effects
      → Answered r hash t ((e, true), t')

insert-Answered :
    (r : EffectRequest) (json hash : String) (event : PreparedEvent) (t : Database)
    (x : (Effect × Bool) × Database)
    → row_of_key r.key t.effects ≡ none
    → insert_effect r json hash event t ≡ ok x
    → Answered r hash t x
unfolding insert_effect append_event
insert-Answered r json hash event t x new h = elim (Option-cases (get r.id t.effects)) [
  | inr (e, taken) ↦ absurd (ground arith)
  | inl free ↦
      let made =
        append_event "effect" r.id event
          (record t { effects = put r.id (new_effect r json hash) t.effects }) in
      let same : ((new_effect r json hash, true), made) ≡ x = ground arith in
      subst (λ y. Answered r hash t y) same
        (inserted {e = new_effect r json hash} {t' = made} new free refl refl)
]

both_true : (a b : Bool) → not (a && b) ≡ false → (a ≡ true) × (b ≡ true)
both_true a b h = (ground arith, ground arith)

pub scanned :
    (identity : String) (row e : Effect) → scan_effect identity (some row) ≡ ok e → row ≡ e
unfolding scan_effect
scanned identity row e h = ground arith

pub replay-Answered :
    (r : EffectRequest) (json hash : String) (event : PreparedEvent) (t : Database)
    (x : (Effect × Bool) × Database)
    → replay_or_insert r json hash event t ≡ ok x
    → Answered r hash t x
unfolding replay_or_insert
replay-Answered r json hash event t x h = elim (Option-cases (row_of_key r.key t.effects)) [
  | inl new ↦ insert-Answered r json hash event t x new (ground arith)
  | inr (row, there) ↦
      let chain : (scan_effect r.key (some row) >>= λ e.
      check (refuse (not (is_replay r hash e)) (idempotency_conflict r.key) ∷ []) >>= λ _.
      ok ((e, false), t))
          ≡ ok x =
        ground arith in
      >>=-ok (scan_effect r.key (some row)) chain λ e read h1.
        >>=-ok (check (refuse (not (is_replay r hash e)) (idempotency_conflict r.key) ∷ [])) h1
          λ _ checked h2.
            let same = both_true (e.kind == r.kind) (e.request_hash == hash) (
              refuse-none _ _
                (check-ok (refuse (not (is_replay r hash e)) (idempotency_conflict r.key) ∷ [])
                  checked).0) in
            subst (λ y. Answered r hash t y) (ok_equal h2)
              (replayed (there ∙ ap some (scanned r.key row e read))
                ((==_iff e.kind r.kind).0 same.0) ((==_iff e.request_hash hash).0 same.1))
]
