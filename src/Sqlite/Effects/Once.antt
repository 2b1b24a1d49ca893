-- ===== src/Sqlite/Effects/Once.antt =====
-- Repeated requests for one effect key of internal/store/sqlite/effect.go.
use xgoal.Prelude.{
  ◌≡◌, refl, sym, ap, subst, ◌∙◌, inl, inr, String, string_eq, Bool, false, not, ◌&&◌, ◌||◌, Option,
  none, some, List, [], ◌∷◌, ◌==◌, nat_eq, arith, Option-cases,
}
use xgoal.Prelude.Word.{Int64, is_positive, incr}
use xgoal.Prelude.Exec.{Result, ok, err, Result-cases}
use xgoal.Prelude.Dict.{get}
use xgoal.Prelude.Checks.{refuse}
use xgoal.Prelude.Steps.{>>=-ok, check, ok_equal}
use xgoal.Domain.Effect
use xgoal.Domain.Effect.{EffectState, validate_effect_transition}
use xgoal.Domain.Model.{Effect}
use xgoal.Sqlite.Tables.{
  Database, SqlError, invalid_input, reserved_effect, observation_required, conflict,
  effect_transition, not_canonical, EventInput, Payload, prepare_event, append_event,
}
use xgoal.Sqlite.Leases.{refused_transition}
use xgoal.Sqlite.Effects.{
  EffectRequest, valid_idempotency_label, scan_effect, read_effect, row_of_key, is_terminal,
  is_missing, observed, canonical, canonical_observation, request_effect, update_effect,
}
use xgoal.Sqlite.Effects.Journal.{
  SameRequest, SameRequest-refl, SameRequest-trans, IsJournalled, row_of_key-key, overwritten,
  inserted_keeps, inserted_there, Answered, replayed, inserted, scanned, replay-Answered,
}

pub data EffectCall : Type 0 where
  request_call : EffectRequest → EventInput → EffectCall
  update_call : String → Int64 → EffectState → Option Payload → EventInput → EffectCall

-- the tables after a call, which an error leaves
abbrev pub tables_or : {A : Type 0} → Database → Result SqlError (A × Database) → Database
tables_or t (ok (_, t')) = t'
tables_or t (err e) = t

module _ (marshal : Payload → Option String)
    (canonical_value : String → Payload → Option (String × String)) where
  request-Answered :
      {C : Type 0} (r : EffectRequest) (event : EventInput) (t : Database)
      (x : (Effect × Bool) × Database)
      → request_effect marshal canonical_value r event t ≡ ok x
      → ((json hash : String)
          → canonical_value "effect-request" r.request ≡ some (json, hash)
          → Answered r hash t x
          → C)
      → C
  unfolding request_effect
  request-Answered r event t x h use_answer =
      let first =
        refuse (r.kind == "acceptance") (reserved_effect r.kind)
        ∷ refuse
            (not (valid_idempotency_label r.id)
              || not (valid_idempotency_label r.key)
              || not (valid_idempotency_label r.kind))
            (invalid_input "effect request")
        ∷ [] in
      >>=-ok (check first) h λ _ _ h1.
        >>=-ok (canonical marshal canonical_value "effect-request" r.request) h1 λ encoded made h2.
          >>=-ok (prepare_event marshal event) h2 λ prepared _ h3.
            use_answer encoded.0 encoded.1
              (encoded_value (canonical_value "effect-request" r.request) encoded made)
              (replay-Answered r encoded.0 encoded.1 prepared t x h3)
    where
      encoded_value :
          (o : Option (String × String)) (encoded : String × String)
          → ◌≡◌ {A = Result SqlError (String × String)}
              (elim o [ none ↦ err not_canonical | some v ↦ ok v ])
              (ok encoded)
          → o ≡ some (encoded.0, encoded.1)
      encoded_value none encoded e = absurd (ground arith)
      encoded_value (some v) encoded e = ap some (ok_equal e)

  -- an answered request leaves the journal with its effect
  Answered-IsJournalled :
      (r : EffectRequest) (hash : String) (t : Database) (e : Effect) (c : Bool) (t' : Database)
      → Answered r hash t ((e, c), t')
      → IsJournalled e t'.effects × (e.key ≡ r.key)
  Answered-IsJournalled r hash t e c t' (replayed there k s) =
      let key = row_of_key-key r.key t.effects e there in
      (
        record {
          row = e;
          stored = subst (λ x. row_of_key x t.effects ≡ some e) (sym key) there;
          same = SameRequest-refl e;
        },
        key,
      )
  Answered-IsJournalled r hash t e c t' (inserted new free key written) = (
    record {
      row = e;
      stored =
          ap (row_of_key e.key) written
          ∙ inserted_there r.id e t.effects free
              (subst (λ x. row_of_key x t.effects ≡ none) (sym key) new);
      same = SameRequest-refl e;
    },
    key,
  )

  Answered-keeps :
      (r : EffectRequest) (hash : String) (t : Database) (x : (Effect × Bool) × Database)
      (e : Effect)
      → Answered r hash t x
      → IsJournalled e t.effects
      → IsJournalled e x.1.effects
  Answered-keeps r hash t x e (replayed there k s) j = j
  Answered-keeps r hash t x e (inserted {e = new} _ free key written) j = record {
    row = j.row;
    stored =
        ap (row_of_key e.key) written ∙ inserted_keeps e.key r.id new j.row t.effects free j.stored;
    same = j.same;
  }

  update-keeps :
      (id : String) (version : Int64) (state : EffectState) (observation : Option Payload)
      (event : EventInput) (t t' : Database) (x e : Effect)
      → update_effect marshal canonical_value id version state observation event t ≡ ok (x, t')
      → IsJournalled e t.effects
      → IsJournalled e t'.effects
  unfolding update_effect append_event read_effect
  update-keeps id version state observation event t t' x e h j =
      let first =
        refuse (id == "" || not (is_positive version) || not (Effect.valid state))
          (invalid_input "effect update")
        ∷ refuse (is_terminal state && is_missing observation) observation_required
        ∷ [] in
      >>=-ok (check first) h λ _ _ h1.
        >>=-ok (canonical_observation marshal canonical_value observation) h1 λ encoded _ h2.
          >>=-ok (prepare_event marshal event) h2 λ prepared _ h3.
            >>=-ok (read_effect id t) h3 λ current read h4.
              let last =
                refuse (current.kind == "acceptance") (reserved_effect current.kind)
                ∷ refuse (not (current.version == version)) (conflict "effect" id)
                ∷ refused_transition effect_transition
                    (validate_effect_transition current.state state)
                ∷ [] in
              >>=-ok (check last) h4 λ _ _ h5.
                let updated = record current {
                  state = state;
                  observation_json = (observed encoded current).0;
                  observation_hash = (observed encoded current).1;
                  version = incr current.version;
                } in
                let (r', stored, same) =
                  overwritten e.key id current updated j.row t.effects (row_there id t current read)
                    (record {
                      id = refl;
                      key = refl;
                      kind = refl;
                      request_json = refl;
                      request_hash = refl;
                    })
                    j.stored in
                subst (λ (y : Effect × Database). IsJournalled e y.1.effects) (ok_equal h5)
                  (record { row = r'; stored = stored; same = SameRequest-trans j.same same })
    where
      row_there :
          (id : String) (t : Database) (c : Effect)
          → read_effect id t ≡ ok c
          → get id t.effects ≡ some c
      row_there id t c h = elim (Option-cases (get id t.effects)) [
        | inl lost ↦ absurd (unfold scan_effect in ground arith)
        | inr (row, there) ↦
            there ∙ ap some (scanned id row c (ap (scan_effect id) (sym there) ∙ h))
      ]

  unfoldable pub perform_effect : EffectCall → Database → Database
  unfolding request_effect update_effect
  perform_effect (request_call r event) t =
      tables_or t (request_effect marshal canonical_value r event t)
  perform_effect (update_call id version state observation event) t =
      tables_or t (update_effect marshal canonical_value id version state observation event t)

  unfoldable pub run_effects : List EffectCall → Database → Database
  unfolding perform_effect
  run_effects [] t = t
  run_effects (call ∷ calls) t = run_effects calls (perform_effect call t)

  perform-IsJournalled :
      (call : EffectCall) (t : Database) (e : Effect)
      → IsJournalled e t.effects
      → IsJournalled e (perform_effect call t).effects
  unfolding perform_effect
  perform-IsJournalled (request_call r event) t e j =
      elim (Result-cases (request_effect marshal canonical_value r event t)) [
        | inl (x, done) ↦ rw done (
            request-Answered r event t x done
              λ json hash made answer. Answered-keeps r hash t x e answer j)
        | inr (failure, failed) ↦ rw failed j
      ]
  perform-IsJournalled (update_call id version state observation event) t e j =
      elim (Result-cases
        (update_effect marshal canonical_value id version state observation event t)) [
          | inl ((x, t'), done) ↦
              rw done (update-keeps id version state observation event t t' x e done j)
          | inr (failure, failed) ↦ rw failed j
        ]

  run-IsJournalled :
      (calls : List EffectCall) (t : Database) (e : Effect)
      → IsJournalled e t.effects
      → IsJournalled e (run_effects calls t).effects
  unfolding run_effects
  run-IsJournalled [] t e j = j
  run-IsJournalled (call ∷ calls) t e j =
      run-IsJournalled calls (perform_effect call t) e (perform-IsJournalled call t e j)

  -- the second answer is the journalled effect, and nothing is written
  pub record IsReplay (e : Effect) (r : EffectRequest) (t : Database) (e' : Effect) (created : Bool)
      (t' : Database) : Type 0 where
    pub not_created : created ≡ false
    pub unchanged : t' ≡ t
    pub same : SameRequest e e'
    pub same_kind : r.kind ≡ e.kind
    pub same_hash :
        (json : String) × (canonical_value "effect-request" r.request ≡ some (json, e.request_hash))

  Answered-IsReplay :
      (r : EffectRequest) (hash json : String) (t : Database) (e e' : Effect) (c : Bool)
      (t' : Database)
      → canonical_value "effect-request" r.request ≡ some (json, hash)
      → r.key ≡ e.key
      → IsJournalled e t.effects
      → Answered r hash t ((e', c), t')
      → IsReplay e r t e' c t'
  Answered-IsReplay r hash json t e e' c t' made key j (replayed there k s) =
      let stored = subst (λ x. row_of_key x t.effects ≡ some e') key there in
      let f : j.row ≡ e' = (let a = j.stored in ground arith) in
      let same = subst (λ x. SameRequest e x) f j.same in
      record {
        not_created = refl;
        unchanged = refl;
        same = same;
        same_kind = sym k ∙ same.kind;
        same_hash = (json, made ∙ ap (λ x. some (json, x)) (sym s ∙ same.request_hash));
      }
  Answered-IsReplay r hash json t e e' c t' made key j (inserted new free k written) = absurd (
      let a = j.stored in
      let b = subst (λ x. row_of_key x t.effects ≡ none) key new in ground arith)

  -- After a request for an effect has been answered, and any further requests and updates, a request
  -- with the same key that succeeds creates nothing: it returns the effect with the same identity and
  -- request and leaves the tables, and its type and the hash of its body are those of the first.
  pub repeated_request-IsReplay :
      (r r' : EffectRequest) (event event' : EventInput) (t t1 t2 : Database) (e e' : Effect)
      (c c' : Bool) (calls : List EffectCall)
      → request_effect marshal canonical_value r event t ≡ ok ((e, c), t1)
      → r'.key ≡ r.key
      → request_effect marshal canonical_value r' event' (run_effects calls t1) ≡ ok ((e', c'), t2)
      → IsReplay e r' (run_effects calls t1) e' c' t2
  repeated_request-IsReplay r r' event event' t t1 t2 e e' c c' calls first key second =
      request-Answered r event t ((e, c), t1) first
        λ json hash _ answer.
          let start = Answered-IsJournalled r hash t e c t1 answer in
          request-Answered r' event' (run_effects calls t1) ((e', c'), t2) second
            λ json' hash' made again.
              Answered-IsReplay r' hash' json' (run_effects calls t1) e e' c' t2 made
                (key ∙ sym start.1) (run-IsJournalled calls t1 e start.0) again
