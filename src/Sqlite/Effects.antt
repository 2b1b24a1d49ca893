-- ===== src/Sqlite/Effects.antt =====
-- internal/store/sqlite/effect.go: the journal of external effects. canonicalValue, the JSON of a value
-- with its hash, is a parameter.
pub mod Journal
pub mod Once
use native.Mathlib.Decide.{ℕ_discrete}
use xgoal.Prelude.{
  ℕ, String, string_eq, Bool, true, false, not, ◌&&◌, ◌||◌, Option, none, some, List, [], ◌∷◌, ◌==◌,
  nat_eq, decide, if◌then◌else◌,
}
use xgoal.Prelude.Word.{Int64, is_positive, incr}
use xgoal.Prelude.Exec.{Result, ok, err}
use xgoal.Prelude.Dict.{Dict, get, put}
use xgoal.Prelude.Checks.{refuse}
use xgoal.Prelude.Steps.{◌>>=◌, ◌>>◌, check}
use xgoal.Domain.Effect
use xgoal.Domain.Effect.{
  EffectState, EffectState-discrete, effect_state_eq, validate_effect_transition,
}
use xgoal.Domain.Model.{Effect}
use xgoal.Policy.Paths.{codes, Text-discrete, text_eq, trim_space}
use xgoal.Compile.Texts.{sort_by}
use xgoal.Sqlite.Tables.{
  Database, Method, SqlError, invalid_input, not_found, conflict, invalid_row, already_exists,
  reserved_effect, idempotency_conflict, observation_required, not_canonical, effect_transition,
  EventInput, PreparedEvent, Payload, prepare_event, append_event, has_line_break,
}
use xgoal.Sqlite.Leases.{refused_transition}

pub record EffectRequest : Type 0 where
  pub id : String
  pub key : String
  pub kind : String
  pub request : Payload

-- validIdempotencyLabel
unfoldable pub valid_idempotency_label : String → Bool
unfolding trim_space has_line_break Text-discrete ℕ_discrete decide
valid_idempotency_label value =
    not (value == "")
    && trim_space (codes value) == codes value
    && not (has_line_break (codes value))

-- scanEffect, on a row that may be missing
unfoldable pub scan_effect : String → Option Effect → Result SqlError Effect
unfolding Effect.valid is_positive
scan_effect identity none = err (not_found "effect" identity)
scan_effect identity (some e) =
    if not (Effect.valid e.state) || not (is_positive e.version)
    then err (invalid_row e.id)
    else ok e

-- readEffect
unfoldable pub read_effect : String → Database → Result SqlError Effect
unfolding scan_effect get
read_effect id t = scan_effect id (get id t.effects)

-- the row of an effect key, which is unique
unfoldable pub row_of_key : String → List (String × Effect) → Option Effect
row_of_key key [] = none
row_of_key key ((id, e) ∷ rows) = if e.key == key then some e else row_of_key key rows

-- the row's key is taken, with its type and the hash of its request
abbrev pub is_replay : EffectRequest → String → Effect → Bool
is_replay r hash e = e.kind == r.kind && e.request_hash == hash

abbrev pub new_effect : EffectRequest → String → String → Effect
new_effect r json hash = record {
  id = r.id;
  key = r.key;
  kind = r.kind;
  state = EffectState.requested;
  request_json = json;
  request_hash = hash;
  observation_json = "";
  observation_hash = "";
  version = 1;
}

-- a terminal state
abbrev pub is_terminal : EffectState → Bool
is_terminal EffectState.succeeded = true
is_terminal EffectState.failed = true
is_terminal _ = false

abbrev pub is_missing : Option Payload → Bool
is_missing none = true
is_missing (some _) = false

-- the part of the transaction for a key that is not there
unfoldable pub insert_effect :
    EffectRequest → String → String → PreparedEvent → Method (Effect × Bool)
unfolding get put append_event
insert_effect r json hash event t = elim (get r.id t.effects) [
  | some _ ↦ err (already_exists "effect" r.id)
  | none ↦ ok (
    (new_effect r json hash, true),
    append_event "effect" r.id event
        (record t { effects = put r.id (new_effect r json hash) t.effects }),
  )
]

-- the read of the key and what follows
unfoldable pub replay_or_insert :
    EffectRequest → String → String → PreparedEvent → Method (Effect × Bool)
unfolding row_of_key scan_effect insert_effect check
replay_or_insert r json hash event t = elim (row_of_key r.key t.effects) [
  | none ↦ insert_effect r json hash event t
  | some row ↦ do
    existing ← scan_effect r.key (some row)
    check (refuse (not (is_replay r hash existing)) (idempotency_conflict r.key) ∷ [])
    ok ((existing, false), t)
]

-- the observation of an update, or the stored one
abbrev pub observed : Option (String × String) → Effect → String × String
observed none current = (current.observation_json, current.observation_hash)
observed (some encoded) current = encoded

module _ (marshal : Payload → Option String)
    (canonical_value : String → Payload → Option (String × String)) where
  -- canonicalValue as a step
  abbrev pub canonical : String → Payload → Result SqlError (String × String)
  canonical kind value = elim (canonical_value kind value) [
    | none ↦ err not_canonical
    | some encoded ↦ ok encoded
  ]

  unfoldable pub request_effect : EffectRequest → EventInput → Method (Effect × Bool)
  unfolding check valid_idempotency_label prepare_event replay_or_insert
  request_effect r event t = do
    check (
        refuse (r.kind == "acceptance") (reserved_effect r.kind)
        ∷ refuse
            (not (valid_idempotency_label r.id)
              || not (valid_idempotency_label r.key)
              || not (valid_idempotency_label r.kind))
            (invalid_input "effect request")
        ∷ [])
    encoded ← canonical "effect-request" r.request
    prepared ← prepare_event marshal event
    replay_or_insert r encoded.0 encoded.1 prepared t

  -- the canonical observation of an update that gives one
  abbrev pub canonical_observation : Option Payload → Result SqlError (Option (String × String))
  canonical_observation none = ok none
  canonical_observation (some value) = elim (canonical_value "effect-observation" value) [
    | none ↦ err not_canonical
    | some encoded ↦ ok (some encoded)
  ]

  unfoldable pub update_effect :
      String → Int64 → EffectState → Option Payload → EventInput → Method Effect
  unfolding check Effect.valid is_positive prepare_event read_effect validate_effect_transition put
      append_event
  update_effect id version state observation event t = do
    check (
        refuse (id == "" || not (is_positive version) || not (Effect.valid state))
          (invalid_input "effect update")
        ∷ refuse (is_terminal state && is_missing observation) observation_required
        ∷ [])
    encoded ← canonical_observation observation
    prepared ← prepare_event marshal event
    current ← read_effect id t
    check (
        refuse (current.kind == "acceptance") (reserved_effect current.kind)
        ∷ refuse (not (current.version == version)) (conflict "effect" id)
        ∷ refused_transition effect_transition (validate_effect_transition current.state state)
        ∷ [])
    let updated = record current {
      state = state;
      observation_json = (observed encoded current).0;
      observation_hash = (observed encoded current).1;
      version = incr current.version;
    }
    ok (
      updated,
      append_event "effect" id prepared (record t { effects = put id updated t.effects }),
    )

-- a state that a restart reads back
abbrev pub is_recoverable : EffectState → Bool
is_recoverable EffectState.requested = true
is_recoverable EffectState.executing = true
is_recoverable EffectState.observing = true
is_recoverable EffectState.recovering = true
is_recoverable _ = false

-- the rows of the query; the first that is not valid is an error
unfoldable pub recoverable_among : List (String × Effect) → Result SqlError (List Effect)
unfolding scan_effect
recoverable_among [] = ok []
recoverable_among ((id, e) ∷ rows) =
    let rest = recoverable_among rows in
    if not (is_recoverable e.state)
    then rest
    else (scan_effect id (some e) >>= λ x. rest >>= λ xs. ok (x ∷ xs))

-- RecoverableEffects
unfoldable pub recoverable_effects : Database → Result SqlError (List Effect)
unfolding recoverable_among sort_by
recoverable_effects t = recoverable_among (sort_by (λ row. codes row.0) t.effects)
