-- ===== src/Store/Events.antt =====
-- The event logs of internal/store/memory.go.
use mathlib.Core.List.{append_assoc, append-nil}
use xgoal.Prelude.{
  ℕ, suc, ◌+◌, ◌%◌, ◌^◌, String, ◌≡◌, refl, List, [], ◌∷◌, ◌++◌, arith, ◌==◌, ==_iff, string_eq,
  length, if◌then◌else◌, inl, inr, Bool-cases, sym, ◌∙◌, length-append,
}
use xgoal.Prelude.Dict.{get-put}
use xgoal.Domain.Model.{Event}
use xgoal.Store.Memory.{Memory, event_key, events_at, new_event, append_event}
use xgoal.Store.Claims.{record_claim}
use xgoal.Store.Step.{
  Step, goal_created, goal_moved, work_created, work_moved, work_claimed, attempt_moved,
  lease_released, evidence_added,
}
use xgoal.Store.Refinement.{apply-Step}
use xgoal.Store.Ops.{Op, apply, run, run_keeps}

-- the int64 sequence numbers count from `n` + 1
abbrev pub IsNumbered : ℕ → List Event → Type 0
IsNumbered n [] = Unit
IsNumbered n (e ∷ es) = (e.sequence ≡ (n + 1) % 2 ^ 64) × IsNumbered (suc n) es

IsNumbered-append :
    (n : ℕ) (es : List Event) (e : Event)
    → IsNumbered n es
    → e.sequence ≡ (n + length es + 1) % 2 ^ 64
    → IsNumbered n (es ++ e ∷ [])
IsNumbered-append n [] e h s = (omega arith, tt)
IsNumbered-append n (x ∷ xs) e h s = (h.0, IsNumbered-append (suc n) xs e h.1 (omega arith))

events_at-append_event :
    (kind id event key : String) (m : Memory)
    → events_at key (append_event kind id event m) ≡ (
        if event_key kind id == key
        then events_at (event_key kind id) m ++ new_event kind id event m ∷ []
        else events_at key m)
unfolding append_event events_at
events_at-append_event kind id event key m = ground (
  arith,
  get-put (event_key kind id) key
      (events_at (event_key kind id) m ++ new_event kind id event m ∷ []) m.events,
)

-- The log under `key` is the one of `old` with events at its end that are numbered on from there.
pub record Grows (old m : Memory) (key : String) : Type 0 where
  pub added : List Event
  pub log : events_at key m ≡ events_at key old ++ added
  pub numbered : IsNumbered (length (events_at key old)) added

sequence-new_event :
    (kind id event : String) (m : Memory)
    → (new_event kind id event m).sequence ≡ (length (events_at (event_key kind id) m) + 1) % 2 ^ 64
unfolding new_event
sequence-new_event kind id event m = refl

Grows-append_event :
    (old m : Memory) (kind id event key : String)
    → Grows old m key
    → Grows old (append_event kind id event m) key
Grows-append_event old m kind id event key g = elim (Bool-cases (event_key kind id == key)) [
  | inr other ↦ record {
    added = g.added;
    log = events_at-append_event kind id event key m ∙ (rw other g.log);
    numbered = g.numbered;
  }
  | inl same ↦
      let e : Event = new_event kind id event m in
      let key_eq : event_key kind id ≡ key = (==_iff (event_key kind id) key).0 same in
      record {
        added = g.added ++ e ∷ [];
        log =
            events_at-append_event kind id event key m
            ∙ rw (same, key_eq, g.log) (append_assoc (events_at key old) g.added (e ∷ []));
        numbered = IsNumbered-append (length (events_at key old)) g.added e g.numbered (
            sequence-new_event kind id event m
            ∙ rw (key_eq, g.log) (omega (arith, length-append (events_at key old) g.added)));
      }
]

-- a write to another map leaves the logs
Grows-same :
    (old m m' : Memory) (key : String) → m'.events ≡ m.events → Grows old m key → Grows old m' key
unfolding events_at
Grows-same old m m' key same g = record {
  added = g.added;
  log = ground (arith, g.log);
  numbered = g.numbered;
}

Step-Grows : (old m m' : Memory) (key : String) → Step m m' → Grows old m key → Grows old m' key
unfolding record_claim
Step-Grows old m m' key (goal_created g event free e) h =
    rw e (Grows-append_event old _ "goal" g.id event key (Grows-same old m _ key refl h))
Step-Grows old m m' key (goal_moved id g state event found fine e) h =
    rw e (Grows-append_event old _ "goal" id event key (Grows-same old m _ key refl h))
Step-Grows old m m' key (work_created w event free e) h =
    rw e (Grows-append_event old _ "work" w.id event key (Grows-same old m _ key refl h))
Step-Grows old m m' key (work_moved id w state event found fine e) h =
    rw e (Grows-append_event old _ "work" id event key (Grows-same old m _ key refl h))
Step-Grows old m m' key (attempt_moved id a state event found fine e) h =
    rw e (Grows-append_event old _ "attempt" id event key (Grows-same old m _ key refl h))
Step-Grows old m m' key (lease_released id l found e) h =
    rw e (Grows-append_event old _ "work" id "LeaseReleased" key (Grows-same old m _ key refl h))
Step-Grows old m m' key (evidence_added x event free e) h =
    rw e (Grows-append_event old _ "evidence" x.id event key (Grows-same old m _ key refl h))
Step-Grows old m m' key (work_claimed id w lease a _ _ _ _ _ _ e) h = rw e (
    Grows-append_event old _ "attempt" a.id "AttemptCreated" key
      (Grows-append_event old _ "work" id "LeaseAcquired" key (Grows-same old m _ key refl h)))

-- Over any calls of the mutating methods every event log only grows at its end, and the sequence
-- numbers of the new events go on from the length of the log, as int64 values.
pub run-Grows : (ops : List Op) (m : Memory) (key : String) → Grows m (run ops m) key
run-Grows ops m key =
    run_keeps (λ m'. Grows m m' key) step ops m
      (record { added = []; log = sym (append-nil (events_at key m)); numbered = tt })
  where
    step : (op : Op) (m' : Memory) → Grows m m' key → Grows m (apply op m').1 key
    step op m' h = elim (apply-Step m' op) [
      | inl same ↦ rw same h
      | inr st ↦ Step-Grows m m' (apply op m').1 key st h
    ]
