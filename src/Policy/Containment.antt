-- ===== src/Policy/Containment.antt =====
-- withinScope of internal/policy/policy.go beside a description by path segments.
use xgoal.Prelude.{
  ◌≡◌, ◌≢◌, refl, ◌↔◌, ◌⊎◌, inl, inr, true, false, ◌==◌, ==_iff, ==_self, some, List, [], ◌∷◌, ◌++◌,
  arith, Bool-cases, All,
}
use xgoal.Policy.Paths.{Text, text_eq, CleanPath, rel_segments, rel, dot_dot}
use xgoal.Policy.Scope.{
  stays_inside, normalize, is_dot, some_root, every_item, within_scope, scope_contains,
}

-- `target` is `base` with segments behind it that do not lead up
pub record IsBelow (base target : CleanPath) : Type 0 where
  pub same_kind : base.rooted ≡ target.rooted
  pub rest : List Text
  pub extends : target.segments ≡ base.segments ++ rest
  pub stays : stays_inside (some rest) ≡ true

rel_segments_sound :
    (base target : List Text)
    → stays_inside (rel_segments base target) ≡ true
    → (rest : List Text) × (target ≡ base ++ rest) × (stays_inside (some rest) ≡ true)
unfolding rel_segments
rel_segments_sound [] target h = (target, refl, h)
rel_segments_sound (b ∷ base) [] h = absurd (unfold stays_inside in ground (arith, ==_self dot_dot))
rel_segments_sound (b ∷ base) (t ∷ target) h = elim (Bool-cases (b == t)) [
  | inl same ↦
      let (rest, e, s) = rel_segments_sound base target (ground arith) in
      (rest, ground (arith, ==_iff b t), s)
  | inr other ↦ absurd (unfold stays_inside in ground (arith, ==_self dot_dot))
]

rel_segments_complete : (base rest : List Text) → rel_segments base (base ++ rest) ≡ some rest
unfolding rel_segments
rel_segments_complete [] rest = refl
rel_segments_complete (b ∷ base) rest = ground (arith, ==_self b, rel_segments_complete base rest)

rel_iff : (base target : CleanPath) → (stays_inside (rel base target) ≡ true) ↔ IsBelow base target
unfolding rel
rel_iff base target = (
  λ h.
      let (rest, e, s) =
        rel_segments_sound base.segments target.segments (unfold stays_inside in ground arith) in
      record {
        same_kind = unfold stays_inside in ground arith;
        rest = rest;
        extends = e;
        stays = s;
      },
  λ b.
      let complete : rel_segments base.segments target.segments ≡ some b.rest =
        rw b.extends (rel_segments_complete base.segments b.rest) in
      ground (arith, complete, b.same_kind, b.stays),
)

abbrev pub Covers : CleanPath → List Text → Type 0
Covers item [] = ⊥
Covers item (root ∷ roots) = IsBelow (normalize root) item ⊎ Covers item roots

some_root_iff :
    (roots : List Text) (item : CleanPath) → (some_root roots item ≡ true) ↔ Covers item roots
unfolding some_root
some_root_iff [] item = (λ h. cc, λ h. absurd h)
some_root_iff (root ∷ roots) item = (
  λ h. elim (Bool-cases (stays_inside (rel (normalize root) item))) [
    | inl here ↦ inl ((rel_iff (normalize root) item).0 here)
    | inr not_here ↦ inr ((some_root_iff roots item).0 (ground arith))
  ],
  λ h. elim h [
    | inl here ↦ ground (arith, (rel_iff (normalize root) item).1 here)
    | inr later ↦ ground (arith, (some_root_iff roots item).1 later)
  ],
)

-- the resource is a path of its own, at or below an authorized one
pub record IsCovered (authorized : List Text) (item : Text) : Type 0 where
  pub is_path : is_dot (normalize item) ≡ false
  pub covered : Covers (normalize item) authorized

every_item_iff :
    (items authorized : List Text)
    → (every_item items authorized ≡ true) ↔ All (IsCovered authorized) items
unfolding every_item
every_item_iff [] authorized = (λ _. tt, λ _. refl)
every_item_iff (item ∷ items) authorized = (
  λ h. (
    record {
      is_path = ground arith;
      covered = (some_root_iff authorized (normalize item)).0 (ground arith);
    },
    (every_item_iff items authorized).0 (ground arith),
  ),
  λ h. ground (
    arith,
    h.0.is_path,
    (some_root_iff authorized (normalize item)).1 h.0.covered,
    (every_item_iff items authorized).1 h.1,
  ),
)

-- `ScopeContains` says yes exactly when something is requested, something is authorized, and each
-- requested resource, trimmed and cleaned, is not the root of the relative paths and continues an
-- authorized one, of the same kind, by segments that do not lead up.
pub scope_contains_iff :
    (authorized requested : List Text)
    → (scope_contains authorized requested ≡ true)
      ↔ ((requested ≢ []) × (authorized ≢ []) × All (IsCovered authorized) requested)
unfolding scope_contains within_scope
scope_contains_iff authorized [] = (λ h. cc, λ h. absurd (h.0 refl))
scope_contains_iff [] (r ∷ rs) = (λ h. cc, λ h. absurd (h.1 refl))
scope_contains_iff (a ∷ as') (r ∷ rs) = (
  λ h. ((λ e. cc), (λ e. cc), (every_item_iff (r ∷ rs) (a ∷ as')).0 h),
  λ h. (every_item_iff (r ∷ rs) (a ∷ as')).1 h.2,
)
