-- ===== src/Domain/Draft/Confirmed.antt =====
-- What the confirmation of a draft settles, and what it leaves as it was parsed.
use cryptogpt_one_intent_wal.Base.{
  ◌≡◌, refl, String, Bool, true, false, ◌||◌, [], ◌∷◌, str_eq, ok, map, arith, eq_iff, inl, inr,
  Result-cases, ◌∙◌,
}
use cryptogpt_one_intent_wal.Base.Dict.{Dict}
use cryptogpt_one_intent_wal.Canonical.Value.{Value, Fields, end, field, get, str}
use cryptogpt_one_intent_wal.Canonical.Checks.{Host}
use cryptogpt_one_intent_wal.Canonical.Alias.{Unicode}
use cryptogpt_one_intent_wal.Domain.Draft.{
  ActionPlanDraft, executable, draft_validate, set_field, typed_resolution, covered_by, resolve_all,
  confirm,
}

-- The fields that a resolution may set.
abbrev pub is_resolved_field : String → Bool
is_resolved_field key =
    str_eq key "positionSide"
    || str_eq key "network"
    || str_eq key "operationType"
    || str_eq key "riskDisplay"

get-set_field :
    (key other : String) (v : Value) (fs : Fields)
    → str_eq key other ≡ false
    → get key (set_field other v fs) ≡ get key fs
get-set_field key other v end h = ground (arith, eq_iff key other, eq_iff other key)
get-set_field key other v (field k w fs) h =
    ground (arith, get-set_field key other v fs h, eq_iff key other, eq_iff k key, eq_iff k other)

get-typed_resolution :
    (key ambiguity resolution : String) (fs : Fields) {typed : Fields}
    → is_resolved_field key ≡ false
    → typed_resolution ambiguity resolution fs ≡ ok typed
    → get key typed ≡ get key fs
unfolding typed_resolution
get-typed_resolution key ambiguity resolution fs h e = ground (
  arith,
  get-set_field key "positionSide" (str resolution) fs,
  get-set_field key "network" (str resolution) fs,
  get-set_field key "operationType" (str resolution) fs,
  get-set_field key "riskDisplay" (str resolution) fs,
)

module _ (host : Host) (unicode : Unicode) where
  get-resolve_all :
      (key : String) (resolved : Dict String) (fs : Fields) {typed : Fields}
      → is_resolved_field key ≡ false
      → resolve_all host unicode resolved fs ≡ ok typed
      → get key typed ≡ get key fs
  unfolding resolve_all
  get-resolve_all key [] fs h e = ground arith
  get-resolve_all key ((ambiguity, resolution) ∷ rest) fs {typed} h e =
      elim (Result-cases (typed_resolution ambiguity resolution fs)) [
        | inr (x, bad) ↦ absurd (ground arith)
        | inl (first, good) ↦
            let later : resolve_all host unicode rest first ≡ ok typed = ground arith in
            get-resolve_all key rest first h later
            ∙ get-typed_resolution key ambiguity resolution fs h good
      ]

  -- What `confirm` returns may be executed: it is valid, every ambiguity had a resolution and no
  -- other was resolved, what the user said is kept, and so is each proposed field but the four
  -- that a resolution sets, the amount and the asset among those kept.
  pub record Confirms (resolved : Dict String) (d confirmed : ActionPlanDraft) : Type 0 where
    pub executes : executable confirmed ≡ true
    pub valid : draft_validate host unicode confirmed ≡ ok tt
    pub all_resolved : covered_by d.material_ambiguities (map (λ r. r.0) resolved) ≡ true
    pub none_invented : covered_by (map (λ r. r.0) resolved) d.material_ambiguities ≡ true
    pub source : confirmed.source_utterance ≡ d.source_utterance
    pub kept :
        (key : String)
        → is_resolved_field key ≡ false
        → get key confirmed.proposed ≡ get key d.proposed

  abbrev with_fields : ActionPlanDraft → String → Fields → ActionPlanDraft
  with_fields d interpretation typed = record {
    source_utterance = d.source_utterance;
    normalized_interpretation = interpretation;
    proposed = typed;
    material_ambiguities = [];
    user_confirmed = true;
  }

  -- What `confirm` returns may be executed: it is valid, every ambiguity had a resolution and no
  -- other was resolved, what the user said is kept, and so is each proposed field but the four
  -- that a resolution sets.
  pub confirm_settles_the_draft :
      (resolved : Dict String) (interpretation : String) (d : ActionPlanDraft)
      {confirmed : ActionPlanDraft}
      → confirm host unicode resolved interpretation d ≡ ok confirmed
      → Confirms resolved d confirmed
  unfolding confirm
  confirm_settles_the_draft resolved interpretation d {confirmed} h =
      elim (Result-cases (resolve_all host unicode resolved d.proposed)) [
        | inr (e, bad) ↦ absurd (ground arith)
        | inl (typed, good) ↦
            let made : confirmed ≡ with_fields d interpretation typed = ground arith in
            let valid : draft_validate host unicode confirmed ≡ ok tt = ground arith in
            record {
              executes = rw made refl;
              valid = valid;
              all_resolved = ground arith;
              none_invented = ground arith;
              source = rw made refl;
              kept = λ key k. rw made (get-resolve_all key resolved d.proposed k good);
            }
      ]
