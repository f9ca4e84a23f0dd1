-- ===== src/Serve/Transitions.antt =====
-- The transition table of a serve against the diagram that it stands for, and the ingestion of a
-- reported status against the table.
use tahuna_oss.Common.{
  ◌≡◌, refl, ap, ◌⊎◌, inl, inr, true, false, Option, none, some, arith, Bool-cases, change_required,
}
use mathlib.Core.Path.{subst}
use tahuna_oss.Js.TextLaws.{text_eq→eq, text_eq_refl}
use tahuna_oss.Serve.Types.{
  ServeStatus, queued, provisioning, starting, serving, stopping, stopped, failed, other,
  ServeState, ServePatch, no_plan, serve_status_eq, may_follow, can_transition_serve_status,
}
use tahuna_oss.Serve.Ingestion.{IngestionArgs, next_status, plan_serve_runtime_status_ingestion}

infix 40 ◌⟶◌
-- The diagram: a serve starts up, serves, stops, and may fail until it is stopping.
pub data ◌⟶◌ : ServeStatus → ServeStatus → Type 0 where
  stay : {s : ServeStatus} → s ⟶ s
  provision : queued ⟶ provisioning
  start : provisioning ⟶ starting
  come_up : starting ⟶ serving
  abandon : provisioning ⟶ stopping
  interrupt : starting ⟶ stopping
  end : serving ⟶ stopping
  finish : stopping ⟶ stopped
  fail_queued : queued ⟶ failed
  fail_provisioning : provisioning ⟶ failed
  fail_starting : starting ⟶ failed
  fail_serving : serving ⟶ failed

serve_status_eq→eq : (a b : ServeStatus) → serve_status_eq a b ≡ true → a ≡ b
serve_status_eq→eq (other s) (other t) h = ap other (text_eq→eq s t h)
serve_status_eq→eq a b h = ground arith

pub serve_status_eq_refl : (a : ServeStatus) → serve_status_eq a a ≡ true
serve_status_eq_refl (other s) = text_eq_refl s
serve_status_eq_refl queued = refl
serve_status_eq_refl _ = refl

ruleset edges = (
  provision, start, come_up, abandon, interrupt, end, finish, fail_queued, fail_provisioning,
  fail_starting, fail_serving,
)

may_follow_sound : (a b : ServeStatus) → may_follow a b ≡ true → a ⟶ b
may_follow_sound a b h = grind (arith, edges)

can_transition_sound : (a b : ServeStatus) → can_transition_serve_status a b ≡ true → a ⟶ b
unfolding can_transition_serve_status
can_transition_sound a b h = elim (Bool-cases (serve_status_eq a b)) [
  | inl e ↦ subst (λ s. a ⟶ s) (serve_status_eq→eq a b e) stay
  | inr e ↦ may_follow_sound a b (rw e at h)
]

can_transition_complete : {a b : ServeStatus} → a ⟶ b → can_transition_serve_status a b ≡ true
unfolding can_transition_serve_status
can_transition_complete (stay {s}) = rw (serve_status_eq_refl s)
can_transition_complete provision = refl
can_transition_complete _ = refl

abbrev pub written_status : Option ServePatch → ServeStatus → ServeStatus
written_status none old = old
written_status (some p) old = change_required p.status old

-- The status that a report leads to, where it is taken up.
abbrev next : ServeState → IngestionArgs → ServeStatus
next serve a = next_status serve.status a.status

abbrev after : ServeState → IngestionArgs → ServeStatus
after serve a = written_status (plan_serve_runtime_status_ingestion serve a).plan.patch serve.status

ingestion_written :
    (serve : ServeState) (a : IngestionArgs)
    → (after serve a ≡ serve.status)
      ⊎ ((can_transition_serve_status serve.status (next serve a) ≡ true)
          × (after serve a ≡ next serve a))
unfolding plan_serve_runtime_status_ingestion
ingestion_written serve a = ground arith

ingestion_follows : (serve : ServeState) (a : IngestionArgs) → serve.status ⟶ after serve a
ingestion_follows serve a = elim (ingestion_written serve a) [
  | inl e ↦ rw e stay
  | inr (h, e) ↦ rw e (can_transition_sound _ _ h)
]

ingestion_refused :
    (serve : ServeState) (a : IngestionArgs)
    → let r = plan_serve_runtime_status_ingestion serve a in
      (r.error ≡ none)
      ⊎ ((can_transition_serve_status serve.status (next serve a) ≡ false) × (r.plan ≡ no_plan))
unfolding plan_serve_runtime_status_ingestion
ingestion_refused serve a = ground arith

ingestion_answers :
    (serve : ServeState) (a : IngestionArgs)
    → (plan_serve_runtime_status_ingestion serve a).result_status ≡ after serve a
unfolding plan_serve_runtime_status_ingestion
ingestion_answers serve a = ground arith

-- A report moves a serve only along the diagram; the answer is the status after it; and a report
-- that is refused with an error was no transition of the diagram, and changes nothing.
pub plan_serve_runtime_status_ingestion-⟶ :
    (serve : ServeState) (a : IngestionArgs)
    → let r = plan_serve_runtime_status_ingestion serve a in
      (serve.status ⟶ written_status r.plan.patch serve.status)
      × (r.result_status ≡ written_status r.plan.patch serve.status)
      × ((r.error ≡ none)
          ⊎ ((¬ (serve.status ⟶ next_status serve.status a.status)) × (r.plan ≡ no_plan)))
plan_serve_runtime_status_ingestion-⟶ serve a = (
  ingestion_follows serve a,
  ingestion_answers serve a,
  elim (ingestion_refused serve a) [
    | inl e ↦ inl e
    | inr (no_way, nothing) ↦ inr (λ s. cc (no_way, can_transition_complete s), nothing)
  ],
)
