-- ===== src/Jobs/Examples.antt =====
-- Tests of the jobs, after web/convex/core/jobQueue.test.ts, and the theorems at concrete jobs.
use tahuna_oss.Common.{◌≡◌, refl, true, none, some, [], ◌∷◌, arith}
use tahuna_oss.Js.Text.{Text, lit, trim, join, mem_text, text_eq, decimal}
use tahuna_oss.Js.Number.{nan, finite, negative, of_ℕ, floor_at_zero, whole_text}
use tahuna_oss.Jobs.Types.{job_type_text}
use tahuna_oss.Jobs.Create.{
  KeyPart, job_key_part, normalize_delay_ms, run_job_idempotency_key, normalize_attempt, text_le,
  insert_sorted, sort_texts, dedup_from, trim_keys, normalize_artifact_keys,
  create_provision_run_job, create_terminate_machine_job, create_finalize_artifact_job,
}
use tahuna_oss.Jobs.Keys.{create_terminate_machine_job-key_injective}
use tahuna_oss.Jobs.Normal.{create_finalize_artifact_job_canonical}

run_1 : Text
run_1 = lit "run_1"

provision_delay :
    ((create_provision_run_job run_1 (some (negative 9 0))).delay_ms ≡ 0)
    × ((create_provision_run_job run_1 (some (finite 109 9))).delay_ms ≡ 10)
    × ((create_provision_run_job run_1 (some nan)).delay_ms ≡ 0)
unfolding create_provision_run_job normalize_delay_ms
provision_delay = (refl, refl, refl)

terminate_key :
    (create_terminate_machine_job
      (lit "run_1")
      (some nan)
      (lit "machine_1")
      true
      (some (finite 29 9))).idempotency_key
    ≡ lit "run:run_1:terminate_machine:machine_1:true:2"
unfolding create_terminate_machine_job run_job_idempotency_key job_key_part trim lit join
    job_type_text floor_at_zero whole_text decimal
terminate_key = refl

sorted_keys :
    normalize_artifact_keys (lit " b" ∷ lit "a" ∷ lit " " ∷ lit "b " ∷ []) ≡ lit "a" ∷ lit "b" ∷ []
unfolding normalize_artifact_keys sort_texts insert_sorted text_le dedup_from trim_keys mem_text
    text_eq trim lit
sorted_keys = refl

create_terminate_machine_job-key_injective_example :
    (lit "r" ≡ lit "r")
    × (job_key_part (KeyPart.text (lit "m")) ≡ job_key_part (KeyPart.text (lit " m")))
    × (true ≡ true)
    × (normalize_attempt (some (finite 29 9)) ≡ normalize_attempt (some (of_ℕ 2)))
unfolding create_terminate_machine_job run_job_idempotency_key job_key_part trim lit join
    job_type_text floor_at_zero whole_text decimal
create_terminate_machine_job-key_injective_example =
    create_terminate_machine_job-key_injective (lit "r") (lit "r") (lit "m") (lit " m") none
      (some (of_ℕ 7)) true true (some (finite 29 9)) (some (of_ℕ 2)) (omega arith) (omega arith)
      (omega arith) (omega arith) refl

same_keys :
    (t : Text)
    → mem_text t (trim_keys (lit "b" ∷ lit "a" ∷ []))
      ≡ mem_text t (trim_keys (lit "a" ∷ lit " b" ∷ lit "a" ∷ []))
unfolding trim_keys mem_text trim lit
same_keys t = ground arith

create_finalize_artifact_job_canonical_example :
    create_finalize_artifact_job (lit "r") (lit "b" ∷ lit "a" ∷ []) none
    ≡ create_finalize_artifact_job (lit "r") (lit "a" ∷ lit " b" ∷ lit "a" ∷ []) none
create_finalize_artifact_job_canonical_example =
    create_finalize_artifact_job_canonical (lit "r") (lit "b" ∷ lit "a" ∷ [])
      (lit "a" ∷ lit " b" ∷ lit "a" ∷ []) none same_keys
