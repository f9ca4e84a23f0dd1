-- ===== src/Jobs/Create.antt =====
-- The functions `create…Job` of web/convex/core/jobQueue.ts, with the normalisation of delays,
-- attempts and artifact keys, and the idempotency keys.
use tahuna_oss.Common.{
  ℕ, Bool, true, false, Option, none, some, List, [], ◌∷◌, map, ltb, ◌==◌, if◌then◌else◌,
}
use tahuna_oss.Js.Text.{Text, lit, is_empty, or_text, trim, join, mem_text}
use tahuna_oss.Js.Number.{Number, Whole, floor_finite, floor_at_zero, whole_text}
use tahuna_oss.Jobs.Types.{
  CoreJobType, job_type_text, StartupTimeoutFingerprint, ProvisionRunJob, CheckStartupTimeoutJob,
  TerminateMachineJob, FinalizeArtifactJob, CleanupFailedUploadJob, ProvisionServeJob,
  CheckServeStartupTimeoutJob, TerminateServeMachineJob, DeleteServeDataJob,
}

-- An absent delay is `none`; what is not finite counts as 0.
unfoldable pub normalize_delay_ms : Option Number → ℕ
normalize_delay_ms none = 0
normalize_delay_ms (some x) = floor_finite x

-- The values that a part of a key may have.
pub data KeyPart : Type 0 where
  absent : KeyPart
  text : Text → KeyPart
  flag : Bool → KeyPart
  number : Whole → KeyPart

-- `String(value ?? "none")`
unfoldable pub key_part_text : KeyPart → Text
key_part_text absent = lit "none"
key_part_text (text t) = t
key_part_text (flag true) = lit "true"
key_part_text (flag false) = lit "false"
key_part_text (number n) = whole_text n

unfoldable pub job_key_part : KeyPart → Text
unfolding key_part_text
job_key_part value = or_text (trim (key_part_text value)) (lit "none")

abbrev pub attempt_part : Option Whole → KeyPart
attempt_part none = absent
attempt_part (some n) = number n

-- The separator of the parts is b':'.
unfoldable pub run_job_idempotency_key : Text → CoreJobType → List KeyPart → Text
run_job_idempotency_key run_id type parts =
    join b':' (lit "run" ∷ run_id ∷ job_type_text type ∷ map job_key_part parts)

unfoldable pub serve_job_idempotency_key : Text → CoreJobType → List KeyPart → Text
serve_job_idempotency_key serve_id type parts =
    join b':' (lit "serve" ∷ serve_id ∷ job_type_text type ∷ map job_key_part parts)

-- The order of `Array.sort` on strings, by code units.
unfoldable pub text_le : Text → Text → Bool
text_le [] t = true
text_le (c ∷ s) [] = false
text_le (c ∷ s) (d ∷ t) = if c == d then text_le s t else ltb c d

unfoldable pub insert_sorted : Text → List Text → List Text
insert_sorted t [] = t ∷ []
insert_sorted t (x ∷ xs) = if text_le t x then t ∷ x ∷ xs else x ∷ insert_sorted t xs

-- `Array.sort`, by insertion; the order is total and antisymmetric, so the result is the same.
unfoldable pub sort_texts : List Text → List Text
sort_texts [] = []
sort_texts (x ∷ xs) = insert_sorted x (sort_texts xs)

-- `Array.from(new Set(keys))`: the members in the order of their first occurrences.
unfoldable pub dedup_from : List Text → List Text → List Text
dedup_from seen [] = []
dedup_from seen (x ∷ xs) =
    let again = dedup_from seen xs in
    let first = dedup_from (x ∷ seen) xs in if mem_text x seen then again else x ∷ first

-- `keys.map(trim).filter(Boolean)`
unfoldable pub trim_keys : List Text → List Text
trim_keys [] = []
trim_keys (k ∷ ks) = let rest = trim_keys ks in if is_empty (trim k) then rest else trim k ∷ rest

unfoldable pub normalize_artifact_keys : List Text → List Text
normalize_artifact_keys keys = sort_texts (dedup_from [] (trim_keys keys))

unfoldable pub create_provision_run_job : Text → Option Number → ProvisionRunJob
create_provision_run_job run_id delay_ms = record {
  run_id = run_id;
  delay_ms = normalize_delay_ms delay_ms;
  idempotency_key = run_job_idempotency_key run_id CoreJobType.provision_run [];
}

unfoldable pub create_check_startup_timeout_job :
    Text → Number → Text → StartupTimeoutFingerprint → CheckStartupTimeoutJob
create_check_startup_timeout_job run_id delay_ms machine fingerprint = record {
  run_id = run_id;
  delay_ms = normalize_delay_ms (some delay_ms);
  provider_machine_id = machine;
  fingerprint = fingerprint;
  idempotency_key =
      run_job_idempotency_key run_id CoreJobType.check_startup_timeout (KeyPart.text machine ∷ []);
}

-- `attempt === undefined ? undefined : Math.max(0, Math.floor(attempt))`
abbrev pub normalize_attempt : Option Number → Option Whole
normalize_attempt none = none
normalize_attempt (some x) = some (floor_at_zero x)

unfoldable pub create_terminate_machine_job :
    Text → Option Number → Text → Bool → Option Number → TerminateMachineJob
create_terminate_machine_job run_id delay_ms machine force attempt = record {
  run_id = run_id;
  delay_ms = normalize_delay_ms delay_ms;
  provider_machine_id = machine;
  force = force;
  attempt = normalize_attempt attempt;
  idempotency_key =
      run_job_idempotency_key run_id CoreJobType.terminate_machine
        (KeyPart.text machine ∷ flag force ∷ attempt_part (normalize_attempt attempt) ∷ []);
}

unfoldable pub create_finalize_artifact_job : Text → List Text → Option Number → FinalizeArtifactJob
create_finalize_artifact_job run_id keys delay_ms = record {
  run_id = run_id;
  delay_ms = normalize_delay_ms delay_ms;
  artifact_keys = normalize_artifact_keys keys;
  idempotency_key =
      run_job_idempotency_key run_id CoreJobType.finalize_artifact
        (KeyPart.text (join b',' (normalize_artifact_keys keys)) ∷ []);
}

unfoldable pub create_cleanup_failed_upload_job :
    Text → Text → Option Text → Option Number → CleanupFailedUploadJob
create_cleanup_failed_upload_job run_id key reason delay_ms = record {
  run_id = run_id;
  delay_ms = normalize_delay_ms delay_ms;
  artifact_key = trim key;
  reason = reason;
  idempotency_key =
      run_job_idempotency_key run_id CoreJobType.cleanup_failed_upload
        (KeyPart.text (trim key) ∷ []);
}

unfoldable pub create_provision_serve_job : Text → Option Number → ProvisionServeJob
create_provision_serve_job serve_id delay_ms = record {
  serve_id = serve_id;
  delay_ms = normalize_delay_ms delay_ms;
  idempotency_key = serve_job_idempotency_key serve_id CoreJobType.provision_serve [];
}

unfoldable pub create_check_serve_startup_timeout_job :
    Text → Number → Text → Number → CheckServeStartupTimeoutJob
create_check_serve_startup_timeout_job serve_id delay_ms machine seconds = record {
  serve_id = serve_id;
  delay_ms = normalize_delay_ms (some delay_ms);
  provider_machine_id = machine;
  startup_timeout_seconds = floor_at_zero seconds;
  idempotency_key =
      serve_job_idempotency_key serve_id CoreJobType.check_serve_startup_timeout
        (KeyPart.text machine ∷ []);
}

unfoldable pub create_terminate_serve_machine_job :
    Text → Option Number → Text → Bool → Option Number → TerminateServeMachineJob
create_terminate_serve_machine_job serve_id delay_ms machine force attempt = record {
  serve_id = serve_id;
  delay_ms = normalize_delay_ms delay_ms;
  provider_machine_id = machine;
  force = force;
  attempt = normalize_attempt attempt;
  idempotency_key =
      serve_job_idempotency_key serve_id CoreJobType.terminate_serve_machine
        (KeyPart.text machine ∷ flag force ∷ attempt_part (normalize_attempt attempt) ∷ []);
}

unfoldable pub create_delete_serve_data_job : Text → Option Number → DeleteServeDataJob
create_delete_serve_data_job serve_id delay_ms = record {
  serve_id = serve_id;
  delay_ms = normalize_delay_ms delay_ms;
  idempotency_key = serve_job_idempotency_key serve_id CoreJobType.delete_serve_data [];
}
