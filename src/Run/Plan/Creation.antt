-- ===== src/Run/Plan/Creation.antt =====
-- The creation of a run: `planRunCreation` and `planRunProvisioningJobs` of
-- web/convex/core/runLifecyclePlan.ts, lines 99-190.
use tahuna_oss.Common.{
  ℕ, Bool, false, Option, none, some, List, [], ◌∷◌, ◌++◌, if◌then◌else◌, get_or,
}
use tahuna_oss.Js.Text.{Text, lit, truthy, decimal}
use tahuna_oss.Js.Number.{Number}
use tahuna_oss.Js.Json.{Json, Metadata, text_array, text_or_null}
use tahuna_oss.Jobs.Types.{RunLifecycleJob}
use tahuna_oss.Jobs.Create.{create_provision_run_job}
use tahuna_oss.Run.Types.{RunStatus, queued, RunEvent, run_event}

-- The token hash that marks a runtime token as no longer valid.
abbrev pub revoked : Text
revoked = lit "revoked"

abbrev pub provisioning_payload_metadata : Option Json → Text → Option Metadata
provisioning_payload_metadata none strategy = none
provisioning_payload_metadata (some payload) strategy =
    some
      (("provisioning_payload", some payload) ∷ ("fetch_strategy", some (Json.str strategy)) ∷ [])

pub record RunCreationArgs : Type 0 where
  pub user_id : Text
  pub environment_id : Text
  pub name : Text
  pub command : List Text
  pub data_id : Text
  pub output_dir : Option Text
  pub effective_gpu_type : Text
  pub effective_gpu_count : Number
  pub effective_volume_gb : Number
  pub code_manifest_hash : Text
  pub data_manifest_hash : Option Text
  pub dependency_group : Text
  pub now_ms : ℕ
  pub enqueue_provisioning : Bool

-- The document that a creation inserts.
pub record NewRun : Type 0 where
  pub user_id : Text
  pub environment_id : Text
  pub name : Text
  pub command : List Text
  pub data_id : Text
  pub output_dir : Text
  pub input : Text
  pub output : Text
  pub logs : Text
  pub status : RunStatus
  pub cancellation_requested : Bool
  pub effective_gpu_type : Text
  pub effective_gpu_count : Number
  pub effective_volume_gb : Number
  pub code_manifest_hash : Text
  pub data_manifest_hash : Option Text
  pub dependency_group : Text

pub record RunCreation : Type 0 where
  pub run : NewRun
  pub event : RunEvent
  pub enqueue_provisioning : Bool

-- `value || undefined`
abbrev pub or_undefined : Option Text → Option Text
or_undefined value = if truthy value then value else none

-- `storageKeys.runExecutionPrefix(environmentId, now)` of web/convex/core/storage.ts.
unfoldable pub run_execution_prefix : Text → ℕ → Text
run_execution_prefix environment_id now =
    lit "runs/" ++ (environment_id ++ (lit "/" ++ decimal now))

unfoldable pub plan_run_creation : RunCreationArgs → RunCreation
plan_run_creation a =
    let prefix = run_execution_prefix a.environment_id a.now_ms in
    record {
      run = record {
        user_id = a.user_id;
        environment_id = a.environment_id;
        name = a.name;
        command = a.command;
        data_id = a.data_id;
        output_dir = get_or a.output_dir (lit "outputs");
        input = prefix ++ lit "/input";
        output = prefix ++ lit "/output";
        logs = prefix ++ lit "/logs";
        status = queued;
        cancellation_requested = false;
        effective_gpu_type = a.effective_gpu_type;
        effective_gpu_count = a.effective_gpu_count;
        effective_volume_gb = a.effective_volume_gb;
        code_manifest_hash = a.code_manifest_hash;
        data_manifest_hash = or_undefined a.data_manifest_hash;
        dependency_group = a.dependency_group;
      };
      event = run_event queued (lit "run queued for provisioning") (
          some (
            ("name", some (Json.str a.name))
            ∷ ("command", some (text_array a.command))
            ∷ ("gpu_type", some (Json.str a.effective_gpu_type))
            ∷ ("gpu_count", some (Json.number a.effective_gpu_count))
            ∷ ("volume_gb", some (Json.number a.effective_volume_gb))
            ∷ ("code_manifest_hash", text_or_null (some a.code_manifest_hash))
            ∷ ("data_manifest_hash", text_or_null a.data_manifest_hash)
            ∷ ("dependency_group", some (Json.str a.dependency_group))
            ∷ []));
      enqueue_provisioning = a.enqueue_provisioning;
    }

unfoldable pub plan_run_provisioning_jobs : Text → Bool → List RunLifecycleJob
plan_run_provisioning_jobs run_id enqueue =
    if enqueue
    then RunLifecycleJob.provision_run (create_provision_run_job run_id none) ∷ []
    else []
