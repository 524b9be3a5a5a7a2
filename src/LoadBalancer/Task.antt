-- ===== src/LoadBalancer/Task.antt =====
-- pkg/tencentcloud/tencentcloud_loadbalancer.go: waiting for an asynchronous task.
pub mod Polling
pub mod Requests
pub mod Effects
use cloud_provider_tencent.Base.{ℕ, zero, suc, ◌++◌, String, ℤ, pos, int_eq, ◌==◌, if◌then◌else◌}
use cloud_provider_tencent.Go.Strings.{bytes}
use cloud_provider_tencent.Go.Strconv.{format_int}
use cloud_provider_tencent.Go.Errors.{Error, new}
use cloud_provider_tencent.Go.Exec.{Exec, ok, pure, raise, ◌>>=◌, ◌>>◌}
use cloud_provider_tencent.Sdk.Env.{Env, call}

-- The two errors that waitApiTaskDone makes.
abbrev pub timed_out : String → Error
timed_out task = new (bytes "task" ++ (task ++ bytes " execute timeout:"))

abbrev pub not_expected : String → ℤ → Error
not_expected task status = new (
    bytes "task" ++ (task ++ (bytes " executed return a not expected value:" ++ format_int status)))

module _ (E : Env) where
  -- getTencentCloudApiTaskStatus; the 3 that it returns beside an error is never read.
  unfoldable pub get_tencent_cloud_api_task_status : String → Exec E.World ℤ
  unfolding call
  get_tencent_cloud_api_task_status task_id = call (E.describe_task_status task_id)

  -- time.Sleep
  unfoldable pub sleep : Exec E.World (Unit {0})
  sleep w = (ok tt, E.sleep w)

  -- The switch over the status, with what is left to do for a task that runs.
  unfoldable pub on_status : String → ℤ → Exec E.World (Unit {0}) → Exec E.World (Unit {0})
  on_status task status again =
      if status == pos 0
      then pure tt
      else if status == pos 1
      then pure tt
      else if status == pos 2
      then sleep >> again
      else raise (not_expected task status)

  -- The loop of waitApiTaskDone, by the rounds that are left.
  unfoldable pub wait_rounds : ℕ → String → Exec E.World (Unit {0})
  wait_rounds zero task = raise (timed_out task)
  wait_rounds (suc rounds) task = get_tencent_cloud_api_task_status task >>= λ status.
      on_status task status (wait_rounds rounds task)

  -- waitApiTaskDone
  unfoldable pub wait_api_task_done : String → Exec E.World (Unit {0})
  wait_api_task_done task = wait_rounds 30 task
