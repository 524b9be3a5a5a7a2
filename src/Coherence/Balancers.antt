-- ===== src/Coherence/Balancers.antt =====
-- pkg/tencentcloud/tencentcloud_loadbalancer.go over a coherent cache: nothing panics, given that
-- the uid of the service has the eight bytes which a long name takes of it, and the cache stays
-- coherent.
use cloud_provider_tencent.Base.{◌≤◌, refl, none, some, List, [], ◌∷◌, ◌++◌, String, int_eq, length}
use cloud_provider_tencent.Go.Exec.{Exec, Result, value, error, ◌>>=◌}
use cloud_provider_tencent.Go.Exec.Ensures.{
  Ensures, Ensures-pure, Ensures-raise, Ensures-bind, OnValue,
}
use cloud_provider_tencent.Sdk.{LoadBalancer, Service, load_balancer_value, listeners_value}
use cloud_provider_tencent.Sdk.Env.{Env}
use cloud_provider_tencent.Sdk.Laws.{StoreLaws}
use cloud_provider_tencent.Cache
use cloud_provider_tencent.Cloud.{TxCloudConfig}
use cloud_provider_tencent.LoadBalancer.Lookup.{
  cache_name_pre_clb, cache_name_pre_clb_listener, full_name, get_load_balancer_name,
  get_load_balancer_listeners, only_one, get_load_balancer,
}
use cloud_provider_tencent.LoadBalancer.Name.{shorten_ok}
use cloud_provider_tencent.LoadBalancer.Task.{
  get_tencent_cloud_api_task_status, sleep, wait_api_task_done,
}
use cloud_provider_tencent.LoadBalancer.Task.Polling.{wait_api_task_done-Ensures}
use cloud_provider_tencent.Coherence.{
  IsCoherent, IsCoherent-Drops, Ensures-call, Ensures-get, Ensures-set,
}
use cloud_provider_tencent.Coherence.Keys.{as_load_balancer-Ensures, as_listeners-Ensures}

module _ (E : Env) (L : StoreLaws E) (tx_config : TxCloudConfig) where
  -- The action does not panic from a coherent cache, and leaves it coherent.
  abbrev pub IsSafe : {A : Type 0} → Exec E.World A → Type 0
  IsSafe m = Ensures (IsCoherent E L tx_config) (λ _. Unit {0}) m

  -- Every OnValue of a trivial postcondition holds.
  pub any_result : {A : Type 0} (r : Result A) → OnValue (λ _. Unit {0}) r
  any_result (value a) = tt
  any_result (error e) = tt

  pub name-IsSafe :
      (service : Service)
      → 8 ≤ length service.uid
      → IsSafe (get_load_balancer_name E tx_config service)
  unfolding get_load_balancer_name
  name-IsSafe service u = record {
    at = λ w h. rw (shorten_ok (full_name tx_config service) service.uid w u) (h, tt);
  }

  pub get_load_balancer_listeners-IsSafe :
      (id : String) → IsSafe (get_load_balancer_listeners E tx_config id)
  unfolding get_load_balancer_listeners
  get_load_balancer_listeners-IsSafe id =
      Ensures-bind (Cache.get E (cache_name_pre_clb_listener ++ id)) _
        (Ensures-get E L tx_config (cache_name_pre_clb_listener ++ id))
        (elim [
          | some v ↦ λ c. as_listeners-Ensures tx_config id v (c v refl)
          | none ↦ λ _.
              Ensures-bind _ _
                (Ensures-call E L tx_config E.describe_listeners id L.describe_listeners_drops)
                (λ listeners _.
                  Ensures-bind _ _
                    (Ensures-set E L tx_config _ (listeners_value listeners) (id, refl))
                    (λ _ _. Ensures-pure listeners tt))
        ])

  only_one-IsSafe :
      (name : String) (set : List LoadBalancer)
      → IsSafe (only_one E tx_config (cache_name_pre_clb ++ name) set)
  unfolding only_one
  only_one-IsSafe name [] = Ensures-raise _
  only_one-IsSafe name (lb ∷ []) =
      Ensures-bind _ _ (Ensures-set E L tx_config _ (load_balancer_value lb) (name, refl))
        (λ _ _. Ensures-pure lb tt)
  only_one-IsSafe name (_ ∷ _ ∷ _) = Ensures-raise _

  pub get_load_balancer-IsSafe :
      (name : String) (service : Service) → IsSafe (get_load_balancer E tx_config name service)
  unfolding get_load_balancer
  get_load_balancer-IsSafe name service =
      Ensures-bind (Cache.get E (cache_name_pre_clb ++ name)) _
        (Ensures-get E L tx_config (cache_name_pre_clb ++ name))
        (elim [
          | some v ↦ λ c. as_load_balancer-Ensures tx_config name v (c v refl)
          | none ↦ λ _.
              Ensures-bind _ _
                (Ensures-call E L tx_config E.describe_load_balancers _
                  L.describe_load_balancers_drops)
                (λ set _. only_one-IsSafe name set)
        ])

  sleep-IsSafe : IsSafe (sleep E)
  unfolding sleep
  sleep-IsSafe = record { at = λ w h. (IsCoherent-Drops E L tx_config w _ (L.sleep_drops w) h, tt) }

  pub wait_api_task_done-IsSafe : (task : String) → IsSafe (wait_api_task_done E task)
  unfolding get_tencent_cloud_api_task_status
  wait_api_task_done-IsSafe task =
      wait_api_task_done-Ensures E task
        (Ensures-call E L tx_config E.describe_task_status task L.describe_task_status_drops)
        sleep-IsSafe

  -- A call that starts a task, and the wait for it.
  pub started-IsSafe :
      (c : Exec E.World String)
      → IsSafe c
      → IsSafe (c >>= λ request_id. wait_api_task_done E request_id)
  started-IsSafe c k = Ensures-bind c _ k (λ request_id _. wait_api_task_done-IsSafe request_id)
