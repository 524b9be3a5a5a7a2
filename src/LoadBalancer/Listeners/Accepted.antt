-- ===== src/LoadBalancer/Listeners/Accepted.antt =====
-- pkg/tencentcloud/tencentcloud_loadbalancer.go: the two loops of ensureLoadBalancerListeners over a
-- service that accepts every request.
use cloud_provider_tencent.Base.{◌≡◌, List, String, All-pure}
use cloud_provider_tencent.Go.Exec.{ok}
use cloud_provider_tencent.Go.Exec.Returns.{Returns, Returns-bind, Returns-for_each}
use cloud_provider_tencent.Sdk.{
  Listener, Service, LoadBalancer, CreateListenerRequest, DeleteListenerRequest, reply,
}
use cloud_provider_tencent.Sdk.Env.{Env}
use cloud_provider_tencent.Cloud.{TxCloudConfig}
use cloud_provider_tencent.LoadBalancer.Task.Requests.{DoneAtOnce, request-Returns}
use cloud_provider_tencent.LoadBalancer.Listeners.{create_listener, delete_listener, reconcile}

-- A service that accepts every request on listeners and whose tasks are done at once.
pub record AcceptsListeners (E : Env) : Type 0 where
  pub creates :
      (r : CreateListenerRequest) (w : E.World)
      → (task : String) × ((E.create_listener r w).0 ≡ reply task)
  pub deletes :
      (r : DeleteListenerRequest) (w : E.World)
      → (task : String) × ((E.delete_listener r w).0 ≡ reply task)
  pub done : DoneAtOnce E

module _ (E : Env) (tx_config : TxCloudConfig) (S : AcceptsListeners E) where
  reconcile-Returns :
      (service : Service) (lb : LoadBalancer) (ls : List Listener)
      → Returns (reconcile E tx_config service lb ls)
  unfolding reconcile create_listener delete_listener
  reconcile-Returns service lb ls =
      Returns-bind _ _
        (Returns-for_each _ _ (All-pure _ _ (λ r. request-Returns E S.done _ (S.creates r))))
        (λ _. Returns-for_each _ _ (All-pure _ _ (λ r. request-Returns E S.done _ (S.deletes r))))

-- For a service of Tencent Cloud that accepts every request on listeners and whose tasks are done at
-- once: the two loops of ensureLoadBalancerListeners return with no error.
pub reconcile-ok :
    (E : Env) (tx_config : TxCloudConfig) (service : Service) (lb : LoadBalancer)
    (ls : List Listener) (w : E.World)
    → AcceptsListeners E
    → (reconcile E tx_config service lb ls w).0 ≡ ok tt
reconcile-ok E tx_config service lb ls w S =
    ((reconcile-Returns E tx_config S service lb ls).at w).1
