-- ===== src/LoadBalancer/Instance/Laws.antt =====
-- What is relied on of the balancers of the service of Tencent Cloud.
use cloud_provider_tencent.Base.{
  ◌≡◌, false, some, List, [], ◌∷◌, ◌++◌, String, All, Any, keep, not, string_eq, ◌==◌,
}
use cloud_provider_tencent.Go.Strings.{bytes}
use cloud_provider_tencent.Sdk.{
  LoadBalancer, Filter, TagInfo, CreateLoadBalancerRequest, DescribeLoadBalancersRequest, reply,
}
use cloud_provider_tencent.Sdk.Env.{Env}
use cloud_provider_tencent.LoadBalancer.Task.Effects.{TaskLaws}

-- The tag answers the filter `tag:` with its key, which lists its value.
abbrev pub Answers : Filter → TagInfo → Type 0
Answers f t = (f.name ≡ bytes "tag:" ++ t.tag_key) × Any (λ v. v ≡ t.tag_value) f.values

-- The search is for the name of the new balancer, and each filter is answered by one of its tags.
abbrev pub Selects : DescribeLoadBalancersRequest → CreateLoadBalancerRequest → Type 0
Selects q r =
    (q.load_balancer_name ≡ r.load_balancer_name) × All (λ f. Any (Answers f) r.tags) q.filters

-- The balancer is as the request asks; one with no subnet in the request may be in any.
abbrev pub IsMadeFor : CreateLoadBalancerRequest → LoadBalancer → Type 0
IsMadeFor r lb =
    (lb.load_balancer_type ≡ r.load_balancer_type)
    × (lb.vpc_id ≡ r.vpc_id)
    × ((subnet : String) → r.subnet_id ≡ some subnet → lb.subnet_id ≡ subnet)

-- A service where an accepted creation promises one balancer to the searches that select it, and
-- where DescribeLoadBalancers tells what there is. The promise is kept once the task is said to
-- have succeeded.
pub record BalancerLaws (E : Env) : Type 0 where
  -- the balancers that a search has for an answer
  pub tasks : TaskLaws E DescribeLoadBalancersRequest (List LoadBalancer)
  pub creates :
      (r : CreateLoadBalancerRequest) (w : E.World) (task : String)
      (q : DescribeLoadBalancersRequest)
      → (E.create_load_balancer r w).0 ≡ reply task
      → Selects q r
      → (lb : LoadBalancer) × IsMadeFor r lb
        × (tasks.promised (E.create_load_balancer r w).1 task q ≡ tasks.state_of w q ++ (lb ∷ []))
  pub told :
      (q : DescribeLoadBalancersRequest) (w : E.World) (set : List LoadBalancer)
      → (E.describe_load_balancers q w).0 ≡ reply set
      → set ≡ tasks.state_of w q
  pub store_get_by_key_all :
      (key : String) (w : E.World) (q : DescribeLoadBalancersRequest)
      → tasks.state_of (E.store_get_by_key key w).1 q ≡ tasks.state_of w q

abbrev pub found_by :
    {E : Env} → BalancerLaws E → E.World → DescribeLoadBalancersRequest → List LoadBalancer
found_by L w q = L.tasks.state_of w q

-- No task has answered that it failed.
abbrev pub NoneFailed : {E : Env} → BalancerLaws E → E.World → Type 0
NoneFailed L w = L.tasks.has_failed w ≡ false

-- A service where an accepted deletion promises to take the balancer with the id out of every
-- search.
pub record DeletionLaws (E : Env) (L : BalancerLaws E) : Type 0 where
  pub deletes :
      (id : String) (w : E.World) (task : String) (q : DescribeLoadBalancersRequest)
      → (E.delete_load_balancer (id ∷ []) w).0 ≡ reply task
      → L.tasks.promised (E.delete_load_balancer (id ∷ []) w).1 task q
        ≡ keep (λ lb. not (lb.load_balancer_id == id)) (found_by L w q)
