-- ===== src/LoadBalancer/Listeners/Steady.antt =====
-- pkg/tencentcloud/tencentcloud_loadbalancer.go: ensureLoadBalancerListeners over listeners that are
-- those of the ports already.
use cloud_provider_tencent.Base.{
  ◌≡◌, ◌≢◌, ◌≤◌, ◌∙◌, refl, sym, subst, true, none, List, [], ◌∷◌, String, length, string_eq,
  int_eq, string_beq_iff, int_beq_iff, contains, keep, keep-none, arith, All, All-mono, All-both,
  All-Any, Any, Any-elim, Any-mono, Bool-cases, inl, inr,
}
use cloud_provider_tencent.Go.Exec.{ok, for_each, pure, ◌>>=◌}
use cloud_provider_tencent.Common.{is_exist-sort_strings}
use cloud_provider_tencent.Sdk.{Listener, Service, ServicePort, LoadBalancer, reply}
use cloud_provider_tencent.Sdk.Env.{Env}
use cloud_provider_tencent.Cloud.{TxCloudConfig}
use cloud_provider_tencent.LoadBalancer.Lookup.{get_load_balancer}
use cloud_provider_tencent.LoadBalancer.Instance.Matching.{name_of}
use cloud_provider_tencent.LoadBalancer.Listeners.{
  serves, find_one_listener_valid, is_served, created_service_port_names, used_listener_ids,
  ports_to_create, listeners_to_delete, reconcile, ensure_load_balancer_listeners,
}
use cloud_provider_tencent.LoadBalancer.Listeners.Plan.{
  DistinctNames, DistinctIds, Serves, All-used,
}
use cloud_provider_tencent.LoadBalancer.Listeners.Laws.{ListenerLaws, listeners_of, NoneFailed}
use cloud_provider_tencent.LoadBalancer.Listeners.Method.{
  listeners_key, after_miss, ensure_load_balancer_listeners_found, get_load_balancer_listeners_miss,
  ensure_load_balancer_listeners-listeners_of,
}

-- No two listeners have both their port and their protocol in common.
abbrev pub DistinctSockets : List Listener → Type 0
DistinctSockets [] = Unit {0}
DistinctSockets (l ∷ ls) =
    All (λ k. ¬ ((l.port ≡ k.port) × (l.protocol ≡ k.protocol))) ls × DistinctSockets ls

-- The listeners have ids, which are not empty.
abbrev pub Identified : List Listener → Type 0
Identified ls = All (λ l. l.listener_id ≢ []) ls

Serves-same :
    (p : ServicePort) (l : Listener) → Serves p l → (l.port ≡ p.port) × (l.protocol ≡ p.protocol)
unfolding serves
Serves-same p l s = (
  (int_beq_iff l.port p.port).0 (ground (arith, s)),
  (string_beq_iff l.protocol p.protocol).0 (ground (arith, s)),
)

-- Where no socket is taken twice, a listener that serves a port is the one found for it.
All-found :
    (ls : List Listener)
    → DistinctSockets ls
    → All (λ l. (p : ServicePort) → Serves p l → find_one_listener_valid ls p ≡ l.listener_id) ls
unfolding find_one_listener_valid
All-found [] d = tt
All-found (l ∷ ls) (a, d) = (
  (λ p s. rw s refl),
  All-mono _ _ ls (λ k (f, ne). later k f ne) (All-both _ _ ls (All-found ls d) a),
)
  where
    later :
        (k : Listener)
        → ((p : ServicePort) → Serves p k → find_one_listener_valid ls p ≡ k.listener_id)
        → ¬ ((l.port ≡ k.port) × (l.protocol ≡ k.protocol))
        → (p : ServicePort) → Serves p k
        → find_one_listener_valid (l ∷ ls) p ≡ k.listener_id
    later k f ne p s = elim (Bool-cases (serves p l.port l.protocol)) [
      | inl other ↦
          let (port, protocol) = Serves-same p l other in
          let (port', protocol') = Serves-same p k s in
          absurd (ne (port ∙ sym port', protocol ∙ sym protocol'))
      | inr differs ↦ rw differs (f p s)
    ]

module _ (ls : List Listener) (ports : List ServicePort) where
  -- A port with a listener that has an id is served.
  Any-is_served :
      (p : ServicePort) (ks : List Listener)
      → Identified ks
      → Any (Serves p) ks
      → is_served ks p ≡ true
  unfolding is_served find_one_listener_valid
  Any-is_served p [] i a = elim a [ ]
  Any-is_served p (k ∷ ks) (ne, i) a = elim (Bool-cases (serves p k.port k.protocol)) [
    | inl s ↦ ground (arith, s, string_beq_iff k.listener_id [], ne)
    | inr s ↦ elim a [
      | inl s' ↦ absurd (ground (arith, s, s'))
      | inr b ↦ rw s (Any-is_served p ks i b)
    ]
  ]

  All-created :
      (ps : List ServicePort)
      → All (λ p. is_served ls p ≡ true) ps
      → All (λ p. contains p.name (created_service_port_names ls ps) ≡ true) ps
  unfolding created_service_port_names contains keep
  All-created [] a = tt
  All-created (p ∷ ps) (s, a) = (
    rw s (ground (arith, string_beq_iff p.name p.name)),
    All-mono _ _ ps (λ q h. rw s (ground (arith, h))) (All-created ps a),
  )

  ports_to_create-none :
      Identified ls → All (λ p. Any (Serves p) ls) ports → ports_to_create ls ports ≡ []
  unfolding ports_to_create
  ports_to_create-none i a = keep-none _ ports (
      All-mono _ _ ports
        (λ p h. rw (is_exist-sort_strings p.name (created_service_port_names ls ports), h) refl)
        (All-created ports (All-mono _ _ ports (λ p. Any-is_served p ls i) a)))

  -- A listener that is found for a port is in use.
  found-used :
      (l : Listener)
      → Any (λ p. (is_served ls p ≡ true) × (find_one_listener_valid ls p ≡ l.listener_id)) ports
      → contains l.listener_id (used_listener_ids ls ports) ≡ true
  found-used l a =
      Any-elim _ ports
        (λ p (u, (s, e)).
          subst (λ (id : String). contains id (used_listener_ids ls ports) ≡ true) e (u s))
        (All-Any _ _ ports (All-used ls ports) a)

  listeners_to_delete-none :
      Identified ls
      → DistinctSockets ls
      → All (λ p. Any (Serves p) ls) ports
      → All (λ l. Any (λ p. Serves p l) ports) ls
      → listeners_to_delete ls ports ≡ []
  unfolding listeners_to_delete
  listeners_to_delete-none i d a b = keep-none _ ls (
      All-mono _ _ ls
        (λ l (f, h).
          rw
            (
              is_exist-sort_strings l.listener_id (used_listener_ids ls ports),
              found-used l (
                  Any-mono _ _ ports (λ p (v, s). (Any-is_served p ls i v, f p s))
                    (All-Any _ _ ports a h)),
            )
            refl)
        (All-both _ _ ls (All-found ls d) b))

  -- Neither plan asks for anything.
  reconcile-steady :
      (E : Env) (tx_config : TxCloudConfig) (service : Service) (lb : LoadBalancer) (w : E.World)
      → service.ports ≡ ports
      → Identified ls
      → DistinctSockets ls
      → All (λ p. Any (Serves p) ls) ports
      → All (λ l. Any (λ p. Serves p l) ports) ls
      → reconcile E tx_config service lb ls w ≡ (ok tt, w)
  unfolding reconcile for_each pure ◌>>=◌
  reconcile-steady E tx_config service lb w same i d a b =
      rw same (rw (ports_to_create-none i a) (rw (listeners_to_delete-none i d a b) refl))

-- For a service of Tencent Cloud where accepted creations and deletions of listeners take effect
-- once their task succeeds, a service whose uid has eight bytes and whose ports have distinct
-- names, and a balancer that is found, whose listeners are not cached, are told truly by
-- DescribeListeners and have distinct ids: if ensureLoadBalancerListeners returns with no error, no
-- task answered that it failed, and the listeners that it leaves have ids that are not empty and no
-- two of them the same port and protocol, then from any other world in which the balancer is found
-- and its listeners are not cached and are told to be the ones that the first run left, another run
-- returns with no error and makes no call but those of the search for the balancer and its
-- listeners.
pub ensure_load_balancer_listeners_steady :
    (E : Env) (tx_config : TxCloudConfig) (L : ListenerLaws E) (service : Service)
    (lb : LoadBalancer) (ls : List Listener) (w w1 v v1 : E.World)
    → 8 ≤ length service.uid
    → DistinctNames service.ports
    → get_load_balancer E tx_config (name_of E tx_config service) service w ≡ (ok lb, w1)
    → (E.store_get_by_key (listeners_key lb) w1).0 ≡ reply none
    → (E.describe_listeners lb.load_balancer_id (E.store_get_by_key (listeners_key lb) w1).1).0
      ≡ reply (listeners_of L w1 lb.load_balancer_id)
    → DistinctIds (listeners_of L w1 lb.load_balancer_id)
    → (ensure_load_balancer_listeners E tx_config service w).0 ≡ ok tt
    → NoneFailed L (ensure_load_balancer_listeners E tx_config service w).1
    → listeners_of L (ensure_load_balancer_listeners E tx_config service w).1 lb.load_balancer_id
      ≡ ls
    → get_load_balancer E tx_config (name_of E tx_config service) service v ≡ (ok lb, v1)
    → (E.store_get_by_key (listeners_key lb) v1).0 ≡ reply none
    → (E.describe_listeners lb.load_balancer_id (E.store_get_by_key (listeners_key lb) v1).1).0
      ≡ reply ls
    → Identified ls
    → DistinctSockets ls
    → ensure_load_balancer_listeners E tx_config service v
      ≡ (ok tt, after_miss E tx_config service lb ls v1)
ensure_load_balancer_listeners_steady E tx_config L service lb ls w w1 v v1 uid names found missed
      told distinct ran none_failed left found_again missed_again told_again ided sockets =
    let (served, serving) =
      subst
        (λ (xs : List Listener).
          All (λ p. Any (Serves p) xs) service.ports
          × All (λ l. Any (λ p. Serves p l) service.ports) xs)
        left
        (ensure_load_balancer_listeners-listeners_of E tx_config L service lb w w1 uid names found
          missed told distinct ran none_failed) in
    ensure_load_balancer_listeners_found E tx_config service lb v v1
      (after_miss E tx_config service lb ls v1) ls uid found_again
      (get_load_balancer_listeners_miss E tx_config service lb v1 ls missed_again told_again)
    ∙ reconcile-steady ls service.ports E tx_config service lb _ refl ided sockets served serving
