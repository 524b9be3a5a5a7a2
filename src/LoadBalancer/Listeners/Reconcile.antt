-- ===== src/LoadBalancer/Listeners/Reconcile.antt =====
-- pkg/tencentcloud/tencentcloud_loadbalancer.go: what the creations and deletions of
-- ensureLoadBalancerListeners come to.
use cloud_provider_tencent.Base.{
  ◌≡◌, ◌≢◌, refl, sym, subst, Bool, true, false, not, List, [], ◌∷◌, ◌++◌, map, String, string_eq,
  int_eq, contains, eq_refl, keep, arith, All, All-mono, All-both, All-append, All-keep,
  All-keep_test, Any, Any-mono, Any-append_left, Any-append_right, Any-keep, Any-swap, Any-const,
  All-self, All-kept, Bool-cases, inl, inr,
}
use cloud_provider_tencent.Go.Sort.{sort_strings}
use cloud_provider_tencent.Common.{is_exist, is_exist-sort_strings}
use cloud_provider_tencent.Sdk.{Listener, ServicePort}
use cloud_provider_tencent.LoadBalancer.Listeners.{
  serves, find_one_listener_valid, is_served, created_service_port_names, used_listener_ids,
  ports_to_create, listeners_to_delete,
}
use cloud_provider_tencent.LoadBalancer.Listeners.Plan.{
  DistinctNames, DistinctIds, Serves, find-Any, is_served-ne, contains-deleted, All-contains_id,
  All-used, used-Any, same_id, All-not_created,
}

-- Listeners made for the ports, in order.
abbrev pub Made : List ServicePort → List Listener → Type 0
Made [] [] = Unit {0}
Made [] (m ∷ ms) = ⊥
Made (p ∷ ps) [] = ⊥
Made (p ∷ ps) (m ∷ ms) = Serves p m × Made ps ms

-- The listener that the service makes for a port, under an id of its choice.
abbrev pub made_for : (ServicePort → String) → ServicePort → Listener
made_for fresh p = record { listener_id = fresh p; port = p.port; protocol = p.protocol }

-- The listeners once those to delete are gone, by their ids, and those to create are there.
unfoldable pub reconciled :
    (ServicePort → String) → List Listener → List ServicePort → List Listener
reconciled fresh ls ports =
    keep
      (λ l. not (contains l.listener_id (map (λ k. k.listener_id) (listeners_to_delete ls ports))))
      ls
    ++ map (made_for fresh) (ports_to_create ls ports)

Serves-made_for : (fresh : ServicePort → String) (p : ServicePort) → Serves p (made_for fresh p)
unfolding serves
Serves-made_for fresh p = ground (arith, eq_refl p.port, eq_refl p.protocol)

Made-map :
    (fresh : ServicePort → String) (ps : List ServicePort) → Made ps (map (made_for fresh) ps)
Made-map fresh [] = tt
Made-map fresh (p ∷ ps) = (Serves-made_for fresh p, Made-map fresh ps)

Any-Made :
    (p : ServicePort) (ps : List ServicePort) (made : List Listener)
    → Made ps made
    → Any (λ q. q ≡ p) ps
    → Any (Serves p) made
Any-Made p [] [] m a = elim a [ ]
Any-Made p [] (l ∷ made) m a = elim a [ ]
Any-Made p (q ∷ ps) [] m a = elim m [ ]
Any-Made p (q ∷ ps) (l ∷ made) (s, m) (inl e) = inl (subst (λ r. Serves r l) e s)
Any-Made p (q ∷ ps) (l ∷ made) (s, m) (inr a) = inr (Any-Made p ps made m a)

All-Made :
    (P : ServicePort → Type 0) (ps : List ServicePort) (made : List Listener)
    → Made ps made
    → All P ps
    → All (λ l. (p : ServicePort) × P p × Serves p l) made
All-Made P [] [] m a = tt
All-Made P [] (l ∷ made) m a = elim m [ ]
All-Made P (q ∷ ps) [] m a = tt
All-Made P (q ∷ ps) (l ∷ made) (s, m) (h, a) = ((q, h, s), All-Made P ps made m a)

module _ (ls : List Listener) (ports : List ServicePort) where
  -- A listener goes exactly when its id is not in use.
  abbrev pub stays : Listener → Bool
  stays l = not (contains l.listener_id (map (λ k. k.listener_id) (listeners_to_delete ls ports)))

  used-stays :
      (l : Listener) → contains l.listener_id (used_listener_ids ls ports) ≡ true → stays l ≡ true
  unfolding listeners_to_delete
  used-stays l h = ground (arith, contains-deleted ls ports l.listener_id ls, h)

  stays-used :
      (l : Listener)
      → contains l.listener_id (map (λ k. k.listener_id) ls) ≡ true
      → stays l ≡ true
      → contains l.listener_id (used_listener_ids ls ports) ≡ true
  unfolding listeners_to_delete
  stays-used l m h = ground (arith, contains-deleted ls ports l.listener_id ls, m, h)

  served-stays :
      (p : ServicePort)
      → is_served ls p ≡ true
      → contains (find_one_listener_valid ls p) (used_listener_ids ls ports) ≡ true
      → Any (Serves p) (keep stays ls)
  served-stays p s u = Any-keep (Serves p) stays ls (
      Any-mono _ _ ls
        (λ l (e, h). (
          used-stays l (subst (λ id. contains id (used_listener_ids ls ports) ≡ true) (sym e) u),
          h,
        ))
        (find-Any ls p (find_one_listener_valid ls p) refl (is_served-ne ls p s)))

  module _ (made : List Listener) (mk : Made (ports_to_create ls ports) made) where
    unserved-Made :
        (p : ServicePort)
        → contains p.name (created_service_port_names ls ports) ≡ false
        → (not (is_exist p.name (sort_strings (created_service_port_names ls ports))) ≡ true
            → Any (λ q. q ≡ p) (ports_to_create ls ports))
        → Any (Serves p) made
    unserved-Made p n f =
        Any-Made p (ports_to_create ls ports) made mk
          (f (rw (is_exist-sort_strings p.name (created_service_port_names ls ports), n)))

    All-served : DistinctNames ports → All (λ p. Any (Serves p) (keep stays ls ++ made)) ports
    unfolding ports_to_create
    All-served d =
        All-mono _ _ ports
          (λ p ((u, n), f). elim (Bool-cases (is_served ls p)) [
            | inl s ↦ Any-append_left (Serves p) _ _ (served-stays p s (u s))
            | inr s ↦ Any-append_right (Serves p) (keep stays ls) _ (unserved-Made p (n s) f)
          ])
          (All-both _ _ ports (All-both _ _ ports (All-used ls ports) (All-not_created ls ports d))
            (All-kept _ ports))

  -- A listener that stays serves a port, by way of the listener with its id.
  stays-Serves :
      (l : Listener)
      → contains l.listener_id (used_listener_ids ls ports) ≡ true
      → Any (λ k. (k.listener_id ≡ l.listener_id) × Any (λ p. Serves p k) ports) ls
  stays-Serves l h =
      Any-mono _ _ ls (λ k a. Any-const (k.listener_id ≡ l.listener_id) (λ p. Serves p k) ports a)
        (Any-swap (λ p k. (k.listener_id ≡ l.listener_id) × Serves p k) ports ls
          (Any-mono _ _ ports
            (λ p (s, e).
              find-Any ls p l.listener_id e
                (subst (λ (id : String). id ≢ []) e (is_served-ne ls p s)))
            (used-Any ls ports l.listener_id h)))

  -- What stays and what was made match the ports.
  pub All-matching :
      (made : List Listener)
      → Made (ports_to_create ls ports) made
      → DistinctNames ports
      → DistinctIds ls
      → All (λ p. Any (Serves p) (keep stays ls ++ made)) ports
        × All (λ l. Any (λ p. Serves p l) ports) (keep stays ls ++ made)
  unfolding ports_to_create
  All-matching made mk names ids = (
    All-served made mk names,
    All-append _ (keep stays ls) _
        (All-keep_test _ stays ls (
          All-mono _ _ ls (λ l (q, m) h. q (stays-Serves l (stays-used l m h)))
            (All-both _ _ ls (same_id (λ k. Any (λ p. Serves p k) ports) ls ids)
              (All-contains_id ls))))
        (All-mono _ _ made
          (λ l (p, a, s). Any-mono _ _ ports (λ q e. subst (λ r. Serves r l) (sym e) s) a)
          (All-Made (λ p. Any (λ q. q ≡ p) ports) _ made mk (All-keep _ _ ports (All-self ports)))),
  )

-- For ports with distinct names and listeners with distinct ids: once the listeners to delete are
-- gone and those to create are there, every port of the service has a listener with its number and
-- protocol, and every listener has the number and protocol of a port.
reconciled_matches :
    (fresh : ServicePort → String) (ls : List Listener) (ports : List ServicePort)
    → DistinctNames ports
    → DistinctIds ls
    → All (λ p. Any (Serves p) (reconciled fresh ls ports)) ports
      × All (λ l. Any (λ p. Serves p l) ports) (reconciled fresh ls ports)
unfolding reconciled
reconciled_matches fresh ls ports =
    All-matching ls ports (map (made_for fresh) (ports_to_create ls ports)) (Made-map fresh _)
