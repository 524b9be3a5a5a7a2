-- ===== src/LoadBalancer/Listeners/Effects.antt =====
-- pkg/tencentcloud/tencentcloud_loadbalancer.go: the two loops of ensureLoadBalancerListeners over a
-- service whose creations and deletions take effect.
use cloud_provider_tencent.Base.{
  ◌≡◌, ◌∙◌, refl, sym, ap, subst, inr, Bool, false, not, List, [], ◌∷◌, ◌++◌, map, string_eq,
  int_eq, fun_ext, ◌==◌, eq_refl, contains, keep, keep-keep, keep-append, keep-All, All-pure, arith,
  All, Any, All-mono, append_assoc, append-nil,
}
use cloud_provider_tencent.Go.Exec.{ok, for_each}
use cloud_provider_tencent.Go.Exec.Leads.{Leads, Leads-pure, Leads-bind}
use cloud_provider_tencent.Sdk.{Listener, Service, ServicePort, LoadBalancer}
use cloud_provider_tencent.Sdk.Env.{Env}
use cloud_provider_tencent.Cloud.{TxCloudConfig}
use cloud_provider_tencent.LoadBalancer.Task.Effects.{
  Stands, Stands-request, Stands-mono, Stands-state_of,
}
use cloud_provider_tencent.LoadBalancer.Listeners.{
  serves, ports_to_create, listeners_to_delete, create_listener_request, delete_listener_request,
  create_listener, delete_listener, reconcile,
}
use cloud_provider_tencent.LoadBalancer.Listeners.Plan.{
  DistinctNames, DistinctIds, Serves, contains-deleted,
}
use cloud_provider_tencent.LoadBalancer.Listeners.Growth.{ids, GrownBy, GrownBy-add}
use cloud_provider_tencent.LoadBalancer.Listeners.Laws.{ListenerLaws, listeners_of, NoneFailed}
use cloud_provider_tencent.LoadBalancer.Listeners.Reconcile.{Made, stays, All-matching}

module _ (E : Env) (tx_config : TxCloudConfig) (L : ListenerLaws E) (service : Service)
    (lb : LoadBalancer) where
  -- What is known of the listeners of the balancer, unless a task has failed.
  abbrev pub Where : (List Listener → Type 0) → E.World → Type 0
  Where P w = Stands E L.tasks lb.load_balancer_id P w

  Where-create :
      (P Q : List Listener → Type 0) (port : ServicePort)
      → ((xs : List Listener) (m : Listener)
          → P xs
          → Serves port m
          → contains m.listener_id (ids xs) ≡ false
          → Q (xs ++ (m ∷ [])))
      → Leads
          (Where P)
          (Where Q)
          (create_listener E tx_config (create_listener_request service lb port))
  unfolding create_listener create_listener_request serves
  Where-create P Q port step =
      let r = create_listener_request service lb port in
      Stands-request E L.tasks lb.load_balancer_id P Q (E.create_listener r)
        (L.create_listener_stays r)
        (λ w task p accepted.
          let (id, grown, free) = L.creates r w task port.port accepted refl in
          subst Q (sym grown) (
            step _ (record { listener_id = id; port = port.port; protocol = port.protocol }) p
              (ground (arith, eq_refl port.port, eq_refl port.protocol)) free))

  Where-delete :
      (P Q : List Listener → Type 0) (l : Listener)
      → ((xs : List Listener) → P xs → Q (keep (λ k. not (k.listener_id == l.listener_id)) xs))
      → Leads (Where P) (Where Q) (delete_listener E tx_config (delete_listener_request lb l))
  unfolding delete_listener delete_listener_request
  Where-delete P Q l step =
      let r = delete_listener_request lb l in
      Stands-request E L.tasks lb.load_balancer_id P Q (E.delete_listener r)
        (L.delete_listener_stays r)
        (λ w task p accepted. subst Q (sym (L.deletes r w task accepted)) (step _ p))

  created :
      (ls : List Listener) (done ps : List ServicePort)
      → Leads
          (Where (GrownBy ls done))
          (Where (GrownBy ls (done ++ ps)))
          (for_each (create_listener E tx_config) (map (create_listener_request service lb) ps))
  unfolding for_each
  created ls done [] = rw append-nil (Leads-pure tt (λ w h. h))
  created ls done (p ∷ ps) =
      Leads-bind _ _
        (Where-create (GrownBy ls done) (GrownBy ls (done ++ (p ∷ []))) p
          (λ xs m g s f. GrownBy-add ls done xs p m g s f))
        (λ _. rw (← append_assoc done (p ∷ []) ps) (created ls (done ++ (p ∷ [])) ps))

  -- The list without the listeners of the plan, by their ids.
  abbrev without : List Listener → List Listener → List Listener
  without ds xs = keep (λ k. not (contains k.listener_id (ids ds))) xs

  without-step :
      (d : Listener) (ds xs : List Listener)
      → without ds (keep (λ k. not (k.listener_id == d.listener_id)) xs) ≡ without (d ∷ ds) xs
  unfolding contains
  without-step d ds xs =
      keep-keep _ _ xs ∙ ap (λ (p : Listener → Bool). keep p xs) (fun_ext λ k. ground arith)

  without-nil : (xs : List Listener) → without [] xs ≡ xs
  unfolding contains
  without-nil xs = keep-All _ xs (All-pure _ xs (λ x. refl))

  deleted :
      (P Q : List Listener → Type 0) (ds : List Listener)
      → ((xs : List Listener) → P xs → Q (without ds xs))
      → Leads
          (Where P)
          (Where Q)
          (for_each (delete_listener E tx_config) (map (delete_listener_request lb) ds))
  unfolding for_each
  deleted P Q [] f =
      Leads-pure tt
        (Stands-mono E L.tasks lb.load_balancer_id P Q (λ xs p. subst Q (without-nil xs) (f xs p)))
  deleted P Q (d ∷ ds) f =
      let Left : List Listener → Type 0 = λ ys.
        (xs : List Listener) × P xs × (ys ≡ keep (λ k. not (k.listener_id == d.listener_id)) xs) in
      Leads-bind {J = Where Left} _ _ (Where-delete P Left d (λ xs p. (xs, p, refl))) (λ _.
        deleted Left Q ds
          (λ ys (xs, p, e). subst Q (sym (ap (without ds) e ∙ without-step d ds xs)) (f xs p)))

  -- What stands once the plans for the listeners are carried out.
  record Settled (ls : List Listener) (xs : List Listener) : Type 0 where
    made : List Listener
    left : xs ≡ keep (stays ls service.ports) ls ++ made
    matched : Made (ports_to_create ls service.ports) made

  Settled-without :
      (ls xs : List Listener)
      → GrownBy ls (ports_to_create ls service.ports) xs
      → Settled ls (without (listeners_to_delete ls service.ports) xs)
  unfolding listeners_to_delete
  Settled-without ls xs g = record {
    made = g.made;
    left =
        ap (without (listeners_to_delete ls service.ports)) g.grown
        ∙ keep-append _ ls g.made
        ∙ ap (λ ys. keep (stays ls service.ports) ls ++ ys)
            (keep-All _ g.made (
              All-mono _ _ g.made
                (λ m f. ground (arith, contains-deleted ls service.ports m.listener_id ls, f))
                g.free));
    matched = g.matched;
  }

  reconcile-Leads :
      (ls : List Listener)
      → Leads (Where (λ xs. xs ≡ ls)) (Where (Settled ls)) (reconcile E tx_config service lb ls)
  unfolding reconcile
  reconcile-Leads ls =
      let Grown = GrownBy ls (ports_to_create ls service.ports) in
      Leads-bind {J = Where Grown} _ _
        (record {
          at = λ w h. (created ls [] (ports_to_create ls service.ports)).at w (
              Stands-mono E L.tasks lb.load_balancer_id (λ xs. xs ≡ ls) (GrownBy ls [])
                (λ xs e. record {
                  made = [];
                  grown = e ∙ sym (append-nil ls);
                  matched = tt;
                  free = tt;
                })
                w h);
        })
        (λ _.
          deleted Grown (Settled ls) (listeners_to_delete ls service.ports) (Settled-without ls))

-- For a service of Tencent Cloud where accepted creations and deletions of listeners take effect
-- once their task succeeds, a service whose ports have distinct names, and a balancer whose
-- listeners are those that the method works with and have distinct ids: if the two loops of
-- ensureLoadBalancerListeners return with no error and no task answered that it failed, then every
-- port has a listener with its number and protocol, and every listener has the number and protocol
-- of a port.
pub reconcile-listeners_of :
    (E : Env) (tx_config : TxCloudConfig) (L : ListenerLaws E) (service : Service)
    (lb : LoadBalancer) (w : E.World)
    → DistinctNames service.ports
    → DistinctIds (listeners_of L w lb.load_balancer_id)
    → (reconcile E tx_config service lb (listeners_of L w lb.load_balancer_id) w).0 ≡ ok tt
    → NoneFailed L (reconcile E tx_config service lb (listeners_of L w lb.load_balancer_id) w).1
    → let ls =
        listeners_of L
          (reconcile E tx_config service lb (listeners_of L w lb.load_balancer_id) w).1
          lb.load_balancer_id in
      All (λ p. Any (Serves p) ls) service.ports × All (λ l. Any (λ p. Serves p l) service.ports) ls
reconcile-listeners_of E tx_config L service lb w names distinct e none_failed =
    let ls = listeners_of L w lb.load_balancer_id in
    let s =
      Stands-state_of E L.tasks lb.load_balancer_id (Settled E tx_config L service lb ls) _
        ((reconcile-Leads E tx_config L service lb ls).at w (record { at = inr refl }) tt e)
        none_failed in
    rw s.left (
      All-matching (listeners_of L w lb.load_balancer_id) service.ports s.made s.matched names
        distinct)
