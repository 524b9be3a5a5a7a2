-- ===== src/LoadBalancer/Listeners/Growth.antt =====
-- The listeners of a balancer while ensureLoadBalancerListeners of
-- pkg/tencentcloud/tencentcloud_loadbalancer.go creates some.
use cloud_provider_tencent.Base.{
  ◌≡◌, ◌∙◌, ap, subst, false, ◌||◌, List, [], ◌∷◌, ◌++◌, map, String, string_eq, int_eq, contains,
  contains-append, arith, All, All-append, append_assoc,
}
use mathlib.Core.List.{map-append}
use cloud_provider_tencent.Sdk.{Listener, ServicePort}
use cloud_provider_tencent.LoadBalancer.Listeners.Plan.{Serves}
use cloud_provider_tencent.LoadBalancer.Listeners.Reconcile.{Made}

abbrev pub ids : List Listener → List String
ids = map (λ l. l.listener_id)

-- The list with listeners that were made for the ports, under ids that are not in the list.
pub record GrownBy (ls : List Listener) (ps : List ServicePort) (xs : List Listener) : Type 0 where
  pub made : List Listener
  pub grown : xs ≡ ls ++ made
  pub matched : Made ps made
  pub free : All (λ m. contains m.listener_id (ids ls) ≡ false) made

Made-append :
    (p : ServicePort) (m : Listener) (ps : List ServicePort) (made : List Listener)
    → Made ps made
    → Serves p m
    → Made (ps ++ (p ∷ [])) (made ++ (m ∷ []))
Made-append p m [] [] k s = (s, tt)
Made-append p m [] (l ∷ made) k s = elim k [ ]
Made-append p m (q ∷ ps) [] k s = elim k [ ]
Made-append p m (q ∷ ps) (l ∷ made) (t, k) s = (t, Made-append p m ps made k s)

contains-ids-append :
    (id : String) (xs ys : List Listener)
    → contains id (ids (xs ++ ys)) ≡ (contains id (ids xs) || contains id (ids ys))
contains-ids-append id xs ys = rw map-append (contains-append id (ids xs) (ids ys))

pub GrownBy-add :
    (ls : List Listener) (ps : List ServicePort) (xs : List Listener) (p : ServicePort)
    (m : Listener)
    → GrownBy ls ps xs
    → Serves p m
    → contains m.listener_id (ids xs) ≡ false
    → GrownBy ls (ps ++ (p ∷ [])) (xs ++ (m ∷ []))
GrownBy-add ls ps xs p m g s f = record {
  made = g.made ++ (m ∷ []);
  grown = ap (λ ys. ys ++ (m ∷ [])) g.grown ∙ append_assoc ls g.made (m ∷ []);
  matched = Made-append p m ps g.made g.matched s;
  free = All-append _ g.made (m ∷ []) g.free (not_before, tt);
}
  where
    not_before : contains m.listener_id (ids ls) ≡ false
    not_before = ground (
      arith,
      subst (λ ys. contains m.listener_id (ids ys) ≡ false) g.grown f,
      contains-ids-append m.listener_id ls g.made,
    )
