-- ===== src/LoadBalancer/Listeners/Plan.antt =====
-- pkg/tencentcloud/tencentcloud_loadbalancer.go: the two plans of ensureLoadBalancerListeners, by the
-- names and ids that they compare.
use cloud_provider_tencent.Base.{
  ◌≡◌, ◌≢◌, refl, sym, ap, Bool, true, false, not, ◌&&◌, List, [], ◌∷◌, map, String, string_eq,
  int_eq, string_beq_iff, ◌==◌, contains, eq_refl, keep, arith, All, All-mono, All-both, Any-absurd,
  Any, All-Any, Bool-cases, ◌⊎◌, inl, inr,
}
use cloud_provider_tencent.Go.Sort.{sort_strings}
use cloud_provider_tencent.Common.{is_exist, is_exist-sort_strings}
use cloud_provider_tencent.Sdk.{Listener, ServicePort}
use cloud_provider_tencent.LoadBalancer.Listeners.{
  serves, find_one_listener_valid, is_served, created_service_port_names, used_listener_ids,
}

-- Names of ports and ids of listeners tell them apart.
abbrev pub DistinctNames : List ServicePort → Type 0
DistinctNames [] = Unit {0}
DistinctNames (p ∷ ps) = All (λ q. p.name ≢ q.name) ps × DistinctNames ps

abbrev pub DistinctIds : List Listener → Type 0
DistinctIds [] = Unit {0}
DistinctIds (l ∷ ls) = All (λ k. l.listener_id ≢ k.listener_id) ls × DistinctIds ls

-- The listener serves the port: same port number and protocol.
abbrev pub Serves : ServicePort → Listener → Type 0
Serves p l = serves p l.port l.protocol ≡ true

-- An id that was found is that of a listener which serves the port.
pub find-Any :
    (ls : List Listener) (p : ServicePort) (id : String)
    → find_one_listener_valid ls p ≡ id
    → id ≢ []
    → Any (λ l. (l.listener_id ≡ id) × Serves p l) ls
unfolding find_one_listener_valid
find-Any [] p id e h = absurd (h (sym e))
find-Any (l ∷ ls) p id e h = elim (Bool-cases (serves p l.port l.protocol)) [
  | inl s ↦ inl (ground (arith, e, s), s)
  | inr s ↦ inr (find-Any ls p id (ground (arith, e, s)) h)
]

pub is_served-ne :
    (ls : List Listener) (p : ServicePort)
    → is_served ls p ≡ true
    → find_one_listener_valid ls p ≢ []
unfolding is_served
is_served-ne ls p h e = ground (arith, h, (string_beq_iff (find_one_listener_valid ls p) []).1 e)

module _ (ls : List Listener) (ports : List ServicePort) where
  -- The ids that are deleted are those that no port uses.
  pub contains-deleted :
      (id : String) (ks : List Listener)
      → contains id (
          map
            (λ k. k.listener_id)
            (keep
              (λ l. not (is_exist l.listener_id (sort_strings (used_listener_ids ls ports))))
              ks))
        ≡ (contains id (map (λ k. k.listener_id) ks)
            && not (contains id (used_listener_ids ls ports)))
  unfolding contains keep
  contains-deleted id [] = refl
  contains-deleted id (k ∷ ks) =
      rw (is_exist-sort_strings k.listener_id (used_listener_ids ls ports))
        (elim (Bool-cases (id == k.listener_id)) [
          | inl same ↦ ground (
            arith,
            contains-deleted id ks,
            ap (λ (s : String). contains s (used_listener_ids ls ports))
                ((string_beq_iff id k.listener_id).0 same),
            same,
          )
          | inr differs ↦ ground (arith, contains-deleted id ks, differs)
        ])

-- A listener in the list has its id among the ids.
pub All-contains_id :
    (ls : List Listener) → All (λ l. contains l.listener_id (map (λ k. k.listener_id) ls) ≡ true) ls
unfolding contains
All-contains_id [] = tt
All-contains_id (l ∷ ls) =
    (rw (eq_refl l.listener_id), All-mono _ _ ls (λ k h. ground (arith, h)) (All-contains_id ls))

-- The id of each served port is in use.
pub All-used :
    (ls : List Listener) (ports : List ServicePort)
    → All
        (λ p.
          is_served ls p ≡ true
          → contains (find_one_listener_valid ls p) (used_listener_ids ls ports) ≡ true)
        ports
unfolding used_listener_ids contains keep
All-used ls [] = tt
All-used ls (p ∷ ps) = (
  (λ h. rw h (rw (eq_refl (find_one_listener_valid ls p)))),
  All-mono _ _ ps (λ q f h. ground (arith, f h)) (All-used ls ps),
)

-- An id in use is that of a served port.
pub used-Any :
    (ls : List Listener) (ports : List ServicePort) (id : String)
    → contains id (used_listener_ids ls ports) ≡ true
    → Any (λ p. (is_served ls p ≡ true) × (find_one_listener_valid ls p ≡ id)) ports
unfolding used_listener_ids contains keep
used-Any ls [] id h = absurd (cc)
used-Any ls (p ∷ ps) id h = elim (Bool-cases (is_served ls p)) [
  | inr s ↦ inr (used-Any ls ps id (ground (arith, h, s)))
  | inl s ↦ elim (Bool-cases (id == find_one_listener_valid ls p)) [
    | inl same ↦ inl (s, sym ((string_beq_iff id (find_one_listener_valid ls p)).0 same))
    | inr differs ↦ inr (used-Any ls ps id (ground (arith, h, s, differs)))
  ]
]

-- With distinct ids, what holds of a listener with an id holds of the listener with the id.
pub same_id :
    (Q : Listener → Type 0) (ls : List Listener)
    → DistinctIds ls
    → All (λ l. Any (λ k. (k.listener_id ≡ l.listener_id) × Q k) ls → Q l) ls
same_id Q [] d = tt
same_id Q (l ∷ ls) (a, d) =
    (first l a, All-mono _ _ ls (λ k (f, ne). later k f ne) (All-both _ _ ls (same_id Q ls d) a))
  where
    first :
        (k : Listener)
        → All (λ j. k.listener_id ≢ j.listener_id) ls
        → ((k.listener_id ≡ k.listener_id) × Q k)
          ⊎ Any (λ j. (j.listener_id ≡ k.listener_id) × Q j) ls
        → Q k
    first k b (inl (e, q)) = q
    first k b (inr c) = absurd (Any-absurd _ ls (λ j (ne, (e, q)). ne (sym e)) (All-Any _ _ ls b c))

    later :
        (k : Listener)
        → (Any (λ j. (j.listener_id ≡ k.listener_id) × Q j) ls → Q k)
        → l.listener_id ≢ k.listener_id
        → ((l.listener_id ≡ k.listener_id) × Q l)
          ⊎ Any (λ j. (j.listener_id ≡ k.listener_id) × Q j) ls
        → Q k
    later k f ne (inl (e, q)) = absurd (ne e)
    later k f ne (inr b) = f b

not-contains_name :
    (n : String) (p : ServicePort → Bool) (ps : List ServicePort)
    → All (λ q. n ≢ q.name) ps
    → contains n (map (λ q. q.name) (keep p ps)) ≡ false
unfolding contains keep
not-contains_name n p [] a = refl
not-contains_name n p (q ∷ ps) (ne, a) =
    ground (arith, not-contains_name n p ps a, string_beq_iff n q.name, ne)

-- With distinct names, a port that is not served has its name nowhere among those created.
pub All-not_created :
    (ls : List Listener) (ports : List ServicePort)
    → DistinctNames ports
    → All
        (λ p.
          is_served ls p ≡ false → contains p.name (created_service_port_names ls ports) ≡ false)
        ports
unfolding created_service_port_names contains keep
All-not_created ls [] d = tt
All-not_created ls (p ∷ ps) (a, d) = (
  (λ h. rw h (not-contains_name p.name (is_served ls) ps a)),
  All-mono _ _ ps
      (λ q (f, ne) h.
        ground (arith, f h, string_beq_iff q.name p.name, λ (e : q.name ≡ p.name). ne (sym e)))
      (All-both _ _ ps (All-not_created ls ps d) a),
)
