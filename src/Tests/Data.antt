-- ===== src/Tests/Data.antt =====
-- A cluster: its configuration, two machines, a service with two ports, and the worlds of the runs.
use cloud_provider_tencent.Base.{
  refl, Bool-cases, inl, inr, string_eq, ◌==◌, string_beq_iff, if◌then◌else◌, ◌++◌, subst, ◌≡◌,
  none, some, List, [], ◌∷◌, String, ℤ, pos,
}
use cloud_provider_tencent.Go.Strings.{bytes}
use cloud_provider_tencent.Sdk.{
  Instance, LoadBalancer, Listener, ListenerBackend, Target, Service, ServicePort, Node, CacheValue,
  load_balancer_value,
}
use cloud_provider_tencent.Cloud.{TxCloudConfig}
use cloud_provider_tencent.LoadBalancer.Annotations.{
  service_annotation_load_balancer_type, load_balancer_type_public,
  node_label_key_of_load_balancer_default, node_label_value_of_load_balancer_default,
}
use cloud_provider_tencent.LoadBalancer.Lookup.{cache_name_pre_clb}
use cloud_provider_tencent.LoadBalancer.Instance.Matching.{name_of}
use cloud_provider_tencent.Coherence.{Coherent, IsCoherent}
use cloud_provider_tencent.Tests.Fake.{Fake, fake, fake-StoreLaws, peek-fake}

abbrev pub settings : TxCloudConfig
settings = record {
  region = bytes "ap";
  vpc_id = bytes "vpc";
  clb_name_prefix = bytes "c";
  tag_key = bytes "t";
  secret_id = bytes "i";
  secret_key = bytes "k";
  cluster_route_table = bytes "rt";
}

abbrev pub machine : String → String → Instance
machine id ip = record {
  instance_id = id;
  instance_type = bytes "S2";
  instance_state = bytes "RUNNING";
  zone = bytes "z1";
  vpc_id = bytes "vpc";
  private_ip_addresses = ip ∷ [];
  public_ip_addresses = [];
}

abbrev pub one : Instance
one = machine (bytes "i1") (bytes "ip1")

abbrev pub two : Instance
two = machine (bytes "i2") (bytes "ip2")

abbrev pub http : ServicePort
http = record { name = bytes "http"; protocol = bytes "TCP"; port = pos 80; node_port = pos 3080 }

abbrev pub dns : ServicePort
dns = record { name = bytes "dns"; protocol = bytes "UDP"; port = pos 53; node_port = pos 3053 }

abbrev pub web : Service
web = record {
  namespace = bytes "d";
  name = bytes "web";
  uid = bytes "01234567-89";
  annotations = (service_annotation_load_balancer_type, load_balancer_type_public) ∷ [];
  session_affinity = bytes "None";
  ports = http ∷ dns ∷ [];
}

abbrev pub node : String → Node
node ip = record {
  name = ip;
  labels =
      (node_label_key_of_load_balancer_default, node_label_value_of_load_balancer_default) ∷ [];
}

abbrev pub nodes : List Node
nodes = node (bytes "ip1") ∷ node (bytes "ip2") ∷ []

abbrev pub balancer : LoadBalancer
balancer = record {
  load_balancer_id = bytes "lb1";
  load_balancer_name = bytes "c_d_web";
  load_balancer_type = bytes "OPEN";
  vpc_id = bytes "vpc";
  subnet_id = [];
  load_balancer_vips = bytes "10.0.0.1" ∷ [];
}

abbrev pub listener : String → ℤ → String → Listener
listener id port protocol = record { listener_id = id; port = port; protocol = protocol }

abbrev pub target : String → ℤ → Target
target id port = record { instance_id = id; port = port }

-- The balancer listens on port 80, which the service wants, and on 81, which it does not.
abbrev pub listeners : List Listener
listeners =
    listener (bytes "l1") (pos 80) (bytes "TCP") ∷ listener (bytes "l2") (pos 81) (bytes "TCP") ∷ []

-- A world with the two machines, an empty cache and no balancer, where a task answers `status`.
abbrev pub world : ℤ → Fake
world status = record {
  cached = λ key. none;
  instances = one ∷ two ∷ [];
  balancers = [];
  listeners = listeners;
  backends = [];
  registered = λ id. target (bytes "i3") (pos 3080) ∷ [];
  routes = [];
  status = status;
}

pub world-IsCoherent : (status : ℤ) → IsCoherent fake fake-StoreLaws settings (world status)
world-IsCoherent status = record {
  at_key = λ key v e. absurd (nothing key v (rw (← peek-fake (world status) key) e));
}
  where
    nothing : (key : String) (v : CacheValue) → (world status).cached key ≡ some v → ⊥
    nothing key v e = cc

-- What DescribeTargets says of the listeners of the two ports of the service.
abbrev pub backends : List ListenerBackend
backends =
    record {
      listener_id = some (bytes "l1");
      port = pos 80;
      protocol = bytes "TCP";
      targets = target (bytes "i3") (pos 3080) ∷ [];
    }
    ∷ record {
      listener_id = some (bytes "l3");
      port = pos 53;
      protocol = bytes "UDP";
      targets = [];
    }
    ∷ []

-- The same world with the balancer in the cache.
abbrev pub cached_world : Fake
cached_world = record (world (pos 0)) { cached = λ key. some (load_balancer_value balancer) }

-- The balancer is cached under its name, and nothing else is.
abbrev pub name_key : String
name_key = cache_name_pre_clb ++ name_of fake settings web

abbrev pub start : Fake
start = record (world (pos 0)) {
  cached = λ key. if key == name_key then some (load_balancer_value balancer) else none;
  backends = backends;
}

some_inj : (u v : CacheValue) → some u ≡ some v → u ≡ v
some_inj u v e = cc

only_name_key :
    (key : String) (v : CacheValue) → start.cached key ≡ some v → Coherent settings key v
only_name_key key v e = elim (Bool-cases (key == name_key)) [
  | inl same ↦
      subst (Coherent settings key)
        (some_inj (load_balancer_value balancer) v (rw (← e, same) refl))
        (name_of fake settings web, (string_beq_iff key name_key).0 same)
  | inr differs ↦ absurd (none-ne v (rw (← e, differs) refl))
]
  where
    none-ne : (v : CacheValue) → none ≡ some v → ⊥
    none-ne v e = cc

pub start-IsCoherent : IsCoherent fake fake-StoreLaws settings start
start-IsCoherent = record { at_key = λ key v e. only_name_key key v (rw (← peek-fake start key) e) }
