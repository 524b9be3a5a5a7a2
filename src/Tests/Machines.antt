-- ===== src/Tests/Machines.antt =====
-- The theorems on instances, on the helpers and on the settings, at the machines of `Data`.
use cloud_provider_tencent.Base.{
  ◌≡◌, ◌≢◌, ◌↔◌, false, none, some, List, [], ◌∷◌, ◌++◌, String, ℕ, ◌+◌, pos, contains, concat, All,
  arith, string_eq,
}
use cloud_provider_tencent.Go.Strings.{bytes}
use cloud_provider_tencent.Go.Sort.{sort_strings}
use cloud_provider_tencent.Go.Exec.{ok, value, Exec}
use cloud_provider_tencent.Batch.{in_batches}
use cloud_provider_tencent.Batch.Laws.{Fits, batches, run_batches, in_batches_lem}
use cloud_provider_tencent.Cloud.{provider_name, fill_from_env, new_cloud}
use cloud_provider_tencent.Cloud.Settings.{IsComplete, new_cloud_iff}
use cloud_provider_tencent.Common.{is_exist, is_exist-sort_strings}
use cloud_provider_tencent.Coherence.{HasIp, HasId, IsCoherent}
use cloud_provider_tencent.Coherence.Instances.{Serves}
use cloud_provider_tencent.Coherence.Results.{
  Sound, Safe, get_instance_by_instance_private_ips-Sound,
  get_instance_by_instance_private_ip-Sound, get_instance_by_instance_id-Sound,
  instances_methods-Safe,
}
use cloud_provider_tencent.Instances.Lookup.{
  get_instance_by_instance_private_ips, get_instance_by_instance_private_ip,
  get_instance_by_instance_id, get_instance_by_provider_id,
}
use cloud_provider_tencent.Instances.Api.{
  instance_id_of, node_addresses, node_addresses_by_provider_id, external_id, instance_id,
  instance_type, instance_type_by_provider_id, instance_exists_by_provider_id,
  instance_shutdown_by_provider_id,
}
use cloud_provider_tencent.Instances.ProviderId.{Lacks, get_instance_by_provider_id-instance_id_of}
use cloud_provider_tencent.Instances.Answers.{instance_exists_by_provider_id-ne}
use cloud_provider_tencent.Tests.Fake.{Fake, fake, fake-StoreLaws}
use cloud_provider_tencent.Tests.Data.{settings, one, world, world-IsCoherent}

abbrev numbers : List ℕ
numbers = 7 ∷ 8 ∷ 9 ∷ []

abbrev ips : List String
ips = bytes "ip1" ∷ bytes "ip2" ∷ []

get_instance_by_instance_private_ips-Sound_example :
    Sound fake fake-StoreLaws settings
      (All (Serves settings ips))
      (get_instance_by_instance_private_ips fake settings ips (world (pos 0)))
get_instance_by_instance_private_ips-Sound_example =
    get_instance_by_instance_private_ips-Sound fake fake-StoreLaws settings ips (world (pos 0))
      (world-IsCoherent (pos 0))

-- The world that the lookup leaves, its two instances in the cache.
abbrev warm : Fake
warm = (get_instance_by_instance_private_ips fake settings ips (world (pos 0))).1

warm-IsCoherent : IsCoherent fake fake-StoreLaws settings warm
warm-IsCoherent =
    (get_instance_by_instance_private_ips-Sound fake fake-StoreLaws settings ips (world (pos 0))
      (world-IsCoherent (pos 0))).0

get_instance_by_instance_private_ip-Sound_example :
    Sound fake fake-StoreLaws settings
      (HasIp settings (bytes "ip1"))
      (get_instance_by_instance_private_ip fake settings (bytes "ip1") warm)
get_instance_by_instance_private_ip-Sound_example =
    get_instance_by_instance_private_ip-Sound fake fake-StoreLaws settings (bytes "ip1") warm
      warm-IsCoherent

get_instance_by_instance_id-Sound_example :
    Sound fake fake-StoreLaws settings
      (HasId settings (bytes "i1"))
      (get_instance_by_instance_id fake settings (bytes "i1") (world (pos 0)))
get_instance_by_instance_id-Sound_example =
    get_instance_by_instance_id-Sound fake fake-StoreLaws settings (bytes "i1") (world (pos 0))
      (world-IsCoherent (pos 0))

abbrev provider_id : String
provider_id = (provider_name ++ bytes "://") ++ instance_id_of one

instances_methods-Safe_example :
    Safe fake fake-StoreLaws settings (node_addresses fake settings (bytes "ip1") (world (pos 0)))
    × Safe fake fake-StoreLaws settings (external_id fake settings (bytes "ip1") (world (pos 0)))
    × Safe fake fake-StoreLaws settings (instance_id fake settings (bytes "ip1") (world (pos 0)))
    × Safe fake fake-StoreLaws settings (instance_type fake settings (bytes "ip1") (world (pos 0)))
    × Safe fake fake-StoreLaws settings
        (node_addresses_by_provider_id fake settings provider_id (world (pos 0)))
    × Safe fake fake-StoreLaws settings
        (instance_type_by_provider_id fake settings provider_id (world (pos 0)))
    × Safe fake fake-StoreLaws settings
        (instance_exists_by_provider_id fake settings provider_id (world (pos 0)))
    × Safe fake fake-StoreLaws settings
        (instance_shutdown_by_provider_id fake settings provider_id (world (pos 0)))
instances_methods-Safe_example =
    instances_methods-Safe fake fake-StoreLaws settings (bytes "ip1") provider_id (world (pos 0))
      (world-IsCoherent (pos 0))

-- A body that counts its rounds.
abbrev count_batches : List ℕ → ℕ → Exec Fake ℕ
count_batches batch n w = (ok (n + 1), w)

in_batches_lem_example :
    (in_batches 2 count_batches numbers 0 ≡ run_batches count_batches (batches 2 [] numbers) 0)
    × (concat (batches 2 [] numbers) ≡ numbers)
    × All (Fits 2) (batches 2 [] numbers)
in_batches_lem_example = in_batches_lem 2 count_batches numbers 0 (omega arith)

is_exist-sort_strings_example :
    is_exist (bytes "b") (sort_strings (bytes "c" ∷ bytes "b" ∷ bytes "a" ∷ []))
    ≡ contains (bytes "b") (bytes "c" ∷ bytes "b" ∷ bytes "a" ∷ [])
is_exist-sort_strings_example =
    is_exist-sort_strings (bytes "b") (bytes "c" ∷ bytes "b" ∷ bytes "a" ∷ [])

no_slash_in_zone : Lacks b'/' one.zone
unfolding bytes
no_slash_in_zone = (omega arith, (omega arith, tt))

no_slash_in_id : Lacks b'/' one.instance_id
unfolding bytes
no_slash_in_id = (omega arith, (omega arith, tt))

get_instance_by_provider_id-instance_id_of_example :
    get_instance_by_provider_id fake settings provider_id
    ≡ get_instance_by_instance_id fake settings one.instance_id
get_instance_by_provider_id-instance_id_of_example =
    get_instance_by_provider_id-instance_id_of fake settings one no_slash_in_zone no_slash_in_id

instance_exists_by_provider_id-ne_example :
    (instance_exists_by_provider_id fake settings provider_id (world (pos 0))).0 ≢ ok (false, none)
instance_exists_by_provider_id-ne_example =
    instance_exists_by_provider_id-ne fake settings provider_id (world (pos 0))

new_cloud_iff_example : (new_cloud (λ name. []) (some (value settings)) ≡ value settings) ↔ (
    (settings ≡ fill_from_env (λ name. []) settings)
    × IsComplete (fill_from_env (λ name. []) settings))
new_cloud_iff_example = new_cloud_iff (λ name. []) settings settings
