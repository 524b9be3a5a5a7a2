-- ===== src/Tests/Histories.antt =====
-- The theorems on histories, at the cluster of `Data`.
use cloud_provider_tencent.Base.{◌≤◌, pos, length, arith}
use cloud_provider_tencent.Go.Strings.{bytes}
use cloud_provider_tencent.Coherence.{IsCoherent}
use cloud_provider_tencent.Coherence.Results.{Safe, load_balancer_methods-Safe}
use cloud_provider_tencent.Coherence.History.{
  addresses, ensure, get_load_balancer, serve, Reach, here, next, serves, IsFresh,
  history-IsCoherent,
}
use cloud_provider_tencent.Tests.Fake.{Fake, peek-fake}
use cloud_provider_tencent.Tests.Data.{settings, web, nodes, world, start}
use cloud_provider_tencent.Tests.Listeners.{prompt}
use cloud_provider_tencent.Tests.Updated.{
  prompt-StoreLaws, prompt-IsCoherent, prompt-DeletionsSettle,
}
use cloud_provider_tencent.LoadBalancer.Service.{
  get_load_balancer_status, ensure_load_balancer, update_load_balancer,
  ensure_load_balancer_deleted,
}

uid_suffices : 8 ≤ length web.uid
unfolding bytes
uid_suffices = omega arith

world-IsFresh : IsFresh prompt prompt-StoreLaws settings (world (pos 0))
world-IsFresh key = peek-fake (world (pos 0)) key

-- A node is looked up, and then its service gets a balancer.
abbrev first : Fake
first = (serve prompt settings (addresses (bytes "ip1")) (world (pos 0))).1

abbrev second : Fake
second = (serve prompt settings (ensure web nodes) first).1

two_calls : Reach prompt prompt-StoreLaws settings (world (pos 0)) second
two_calls =
    next (next here (serves (addresses (bytes "ip1")) tt)) (serves (ensure web nodes) uid_suffices)

history-IsCoherent_example :
    IsCoherent prompt prompt-StoreLaws settings second
    × Safe prompt prompt-StoreLaws settings (serve prompt settings (get_load_balancer web) second)
history-IsCoherent_example =
    history-IsCoherent prompt prompt-StoreLaws settings (world (pos 0)) second
      (get_load_balancer web) prompt-DeletionsSettle world-IsFresh two_calls uid_suffices

load_balancer_methods-Safe_example :
    Safe prompt prompt-StoreLaws settings (get_load_balancer_status prompt settings web start)
    × Safe prompt prompt-StoreLaws settings (ensure_load_balancer prompt settings web nodes start)
    × Safe prompt prompt-StoreLaws settings (update_load_balancer prompt settings web nodes start)
    × Safe prompt prompt-StoreLaws settings (ensure_load_balancer_deleted prompt settings web start)
load_balancer_methods-Safe_example =
    load_balancer_methods-Safe prompt prompt-StoreLaws settings web nodes start
      prompt-DeletionsSettle uid_suffices prompt-IsCoherent
