-- ===== src/Tests/Rollouts.antt =====
-- The rollout controller's theorem on a whole campaign, over two devices.
use edge_fleet_operator_demo.Base.{◌≡◌, refl, inr, true, false, List, [], ◌∷◌, length, All, arith}
use edge_fleet_operator_demo.Base.Words.{i32}
use edge_fleet_operator_demo.Api.{EdgeDevice, complete}
use edge_fleet_operator_demo.Rollout.Fleet.{tally, new_status}
use edge_fleet_operator_demo.Rollout.{write_status, campaign}
use edge_fleet_operator_demo.Rollout.Counts.{is_upgraded}
use edge_fleet_operator_demo.Rollout.Liveness.{Accepts, IsOpen, finished, ran}
use edge_fleet_operator_demo.Rollout.Gives.{CanGo, campaign_gives}
use edge_fleet_operator_demo.Rollout.Completes.{Rounds, stop, pass, rollout_completes}
use edge_fleet_operator_demo.Tests.{old_device, sample, cluster, rollout}
use edge_fleet_operator_demo.Tests.Server.{machinery, server}

server-Accepts : Accepts server
server-Accepts d w = refl

abbrev fleet : List EdgeDevice
fleet = old_device ∷ []

-- The device after its upgrade.
abbrev renewed : List EdgeDevice
renewed = sample "c" "v2" "v2" [] ∷ []

rollout-CanGo : CanGo (rollout 50).spec
rollout-CanGo = record {
  low = omega arith;
  high = omega arith;
  batch = omega arith;
  small = omega arith;
}

fleet-IsOpen : All (IsOpen (rollout 50).spec) fleet
fleet-IsOpen = (inr (refl, refl), tt)

one_round : Rounds machinery server (rollout 50) 1 fleet renewed
one_round =
    pass cluster
      (ran
        (campaign_gives machinery server (rollout 50) server-Accepts fleet old_device [] cluster
          rollout-CanGo (omega arith) fleet-IsOpen refl refl)
        refl finished)
      stop

rollout_completes_example :
    All (λ d. is_upgraded "v2" d ≡ true) renewed
    × (let t = tally machinery "v2" renewed in
        campaign machinery server (rollout 50) renewed cluster
        ≡ write_status machinery server
            (rollout 50)
            (new_status machinery (rollout 50) complete (i32 (length renewed)) t.targeted t false)
            cluster)
rollout_completes_example =
    rollout_completes machinery server (rollout 50) 1 fleet renewed cluster server-Accepts
      rollout-CanGo (omega arith) (omega arith) fleet-IsOpen one_round (omega arith)
