-- ===== src/Agent/Transaction/Tells.antt =====
-- What runUpgrade of internal/agent/agent.go reports to the API server, against how it ends.
use Prim.Native.String.{len, slice}
use edge_fleet_operator_demo.Base.{
  ◌≤◌, ◌≡◌, ◌≢◌, refl, ap, ◌∙◌, ◌⊎◌, inl, inr, String, true, none, some, leb, arith, sym,
}
use edge_fleet_operator_demo.Agent.Disk.{Disk, remove, next, spend, staging, current_link}
use edge_fleet_operator_demo.Agent.Download.{complete, gave_up, cancelled, panicked}
use edge_fleet_operator_demo.Agent.Download.Backoff.{unset_options}
use edge_fleet_operator_demo.Agent.Fsm.{State, idle, downloading, verifying, enter, to}
use edge_fleet_operator_demo.Agent.Fsm.Graph.{◌⟶◌, ⟶-to}
use edge_fleet_operator_demo.Agent.Kube.{DeviceSpec}
use edge_fleet_operator_demo.Agent.Slots.{active, verify_sha256}
use edge_fleet_operator_demo.Agent.Act.{Setting, Run, Went, went, powerless, report_status}
use edge_fleet_operator_demo.Agent.Transaction.{
  staging_of, started_status, failed_status, upgraded_status, fetch_image, give_up, report_started,
  verify_download, fetch_step, run_upgrade,
}
use edge_fleet_operator_demo.Agent.Transaction.Refines.{GaveUp, after_settled}
use edge_fleet_operator_demo.Agent.Transaction.Fetch.{
  fetching-Fetched, not_panicked, not_crashed, proceed_cases,
}
use edge_fleet_operator_demo.Agent.Slots.Effects.{Verified}
use edge_fleet_operator_demo.Agent.Slots.Rules.{Pair, Boots, active_cases}
use edge_fleet_operator_demo.Agent.Transaction.Safety.{run_upgrade-IsSafe}
use edge_fleet_operator_demo.Agent.Transaction.Told.{
  after_report, shown, Told, give_up-Told, flash-Told,
}

module _ (S : Setting) (spec : DeviceSpec) where
  module _ (world : S.transport.World) where
    verify_download-Told :
        (s : Run S)
        → s.fsm.state ≡ downloading
        → s.api ≡ world
        → Told S spec world (verify_download S spec s)
    unfolding verify_download
    verify_download-Told s e same =
        let r = verify_sha256 S.hash (staging_of spec) spec.checksum_sha256 s.disk in
        let s1 = record s { fsm = enter verifying s.fsm } in
        rw (⟶-to s.fsm e ◌⟶◌.downloaded) (
          after_settled S spec r _ s1 (Told S spec world)
            (elim [
              | none ↦
                  after_settled S spec (remove (staging_of spec) r.1) _ (record s1 { disk = r.1 })
                    (Told S spec world)
                    (λ o.
                      give_up-Told S spec world "ChecksumMismatch" _ refl refl ◌⟶◌.verify_fails
                        same)
                    (inr (inr (refl, same)))
              | some _ ↦ flash-Told S spec world _ refl same
            ])
            (inr (inr (refl, same))))

    fetch_step-Told :
        (s : Run S)
        → S.download ≡ unset_options
        → 12 ≤ len spec.checksum_sha256
        → s.fsm.state ≡ downloading
        → s.api ≡ world
        → Told S spec world (fetch_step S spec s)
    unfolding fetch_step fetch_image staging_of
    fetch_step-Told s unset long e same =
        let key = slice spec.checksum_sha256 0 12 in
        let long_enough : leb 12 (len spec.checksum_sha256) ≡ true = ground arith in
        let s1 = record s { disk = spend s.disk } in
        let o = fetch_image S (staging key) s in
        let f = fetching-Fetched unset (next s.disk.script) key s1 in
        let state : o.1.fsm.state ≡ downloading = ap (λ m. m.state) f.fsm ∙ e in
        let told : o.1.api ≡ world = f.api ∙ same in
        let late : Told S spec world (give_up S spec "DownloadFailed" o.1) =
          give_up-Told S spec world "DownloadFailed" o.1 refl state ◌⟶◌.download_fails told in
        rw (fetch_step, long_enough)
          (proceed_cases o _ (Told S spec world)
            (elim [
              | complete ↦ λ is. verify_download-Told o.1 state told
              | gave_up error ↦ λ is. late
              | cancelled ↦ λ is. late
              | panicked ↦ λ is. absurd (not_panicked s1 o f is)
            ])
            (λ lost. inr (inr (refl, told))) (λ bad. absurd (not_crashed s1 o f bad)))

  run_upgrade-Told :
      (s : Run S)
      → S.download ≡ unset_options
      → (s.fsm.state ≡ idle) ⊎ (s.fsm.state ≡ State.failed)
      → 12 ≤ len spec.checksum_sha256
      → Told S spec (after_report S (started_status spec) s.api) (run_upgrade S spec s)
  unfolding run_upgrade report_started report_status
  run_upgrade-Told s unset ready long =
      let moved : to downloading s.fsm ≡ (none, enter downloading s.fsm) = elim ready [
        | inl e ↦ ⟶-to s.fsm e ◌⟶◌.start
        | inr e ↦ ⟶-to s.fsm e ◌⟶◌.restart
      ] in
      rw moved (
        fetch_step-Told (after_report S (started_status spec) s.api)
          (record s { fsm = enter downloading s.fsm; api = _ }) unset long refl refl)

-- The link of a disk gives the slot that it boots, or could not be read.
shown_slot :
    {x y : String} (p : Pair x y) (d : Disk)
    → Boots y d
    → (shown (active d) ≡ y) ⊎ (shown (active d) ≡ "")
shown_slot {x} {y} p d boots = elim (active_cases d y boots p.named_y) [
  | inl e ↦ inl (rw e refl)
  | inr (inl e) ↦ inr (rw e refl)
  | inr (inr e) ↦ inr (rw e refl)
]

-- How a transaction that goes to slot y ends, and the API server with it, by the server after the
-- first report.
abbrev pub Tells :
    (S : Setting) → DeviceSpec → String → S.transport.World → Went (Unit {0}) × Run S → Type 0
Tells S spec y world o =
    ((reason : String) × (reason ≢ "UpgradeInProgress")
      × GaveUp S spec o
      × (o.1.api ≡ after_report S (failed_status reason (S.error_text reason)) world))
    ⊎ ((slot : String) × ((slot ≡ y) ⊎ (slot ≡ ""))
        × (o.0 ≡ went tt)
        × (o.1.fsm.state ≡ idle)
        × Boots y o.1.disk
        × Verified S.hash y o.1.disk
        × (o.1.api ≡ after_report S (upgraded_status spec slot) world))
    ⊎ ((o.0 ≡ powerless) × (o.1.api ≡ world))

-- A transaction from a machine that is idle or has failed, with the download options of the agent
-- and a checksum of twelve bytes or more, on a device that boots slot x, whatever fails in it: its
-- first report is that it has started, and it makes one more, unless the power is lost, which agrees
-- with its end. It reports a failure, with a reason other than UpgradeInProgress, exactly when it
-- gave up; otherwise the verified image boots from slot y, and it reports the version and y, or no
-- slot if the link could not be read.
pub run_upgrade-Tells :
    (S : Setting) (spec : DeviceSpec) {x y : String} (p : Pair x y) (s : Run S)
    → S.download ≡ unset_options
    → (s.fsm.state ≡ idle) ⊎ (s.fsm.state ≡ State.failed)
    → 12 ≤ len spec.checksum_sha256
    → Boots x s.disk
    → Tells S spec y (after_report S (started_status spec) s.api) (run_upgrade S spec s)
run_upgrade-Tells S spec {x} {y} p s unset ready long boots =
    elim (run_upgrade-Told S spec s unset ready long) [
      | inl gave ↦ inl gave
      | inr (inr lost) ↦ inr (inr lost)
      | inr (inl (d, node, is, at_rest, told)) ↦
          elim (run_upgrade-IsSafe S spec p s unset ready long boots).1 [
            | inl gave ↦ absurd (cc (gave.1, at_rest))
            | inr (inl (fin, there, good)) ↦
                let here : Boots y d = sym (ap (λ n. n current_link) node) ∙ there in
                inr (inl (shown (active d), shown_slot p d here, is, at_rest, there, good, told))
            | inr (inr lost) ↦ absurd (cc (is, lost))
          ]
    ]
