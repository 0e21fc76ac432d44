-- ===== src/Agent/Transaction/Told.antt =====
-- What the steps of runUpgrade in internal/agent/agent.go report to the API server, up to the end.
use edge_fleet_operator_demo.Base.{
  ◌≡◌, ◌≢◌, refl, ap, ◌⊎◌, inl, inr, String, false, none, some, str_eq, eq_iff, ℕ,
}
use edge_fleet_operator_demo.Agent.Disk.{Disk, Ended, done, failed, died, remove}
use edge_fleet_operator_demo.Agent.Fsm.{State, idle, verifying, flashing, confirming, enter}
use edge_fleet_operator_demo.Agent.Fsm.Graph.{◌⟶◌, ⟶-to}
use edge_fleet_operator_demo.Agent.Kube.{DeviceSpec, DeviceStatus, stamped, update_status}
use edge_fleet_operator_demo.Agent.Slots.{
  normal, trial, rolled_back, active, verify_staged, stage, promote_staged, boot_check, self_check,
  rollback, confirm,
}
use edge_fleet_operator_demo.Agent.Act.{
  Setting, Run, Went, went, powerless, proceed, settled, report_status,
}
use edge_fleet_operator_demo.Agent.Transaction.{
  staging_of, failed_status, upgraded_status, give_up, report_upgraded, finish, seal, check, reboot,
  promote, verify, flash,
}
use edge_fleet_operator_demo.Agent.Transaction.Refines.{GaveUp, after_settled, active-node}

-- The world of the API server after a report.
abbrev pub after_report :
    (S : Setting)
    → (String → DeviceStatus → ℕ → DeviceStatus)
    → S.transport.World
    → S.transport.World
after_report S mutate world =
    (update_status S.transport (λ w dev. stamped (mutate (S.now w)) (S.seen_gen w) dev) world).1

-- The slot that is reported, by how the link was read.
abbrev pub shown : Ended String × Disk → String
shown (done slot, d) = slot
shown (failed e, d) = ""
shown (died, d) = ""

module _ (S : Setting) (spec : DeviceSpec) where
  -- A transaction gave up and reported a failure last; or it was not interrupted and reported the
  -- slot that the link of its disk gave; or the power was lost before a report.
  abbrev pub Told : S.transport.World → Went (Unit {0}) × Run S → Type 0
  Told world o =
      ((reason : String) × (reason ≢ "UpgradeInProgress")
        × GaveUp S spec o
        × (o.1.api ≡ after_report S (failed_status reason (S.error_text reason)) world))
      ⊎ ((d : Disk) × (o.1.disk.node ≡ d.node)
          × (o.0 ≡ went tt)
          × (o.1.fsm.state ≡ idle)
          × (o.1.api ≡ after_report S (upgraded_status spec (shown (active d))) world))
      ⊎ ((o.0 ≡ powerless) × (o.1.api ≡ world))

  pub give_up-Told :
      {a : State} (world : S.transport.World) (reason : String) (s : Run S)
      → str_eq reason "UpgradeInProgress" ≡ false
      → s.fsm.state ≡ a
      → a ⟶ State.failed
      → s.api ≡ world
      → Told world (give_up S spec reason s)
  unfolding give_up report_status
  give_up-Told world reason s proper e edge same =
      let differs : reason ≢ "UpgradeInProgress" =
        λ x. absurd (cc (proper, (eq_iff reason "UpgradeInProgress").1 x)) in
      let tell = after_report S (failed_status reason (S.error_text reason)) in
      rw (⟶-to s.fsm e edge) (inl (reason, differs, (refl, refl, refl), ap tell same))

  module _ (world : S.transport.World) where
    upgraded-Told :
        (d : Disk) (r : Ended String × Disk) (s : Run S)
        → active d ≡ r
        → r.1.node ≡ d.node
        → s.fsm.state ≡ idle
        → s.api ≡ world
        → Told world (
            proceed (settled r s) λ slot.
              report_upgraded S spec (elim slot as (λ _. String) [ none ↦ "" | some x ↦ x ]))
    unfolding report_upgraded report_status
    upgraded-Told d (done slot, d') s e node at_rest same =
        inr (inl (d, node, refl, at_rest, rw (e, same) refl))
    upgraded-Told d (failed x, d') s e node at_rest same =
        inr (inl (d, node, refl, at_rest, rw (e, same) refl))
    upgraded-Told d (died, d') s e node at_rest same = inr (inr (refl, same))

    finish-Told :
        (s : Run S) → s.fsm.state ≡ confirming → s.api ≡ world → Told world (finish S spec s)
    unfolding finish
    finish-Told s e same = rw (⟶-to s.fsm e ◌⟶◌.confirmed) (
        upgraded-Told s.disk (active s.disk) (record s { fsm = enter idle s.fsm }) refl
          (active-node S spec s.disk) refl same)

    seal-Told : (s : Run S) → s.fsm.state ≡ confirming → s.api ≡ world → Told world (seal S spec s)
    unfolding seal
    seal-Told s e same =
        after_settled S spec (confirm s.disk) _ s (Told world)
          (elim [
            | none ↦ give_up-Told world "ConfirmFailed" _ refl e ◌⟶◌.confirm_fails same
            | some _ ↦
                let d = (confirm s.disk).1 in
                after_settled S spec (remove (staging_of spec) d) _ (record s { disk = d })
                  (Told world) (λ o. finish-Told _ e same) (inr (inr (refl, same)))
          ])
          (inr (inr (refl, same)))

    check-Told :
        (s : Run S) → s.fsm.state ≡ confirming → s.api ≡ world → Told world (check S spec s)
    unfolding check
    check-Told s e same =
        let d = (self_check S.hash s.disk).1 in
        after_settled S spec (self_check S.hash s.disk) _ s (Told world)
          (elim [
            | none ↦
                after_settled S spec (rollback d) _ (record s { disk = d }) (Told world)
                  (λ o. give_up-Told world "SelfCheckFailed" _ refl e ◌⟶◌.confirm_fails same)
                  (inr (inr (refl, same)))
            | some _ ↦ seal-Told (record s { disk = d }) e same
          ])
          (inr (inr (refl, same)))

    reboot-Told :
        (s : Run S) → s.fsm.state ≡ flashing → s.api ≡ world → Told world (reboot S spec s)
    unfolding reboot
    reboot-Told s e same =
        let s1 = record s { fsm = enter confirming s.fsm } in
        let late : (s2 : Run S)
            → s2.fsm.state ≡ confirming
            → s2.api ≡ world
            → Told world (give_up S spec "BootFailed" s2) =
          λ s2 at. give_up-Told world "BootFailed" s2 refl at ◌⟶◌.confirm_fails in
        rw (⟶-to s.fsm e ◌⟶◌.flashed) (
          after_settled S spec (boot_check s.disk) _ s1 (Told world)
            (elim [
              | none ↦ late _ refl same
              | some normal ↦ late _ refl same
              | some trial ↦ check-Told _ refl same
              | some rolled_back ↦ late _ refl same
            ])
            (inr (inr (refl, same))))

    promote-Told :
        (s : Run S) → s.fsm.state ≡ flashing → s.api ≡ world → Told world (promote S spec s)
    unfolding promote
    promote-Told s e same =
        after_settled S spec (promote_staged s.disk) _ s (Told world)
          (elim [
            | none ↦ give_up-Told world "PromoteFailed" _ refl e ◌⟶◌.flash_fails same
            | some _ ↦ reboot-Told _ e same
          ])
          (inr (inr (refl, same)))

    verify-Told :
        (s : Run S) → s.fsm.state ≡ flashing → s.api ≡ world → Told world (verify S spec s)
    unfolding verify
    verify-Told s e same =
        after_settled S spec (verify_staged S.hash s.disk) _ s (Told world)
          (elim [
            | none ↦ give_up-Told world "FlashVerifyFailed" _ refl e ◌⟶◌.flash_fails same
            | some _ ↦ promote-Told _ e same
          ])
          (inr (inr (refl, same)))

    pub flash-Told :
        (s : Run S) → s.fsm.state ≡ verifying → s.api ≡ world → Told world (flash S spec s)
    unfolding flash
    flash-Told s e same =
        let put_in = stage (staging_of spec) spec.desired_firmware_version spec.checksum_sha256 in
        rw (⟶-to s.fsm e ◌⟶◌.verified) (
          after_settled S spec (put_in s.disk) _ (record s { fsm = enter flashing s.fsm })
            (Told world)
            (elim [
              | none ↦ give_up-Told world "FlashFailed" _ refl refl ◌⟶◌.flash_fails same
              | some _ ↦ verify-Told _ refl same
            ])
            (inr (inr (refl, same))))
