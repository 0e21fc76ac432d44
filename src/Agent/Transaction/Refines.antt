-- ===== src/Agent/Transaction/Refines.antt =====
-- runUpgrade of internal/agent/agent.go against the installation alone: what it does to the disk,
-- and where it leaves the state machine.
use edge_fleet_operator_demo.Base.{
  if◌then◌else◌, ◌≡◌, refl, ◌⊎◌, inl, inr, String, Bool, true, false, Option, none, some, arith,
}
use edge_fleet_operator_demo.Agent.Disk.{
  Disk, Ended, done, failed, died, Exec, attempt, remove, read_link, recovered, continue, pure,
}
use edge_fleet_operator_demo.Agent.Fsm.{State, idle, verifying, flashing, confirming, enter}
use edge_fleet_operator_demo.Agent.Fsm.Graph.{◌⟶◌, ⟶-to}
use edge_fleet_operator_demo.Agent.Kube.{DeviceSpec}
use edge_fleet_operator_demo.Agent.Slots.{
  normal, trial, rolled_back, active, verify_staged, stage, promote_staged, boot_check, self_check,
  rollback, confirm,
}
use edge_fleet_operator_demo.Agent.Upgrade.{
  Installed, installed, self_check_failed, seal_step, check_step, reboot_step, promote_step,
  verify_step, install,
}
use edge_fleet_operator_demo.Agent.Act.{
  Setting, Run, Went, went, powerless, Act, proceed, settled, on_disk, report_status,
}
use edge_fleet_operator_demo.Agent.Transaction.{
  target_key, staging_of, give_up, finish, seal, check, reboot, promote, verify, flash,
  report_upgraded,
}

-- The failure of an installation: every result but `installed`.
abbrev pub is_failure : Installed → Bool
is_failure installed = false
is_failure _ = true

module _ (S : Setting) (spec : DeviceSpec) where
  -- A transaction that has failed in an orderly way: the machine is in `failed`, and the target is
  -- remembered.
  abbrev pub GaveUp : Went (Unit {0}) × Run S → Type 0
  GaveUp o =
      (o.0 ≡ went tt) × (o.1.fsm.state ≡ State.failed) × (o.1.last_failed_key ≡ target_key spec)

  -- A transaction that went through, or lost the power while it read the slot to report.
  abbrev pub Finished : Went (Unit {0}) × Run S → Type 0
  Finished o = (o.1.fsm.state ≡ idle) × ((o.0 ≡ went tt) ⊎ (o.0 ≡ powerless))

  -- How a transaction ends that does on the disk what an installation does.
  abbrev pub Agrees : Ended Installed × Disk → Went (Unit {0}) × Run S → Type 0
  Agrees (done r, d) o = (o.1.disk.node ≡ d.node) × (if is_failure r then GaveUp o else Finished o)
  Agrees (failed e, d) o = ⊥
  Agrees (died, d) o = (o.1.disk.node ≡ d.node) × (o.0 ≡ powerless)

  pub give_up-GaveUp :
      {a : State} (reason : String) (s : Run S)
      → s.fsm.state ≡ a
      → a ⟶ State.failed
      → let o = give_up S spec reason s in (o.1.disk.node ≡ s.disk.node) × GaveUp o
  unfolding give_up report_status
  give_up-GaveUp reason s e edge = rw (⟶-to s.fsm e edge) (refl, (refl, refl, refl))

  -- One sequence of file calls on both sides.
  same_settled :
      {A : Type 0} (r : Ended A × Disk) (k : Option A → Exec Installed)
      (K : Option A → Act S (Unit {0})) (s : Run S)
      → ((o : Option A) → Agrees (k o r.1) (K o (record s { disk = r.1 })))
      → Agrees (continue (recovered r) k) (proceed (settled r s) K)
  same_settled (done a, d) k K s h = h (some a)
  same_settled (failed e, d) k K s h = h none
  same_settled (died, d) k K s h = (refl, refl)

  same_step :
      {A : Type 0} (m : Exec A) (k : Option A → Exec Installed) (K : Option A → Act S (Unit {0}))
      (s : Run S)
      → ((o : Option A) → Agrees (k o (m s.disk).1) (K o (record s { disk = (m s.disk).1 })))
      → Agrees (continue (attempt m s.disk) k) (proceed (on_disk m s) K)
  same_step m k K s h = same_settled (m s.disk) k K s h

  -- One sequence of file calls that the installation does not have.
  pub after_settled :
      {A : Type 0} (r : Ended A × Disk) (K : Option A → Act S (Unit {0})) (s : Run S)
      (Q : Went (Unit {0}) × Run S → Type 0)
      → ((o : Option A) → Q (K o (record s { disk = r.1 })))
      → Q (powerless, record s { disk = r.1 })
      → Q (proceed (settled r s) K)
  after_settled (done a, d) K s Q h p = h (some a)
  after_settled (failed e, d) K s Q h p = h none
  after_settled (died, d) K s Q h p = p

  pub active-node : (d : Disk) → (active d).1.node ≡ d.node
  unfolding active read_link
  active-node d = ground arith

  finish-Finished :
      (s : Run S)
      → s.fsm.state ≡ confirming
      → let o = finish S spec s in Finished o × (o.1.disk.node ≡ s.disk.node)
  unfolding finish report_upgraded report_status
  finish-Finished s e =
      let moved = ⟶-to s.fsm e ◌⟶◌.confirmed in
      let s2 = record s { fsm = enter idle s.fsm } in
      rw moved (
        after_settled (active s.disk) _ s2 (λ o. Finished o × (o.1.disk.node ≡ s.disk.node))
          (λ o. ((refl, inl refl), active-node s.disk)) ((refl, inr refl), active-node s.disk))

  -- Calls whose error is dropped, at the end of an installation.
  ignored_settled :
      (r : Ended (Unit {0}) × Disk) (i : Installed) (K : Option (Unit {0}) → Act S (Unit {0}))
      (s : Run S)
      → ((o : Option (Unit {0})) → Agrees (done i, r.1) (K o (record s { disk = r.1 })))
      → Agrees
          (continue (continue (recovered r) (λ _. pure tt)) (λ _. pure i))
          (proceed (settled r s) K)
  ignored_settled (done a, d) i K s h = h (some a)
  ignored_settled (failed e, d) i K s h = h none
  ignored_settled (died, d) i K s h = (refl, refl)

  seal-Agrees :
      (s : Run S)
      → s.fsm.state ≡ confirming
      → Agrees (seal_step (staging_of spec) s.disk) (seal S spec s)
  unfolding seal seal_step
  seal-Agrees s e = same_step confirm _ _ s (elim [
    | none ↦ give_up-GaveUp "ConfirmFailed" _ e ◌⟶◌.confirm_fails
    | some _ ↦
        let s1 = record s { disk = (confirm s.disk).1 } in
        let clean = remove (staging_of spec) in
        ignored_settled (clean s1.disk) installed _ s1
          (λ o. let f = finish-Finished (record s1 { disk = (clean s1.disk).1 }) e in (f.1, f.0))
  ])

  check-Agrees :
      (s : Run S)
      → s.fsm.state ≡ confirming
      → Agrees (check_step S.hash (staging_of spec) s.disk) (check S spec s)
  unfolding check check_step
  check-Agrees s e = same_step (self_check S.hash) _ _ s (elim [
    | none ↦
        let s1 = record s { disk = (self_check S.hash s.disk).1 } in
        ignored_settled (rollback s1.disk) self_check_failed _ s1
          (λ o. give_up-GaveUp "SelfCheckFailed" _ e ◌⟶◌.confirm_fails)
    | some _ ↦ seal-Agrees _ e
  ])

  reboot-Agrees :
      (s : Run S)
      → s.fsm.state ≡ flashing
      → Agrees (reboot_step S.hash (staging_of spec) s.disk) (reboot S spec s)
  unfolding reboot reboot_step
  reboot-Agrees s e = rw (⟶-to s.fsm e ◌⟶◌.flashed) (
      same_step boot_check _ _ (record s { fsm = enter confirming s.fsm })
        (elim [
          | none ↦ give_up-GaveUp "BootFailed" _ refl ◌⟶◌.confirm_fails
          | some normal ↦ give_up-GaveUp "BootFailed" _ refl ◌⟶◌.confirm_fails
          | some trial ↦ check-Agrees _ refl
          | some rolled_back ↦ give_up-GaveUp "BootFailed" _ refl ◌⟶◌.confirm_fails
        ]))

  promote-Agrees :
      (s : Run S)
      → s.fsm.state ≡ flashing
      → Agrees (promote_step S.hash (staging_of spec) s.disk) (promote S spec s)
  unfolding promote promote_step
  promote-Agrees s e = same_step promote_staged _ _ s (elim [
    | none ↦ give_up-GaveUp "PromoteFailed" _ e ◌⟶◌.flash_fails
    | some _ ↦ reboot-Agrees _ e
  ])

  verify-Agrees :
      (s : Run S)
      → s.fsm.state ≡ flashing
      → Agrees (verify_step S.hash (staging_of spec) s.disk) (verify S spec s)
  unfolding verify verify_step
  verify-Agrees s e = same_step (verify_staged S.hash) _ _ s (elim [
    | none ↦ give_up-GaveUp "FlashVerifyFailed" _ e ◌⟶◌.flash_fails
    | some _ ↦ promote-Agrees _ e
  ])

  pub flash-Agrees :
      (s : Run S)
      → s.fsm.state ≡ verifying
      → Agrees
          (install S.hash
            (staging_of spec)
            spec.desired_firmware_version
            spec.checksum_sha256
            s.disk)
          (flash S spec s)
  unfolding flash install
  flash-Agrees s e = rw (⟶-to s.fsm e ◌⟶◌.verified) (
      same_step (stage (staging_of spec) spec.desired_firmware_version spec.checksum_sha256) _ _
        (record s { fsm = enter flashing s.fsm })
        (elim [
          | none ↦ give_up-GaveUp "FlashFailed" _ refl ◌⟶◌.flash_fails
          | some _ ↦ verify-Agrees _ refl
        ]))
