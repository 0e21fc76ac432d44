-- ===== src/Agent/Loop/Upgrades.antt =====
-- From a poll to the end of its transaction: how Run of internal/agent/agent.go upgrades a device on
-- which nothing fails.
use Prim.Native.String.{len}
use mathlib.Core.Path.{subst⁻¹}
use edge_fleet_operator_demo.Base.{
  none, ℕ, ◌≤◌, ◌≡◌, refl, ap, ◌∙◌, ◌⊎◌, String, ◌<>◌, true, false, some, List, [], ◌∷◌,
}
use edge_fleet_operator_demo.Agent.Text.{trim_space, trim_prefix, base}
use edge_fleet_operator_demo.Agent.Disk.{
  firmware_file, version_file, confirmed_marker, slot_dir, in_slot, file, folder, done, read_file,
}
use edge_fleet_operator_demo.Agent.Download.{Bytes, download_with_resume}
use edge_fleet_operator_demo.Agent.Download.Backoff.{unset_options}
use edge_fleet_operator_demo.Agent.Download.Resume.{IsPart}
use edge_fleet_operator_demo.Agent.Download.Completes.{IsReliable, download_completes}
use edge_fleet_operator_demo.Agent.Fsm.{State, idle}
use edge_fleet_operator_demo.Agent.Kube.{Device, DeviceSpec, ok, get}
use edge_fleet_operator_demo.Agent.Slots.{active, active_version}
use edge_fleet_operator_demo.Agent.Slots.Exact.{exact_attempt, reads, active_is}
use edge_fleet_operator_demo.Agent.Slots.Rules.{Boots, Pair}
use edge_fleet_operator_demo.Agent.Slots.Working.{Files, working}
use edge_fleet_operator_demo.Agent.Act.{Setting, Run, Went, went, settled}
use edge_fleet_operator_demo.Agent.Transaction.{bytes_of, staging_of, run_upgrade}
use edge_fleet_operator_demo.Agent.Transaction.Success.{run_upgrade_succeeds}
use edge_fleet_operator_demo.Agent.Guard.{Agent, start_upgrade, act_on, resolve, evaluate}
use edge_fleet_operator_demo.Agent.Guard.Launch.{IsWanted, decide_iff}
use edge_fleet_operator_demo.Agent.Loop.{
  Config, wakes, ends, LoopState, running, Looping, wait_of, now_at, goes_on, polled_with, poll,
  landed, end_first, handle, carry_on, run_loop,
}

version_is :
    (n : Files) (x v : String)
    → Boots x (working n)
    → trim_prefix (base ("slot" <> x)) "slot" ≡ x
    → n (in_slot x version_file) ≡ some (file v)
    → active_version (working n) ≡ (done (trim_space v), working n)
unfolding active_version
version_is n x v boots named there =
    exact_attempt active _ n n x (active_is n x boots named)
      (exact_attempt (read_file (in_slot x version_file)) _ n n v (reads n _ v there) refl)

triple : {A B C : Type 0} (r : A × B × C) {a : A} {b : B} → r.0 ≡ a → r.1 ≡ b → r ≡ (a, b, r.2)
triple (x, y, z) {a} e f = ap (λ x. (x, y, z)) e ∙ ap (λ y. (a, y, z)) f

module _ (S : Setting) where
  -- An agent that rests, on a disk on which every call works.
  abbrev pub resting : Run S → Files → ℕ → Agent S
  resting s n gen = record {
    run = record s { disk = working n };
    upgrading = false;
    last_seen_gen = gen;
    running = [];
  }

  abbrev pub launched : Run S → Files → DeviceSpec → ℕ → Agent S
  launched s n spec gen = record {
    run = record s { disk = working n };
    upgrading = true;
    last_seen_gen = gen;
    running = spec ∷ [];
  }

  -- The poll that starts the transaction.
  evaluate_launches :
      (dev : Device) (s : Run S) (n : Files) (gen : ℕ) (current : String)
      → active_version (working n) ≡ (done current, working n)
      → IsWanted current s.last_failed_key dev.spec
      → evaluate S dev (resting s n gen) ≡ (went tt, launched s n dev.spec dev.metadata.generation)
  unfolding evaluate act_on start_upgrade
  evaluate_launches dev s n gen current reading wanted =
      let seen = resting s n dev.metadata.generation in
      let go = (decide_iff current s.last_failed_key dev.spec).1 wanted in
      ap (λ r. resolve S (settled r seen.run) dev seen) reading
      ∙ ap (λ d. act_on S d dev current seen) go

  poll_launches :
      (dev : Device) (s : Run S) (n : Files) (gen : ℕ) (current : String)
      → (get S.transport s.api).0 ≡ ok dev
      → active_version (working n) ≡ (done current, working n)
      → IsWanted current s.last_failed_key dev.spec
      → poll S none (resting s n gen) ≡ (
        went running,
        launched (record s { api = (get S.transport s.api).1 }) n dev.spec dev.metadata.generation,
      )
  unfolding poll polled_with
  poll_launches dev s n gen current found reading wanted =
      let heard = record s { api = (get S.transport s.api).1 } in
      ap (λ r. polled_with S none r (resting heard n gen)) found
      ∙ ap (goes_on S) (evaluate_launches dev heard n gen current reading wanted)

  -- How the two events leave the agent.
  pub record Upgraded (spec : DeviceSpec) (y : String) (image : Bytes)
      (o : Went LoopState × Looping S) : Type 0 where
    pub goes : o.0 ≡ went running
    pub free : (o.1.agent.upgrading ≡ false) × (o.1.agent.running ≡ [])
    pub rests : o.1.agent.run.fsm.state ≡ idle
    pub boots : Boots y o.1.agent.run.disk
    pub installed : o.1.agent.run.disk.node (in_slot y firmware_file) ≡ some (file image)
    pub labelled :
        o.1.agent.run.disk.node (in_slot y version_file) ≡ some (file spec.desired_firmware_version)
    pub confirmed : o.1.agent.run.disk.node (in_slot y confirmed_marker) ≡ some (file "")

  -- The transaction, from the agent that has started it.
  landed-Upgraded :
      (spec : DeviceSpec) (y : String) (image : Bytes) (gen : ℕ) (waits : List ℕ)
      (o : Went (Unit {0}) × Run S)
      → o.0 ≡ went tt
      → o.1.fsm.state ≡ idle
      → Boots y o.1.disk
      → o.1.disk.node (in_slot y firmware_file) ≡ some (file image)
      → o.1.disk.node (in_slot y version_file) ≡ some (file spec.desired_firmware_version)
      → o.1.disk.node (in_slot y confirmed_marker) ≡ some (file "")
      → (s : Run S) (n : Files)
      → Upgraded spec y image (
          carry_on S
            (now_at S
              (goes_on S (landed S o (record (launched s n spec gen) { running = [] })))
              waits)
            (λ l. (went running, l)))
  landed-Upgraded spec y image gen waits (r, t) e idles boots fw version mark s n =
      let end : Went LoopState × Looping S = (
        went running,
        record {
          agent = record { run = t; upgrading = false; last_seen_gen = gen; running = [] };
          waits = waits;
        },
      ) in
      let same : (carry_on S
            (now_at S
              (goes_on S (landed S (r, t) (record (launched s n spec gen) { running = [] }))) waits)
            (λ l. (went running, l)))
          ≡ end =
        ap
          (λ r.
            carry_on S
              (now_at S
                (goes_on S (landed S (r, t) (record (launched s n spec gen) { running = [] })))
                waits)
              (λ l. (went running, l)))
          e in
      subst⁻¹ (Upgraded spec y image) same (record {
        goes = refl;
        free = (refl, refl);
        rests = idles;
        boots = boots;
        installed = fw;
        labelled = version;
        confirmed = mark;
      })

-- An agent that rests, with a ready machine, on a disk on which every call works, boots slot x and
-- has the directory of the other slot, y. Its poll is answered with a device that should run another
-- version than x holds, is not paused and is not the target that failed last, with a checksum of
-- twelve bytes or more and no space around it. The image of this checksum is served in full, and the
-- staging file is missing or a beginning of it. Then, with the download options of the agent, the
-- poll and the end of the transaction leave an agent that rests again and boots y, which holds the
-- image and the desired version and is confirmed.
pub loop_upgrades :
    (S : Setting) (cfg : Config) (dev : Device) {x y : String} (p : Pair x y) (s : Run S)
    (n : Files) (gen draw : ℕ) (waits : List ℕ) (v image : String)
    → S.download ≡ unset_options
    → (s.fsm.state ≡ idle) ⊎ (s.fsm.state ≡ State.failed)
    → Boots x (working n)
    → n (slot_dir y) ≡ some folder
    → n (in_slot x version_file) ≡ some (file v)
    → (get S.transport s.api).0 ≡ ok dev
    → IsWanted (trim_space v) s.last_failed_key dev.spec
    → 12 ≤ len dev.spec.checksum_sha256
    → trim_space dev.spec.checksum_sha256 ≡ dev.spec.checksum_sha256
    → S.hash image ≡ dev.spec.checksum_sha256
    → IsReliable S.network image
    → IsPart image (bytes_of (n (staging_of dev.spec)))
    → Upgraded S dev.spec y image (
        run_loop S cfg
          (wakes draw none ∷ ends ∷ [])
          (record { agent = resting S s n gen; waits = waits }))
unfolding run_loop handle end_first
loop_upgrades S cfg dev {x} {y} p s n gen draw waits v image unset ready boots dir there found
      wanted long trimmed fits reliable part =
    let heard = record s { api = (get S.transport s.api).1 } in
    let from = bytes_of (n (staging_of dev.spec)) in
    let (fine, whole) = download_completes S.network image reliable from s.net part in
    let fetched =
      ap (λ o. download_with_resume S.network o from s.net) unset
      ∙ triple (download_with_resume S.network unset_options from s.net) fine whole in
    let polled =
      poll_launches S dev s n gen (trim_space v) found (version_is n x v boots p.named_x there)
        wanted in
    let (returns, idles, link, fw, version, mark) =
      run_upgrade_succeeds S dev.spec p heard n image _ ready long trimmed fits boots dir fetched in
    subst⁻¹
      (λ r.
        Upgraded S dev.spec y image
          (carry_on S (now_at S r (wait_of cfg draw ∷ waits)) (run_loop S cfg (ends ∷ []))))
      polled
      (landed-Upgraded S dev.spec y image dev.metadata.generation (wait_of cfg draw ∷ waits)
        (run_upgrade S dev.spec (record heard { disk = working n })) returns idles link fw version
        mark heard n)
