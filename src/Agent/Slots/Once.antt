-- ===== src/Agent/Slots/Once.antt =====
-- BootCheck of internal/agent/slot.go: a promoted slot is tried once.
use edge_fleet_operator_demo.Base.{◌≡◌, refl, ap, ◌∙◌, String, none, some, eq_refl}
use edge_fleet_operator_demo.Agent.Text.{trim_space, atoi, itoa, successor, pos}
use edge_fleet_operator_demo.Agent.Disk.{
  pending_marker, confirmed_marker, slot_dir, in_slot, file, folder, done, ignore, ◌>>◌, remove,
  read_file, same_path, same_file, pure, write_file,
}
use edge_fleet_operator_demo.Agent.Slots.{
  trial, rolled_back, other, active, boot_check, boot_slot, trial_boot, roll_back_from,
  promote_staged, switch_to,
}
use edge_fleet_operator_demo.Agent.Slots.Rules.{Boots, Pair}
use edge_fleet_operator_demo.Agent.Slots.Working.{Files, working}
use edge_fleet_operator_demo.Agent.Slots.Exact.{
  set, exact_bind, exact_attempt, removed, wrote, reads, misses, switched, switches_to, active_is,
}

-- The marker after no and after one attempt.
untried : atoi (trim_space "0") ≡ pos 0
unfolding atoi trim_space
untried = refl

tried : atoi (trim_space (itoa (successor (pos 0)))) ≡ pos 1
unfolding atoi trim_space itoa
tried = refl

module _ {x y : String} (p : Pair x y) where
  pub promotes_other :
      (n : Files)
      → Boots x (working n)
      → n (slot_dir y) ≡ some folder
      → promote_staged (working n)
        ≡ (done y, working (switched (set (in_slot y pending_marker) (some (file "0")) n) y))
  unfolding promote_staged same_path
  promotes_other n boots dir =
      let n1 = set (in_slot y pending_marker) (some (file "0")) n in
      exact_bind active _ n n x (active_is n x boots p.named_x) (
        ap (λ s. (write_file (in_slot s pending_marker) "0" >> (switch_to s >> pure s)) (working n))
          p.other_x
        ∙ exact_bind (write_file (in_slot y pending_marker) "0") (λ _. switch_to y >> pure y) n n1
            tt (wrote n y pending_marker "0" dir)
            (exact_bind (switch_to y) (λ _. pure y) n1 (switched n1 y) tt (switches_to n1 y) refl))

  abbrev pub spent : Files → Files
  spent n = set (in_slot y pending_marker) (some (file (itoa (successor (pos 0))))) n

  abbrev back : Files → Files
  back n = switched (set (in_slot y pending_marker) none n) x

  pub first_boot :
      (n : Files)
      → Boots y (working n)
      → n (slot_dir y) ≡ some folder
      → n (in_slot y confirmed_marker) ≡ none
      → n (in_slot y pending_marker) ≡ some (file "0")
      → boot_check (working n) ≡ (done trial, working (spent n))
  unfolding boot_check boot_slot trial_boot
  first_boot n boots dir fresh pending = exact_bind active _ n n y (active_is n y boots p.named_y) (
      misses n (in_slot y confirmed_marker) _ fresh (
        exact_attempt (read_file (in_slot y pending_marker)) _ n n "0" (reads n _ "0" pending) (
          ap (λ t. trial_boot y t (working n)) untried
          ∙ exact_bind (write_file (in_slot y pending_marker) (itoa (successor (pos 0)))) _ n
              (spent n) tt (wrote n y pending_marker (itoa (successor (pos 0))) dir) refl)))

  second_boot :
      (n : Files)
      → Boots y (working n)
      → n (in_slot y confirmed_marker) ≡ none
      → n (in_slot y pending_marker) ≡ some (file (itoa (successor (pos 0))))
      → boot_check (working n) ≡ (done rolled_back, working (back n))
  unfolding boot_check boot_slot trial_boot roll_back_from
  second_boot n boots fresh pending =
      let n1 = set (in_slot y pending_marker) none n in
      exact_bind active _ n n y (active_is n y boots p.named_y) (
        misses n (in_slot y confirmed_marker) _ fresh (
          exact_attempt (read_file (in_slot y pending_marker)) _ n n (itoa (successor (pos 0)))
            (reads n _ (itoa (successor (pos 0))) pending)
            (ap (λ t. trial_boot y t (working n)) tried
              ∙ exact_bind (roll_back_from y) (λ _. pure rolled_back) n (back n) tt
                  (exact_bind (ignore (remove (in_slot y pending_marker)))
                    (λ _. switch_to (other y)) n n1 tt (removed n (in_slot y pending_marker))
                    (ap (λ s. switch_to s (working n1)) p.other_y ∙ switches_to n1 x))
                  refl)))

-- On a disk on which every call works, from a device that boots one slot, with the directory of the
-- other and no confirmed marker in it: when that slot is promoted and never confirmed, it is booted
-- once, on trial. The boot after that goes back to the first slot and takes the marker away.
pub one_trial :
    {x y : String} (p : Pair x y) (n : Files)
    → Boots x (working n)
    → n (slot_dir y) ≡ some folder
    → n (in_slot y confirmed_marker) ≡ none
    → (n1 : Files) × (n2 : Files) × (n3 : Files) × (promote_staged (working n)
        ≡ (done y, working n1))
      × Boots y (working n1)
      × (boot_check (working n1) ≡ (done trial, working n2))
      × Boots y (working n2)
      × (boot_check (working n2) ≡ (done rolled_back, working n3))
      × Boots x (working n3)
      × (n3 (in_slot y pending_marker) ≡ none)
unfolding same_path same_file
one_trial {x} {y} p n boots dir fresh =
    let n1 = switched (set (in_slot y pending_marker) (some (file "0")) n) y in
    let n2 = spent p n1 in
    let fresh1 : n1 (in_slot y confirmed_marker) ≡ none = rw (eq_refl y) fresh in
    let fresh2 : n2 (in_slot y confirmed_marker) ≡ none = rw (eq_refl y) fresh in
    let zero : n1 (in_slot y pending_marker) ≡ some (file "0") = rw (eq_refl y) refl in
    let one : n2 (in_slot y pending_marker) ≡ some (file (itoa (successor (pos 0)))) =
      rw (eq_refl y) refl in
    let gone : back p n2 (in_slot y pending_marker) ≡ none = rw (eq_refl y) refl in
    (
      n1,
      n2,
      back p n2,
      promotes_other p n boots dir,
      refl,
      first_boot p n1 refl dir fresh1 zero,
      refl,
      second_boot p n2 refl fresh2 one,
      refl,
      gone,
    )
