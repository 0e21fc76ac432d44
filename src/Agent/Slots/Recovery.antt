-- ===== src/Agent/Slots/Recovery.antt =====
-- bootSequence of internal/agent/agent.go after a loss of power, when the disk works again: it ends
-- on a confirmed slot.
use mathlib.Core.Path.{subst}
use edge_fleet_operator_demo.Base.{
  ◌≡◌, ◌≢◌, refl, ◌∙◌, ◌⊎◌, inl, inr, String, none, some, eq_refl, suc,
}
use edge_fleet_operator_demo.Agent.Text.{trim_space, ℤ, pos, atoi, itoa, successor}
use edge_fleet_operator_demo.Agent.Disk.{
  pending_marker, confirmed_marker, slot_dir, in_slot, current_link, Node, file, folder, Exec,
  ignore, ◌>>=◌, ◌>>◌, pure, read_file, write_file, remove, same_file, same_path,
}
use edge_fleet_operator_demo.Agent.Slots.{
  BootResult, normal, trial, rolled_back, other, switch_to, active, active_version, roll_back_from,
  rollback, trial_boot, boot_slot, boot_check, confirm, self_check, finish_trial, boot_sequence,
  log_boot,
}
use edge_fleet_operator_demo.Agent.Slots.Frame.{Frame-ignore, Frame-remove, Frame-write_file}
use edge_fleet_operator_demo.Agent.Slots.Effects.{links, markers_of, switch_to-Frame}
use edge_fleet_operator_demo.Agent.Slots.Rules.{Boots, Pair}
use edge_fleet_operator_demo.Agent.Slots.Working.{
  Files, working, Ends, Ends-bind, tried_bind, Ends-framed, ignored, stat_bind, removes,
  removes_present, writes, switches, same_in, Calm-active, Calm-active_version, Calm-read_file,
  Calm-self_check, Calm-bind, Calm-pure, from_active,
}

abbrev pub Confirmed : String → Files → Type 0
Confirmed s n = (k : Node) × (n (in_slot s confirmed_marker) ≡ some k)

module _ {x y : String} (p : Pair x y) where
  -- The device boots a confirmed slot.
  abbrev pub Rests : Files → Type 0
  Rests n = (Boots x (working n) × Confirmed x n) ⊎ (Boots y (working n) × Confirmed y n)

  -- The device boots the other slot on trial.
  abbrev Tries : Files → Type 0
  Tries n =
      Boots y (working n)
      × Confirmed x n
      × (n (slot_dir y) ≡ some folder)
      × ((k : Node) × (n (in_slot y pending_marker) ≡ some k))

  abbrev Booted : BootResult → Files → Type 0
  Booted r n = ((r ≢ trial) × Rests n) ⊎ ((r ≡ trial) × Tries n)

  roll_back_from-Rests :
      (n : Files) → Confirmed x n → Ends (λ _ n'. Rests n') (roll_back_from y (working n))
  unfolding roll_back_from
  roll_back_from-Rests n (k, ok) =
      let clean = ignore (remove (in_slot y pending_marker)) in
      Ends-bind _ (λ _ n'. Rests n') clean _ (working n)
        (Ends-framed _ (markers_of y) clean n
          (Frame-ignore (markers_of y) _ (Frame-remove (markers_of y) _ (eq_refl y)))
          (removes n (in_slot y pending_marker)))
        (λ _ n1 (_, same1).
          let (a, n2, e, (boots, same2)) =
            Ends-framed _ links (switch_to (other y)) n1 (switch_to-Frame links (other y) refl refl)
              (switches n1 (other y)) in
          (
            a,
            n2,
            e,
            inl (
              subst (λ s. Boots s (working n2)) p.other_y boots,
              (
                k,
                same2 (in_slot x confirmed_marker) refl
                    ∙ same1 (in_slot x confirmed_marker) p.apart_x
                    ∙ ok,
              ),
            ),
          ))

  roll_back-Booted :
      (n : Files) → Confirmed x n → Ends Booted ((roll_back_from y >> pure rolled_back) (working n))
  roll_back-Booted n ok =
      Ends-bind (λ _ n'. Rests n') Booted (roll_back_from y) _ (working n)
        (roll_back_from-Rests n ok) (λ _ n' rests. (rolled_back, n', refl, inl (λ e. cc e, rests)))

  trial_boot-Booted :
      (tries : ℤ) (n : Files)
      → Boots y (working n)
      → Confirmed x n
      → n (slot_dir y) ≡ some folder
      → Ends Booted (trial_boot y tries (working n))
  unfolding trial_boot
  trial_boot-Booted (pos (suc m)) n boots ok dir = roll_back-Booted n ok
  trial_boot-Booted tries n boots (k, ok) dir =
      let count = write_file (in_slot y pending_marker) (itoa (successor tries)) in
      Ends-bind _ Booted count _ (working n)
        (Ends-framed _ (markers_of y) count n (Frame-write_file (markers_of y) _ _ (eq_refl y))
          (writes n y pending_marker (itoa (successor tries)) dir))
        (λ _ n' (is, same). (
          trial,
          n',
          refl,
          inr (
            refl,
            (
              same current_link refl ∙ boots,
              (k, same (in_slot x confirmed_marker) p.apart_x ∙ ok),
              same (slot_dir y) refl ∙ dir,
              (file (itoa (successor tries)), is),
            ),
          ),
        ))

  boot_slot-Booted :
      (n : Files)
      → Boots y (working n)
      → Confirmed x n
      → n (slot_dir y) ≡ some folder
      → Ends Booted (boot_slot y (working n))
  unfolding boot_slot
  boot_slot-Booted n boots ok dir =
      stat_bind Booted (in_slot y confirmed_marker) n _
        (λ k there. (normal, n, refl, inl (λ e. cc e, inr (boots, (k, there)))))
        (λ _.
          tried_bind Booted (read_file (in_slot y pending_marker)) n (Calm-read_file _) _ (elim [
            | none ↦ roll_back-Booted n ok
            | some b ↦ trial_boot-Booted (atoi (trim_space b)) n boots ok dir
          ]))

  boot_check-Booted :
      (n : Files)
      → Boots x (working n) ⊎ Boots y (working n)
      → Confirmed x n
      → n (slot_dir y) ≡ some folder
      → Ends Booted (boot_check (working n))
  unfolding boot_check boot_slot
  boot_check-Booted n (inl boots) (k, ok) dir = from_active Booted n x boot_slot boots p.named_x (
      stat_bind Booted (in_slot x confirmed_marker) n _
        (λ k there. (normal, n, refl, inl (λ e. cc e, inl (boots, (k, there)))))
        (λ gone. absurd (cc (gone, ok))))
  boot_check-Booted n (inr boots) ok dir =
      from_active Booted n y boot_slot boots p.named_y (boot_slot-Booted n boots ok dir)

  seal-Rests :
      (n : Files)
      → Boots y (working n)
      → n (slot_dir y) ≡ some folder
      → (k : Node) × (n (in_slot y pending_marker) ≡ some k)
      → Ends
          (λ _ n'. Rests n')
          ((write_file (in_slot y confirmed_marker) "" >> remove (in_slot y pending_marker))
            (working n))
  unfolding same_path same_file
  seal-Rests n boots dir (mark, pending) =
      let confirms = write_file (in_slot y confirmed_marker) "" in
      let clears = remove (in_slot y pending_marker) in
      let S = same_path (in_slot y confirmed_marker) in
      let T = same_path (in_slot y pending_marker) in
      Ends-bind _ (λ _ n'. Rests n') confirms _ (working n)
        (Ends-framed _ S confirms n (Frame-write_file S _ "" (same_in y confirmed_marker))
          (writes n y confirmed_marker "" dir))
        (λ _ n1 (is, same1).
          let (a, n2, e, (_, same2)) =
            Ends-framed _ T clears n1 (Frame-remove T _ (same_in y pending_marker)) (
              removes_present n1 (in_slot y pending_marker) mark
                (same1 (in_slot y pending_marker) (rw (eq_refl y) refl) ∙ pending)) in
          (
            a,
            n2,
            e,
            inr (
              same2 current_link refl ∙ same1 current_link refl ∙ boots,
              (file "", same2 (in_slot y confirmed_marker) (rw (eq_refl y) refl) ∙ is),
            ),
          ))

  log_boot-Rests : (n : Files) → Rests n → Ends (λ _ n'. Rests n') (log_boot (working n))
  unfolding log_boot
  log_boot-Rests n rests =
      let goal = λ (_ : Unit {0}) (n' : Files). Rests n' in
      let log_slot = active >>= λ _. pure tt in
      let log_version = active_version >>= λ _. pure tt in
      Ends-bind goal goal (ignore log_slot) (λ _. ignore log_version) (working n)
        (ignored goal log_slot n (Calm-bind _ _ Calm-active λ _. Calm-pure tt) rests)
        (λ _ n2 rests2.
          ignored goal log_version n2 (Calm-bind _ _ Calm-active_version λ _. Calm-pure tt) rests2)

  finish_trial-Rests :
      (hash : String → String) (n : Files)
      → Tries n
      → Ends (λ _ n'. Rests n') (finish_trial hash (working n))
  unfolding finish_trial rollback confirm
  finish_trial-Rests hash n (boots, ok, dir, pending) =
      let goal = λ (_ : Unit {0}) (n' : Files). Rests n' in
      tried_bind goal (self_check hash) n (Calm-self_check hash) _ (elim [
        | none ↦ from_active _ n y roll_back_from boots p.named_y (roll_back_from-Rests n ok)
        | some _ ↦
            Ends-bind goal goal confirm (λ _. log_boot) (working n)
              (from_active _ n y _ boots p.named_y (seal-Rests n boots dir pending))
              (λ _ n2 rests. log_boot-Rests n2 rests)
      ])

  settle-Rests :
      (hash : String → String) (r : BootResult) (n : Files)
      → Booted r n
      → Ends
          (λ _ n'. Rests n')
          ((elim r as (λ _. Exec (Unit {0})) [ trial ↦ finish_trial hash | _ ↦ log_boot ])
            (working n))
  settle-Rests hash normal n (inl (_, rests)) = log_boot-Rests n rests
  settle-Rests hash rolled_back n (inl (_, rests)) = log_boot-Rests n rests
  settle-Rests hash trial n (inl (is, rests)) = absurd (is refl)
  settle-Rests hash trial n (inr (is, tries)) = finish_trial-Rests hash n tries
  settle-Rests hash normal n (inr (is, tries)) = absurd (cc is)
  settle-Rests hash rolled_back n (inr (is, tries)) = absurd (cc is)

  pub boot_sequence-Rests :
      (hash : String → String) (n : Files)
      → Boots x (working n) ⊎ Boots y (working n)
      → Confirmed x n
      → n (slot_dir y) ≡ some folder
      → Ends (λ _ n'. Rests n') (boot_sequence hash (working n))
  unfolding boot_sequence
  boot_sequence-Rests hash n boots ok dir =
      Ends-bind Booted (λ _ n'. Rests n') boot_check _ (working n)
        (boot_check-Booted n boots ok dir) (settle-Rests hash)
