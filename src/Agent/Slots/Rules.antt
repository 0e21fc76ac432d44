-- ===== src/Agent/Slots/Rules.antt =====
-- How the sequences of internal/agent/slot.go are followed: rules for their steps, the link that
-- chooses the slot, and where it points after a boot.
use mathlib.Core.Path.{subst⁻¹}
use edge_fleet_operator_demo.Base.{
  ◌≡◌, refl, ◌∙◌, ◌⊎◌, inl, inr, String, ◌<>◌, false, Option, none, some, arith, str_eq, eq_refl,
  suc,
}
use edge_fleet_operator_demo.Agent.Text.{
  trim_space, trim_prefix, base, ℤ, pos, atoi, itoa, successor,
}
use edge_fleet_operator_demo.Agent.Disk.{
  read_file, stat, pending_marker, confirmed_marker, in_slot, current_link, link, Disk, OsError,
  broken, Ended, done, failed, died, Exec, pure, ◌>>=◌, ◌>>◌, attempt, ignore, recovered, continue,
  spend, read_link, write_file, remove,
}
use edge_fleet_operator_demo.Agent.Slots.{
  BootResult, trial, rolled_back, trial_boot, other, switch_to, active, boot_slot, roll_back_from,
}
use edge_fleet_operator_demo.Agent.Slots.Frame.{
  Frame, Frame-ignore, Frame-remove, Frame-write_file, Frame-stat, Frame-read_file,
}
use edge_fleet_operator_demo.Agent.Slots.Effects.{nothing, markers_of, switch_to-current}

-- The link boots a slot.
abbrev pub Boots : String → Disk → Type 0
Boots slot d = d.node current_link ≡ some (link ("slot" <> slot))

-- The two slots, one way round or the other.
pub record Pair (x y : String) : Type 0 where
  pub other_x : other x ≡ y
  pub other_y : other y ≡ x
  pub named_x : trim_prefix (base ("slot" <> x)) "slot" ≡ x
  pub named_y : trim_prefix (base ("slot" <> y)) "slot" ≡ y
  pub apart_x : str_eq x y ≡ false
  pub apart_y : str_eq y x ≡ false

pub Pair_ab : Pair "A" "B"
unfolding other trim_prefix base
Pair_ab = record {
  other_x = refl;
  other_y = refl;
  named_x = refl;
  named_y = refl;
  apart_x = refl;
  apart_y = refl;
}

pub Pair_ba : Pair "B" "A"
unfolding other trim_prefix base
Pair_ba = record {
  other_x = refl;
  other_y = refl;
  named_x = refl;
  named_y = refl;
  apart_x = refl;
  apart_y = refl;
}

pub active_cases :
    (d : Disk) (slot : String)
    → Boots slot d
    → trim_prefix (base ("slot" <> slot)) "slot" ≡ slot
    → (active d ≡ (done slot, spend d))
      ⊎ ((active d ≡ (failed broken, spend d)) ⊎ (active d ≡ (died, spend d)))
unfolding active read_link
active_cases d slot boots named = ground arith

-- A sequence that starts by reading the link: it fails, loses power, or goes on with the slot.
pub with_active :
    {B : Type 0} (k : String → Exec B) (d : Disk) (slot : String) (Q : Ended B × Disk → Type 0)
    → Boots slot d
    → trim_prefix (base ("slot" <> slot)) "slot" ≡ slot
    → Q (k slot (spend d))
    → ((e : OsError) → Q (failed e, spend d))
    → Q (died, spend d)
    → Q ((active >>= k) d)
with_active k d slot Q boots named goes fails dies = elim (active_cases d slot boots named) [
  | inl e ↦ subst⁻¹ (λ r. Q (continue r k)) e goes
  | inr (inl e) ↦ subst⁻¹ (λ r. Q (continue r k)) e (fails broken)
  | inr (inr e) ↦ subst⁻¹ (λ r. Q (continue r k)) e dies
]

module _ {A B : Type 0} where
  after_recovered :
      (r : Ended A × Disk) (k : Option A → Exec B) (Q : Ended B × Disk → Type 0)
      → Q (died, r.1)
      → Q (k none r.1)
      → ((a : A) → r.0 ≡ done a → Q (k (some a) r.1))
      → Q (continue (recovered r) k)
  after_recovered (done a, d) k Q dies fails goes = goes a refl
  after_recovered (failed e, d) k Q dies fails goes = fails
  after_recovered (died, d) k Q dies fails goes = dies

  -- A step whose error only chooses how to go on.
  pub after_attempt :
      (m : Exec A) (k : Option A → Exec B) (d : Disk) (Q : Ended B × Disk → Type 0)
      → Q (died, (m d).1)
      → Q (k none (m d).1)
      → ((a : A) → (m d).0 ≡ done a → Q (k (some a) (m d).1))
      → Q ((attempt m >>= k) d)
  after_attempt m k d Q dies fails goes = after_recovered (m d) k Q dies fails goes

  after_continue :
      (r : Ended A × Disk) (k : A → Exec B) (Q : Ended B × Disk → Type 0)
      → Q (died, r.1)
      → ((e : OsError) → Q (failed e, r.1))
      → ((a : A) → r.0 ≡ done a → Q (k a r.1))
      → Q (continue r k)
  after_continue (done a, d) k Q dies fails goes = goes a refl
  after_continue (failed e, d) k Q dies fails goes = fails e
  after_continue (died, d) k Q dies fails goes = dies

  -- A step whose error ends the sequence.
  pub after_bind :
      (m : Exec A) (k : A → Exec B) (d : Disk) (Q : Ended B × Disk → Type 0)
      → Q (died, (m d).1)
      → ((e : OsError) → Q (failed e, (m d).1))
      → ((a : A) → (m d).0 ≡ done a → Q (k a (m d).1))
      → Q ((m >>= k) d)
  after_bind m k d Q dies fails goes = after_continue (m d) k Q dies fails goes

-- Where the link points after a rollback: where it pointed, or to the other slot.
pub roll_back_from-current :
    (slot : String) (d : Disk)
    → let r = roll_back_from slot d in
      (r.1.node current_link ≡ d.node current_link) ⊎ Boots (other slot) r.1
unfolding roll_back_from
roll_back_from-current slot d =
    let first = ignore (remove (in_slot slot pending_marker)) in
    let frame : Frame (markers_of slot) first =
      Frame-ignore (markers_of slot) _ (Frame-remove (markers_of slot) _ (eq_refl slot)) in
    let same : (first d).1.node current_link ≡ d.node current_link = frame.at d current_link refl in
    after_bind first (λ _. switch_to (other slot)) d
      (λ r. (r.1.node current_link ≡ d.node current_link) ⊎ Boots (other slot) r.1) (inl same)
      (λ e. inl same)
      (λ _ _. elim ((switch_to-current (other slot) (first d).1).0) [
        | inl old ↦ inl (old ∙ same)
        | inr new ↦ inr new
      ])

-- What a boot of a slot says of the link: it points where it did, or to the other slot; and it
-- points where it did if this was a trial.
abbrev BootLink : String → Disk → Ended BootResult × Disk → Type 0
BootLink slot d r =
    ((r.1.node current_link ≡ d.node current_link) ⊎ Boots (other slot) r.1)
    × (r.0 ≡ done trial → r.1.node current_link ≡ d.node current_link)

roll_back-BootLink :
    (slot : String) (d : Disk) → BootLink slot d ((roll_back_from slot >> pure rolled_back) d)
roll_back-BootLink slot d =
    let link_of = roll_back_from-current slot d in
    after_bind (roll_back_from slot) (λ _. pure rolled_back) d (BootLink slot d)
      (link_of, λ e. absurd (cc)) (λ e. (link_of, λ e'. absurd (cc)))
      (λ _ _. (link_of, λ e. absurd (cc)))

trial_boot-BootLink :
    (slot : String) (tries : ℤ) (d : Disk) → BootLink slot d (trial_boot slot tries d)
unfolding trial_boot
trial_boot-BootLink slot (pos (suc n)) d = roll_back-BootLink slot d
trial_boot-BootLink slot tries d =
    let counted = write_file (in_slot slot pending_marker) (itoa (successor tries)) in
    let same =
      (Frame-write_file (markers_of slot) _ (itoa (successor tries)) (eq_refl slot)).at d
        current_link refl in
    after_bind counted (λ _. pure trial) d (BootLink slot d) (inl same, λ e. same)
      (λ e. (inl same, λ e'. same)) (λ _ _. (inl same, λ e. same))

-- The same from an earlier state, with the same link.
BootLink-later :
    (slot : String) (d d' : Disk) (r : Ended BootResult × Disk)
    → d'.node current_link ≡ d.node current_link
    → BootLink slot d' r
    → BootLink slot d r
BootLink-later slot d d' r same (inl kept, of_trial) = (inl (kept ∙ same), λ e. of_trial e ∙ same)
BootLink-later slot d d' r same (inr new, of_trial) = (inr new, λ e. of_trial e ∙ same)

pub boot_slot-current : (slot : String) (d : Disk) → BootLink slot d (boot_slot slot d)
unfolding boot_slot
boot_slot-current slot d =
    let looked = stat (in_slot slot confirmed_marker) in
    let same = (Frame-stat nothing (in_slot slot confirmed_marker)).at d current_link refl in
    after_attempt looked _ d (BootLink slot d) (inl same, λ e. same)
      (let d1 = (looked d).1 in
        let asked = read_file (in_slot slot pending_marker) in
        let same2 =
          (Frame-read_file nothing (in_slot slot pending_marker)).at d1 current_link refl ∙ same in
        after_attempt asked _ d1 (BootLink slot d) (inl same2, λ e. same2)
          (BootLink-later slot d (asked d1).1
            ((roll_back_from slot >> pure rolled_back) (asked d1).1) same2
            (roll_back-BootLink slot (asked d1).1))
          (λ b _.
            BootLink-later slot d (asked d1).1 (trial_boot slot (atoi (trim_space b)) (asked d1).1)
              same2 (trial_boot-BootLink slot (atoi (trim_space b)) (asked d1).1)))
      (λ _ _. (inl same, λ e. same))
