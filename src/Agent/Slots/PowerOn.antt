-- ===== src/Agent/Slots/PowerOn.antt =====
-- New and the start of Run in internal/agent/agent.go, with NewSlotManager of
-- internal/agent/slot.go: what a device boots when it is switched on.
use edge_fleet_operator_demo.Base.{◌≡◌, refl, sym, ◌∙◌, ◌⊎◌, inl, inr, String, Bool-cases, str_eq}
use edge_fleet_operator_demo.Agent.Slots.{other, new_slot_manager, boot_sequence, power_on}
use edge_fleet_operator_demo.Agent.Slots.Rules.{Boots, Pair}
use edge_fleet_operator_demo.Agent.Slots.Working.{Files, working, Ends, Ends-bind}
use edge_fleet_operator_demo.Agent.Slots.Recovery.{Confirmed, boot_sequence-Rests}
use edge_fleet_operator_demo.Agent.Slots.Ready.{HasRoom, Bootable, new_slot_manager-Ready}

-- A slot that was confirmed is booted.
abbrev pub Rested : Files → Type 0
Rested n = (s : String) × ((s ≡ "A") ⊎ (s ≡ "B")) × Boots s (working n) × Confirmed s n

pub names : {x y : String} → Pair x y → (x ≡ "A") ⊎ (x ≡ "B")
unfolding other
names {x} {y} p = elim (Bool-cases (str_eq y "A")) [
  | inl e ↦ inr (sym p.other_y ∙ (rw (e) refl))
  | inr e ↦ inl (sym p.other_y ∙ (rw (e) refl))
]

pub swapped : {x y : String} → Pair x y → Pair y x
swapped p = record {
  other_x = p.other_y;
  other_y = p.other_x;
  named_x = p.named_y;
  named_y = p.named_x;
  apart_x = p.apart_y;
  apart_y = p.apart_x;
}

-- On a disk on which every call works, and on which no file takes the place of a slot's directory: a
-- device that never ran, or one with a confirmed slot that boots either slot, confirmed or not,
-- comes up when it is switched on. New and the boot sequence return, and slot A or slot B is booted
-- and has its marker.
pub power_on-Rested :
    (hash : String → String) (n : Files)
    → HasRoom "A" n
    → HasRoom "B" n
    → Bootable n
    → Ends (λ _ n'. Rested n') (power_on hash (working n))
unfolding power_on
power_on-Rested hash n room_a room_b boot =
    Ends-bind _ (λ _ n'. Rested n') new_slot_manager (λ _. boot_sequence hash) (working n)
      (new_slot_manager-Ready n room_a room_b boot)
      (λ _ n1 (x, y, p, boots, ok, dir).
        let (r, n2, e, rests) = boot_sequence-Rests p hash n1 boots ok dir in
        (
          r,
          n2,
          e,
          elim rests [
            | inl (here, good) ↦ (x, names p, here, good)
            | inr (here, good) ↦ (y, names (swapped p), here, good)
          ],
        ))
