-- ===== src/Rollout/Selection.antt =====
-- rolloutsForDevice of internal/controller/fleetrollout_controller.go: which rollouts hear of a
-- device.
use mathlib.Core.List.{Memᴰ}
use mathlib.Core.Path.{subst}
use edge_fleet_operator_demo.Base.{
  ◌<◌, ◌≡◌, ◌↔◌, refl, sym, ap, ◌∙◌, inl, inr, ◌⊎◌, eq_iff, Bool, true, false, ◌&&◌, Bool-cases,
  List, StringMap, [], ◌∷◌, All, length, lookup_or_empty, str_eq, ltb, arith, if◌then◌else◌,
}
use edge_fleet_operator_demo.Api.{FleetRollout, EdgeDevice}
use edge_fleet_operator_demo.Api.Client.{NamespacedName, ok, Client}
use edge_fleet_operator_demo.Rollout.{labels_match, selects, selecting, rollouts_for_device}

-- A selector with a requirement, all of whose requirements the labels meet; a label that is missing
-- counts as the empty text.
abbrev pub Selected : StringMap → StringMap → Type 0
Selected labels selector =
    (0 < length selector) × All (λ e. lookup_or_empty e.0 labels ≡ e.1) selector

labels_match_iff :
    (labels selector : StringMap)
    → (labels_match labels selector ≡ true) ↔ All (λ e. lookup_or_empty e.0 labels ≡ e.1) selector
unfolding labels_match
labels_match_iff labels [] = (λ _. tt, λ _. refl)
labels_match_iff labels ((k, v) ∷ rest) =
    let later = labels_match_iff labels rest in
    let here = eq_iff (lookup_or_empty k labels) v in
    elim (Bool-cases (str_eq (lookup_or_empty k labels) v)) [
      | inl e ↦ rw (labels_match, e) (λ h. (here.0 e, later.0 h), λ h. later.1 h.1)
      | inr n ↦ rw (labels_match, n) (λ h. absurd (cc h), λ h. absurd (cc (n, here.1 h.0)))
    ]

and_true : (a b : Bool) → a ≡ true → (a && b) ≡ b
and_true true b h = refl
and_true false b h = absurd (cc h)

selects_iff :
    (labels selector : StringMap) → (selects labels selector ≡ true) ↔ Selected labels selector
unfolding selects
selects_iff labels [] = (λ h. absurd (cc h), λ h. absurd (omega (arith, h.0)))
selects_iff labels (e ∷ rest) =
    let m = labels_match_iff labels (e ∷ rest) in
    let some_label : ltb 0 (length (e ∷ rest)) ≡ true = ground arith in
    let same : selects labels (e ∷ rest) ≡ labels_match labels (e ∷ rest) =
      and_true (ltb 0 (length (e ∷ rest))) (labels_match labels (e ∷ rest)) some_label in
    (λ h. let l = m.0 (sym same ∙ h) in (omega arith, (l.0, l.1)), λ h. same ∙ m.1 h.1)

abbrev pub key_of : FleetRollout → NamespacedName
key_of ro = record { namespace = ro.metadata.namespace; name = ro.metadata.name }

-- A member of what one round of the loop makes.
step_sound :
    (chosen : Bool) (k n : NamespacedName) (rest : List NamespacedName)
    → Memᴰ n (if chosen then k ∷ rest else rest)
    → ((chosen ≡ true) × (n ≡ k)) ⊎ Memᴰ n rest
step_sound true k n rest (Memᴰ.head e) = inl (refl, e)
step_sound true k n rest (Memᴰ.tail m) = inr m
step_sound false k n rest m = inr m

selecting_sound :
    (labels : StringMap) (ros : List FleetRollout) (n : NamespacedName)
    → Memᴰ n (selecting labels ros)
    → (ro : FleetRollout) × Memᴰ ro ros × (n ≡ key_of ro) × Selected labels ro.spec.selector
unfolding selecting
selecting_sound labels [] n m = elim m [ ]
selecting_sound labels (ro ∷ ros) n m =
    elim (step_sound (selects labels ro.spec.selector) (key_of ro) n (selecting labels ros) m) [
      | inl (chosen, e) ↦ (ro, Memᴰ.head refl, e, (selects_iff labels ro.spec.selector).0 chosen)
      | inr k ↦ let (r, there, e, s) = selecting_sound labels ros n k in (r, Memᴰ.tail there, e, s)
    ]

selecting_complete :
    (labels : StringMap) (ros : List FleetRollout) (ro : FleetRollout)
    → Memᴰ ro ros
    → Selected labels ro.spec.selector
    → Memᴰ (key_of ro) (selecting labels ros)
unfolding selecting
selecting_complete labels [] ro m s = elim m [ ]
selecting_complete labels (r ∷ ros) ro (Memᴰ.head e) s =
    let chosen : selects labels r.spec.selector ≡ true =
      (selects_iff labels r.spec.selector).1 (subst (λ x. Selected labels x.spec.selector) e s) in
    rw chosen (Memᴰ.head (ap key_of e))
selecting_complete labels (r ∷ ros) ro (Memᴰ.tail m) s =
    let later = selecting_complete labels ros ro m s in
    elim (Bool-cases (selects labels r.spec.selector)) [
      | inl chosen ↦ rw chosen (Memᴰ.tail later)
      | inr off ↦ rw off later
    ]

-- When the rollouts of the device's namespace can be listed, exactly those hear of the device whose
-- selector is not empty and asks, for every key, for the value that the device's labels have there,
-- where a label that is missing counts as the empty text: the selector { k: "" } also picks a device
-- without the label k.
pub rollouts_for_device_iff :
    (C : Client) (dev : EdgeDevice) (w : C.World) (ros : List FleetRollout) (n : NamespacedName)
    → (C.list_rollouts dev.metadata.namespace w).0 ≡ ok ros
    → Memᴰ n (rollouts_for_device C dev w).0 ↔ (
        (ro : FleetRollout) × Memᴰ ro ros
        × (n ≡ key_of ro)
        × Selected dev.metadata.labels ro.spec.selector)
unfolding rollouts_for_device
rollouts_for_device_iff C dev w ros n listed =
    rw (rollouts_for_device, listed)
      (
        λ m. selecting_sound dev.metadata.labels ros n m,
        λ (ro, m, e, s).
            subst (λ x. Memᴰ x (selecting dev.metadata.labels ros)) (sym e)
              (selecting_complete dev.metadata.labels ros ro m s),
      )
