-- ===== src/Rollout/Order.antt =====
-- The order in which the API server lists the devices, and the order of the batch, for
-- internal/controller/fleetrollout_controller.go.
use mathlib.Core.List.{Permᴰ}
use mathlib.Core.List.Permᴰ
use mathlib.Core.Path.{ap₂, subst}
use edge_fleet_operator_demo.Base.{
  ◌≡◌, ◌≢◌, refl, sym, ap, ◌∙◌, ◌⊎◌, inl, inr, true, false, Bool-cases, none, some, List, [], ◌∷◌,
  All,
}
use edge_fleet_operator_demo.Base.Before.{
  Before, Before-trans, Before-asymm, Before-total, is_lt_iff,
}
use edge_fleet_operator_demo.Api.{EdgeDevice, FleetRollout}
use edge_fleet_operator_demo.Api.Client.{ApiResult, ok, err, NamespacedName, Outcome, done, Client}
use edge_fleet_operator_demo.Api.Machinery.{Machinery}
use edge_fleet_operator_demo.Rollout.Fleet.{name_before, insert_by_name, sort_by_name}
use edge_fleet_operator_demo.Rollout.{campaign, reconcile}

abbrev pub OtherName : EdgeDevice → EdgeDevice → Type 0
OtherName d e = d.metadata.name ≢ e.metadata.name

-- Names are unique in a namespace.
abbrev pub UniqueNames : List EdgeDevice → Type 0
UniqueNames [] = Unit {0}
UniqueNames (d ∷ ds) = All (OtherName d) ds × UniqueNames ds

abbrev pub IsBefore : EdgeDevice → EdgeDevice → Type 0
IsBefore d e = Before d.metadata.name e.metadata.name

-- Every device stands before all that follow it, by the bytes of the names.
abbrev pub IsAscending : List EdgeDevice → Type 0
IsAscending [] = Unit {0}
IsAscending (d ∷ ds) = All (IsBefore d) ds × IsAscending ds

insert_by_name-Permᴰ :
    (d : EdgeDevice) (ds : List EdgeDevice) → Permᴰ (insert_by_name d ds) (d ∷ ds)
unfolding insert_by_name
insert_by_name-Permᴰ d [] = Permᴰ.refl (d ∷ [])
insert_by_name-Permᴰ d (e ∷ es) = elim (Bool-cases (name_before e.metadata.name d.metadata.name)) [
  | inl before ↦
      rw before (Permᴰ.trans (Permᴰ.cons refl (insert_by_name-Permᴰ d es)) (Permᴰ.swap refl refl))
  | inr after ↦ rw after (Permᴰ.refl (d ∷ e ∷ es))
]

sort_by_name-Permᴰ : (ds : List EdgeDevice) → Permᴰ (sort_by_name ds) ds
unfolding sort_by_name
sort_by_name-Permᴰ [] = Permᴰ.nil
sort_by_name-Permᴰ (d ∷ ds) =
    Permᴰ.trans (insert_by_name-Permᴰ d (sort_by_name ds)) (Permᴰ.cons refl (sort_by_name-Permᴰ ds))

All-Permᴰ : (P : EdgeDevice → Type 0) {k l : List EdgeDevice} → Permᴰ k l → All P k → All P l
All-Permᴰ P Permᴰ.nil h = h
All-Permᴰ P (Permᴰ.cons e p) (h, hs) = (subst P e h, All-Permᴰ P p hs)
All-Permᴰ P (Permᴰ.swap e f) (h, (i, hs)) = (subst P f i, (subst P e h, hs))
All-Permᴰ P (Permᴰ.trans p q) h = All-Permᴰ P q (All-Permᴰ P p h)

UniqueNames-Permᴰ : {k l : List EdgeDevice} → Permᴰ k l → UniqueNames k → UniqueNames l
UniqueNames-Permᴰ Permᴰ.nil h = h
UniqueNames-Permᴰ {k = a ∷ ks} {l = b ∷ ls} (Permᴰ.cons e p) (h, hs) =
    (subst (λ d. All (OtherName d) ls) e (All-Permᴰ (OtherName a) p h), UniqueNames-Permᴰ p hs)
UniqueNames-Permᴰ {l = b2 ∷ a2 ∷ ls} (Permᴰ.swap e f) ((ne, h), (i, hs)) = (
  (
    λ s. ne (ap (λ d. d.metadata.name) e ∙ sym s ∙ sym (ap (λ d. d.metadata.name) f)),
    subst (λ d. All (OtherName d) ls) f i,
  ),
  (subst (λ d. All (OtherName d) ls) e h, hs),
)
UniqueNames-Permᴰ (Permᴰ.trans p q) h = UniqueNames-Permᴰ q (UniqueNames-Permᴰ p h)

-- Of two devices with different names, the test tells which is the first.
name_cases :
    (d e : EdgeDevice)
    → OtherName d e
    → ((name_before e.metadata.name d.metadata.name ≡ true) × IsBefore e d)
      ⊎ ((name_before e.metadata.name d.metadata.name ≡ false) × IsBefore d e)
name_cases d e ne =
    let test = is_lt_iff e.metadata.name d.metadata.name in
    elim (Bool-cases (name_before e.metadata.name d.metadata.name)) [
      | inl first ↦ inl (first, test.0 first)
      | inr last ↦ elim (Before-total d.metadata.name e.metadata.name) [
        | inl b ↦ inr (last, b)
        | inr (inl same) ↦ absurd (ne same)
        | inr (inr b) ↦ absurd (cc (test.1 b, last))
      ]
    ]

All-IsBefore_trans :
    (d e : EdgeDevice) (es : List EdgeDevice)
    → IsBefore d e
    → All (IsBefore e) es
    → All (IsBefore d) es
All-IsBefore_trans d e [] b h = tt
All-IsBefore_trans d e (f ∷ fs) b (h, hs) = (Before-trans _ _ _ b h, All-IsBefore_trans d e fs b hs)

insert_by_name-IsAscending :
    (d : EdgeDevice) (es : List EdgeDevice)
    → All (OtherName d) es
    → IsAscending es
    → IsAscending (insert_by_name d es)
unfolding insert_by_name
insert_by_name-IsAscending d [] ne up = (tt, tt)
insert_by_name-IsAscending d (e ∷ es) (ne, nes) (low, up) = elim (name_cases d e ne) [
  | inl (test, b) ↦ rw test (
    All-Permᴰ (IsBefore e) (Permᴰ.symm (insert_by_name-Permᴰ d es)) (b, low),
    insert_by_name-IsAscending d es nes up,
  )
  | inr (test, b) ↦ rw test ((b, All-IsBefore_trans d e es b low), (low, up))
]

sort_by_name-IsAscending : (ds : List EdgeDevice) → UniqueNames ds → IsAscending (sort_by_name ds)
unfolding sort_by_name
sort_by_name-IsAscending [] u = tt
sort_by_name-IsAscending (d ∷ ds) (ne, u) =
    insert_by_name-IsAscending d (sort_by_name ds)
      (All-Permᴰ (OtherName d) (Permᴰ.symm (sort_by_name-Permᴰ ds)) ne)
      (sort_by_name-IsAscending ds u)

-- A device goes before the first that it precedes, and past those that precede it.
insert_stops :
    (d e : EdgeDevice) (es : List EdgeDevice)
    → IsBefore d e
    → insert_by_name d (e ∷ es) ≡ d ∷ e ∷ es
unfolding insert_by_name
insert_stops d e es b =
    let test = is_lt_iff e.metadata.name d.metadata.name in
    elim (Bool-cases (name_before e.metadata.name d.metadata.name)) [
      | inl first ↦ absurd (Before-asymm _ _ b (test.0 first))
      | inr last ↦ rw (insert_by_name, last) refl
    ]

insert_passes :
    (d e : EdgeDevice) (es : List EdgeDevice)
    → IsBefore e d
    → insert_by_name d (e ∷ es) ≡ e ∷ insert_by_name d es
unfolding insert_by_name
insert_passes d e es b = rw (insert_by_name, (is_lt_iff e.metadata.name d.metadata.name).1 b) refl

-- Two devices in front of a list whose names differ from theirs, the first before the second.
insert_pair :
    (d e : EdgeDevice) (ds : List EdgeDevice)
    → IsBefore d e
    → All (OtherName d) ds
    → All (OtherName e) ds
    → insert_by_name d (insert_by_name e ds) ≡ insert_by_name e (insert_by_name d ds)
unfolding insert_by_name
insert_pair d e [] b nd ne = insert_stops d e [] b ∙ sym (insert_passes e d [] b)
insert_pair d e (f ∷ fs) b (nd, nds) (ne, nes) = elim (name_cases d f nd) [
  | inl (_, f_d) ↦
      let f_e = Before-trans f.metadata.name d.metadata.name e.metadata.name f_d b in
      ap (insert_by_name d) (insert_passes e f fs f_e)
      ∙ insert_passes d f (insert_by_name e fs) f_d
      ∙ ap (λ l. f ∷ l) (insert_pair d e fs b nds nes)
      ∙ sym (insert_passes e f (insert_by_name d fs) f_e)
      ∙ sym (ap (insert_by_name e) (insert_passes d f fs f_d))
  | inr (_, d_f) ↦
      let after = insert_passes e d (f ∷ fs) b in
      let whole = ap (insert_by_name e) (insert_stops d f fs d_f) ∙ after in
      elim (name_cases e f ne) [
        | inl (_, f_e) ↦
            ap (insert_by_name d) (insert_passes e f fs f_e)
            ∙ insert_stops d f (insert_by_name e fs) d_f
            ∙ sym (whole ∙ ap (λ l. d ∷ l) (insert_passes e f fs f_e))
        | inr (_, e_f) ↦
            ap (insert_by_name d) (insert_stops e f fs e_f)
            ∙ insert_stops d e (f ∷ fs) b
            ∙ sym (whole ∙ ap (λ l. d ∷ l) (insert_stops e f fs e_f))
      ]
]

insert_swap :
    (d e : EdgeDevice) (ds : List EdgeDevice)
    → OtherName d e
    → All (OtherName d) ds
    → All (OtherName e) ds
    → insert_by_name d (insert_by_name e ds) ≡ insert_by_name e (insert_by_name d ds)
insert_swap d e ds ne nd nes = elim (Before-total d.metadata.name e.metadata.name) [
  | inl b ↦ insert_pair d e ds b nd nes
  | inr (inl same) ↦ absurd (ne same)
  | inr (inr b) ↦ sym (insert_pair e d ds b nes nd)
]

-- The result of the sort does not depend on the order of the list.
sort_by_name-eq :
    {k l : List EdgeDevice} → Permᴰ k l → UniqueNames k → sort_by_name k ≡ sort_by_name l
unfolding sort_by_name
sort_by_name-eq Permᴰ.nil u = refl
sort_by_name-eq (Permᴰ.cons {b} {l₁} e p) u =
    ap (λ d. insert_by_name d (sort_by_name l₁)) e ∙ ap (insert_by_name b) (sort_by_name-eq p u.1)
sort_by_name-eq (Permᴰ.swap {a} {b} {l} e f) ((ne, na), (nb, u)) =
    let back = Permᴰ.symm (sort_by_name-Permᴰ l) in
    insert_swap a b (sort_by_name l) ne (All-Permᴰ (OtherName a) back na)
      (All-Permᴰ (OtherName b) back nb)
    ∙ ap₂ (λ x y. insert_by_name x (insert_by_name y (sort_by_name l))) f e
sort_by_name-eq (Permᴰ.trans p q) u =
    sort_by_name-eq p u ∙ sort_by_name-eq q (UniqueNames-Permᴰ p u)

module _ (M : Machinery) (C : Client) where
  -- A pass that goes through the listed devices in the order of their names, which is the same for
  -- every order in which they can be listed.
  pub record InOrder (req : NamespacedName) (ro : FleetRollout) (devs : List EdgeDevice)
      (w w2 : C.World) : Type 0 where
    pub batch : List EdgeDevice
    pub whole : Permᴰ batch devs
    pub ascending : IsAscending batch
    pub goes : reconcile M C req w ≡ campaign M C ro batch w2
    pub fixed : (other : List EdgeDevice) → Permᴰ devs other → sort_by_name other ≡ batch

  -- The rest of Reconcile, by what was listed and by what was read.
  abbrev with_fleet : FleetRollout → ApiResult (List EdgeDevice) × C.World → Outcome × C.World
  with_fleet ro r =
      let (listed, w2) = r in
      elim listed [
        | err e ↦ (Outcome.failed e, w2)
        | ok devs ↦ campaign M C ro (sort_by_name devs) w2
      ]

  abbrev with_rollout : ApiResult FleetRollout × C.World → Outcome × C.World
  with_rollout r =
      let (found, w') = r in
      elim found [
        | err e ↦
            (elim (M.ignore_not_found e) [ none ↦ done 0 | some error ↦ Outcome.failed error ], w')
        | ok ro ↦ with_fleet ro (C.list_devices ro.metadata.namespace ro.spec.selector w')
      ]

  -- A pass that could read its rollout and list the devices, whose names are unique, goes through all
  -- of these devices, in the ascending order of their names; and any other listing of the same
  -- devices is sorted into the same list, so that the batch does not depend on how they are listed.
  pub order_free :
      (req : NamespacedName) (w w1 w2 : C.World) (ro : FleetRollout) (devs : List EdgeDevice)
      → C.get_rollout req w ≡ (ok ro, w1)
      → C.list_devices ro.metadata.namespace ro.spec.selector w1 ≡ (ok devs, w2)
      → UniqueNames devs
      → InOrder req ro devs w w2
  unfolding reconcile
  order_free req w w1 w2 ro devs read listed unique = record {
    batch = sort_by_name devs;
    whole = sort_by_name-Permᴰ devs;
    ascending = sort_by_name-IsAscending devs unique;
    goes = ap with_rollout read ∙ ap (with_fleet ro) listed;
    fixed = λ other same. sym (sort_by_name-eq same unique);
  }
