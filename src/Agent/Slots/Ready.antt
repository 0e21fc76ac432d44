-- ===== src/Agent/Slots/Ready.antt =====
-- NewSlotManager of internal/agent/slot.go: it leaves a device that can be booted.
use mathlib.Core.Path.{subst, subst⁻¹}
use edge_fleet_operator_demo.Base.{
  ◌≡◌, refl, sym, ◌∙◌, ◌⊎◌, inl, inr, String, Bool, true, false, Bool-cases, Option, none, some,
  arith, str_eq, eq_refl, if◌then◌else◌,
}
use edge_fleet_operator_demo.Agent.Disk.{
  version_file, confirmed_marker, FilePath, slot_dir, in_slot, current_link, current_tmp, staging,
  pure, Node, file, folder, Exec, mkdir_all, stat, write_file, same_path, continue, present, ◌>>◌,
  ◌>>=◌,
}
use edge_fleet_operator_demo.Agent.Slots.{other, absent, missing, switch_to, new_slot_manager}
use edge_fleet_operator_demo.Agent.Slots.Frame.{Frame, Frame-write_file}
use edge_fleet_operator_demo.Agent.Slots.Effects.{links, files_of, switch_to-Frame}
use edge_fleet_operator_demo.Agent.Slots.Rules.{Boots, Pair, Pair_ab}
use edge_fleet_operator_demo.Agent.Slots.Working.{
  Files, working, Ends, Ends-bind, Ends-from, Ends-framed, writes, switches,
}
use edge_fleet_operator_demo.Agent.Slots.Recovery.{Confirmed}

-- The path of a slot's directory is free, or the directory is there.
abbrev pub HasRoom : String → Files → Type 0
HasRoom s n = (n (slot_dir s) ≡ none) ⊎ (n (slot_dir s) ≡ some folder)

-- A device that never ran, or one with a confirmed slot that boots one of the two.
abbrev pub Bootable : Files → Type 0
Bootable n =
    (n current_link ≡ none)
    ⊎ ((x : String) × (y : String) × Pair x y
        × (Boots x (working n) ⊎ Boots y (working n))
        × Confirmed x n)

-- The slots are there, and there is one to fall back on.
abbrev pub Ready : Files → Type 0
Ready n =
    (x : String) × (y : String) × Pair x y
    × (Boots x (working n) ⊎ Boots y (working n))
    × Confirmed x n
    × (n (slot_dir y) ≡ some folder)

abbrev dirs : FilePath → Bool
dirs (slot_dir _) = true
dirs _ = false

Frame-mkdir_all : (s : String) → Frame (same_path (slot_dir s)) (mkdir_all (slot_dir s))
unfolding mkdir_all
Frame-mkdir_all s = record { at = λ d q h. ground arith }

makes :
    (n : Files) (s : String)
    → HasRoom s n
    → Ends (λ _ n'. n' (slot_dir s) ≡ some folder) (mkdir_all (slot_dir s) (working n))
unfolding mkdir_all same_path
makes n s room =
    Ends-from (λ _ n'. n' (slot_dir s) ≡ some folder) (mkdir_all (slot_dir s) (working n)) tt
      (ground arith) (ground arith) (ground (arith, eq_refl s))

-- Both directories are made, and nothing else is changed.
abbrev Made : Files → Files → Type 0
Made n n' =
    (n' (slot_dir "A") ≡ some folder)
    × (n' (slot_dir "B") ≡ some folder)
    × ((q : FilePath) → dirs q ≡ false → n' q ≡ n q)

not_dir : (s : String) (q : FilePath) → dirs q ≡ false → same_path (slot_dir s) q ≡ false
unfolding same_path
not_dir s (slot_dir t) h = absurd (cc h)
not_dir s (in_slot t f) h = refl
not_dir s current_link h = refl
not_dir s current_tmp h = refl
not_dir s (staging t) h = refl

-- NewSlotManager writes the factory slot and switches to it.
abbrev install_factory : Exec (Unit {0})
install_factory = do
  write_file (in_slot "A" version_file) "factory"
  write_file (in_slot "A" confirmed_marker) ""
  switch_to "A"

install_factory-Ready :
    (n : Files)
    → n (slot_dir "A") ≡ some folder
    → n (slot_dir "B") ≡ some folder
    → Ends (λ _ n'. Ready n') (install_factory (working n))
unfolding same_path
install_factory-Ready n a b =
    let goal = λ (_ : Unit {0}) (n' : Files). Ready n' in
    let S = files_of "A" in
    let version = write_file (in_slot "A" version_file) "factory" in
    let confirms = write_file (in_slot "A" confirmed_marker) "" in
    Ends-bind _ goal version (λ _. confirms >> switch_to "A") (working n)
      (Ends-framed _ S version n (Frame-write_file S _ _ refl)
        (writes n "A" version_file "factory" a))
      (λ _ n1 (_, same1).
        Ends-bind _ goal confirms (λ _. switch_to "A") (working n1)
          (Ends-framed _ S confirms n1 (Frame-write_file S _ _ refl)
            (writes n1 "A" confirmed_marker "" (same1 (slot_dir "A") refl ∙ a)))
          (λ _ n2 (ok, same2).
            let (r, n3, e, (boots, same3)) =
              Ends-framed _ links (switch_to "A") n2 (switch_to-Frame links "A" refl refl)
                (switches n2 "A") in
            (
              r,
              n3,
              e,
              (
                "A",
                "B",
                Pair_ab,
                inl boots,
                (file "", same3 (in_slot "A" confirmed_marker) refl ∙ ok),
                same3 (slot_dir "B") refl
                    ∙ same2 (slot_dir "B") refl
                    ∙ same1 (slot_dir "B") refl
                    ∙ b,
              ),
            )))

other_dir :
    {x y : String} (p : Pair x y) (n : Files)
    → n (slot_dir "A") ≡ some folder
    → n (slot_dir "B") ≡ some folder
    → n (slot_dir y) ≡ some folder
unfolding other
other_dir {x} p n a b = elim (Bool-cases (str_eq x "A")) [
  | inl e ↦
      subst (λ s. n (slot_dir s) ≡ some folder)
        (let o : other x ≡ "B" = rw (other, e) refl in sym o ∙ p.other_x) b
  | inr e ↦
      subst (λ s. n (slot_dir s) ≡ some folder)
        (let o : other x ≡ "A" = rw (other, e) refl in sym o ∙ p.other_x) a
]

-- Making the directories keeps a device bootable.
Bootable-made :
    (n n' : Files) → ((q : FilePath) → dirs q ≡ false → n' q ≡ n q) → Bootable n → Bootable n'
Bootable-made n n' same (inl fresh) = inl (same current_link refl ∙ fresh)
Bootable-made n n' same (inr (x, y, p, inl boots, (k, ok))) = inr (
  x,
  y,
  p,
  inl (same current_link refl ∙ boots),
  (k, same (in_slot x confirmed_marker) refl ∙ ok),
)
Bootable-made n n' same (inr (x, y, p, inr boots, (k, ok))) = inr (
  x,
  y,
  p,
  inr (same current_link refl ∙ boots),
  (k, same (in_slot x confirmed_marker) refl ∙ ok),
)

linked :
    (n : Files) (x y : String)
    → Boots x (working n) ⊎ Boots y (working n)
    → (k : Node) × (n current_link ≡ some k)
linked n x y (inl boots) = (_, boots)
linked n x y (inr boots) = (_, boots)

choose_slot-Ready :
    (n : Files)
    → n (slot_dir "A") ≡ some folder
    → n (slot_dir "B") ≡ some folder
    → Bootable n
    → Ends
        (λ _ n'. Ready n')
        ((missing (stat current_link) >>= λ fresh. if fresh then install_factory else pure tt)
          (working n))
unfolding stat
choose_slot-Ready n a b boot =
    let after = λ (o : Option Node).
      Ends (λ (_ : Unit {0}) n'. Ready n')
        (continue (absent (present o, working n))
          λ fresh. if fresh then install_factory else pure tt) in
    elim boot [
      | inl fresh ↦ subst⁻¹ after fresh (install_factory-Ready n a b)
      | inr (x, y, p, boots, ok) ↦
          let (k, there) = linked n x y boots in
          subst⁻¹ after there (tt, n, refl, (x, y, p, boots, ok, other_dir p n a b))
    ]

pub new_slot_manager-Ready :
    (n : Files)
    → HasRoom "A" n
    → HasRoom "B" n
    → Bootable n
    → Ends (λ _ n'. Ready n') (new_slot_manager (working n))
unfolding new_slot_manager same_path
new_slot_manager-Ready n room_a room_b boot =
    let goal = λ (_ : Unit {0}) (n' : Files). Ready n' in
    let S = λ (s : String). same_path (slot_dir s) in
    Ends-bind _ goal (mkdir_all (slot_dir "A")) _ (working n)
      (Ends-framed _ (S "A") (mkdir_all (slot_dir "A")) n (Frame-mkdir_all "A")
        (makes n "A" room_a))
      (λ _ n1 (a, same1).
        let room : HasRoom "B" n1 =
          subst⁻¹ (λ o. (o ≡ none) ⊎ (o ≡ some folder)) (same1 (slot_dir "B") refl) room_b in
        Ends-bind _ goal (mkdir_all (slot_dir "B")) _ (working n1)
          (Ends-framed _ (S "B") (mkdir_all (slot_dir "B")) n1 (Frame-mkdir_all "B")
            (makes n1 "B" room))
          (λ _ n2 (b, same2). choose_slot-Ready n2 (same2 (slot_dir "A") refl ∙ a) b (
            Bootable-made n n2 (λ q h. same2 q (not_dir "B" q h) ∙ same1 q (not_dir "A" q h))
              boot)))
