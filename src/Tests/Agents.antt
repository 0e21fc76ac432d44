-- ===== src/Tests/Agents.antt =====
-- The agent's theorems on a machine and on a disk.
use edge_fleet_operator_demo.Base.{
  ◌≡◌, true, str_eq, if◌then◌else◌, String, ◌<>◌, Option, none, some, List, [], ◌∷◌,
}
use edge_fleet_operator_demo.Agent.Disk.{
  SlotFile, version_file, confirmed_marker, FilePath, slot_dir, in_slot, current_link, current_tmp,
  staging, Node, file, link, folder, fine, breaks, dies, Disk,
}
use edge_fleet_operator_demo.Agent.Fsm.{State, downloading, verifying, flashing, confirming, new}
use edge_fleet_operator_demo.Agent.Fsm.Graph.{to_all, LeadsTo, Checked, trace-Checked}

abbrev pub factory : SlotFile → Option Node
factory version_file = some (file "factory")
factory confirmed_marker = some (file "")
factory _ = none

-- The device boots slot A as it left the factory, and a download has been staged. The tenth call fails and tears a file,
-- and the power is lost at the twelfth.
abbrev pub files : FilePath → Option Node
files (slot_dir _) = some folder
files (in_slot slot f) = if str_eq slot "A" then factory f else none
files current_link = some (link "slotA")
files (staging _) = some (file "image")
files current_tmp = none

abbrev pub disk : Disk
disk = record {
  node = files;
  script =
      fine
      ∷ fine
      ∷ fine
      ∷ fine
      ∷ fine
      ∷ fine
      ∷ fine
      ∷ fine
      ∷ fine
      ∷ breaks (some "torn")
      ∷ fine
      ∷ dies none
      ∷ [];
}

-- A stand-in for the hash of a content.
abbrev pub digest : String → String
digest content = "hash of " <> content

-- An upgrade, with one call that is refused.
abbrev moves : List State
moves = downloading ∷ flashing ∷ verifying ∷ flashing ∷ confirming ∷ []

trace-Checked_example :
    let f = to_all moves (new true) in
    LeadsTo f.state f.log × (f.state ≡ confirming → Checked f.log)
trace-Checked_example = trace-Checked moves
