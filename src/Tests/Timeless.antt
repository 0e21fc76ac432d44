-- ===== src/Tests/Timeless.antt =====
-- The library of the tests does not read the times of conditions.
use edge_fleet_operator_demo.Base.{
  ◌≡◌, refl, sym, ap, ◌∙◌, inl, inr, String, Bool-cases, List, [], ◌∷◌, str_eq,
}
use edge_fleet_operator_demo.Api.{Condition}
use edge_fleet_operator_demo.Api.Faithful.{untimed, untimed_all}
use edge_fleet_operator_demo.Device.Restamped.{untimed_found, IsTimeless}
use edge_fleet_operator_demo.Tests.Server.{find, set, machinery}

find-untimed_all :
    (cs : List Condition) (k : String) → untimed_found (find cs k) ≡ find (untimed_all cs) k
find-untimed_all [] k = refl
find-untimed_all (c ∷ cs) k = elim (Bool-cases (str_eq c.kind k)) [
  | inl same ↦ rw same refl
  | inr off ↦ rw off (find-untimed_all cs k)
]

set-untimed_all :
    (cs : List Condition) (c : Condition)
    → untimed_all (set cs c) ≡ set (untimed_all cs) (untimed c)
set-untimed_all [] c = refl
set-untimed_all (d ∷ cs) c = elim (Bool-cases (str_eq d.kind c.kind)) [
  | inl same ↦ rw same refl
  | inr off ↦ rw off (ap (λ l. untimed d ∷ l) (set-untimed_all cs c))
]

pub machinery-IsTimeless : IsTimeless machinery
machinery-IsTimeless = record {
  finds = λ k l kind e.
      find-untimed_all k kind ∙ ap (λ cs. find cs kind) e ∙ sym (find-untimed_all l kind);
  sets =
      λ k l c e. set-untimed_all k c ∙ ap (λ cs. set cs (untimed c)) e ∙ sym (set-untimed_all l c);
}
