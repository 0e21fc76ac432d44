-- ===== src/Tests/Server.antt =====
-- A server for the tests, and the functions of apimachinery as they are documented: conditions by
-- their type, finalizers as a set of texts.
use edge_fleet_operator_demo.Base.{
  inl, inr, String, ◌≡◌, ◌≢◌, refl, sym, ap, eq_iff, eq_refl, Bool, true, false, ◌||◌, Bool-cases,
  Option, none, some, List, [], ◌∷◌, str_eq, if◌then◌else◌,
}
use edge_fleet_operator_demo.Api.{Condition, ObjectMeta, EdgeDevice, FleetRollout}
use edge_fleet_operator_demo.Api.Client.{ApiResult, ok, err, not_found, Secret, Client}
use edge_fleet_operator_demo.Api.Machinery.{
  Machinery, IsLawful, Shows, not_found_error, already_exists_error,
}

abbrev pub find : List Condition → String → Option Condition
find [] k = none
find (c ∷ cs) k = if str_eq c.kind k then some c else find cs k

abbrev pub set : List Condition → Condition → List Condition
set [] d = d ∷ []
set (c ∷ cs) d = if str_eq c.kind d.kind then d ∷ cs else c ∷ set cs d

abbrev pub member : String → List String → Bool
member f [] = false
member f (g ∷ gs) = str_eq g f || member f gs

abbrev without : String → List String → List String
without f [] = []
without f (g ∷ gs) = if str_eq g f then without f gs else g ∷ without f gs

find-set_self : (cs : List Condition) (c : Condition) → Shows (find (set cs c) c.kind) c
find-set_self [] c = rw (eq_refl c.kind) (refl, refl, refl)
find-set_self (d ∷ cs) c = elim (Bool-cases (str_eq d.kind c.kind)) [
  | inl same ↦ rw (same, eq_refl c.kind) (refl, refl, refl)
  | inr other ↦ rw (other, other) (find-set_self cs c)
]

absent_kind : (c : Condition) (k : String) → k ≢ c.kind → str_eq c.kind k ≡ false
absent_kind c k ne = elim (Bool-cases (str_eq c.kind k)) [
  | inl same ↦ absurd (ne (sym ((eq_iff c.kind k).0 same)))
  | inr other ↦ other
]

absent_first :
    (d c : Condition) (cs : List Condition) (k : String)
    → str_eq d.kind c.kind ≡ true
    → k ≢ c.kind
    → find cs k ≡ find (d ∷ cs) k
absent_first d c cs k same ne =
    let e : d.kind ≡ c.kind = (eq_iff d.kind c.kind).0 same in
    let off : str_eq d.kind k ≡ false = absent_kind d k (rw e ne) in rw off refl

find-set_ne :
    (cs : List Condition) (c : Condition) (k : String) → k ≢ c.kind → find (set cs c) k ≡ find cs k
find-set_ne [] c k ne = rw (absent_kind c k ne) refl
find-set_ne (d ∷ cs) c k ne = elim (Bool-cases (str_eq d.kind c.kind)) [
  | inr other ↦ rw other (ap (λ o. if str_eq d.kind k then some d else o) (find-set_ne cs c k ne))
  | inl same ↦ rw (same, absent_kind c k ne) (absent_first d c cs k same ne)
]

member-without : (f : String) (fs : List String) → member f (without f fs) ≡ false
member-without f [] = refl
member-without f (g ∷ gs) = elim (Bool-cases (str_eq g f)) [
  | inl same ↦ rw same (member-without f gs)
  | inr other ↦ rw (other, other) (member-without f gs)
]

abbrev pub machinery : Machinery
machinery = record {
  find_status_condition = find;
  set_status_condition = set;
  is_not_found = not_found_error;
  ignore_not_found = λ e. if not_found_error e then none else some e;
  ignore_already_exists = λ e. if already_exists_error e then none else some e;
  contains_finalizer = λ m f. member f m.finalizers;
  add_finalizer =
      λ m f. if member f m.finalizers then m else record m { finalizers = f ∷ m.finalizers };
  remove_finalizer = λ m f. record m { finalizers = without f m.finalizers };
}

contains-add :
    (m : ObjectMeta) (f : String)
    → machinery.contains_finalizer (machinery.add_finalizer m f) f ≡ true
contains-add m f = elim (Bool-cases (member f m.finalizers)) [
  | inl there ↦ rw there there
  | inr not_there ↦ rw (not_there, eq_refl f) refl
]

pub machinery-IsLawful : IsLawful machinery
machinery-IsLawful = record {
  find-set_self = find-set_self;
  find-set_ne = find-set_ne;
  is_not_found_lem = λ e. refl;
  ignore_not_found_lem = λ e. refl;
  ignore_already_exists_lem = λ e. refl;
  contains-add = contains-add;
  contains-remove = λ m f. member-without f m.finalizers;
}

-- A server with one device, one rollout and a fleet, which accepts every write and keeps the last
-- secret, if there is one.
pub record Cluster : Type 0 where
  pub stored : EdgeDevice
  pub fleet : List EdgeDevice
  pub campaign : FleetRollout
  pub credential : Option Secret

abbrev pub answer_secret : Option Secret → ApiResult Secret
answer_secret none = err not_found
answer_secret (some s) = ok s

abbrev pub server : Client
server = record {
  World = Cluster;
  get_device = λ _ w. (ok w.stored, w);
  get_rollout = λ _ w. (ok w.campaign, w);
  get_secret = λ _ w. (answer_secret w.credential, w);
  list_devices = λ _ _ w. (ok w.fleet, w);
  list_rollouts = λ _ w. (ok (w.campaign ∷ []), w);
  update_device = λ d w. (none, record w { stored = d });
  update_device_status = λ d w. (none, record w { stored = d });
  update_rollout_status = λ r w. (none, record w { campaign = r });
  create_secret = λ s w. (none, record w { credential = some s });
  update_secret = λ s w. (none, record w { credential = some s });
  delete_secret = λ _ w. (none, record w { credential = none });
}
