-- ===== src/Api/Machinery.antt =====
-- The functions of k8s.io/apimachinery and of controller-runtime that the controllers call
-- (meta, apierrors, client and controllerutil): an interface, with what is documented of them.
use edge_fleet_operator_demo.Base.{
  String, ◌≡◌, ◌≢◌, Bool, true, false, Option, none, some, List, if◌then◌else◌,
}
use edge_fleet_operator_demo.Api.{Condition, ObjectMeta}
use edge_fleet_operator_demo.Api.Client.{ApiError, not_found, already_exists}

-- The tests and filters are of an error of a call that failed.
pub record Machinery : Type 0 where
  pub find_status_condition : List Condition → String → Option Condition
  pub set_status_condition : List Condition → Condition → List Condition
  pub is_not_found : ApiError → Bool
  pub ignore_not_found : ApiError → Option ApiError
  pub ignore_already_exists : ApiError → Option ApiError
  pub contains_finalizer : ObjectMeta → String → Bool
  pub add_finalizer : ObjectMeta → String → ObjectMeta
  pub remove_finalizer : ObjectMeta → String → ObjectMeta

abbrev pub not_found_error : ApiError → Bool
not_found_error not_found = true
not_found_error _ = false

abbrev pub already_exists_error : ApiError → Bool
already_exists_error already_exists = true
already_exists_error _ = false

-- A condition that was set is found with what was given, but for the transition time and message.
abbrev pub Shows : Option Condition → Condition → Type 0
Shows none c = ⊥
Shows (some d) c =
    (d.status ≡ c.status) × (d.reason ≡ c.reason) × (d.observed_generation ≡ c.observed_generation)

pub record IsLawful (M : Machinery) : Type 0 where
  pub find-set_self :
      (cs : List Condition) (c : Condition)
      → Shows (M.find_status_condition (M.set_status_condition cs c) c.kind) c
  pub find-set_ne :
      (cs : List Condition) (c : Condition) (k : String)
      → k ≢ c.kind
      → M.find_status_condition (M.set_status_condition cs c) k ≡ M.find_status_condition cs k
  pub is_not_found_lem : (e : ApiError) → M.is_not_found e ≡ not_found_error e
  pub ignore_not_found_lem :
      (e : ApiError) → M.ignore_not_found e ≡ (if not_found_error e then none else some e)
  pub ignore_already_exists_lem :
      (e : ApiError) → M.ignore_already_exists e ≡ (if already_exists_error e then none else some e)
  pub contains-add :
      (m : ObjectMeta) (f : String) → M.contains_finalizer (M.add_finalizer m f) f ≡ true
  pub contains-remove :
      (m : ObjectMeta) (f : String) → M.contains_finalizer (M.remove_finalizer m f) f ≡ false
