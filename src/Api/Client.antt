-- ===== src/Api/Client.antt =====
-- The controller-runtime client, sigs.k8s.io/controller-runtime/pkg/client, as an interface.
-- A call may change the world it runs in in any way: other writers are part of it.
use edge_fleet_operator_demo.Base.{ℕ, String, Option, List, StringMap}
use edge_fleet_operator_demo.Api.{ObjectMeta, EdgeDevice, FleetRollout}

pub data ApiError : Type 0 where
  not_found already_exists conflict transient : ApiError

pub data ApiResult (A : Type 0) : Type 0 where
  ok : A → ApiResult A
  err : ApiError → ApiResult A

pub record NamespacedName : Type 0 where
  pub namespace : String
  pub name : String

-- corev1.Secret, with the one key of its data.
pub record Secret : Type 0 where
  pub metadata : ObjectMeta
  pub token : String

-- What Reconcile returns: a result with the time to the next run, 0 for none, or an error; or it
-- panics.
pub data Outcome : Type 0 where
  done : ℕ → Outcome
  failed : ApiError → Outcome
  panicked : Outcome

-- A write answers nil, or an error.
pub record Client : Type 1 where
  pub World : Type 0
  pub get_device : NamespacedName → World → ApiResult EdgeDevice × World
  pub get_rollout : NamespacedName → World → ApiResult FleetRollout × World
  pub get_secret : NamespacedName → World → ApiResult Secret × World
  pub list_devices : String → StringMap → World → ApiResult (List EdgeDevice) × World
  pub list_rollouts : String → World → ApiResult (List FleetRollout) × World
  pub update_device : EdgeDevice → World → Option ApiError × World
  pub update_device_status : EdgeDevice → World → Option ApiError × World
  pub update_rollout_status : FleetRollout → World → Option ApiError × World
  pub create_secret : Secret → World → Option ApiError × World
  pub update_secret : Secret → World → Option ApiError × World
  pub delete_secret : NamespacedName → World → Option ApiError × World
