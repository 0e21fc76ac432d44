-- ===== src/Api/Recording.antt =====
-- A client that passes every call on to another and keeps the writes with their answers, the last
-- one first. Statements about what a controller writes are statements about this list.
use edge_fleet_operator_demo.Base.{Option, List, ◌∷◌}
use edge_fleet_operator_demo.Api.{EdgeDevice, FleetRollout}
use edge_fleet_operator_demo.Api.Client.{ApiError, ApiResult, NamespacedName, Secret, Client}

pub data Write : Type 0 where
  device : EdgeDevice → Write
  device_status : EdgeDevice → Write
  rollout_status : FleetRollout → Write
  secret_created : Secret → Write
  secret_updated : Secret → Write
  secret_deleted : NamespacedName → Write

pub record Call : Type 0 where
  pub write : Write
  pub answer : Option ApiError

pub record Recorded (W : Type 0) : Type 0 where
  pub inner : W
  pub calls : List Call

abbrev read : {A W : Type 0} → (W → ApiResult A × W) → Recorded W → ApiResult A × Recorded W
read f s = let (r, w) = f s.inner in (r, record s { inner = w })

abbrev noted :
    {W : Type 0} → Write → (W → Option ApiError × W) → Recorded W → Option ApiError × Recorded W
noted write f s =
    let (e, w) = f s.inner in
    (e, record { inner = w; calls = record { write = write; answer = e } ∷ s.calls })

abbrev pub recording : Client → Client
recording C = record {
  World = Recorded C.World;
  get_device = λ n. read (C.get_device n);
  get_rollout = λ n. read (C.get_rollout n);
  get_secret = λ n. read (C.get_secret n);
  list_devices = λ ns labels. read (C.list_devices ns labels);
  list_rollouts = λ ns. read (C.list_rollouts ns);
  update_device = λ d. noted (device d) (C.update_device d);
  update_device_status = λ d. noted (device_status d) (C.update_device_status d);
  update_rollout_status = λ r. noted (rollout_status r) (C.update_rollout_status r);
  create_secret = λ s. noted (secret_created s) (C.create_secret s);
  update_secret = λ s. noted (secret_updated s) (C.update_secret s);
  delete_secret = λ n. noted (secret_deleted n) (C.delete_secret n);
}
