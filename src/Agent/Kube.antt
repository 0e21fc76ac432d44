-- ===== src/Agent/Kube.antt =====
-- internal/agent/kube.go: the agent's view of a device and its reads and writes over HTTP.
pub mod Conflict
pub mod Conditions
use edge_fleet_operator_demo.Base.{
  ℕ, zero, suc, String, Bool, true, false, Option, none, some, List, StringMap, [], ◌∷◌, str_eq,
  leb, ◌==◌, if◌then◌else◌,
}

pub record ObjectMeta : Type 0 where
  pub name : String
  pub namespace : String
  pub resource_version : String
  pub generation : ℕ
  pub uid : String

pub record DeviceSpec : Type 0 where
  pub desired_firmware_version : String
  pub firmware_url : String
  pub checksum_sha256 : String
  pub region : String
  pub device_labels : StringMap
  pub rollout_paused : Bool

pub record Condition : Type 0 where
  pub kind : String
  pub status : String
  pub observed_generation : ℕ
  pub last_transition_time : String
  pub reason : String
  pub message : String

pub record DeviceStatus : Type 0 where
  pub phase : String
  pub conditions : List Condition
  pub current_firmware_version : String
  pub active_slot : String
  pub last_heartbeat : String
  pub observed_generation : ℕ

pub record Device : Type 0 where
  pub api_version : String
  pub kind : String
  pub metadata : ObjectMeta
  pub spec : DeviceSpec
  pub status : DeviceStatus

-- What a request comes to: no response; or a status, with the device that the body decodes to.
pub data Response : Type 0 where
  unreachable : Response
  response : ℕ → Option Device → Response

-- net/http with the API server behind it.
pub record Transport : Type 1 where
  pub World : Type 0
  pub get_request : World → Response × World
  pub put_request : Device → World → Response × World

pub data KubeError : Type 0 where
  unreachable_error undecodable : KubeError
  bad_status : ℕ → KubeError
  conflict : KubeError
  repeated_conflicts : KubeError

pub data KubeResult (A : Type 0) : Type 0 where
  ok : A → KubeResult A
  err : KubeError → KubeResult A

-- What Get makes of a response.
unfoldable pub read_device : Response → KubeResult Device
read_device unreachable = err unreachable_error
read_device (response status body) =
    if status == 200
    then (elim body [ none ↦ err undecodable | some dev ↦ ok dev ])
    else err (bad_status status)

-- What PutStatus makes of a response.
pub read_written : Response → Option KubeError
read_written unreachable = some unreachable_error
read_written (response status body) =
    if status == 409
    then some conflict
    else if leb 300 status
    then some (bad_status status)
    else none

-- The two fields that PutStatus sets before it sends.
pub stamp : Device → Device
stamp dev = record dev { api_version = "edge.example.com/v1alpha1"; kind = "EdgeDevice" }

module _ (T : Transport) where
  open T use {World, get_request, put_request}

  -- Get
  unfoldable pub get : World → KubeResult Device × World
  unfolding read_device
  get w = let (r, w') = get_request w in (read_device r, w')

  -- PutStatus, which leaves its changes in the device.
  pub put_status : Device → World → Option KubeError × World
  unfolding read_written stamp
  put_status dev w = let (r, w') = put_request (stamp dev) w in (read_written r, w')

  -- The loop of UpdateStatus, by the number of attempts left. The mutation is a closure: it can read
  -- what the other goroutines share, as it is at that moment.
  pub update_loop : (World → Device → Device) → ℕ → World → KubeResult Device × World
  unfolding get put_status
  update_loop mutate zero w = (err repeated_conflicts, w)
  update_loop mutate (suc left) w =
      let (found, w') = get w in
      elim found [
        | err e ↦ (err e, w')
        | ok dev ↦
            let (e, w2) = put_status (mutate w' dev) w' in
            elim e [
              | none ↦ (ok (stamp (mutate w' dev)), w2)
              | some conflict ↦ update_loop mutate left w2
              | some other ↦ (err other, w2)
            ]
      ]

  -- UpdateStatus
  pub update_status : (World → Device → Device) → World → KubeResult Device × World
  unfolding update_loop
  update_status mutate w = update_loop mutate 5 w

-- The condition as SetCondition leaves it.
unfoldable pub renew : Condition → Condition → Condition
renew old new = record new {
  last_transition_time =
      if str_eq old.status new.status then old.last_transition_time else new.last_transition_time;
}

-- The loop of SetCondition: `new` has the present time.
unfoldable pub upsert : Condition → List Condition → List Condition
unfolding renew
upsert new [] = new ∷ []
upsert new (old ∷ others) =
    if str_eq old.kind new.kind then renew old new ∷ others else old ∷ upsert new others

-- SetCondition
unfoldable pub set_condition : Condition → DeviceStatus → DeviceStatus
unfolding upsert
set_condition new st = record st { conditions = upsert new st.conditions }

-- The write of reportStatus in agent.go, given the generation that was last seen.
unfoldable pub stamped : (DeviceStatus → ℕ → DeviceStatus) → ℕ → Device → Device
stamped mutate gen dev = record dev {
  status = record (mutate dev.status gen) { observed_generation = gen };
}
