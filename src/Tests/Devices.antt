-- ===== src/Tests/Devices.antt =====
-- The device controller's theorems on sample devices.
use mathlib.Core.List.{Memᴰ}
use edge_fleet_operator_demo.Base.{
  ◌+◌, ◌≡◌, ◌↔◌, refl, ap, inl, true, false, Option, none, some, List, [], ◌∷◌, arith,
}
use edge_fleet_operator_demo.Api.{EdgeDevice, ready, degraded}
use edge_fleet_operator_demo.Api.Client.{ApiError, NamespacedName, Secret}
use edge_fleet_operator_demo.Api.Recording.{recording, Call}
use edge_fleet_operator_demo.Device.Status.{
  Config, Clock, second, timeout_of, project_status, status_equal,
}
use edge_fleet_operator_demo.Device.{
  fingerprint, new_secret, ensure_credential_secret, secured, reconcile, release, revoke_credential,
}
use edge_fleet_operator_demo.Device.Projection.{IsLive, failure, ready_iff, requeue_deadline}
use edge_fleet_operator_demo.Device.Settles.{projected, projection_settles}
use edge_fleet_operator_demo.Device.Credentials.{Writes, fresh_record, credential_settles}
use edge_fleet_operator_demo.Rollout.Fleet.{device_failed}
use edge_fleet_operator_demo.Rollout.Agreement.{failed_iff_degraded}
use edge_fleet_operator_demo.Api.Recording.{secret_created}
use edge_fleet_operator_demo.Api.Client.{ok}
use edge_fleet_operator_demo.Device.Status.{
  project_heartbeat, live_phase, same_health, time_sub, reports_failure,
}
use edge_fleet_operator_demo.Device.{drive, publish}
use edge_fleet_operator_demo.Device.Issues.{MayOwn, issues_only}
use edge_fleet_operator_demo.Device.Release.{Gone, let_go, deletion, sent, finalizer_last}
use edge_fleet_operator_demo.Tests.{upgraded_device, failed_device, cluster}
use edge_fleet_operator_demo.Api.Faithful.{found_of, DeviceStored, IsFaithful}
use edge_fleet_operator_demo.Device.{secret_key}
use edge_fleet_operator_demo.Tests.Server.{
  Cluster, answer_secret, machinery, machinery-IsLawful, server,
}

abbrev pub config : Config
config = record { heartbeat_timeout = 0; show_duration = λ _. "30s" }

-- Ten seconds after the heartbeat of the sample devices.
abbrev pub clock : Clock
clock = record { first = 110000000000; later = 110000001000 }

abbrev next_clock : Clock
next_clock = record { first = 120000000000; later = 120000001000 }

pub timeout_is : timeout_of config ≡ 30000000000
unfolding timeout_of
timeout_is = refl

ready_iff_example : ((project_status machinery config clock upgraded_device).0.phase ≡ ready) ↔ (
    IsLive config clock.first upgraded_device
    × (failure machinery upgraded_device ≡ false)
    × (upgraded_device.status.current_firmware_version
        ≡ upgraded_device.spec.desired_firmware_version))
ready_iff_example = ready_iff machinery config clock upgraded_device (omega (arith, timeout_is))

requeue_deadline_example :
    clock.later + (project_status machinery config clock upgraded_device).1
    ≡ 100000000000 + timeout_of config + second
requeue_deadline_example =
    requeue_deadline machinery config clock upgraded_device 100000000000 refl
      (omega (arith, timeout_is)) (omega arith) (omega arith) (omega arith)
      (omega (arith, timeout_is)) (omega (arith, timeout_is))

fresh : IsLive config clock.first upgraded_device
fresh = (100000000000, refl, omega (arith, timeout_is))

still : IsLive config next_clock.first upgraded_device
still = (100000000000, refl, omega (arith, timeout_is))

projection_settles_example :
    status_equal machinery
      (projected machinery machinery-IsLawful config clock upgraded_device).status
      (project_status machinery config next_clock
        (projected machinery machinery-IsLawful config clock upgraded_device)).0
    ≡ true
projection_settles_example =
    projection_settles machinery machinery-IsLawful config clock next_clock upgraded_device
      (omega (arith, timeout_is)) (λ _. still, λ _. fresh)

-- The secret that a device is given.
abbrev credential : Secret
credential = new_secret upgraded_device "token"

written :
    Writes
      (ensure_credential_secret machinery
        (recording server)
        upgraded_device
        "token"
        (fresh_record cluster)).1.calls
      credential
unfolding ensure_credential_secret
written = (none, inl (Memᴰ.head refl))

credential_settles_example :
    let later = record cluster { credential = some credential } in
    (fingerprint credential.metadata.annotations ≡ upgraded_device.metadata.uid)
    × (ensure_credential_secret machinery server upgraded_device "other" later ≡ (secured, later))
credential_settles_example =
    credential_settles machinery server upgraded_device "token" "other" cluster
      (record cluster { credential = some credential }) credential written refl

-- A device that is being deleted.
abbrev leaving : EdgeDevice
leaving = record upgraded_device {
  metadata = record upgraded_device.metadata { deletion_timestamp = some 1 };
}

abbrev request : NamespacedName
request = record { namespace = "fleet"; name = "a" }

abbrev closing : List Call
closing =
    (reconcile machinery (recording server) config clock "token" request
      (record { inner = record cluster { stored = leaving }; calls = [] })).1.calls

lets_go : Memᴰ (sent (let_go machinery leaving) none) closing
unfolding reconcile release revoke_credential
lets_go = Memᴰ.head refl

finalizer_last_example :
    (b : Option ApiError) × Gone b
    × (closing ≡ sent (let_go machinery leaving) none ∷ deletion leaving b ∷ [])
finalizer_last_example =
    finalizer_last machinery machinery-IsLawful server config clock "token" request
      (record cluster { stored = leaving }) leaving (let_go machinery leaving) 1 none refl refl
      lets_go

failed_iff_degraded_example :
    let new = projected machinery machinery-IsLawful config clock failed_device in
    (device_failed machinery new ≡ true) ↔ (new.status.phase ≡ degraded)
failed_iff_degraded_example =
    failed_iff_degraded machinery machinery-IsLawful config clock failed_device 100000000000 refl

-- The pass that gives the device its secret.
abbrev giving : List Call
giving =
    (reconcile machinery (recording server) config clock "token" request
      (record { inner = cluster; calls = [] })).1.calls

abbrev issue : Call
issue = record { write = secret_created credential; answer = none }

issued : Memᴰ issue giving
unfolding reconcile drive ensure_credential_secret publish project_status project_heartbeat
    live_phase status_equal same_health timeout_of time_sub reports_failure
issued = Memᴰ.tail (Memᴰ.head refl)

issues_only_example :
    (dev : EdgeDevice) × ((server.get_device request cluster).0 ≡ ok dev) × MayOwn machinery dev
issues_only_example =
    issues_only machinery machinery-IsLawful server config clock "token" request cluster issue
      issued tt

-- A device that the controller has not seen yet, on a server that it alone writes to.
abbrev newcomer : EdgeDevice
newcomer = record upgraded_device { metadata = record upgraded_device.metadata { finalizers = [] } }

abbrev quiet : Cluster
quiet = record cluster { stored = newcomer; credential = none }

server-IsFaithful : IsFaithful server request secret_key
server-IsFaithful = record {
  device_of = λ w. w.stored;
  secret_of = λ w. w.credential;
  reads_device = λ w. refl;
  reads_secret = λ w. ap (λ r. (r, w)) (answers w.credential);
  updates_device = λ d w e f g h. stored d w;
  updates_status = λ d w e f g. record {
    after = record w { stored = d };
    version = d.metadata.resource_version;
    conditions = d.status.conditions;
    same = refl;
    accepted = refl;
    stored = refl;
    other = refl;
  };
  creates_secret = λ s w e k u v. record {
    after = record w { credential = some s };
    secret = s;
    accepted = refl;
    stored = refl;
    annotated = refl;
    other = refl;
  };
  updates_secret = λ s old w e k. record {
    after = record w { credential = some s };
    secret = s;
    accepted = refl;
    stored = refl;
    annotated = refl;
    other = refl;
  };
}
  where
    answers : (o : Option Secret) → answer_secret o ≡ found_of o
    answers none = refl
    answers (some s) = refl

    stored :
        (d : EdgeDevice) (w : Cluster)
        → DeviceStored server
            (λ w. w.stored)
            (λ w. w.credential)
            d
            w
            (none, record w { stored = d })
    stored d w = record {
      after = record w { stored = d };
      version = d.metadata.resource_version;
      accepted = refl;
      stored = refl;
      other = refl;
    }
