-- ===== src/Agent/Kube/Conflict.antt =====
-- UpdateStatus of internal/agent/kube.go: every write is made from the read just before it.
use mathlib.Core.Path.{subst}
use edge_fleet_operator_demo.Base.{
  Option-cases, ℕ, zero, suc, ◌+◌, ◌<◌, ◌≡◌, refl, ◌⊎◌, inl, inr, none, some, List, [], ◌∷◌, arith,
}
use edge_fleet_operator_demo.Agent.Kube.{
  Device, Response, Transport, KubeError, unreachable_error, undecodable, bad_status, conflict,
  repeated_conflicts, KubeResult, ok, err, read_device, read_written, stamp, get, put_status,
  update_loop, update_status,
}

-- The requests with their answers.
pub data Request : Type 0 where
  got : Response → Request
  sent : Device → Response → Request

pub record Logged (W : Type 0) : Type 0 where
  pub inner : W
  pub log : List Request

-- A transport that keeps the requests, the last one first.
abbrev pub logging : Transport → Transport
logging T = record {
  World = Logged T.World;
  get_request =
      λ s. let (r, w) = T.get_request s.inner in (r, record { inner = w; log = got r ∷ s.log });
  put_request = λ dev s.
      let (r, w) = T.put_request dev s.inner in (r, record { inner = w; log = sent dev r ∷ s.log });
}

-- Rounds that ended in a conflict: in each, the device that was read was changed and sent.
pub data Conflicts {W : Type 0} (mutate : W → Device → Device) : ℕ → List Request → Type 0 where
  none_yet : Conflicts mutate 0 []
  round :
      (n : ℕ) (log : List Request) (r a : Response) (w : W) (dev : Device)
      → Conflicts mutate n log
      → read_device r ≡ ok dev
      → read_written a ≡ some conflict
      → Conflicts mutate (suc n) (sent (stamp (mutate w dev)) a ∷ got r ∷ log)

-- How an update ends, by its result and its requests.
pub data Ends {W : Type 0} (mutate : W → Device → Device)
    : KubeResult Device → List Request → Type 0 where
  written :
      (n : ℕ) (log : List Request) (r a : Response) (w : W) (dev : Device)
      → n < 5
      → Conflicts mutate n log
      → read_device r ≡ ok dev
      → read_written a ≡ none
      → Ends mutate (ok (stamp (mutate w dev))) (sent (stamp (mutate w dev)) a ∷ got r ∷ log)
  exhausted :
      (log : List Request) → Conflicts mutate 5 log → Ends mutate (err repeated_conflicts) log
  not_read :
      (n : ℕ) (log : List Request) (r : Response) (e : KubeError)
      → n < 5
      → Conflicts mutate n log
      → read_device r ≡ err e
      → Ends mutate (err e) (got r ∷ log)
  not_written :
      (n : ℕ) (log : List Request) (r a : Response) (w : W) (dev : Device) (e : KubeError)
      → n < 5
      → Conflicts mutate n log
      → read_device r ≡ ok dev
      → read_written a ≡ some e
      → Ends mutate (err e) (sent (stamp (mutate w dev)) a ∷ got r ∷ log)

KubeResult-cases :
    {A : Type 0} (r : KubeResult A) → ((a : A) × (r ≡ ok a)) ⊎ ((e : KubeError) × (r ≡ err e))
KubeResult-cases (ok a) = inl (a, refl)
KubeResult-cases (err e) = inr (e, refl)

module _ (T : Transport) (mutate : T.World → Device → Device) where
  update_loop-Ends :
      (left n : ℕ) (s : Logged T.World)
      → n + left ≡ 5
      → Conflicts mutate n s.log
      → let r = update_loop (logging T) (λ s'. mutate s'.inner) left s in Ends mutate r.0 r.1.log
  unfolding update_loop get put_status
  update_loop-Ends zero n s five c =
      let all : n ≡ 5 = omega (arith, five) in
      exhausted s.log (subst (λ k. Conflicts mutate k s.log) all c)
  update_loop-Ends (suc left) n s five c =
      let first = T.get_request s.inner in
      let few : n < 5 = omega (arith, five) in
      elim (KubeResult-cases (read_device first.0)) [
        | inr (e, bad) ↦ rw (update_loop, get, bad) (not_read n s.log first.0 e few c bad)
        | inl (dev, good) ↦
            let second = T.put_request (stamp (mutate first.1 dev)) first.1 in
            let ends : (e : KubeError) → read_written second.0 ≡ some e → Ends mutate (err e) _ =
              λ e. not_written n s.log first.0 second.0 first.1 dev e few c good in
            elim (Option-cases (read_written second.0)) [
              | inl fine ↦
                  rw (update_loop, get, good, put_status, fine)
                    (written n s.log first.0 second.0 first.1 dev few c good fine)
              | inr (conflict, bad) ↦
                  let later : Logged T.World = record {
                    inner = second.1;
                    log = sent (stamp (mutate first.1 dev)) second.0 ∷ got first.0 ∷ s.log;
                  } in
                  rw (update_loop, get, good, put_status, bad)
                    (update_loop-Ends left (suc n) later (omega (arith, five))
                      (round n s.log first.0 second.0 first.1 dev c good bad))
              | inr (unreachable_error, bad) ↦
                  rw (update_loop, get, good, put_status, bad) (ends unreachable_error bad)
              | inr (undecodable, bad) ↦
                  rw (update_loop, get, good, put_status, bad) (ends undecodable bad)
              | inr (bad_status k, bad) ↦
                  rw (update_loop, get, good, put_status, bad) (ends (bad_status k) bad)
              | inr (repeated_conflicts, bad) ↦
                  rw (update_loop, get, good, put_status, bad) (ends repeated_conflicts bad)
            ]
      ]

  -- UpdateStatus sends at most five writes. Each is the change made to the device that was read just
  -- before it, and is only followed by another round if the server answered 409. It succeeds with
  -- the device of the last write if the server accepted it, reports repeated conflicts after five,
  -- and any other error at once.
  pub update_status-Ends :
      (w : T.World)
      → let r = update_status (logging T) (λ s. mutate s.inner) (record { inner = w; log = [] }) in
        Ends mutate r.0 r.1.log
  unfolding update_status
  update_status-Ends w = update_loop-Ends 5 0 (record { inner = w; log = [] }) refl none_yet
