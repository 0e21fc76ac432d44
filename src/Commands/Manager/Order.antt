-- ===== src/Commands/Manager/Order.antt =====
-- In which order cmd/main.go sets the operator up, and when it starts.
use mathlib.Core.Path.{subst⁻¹}
use mathlib.Core.List.{append_assoc}
use edge_fleet_operator_demo.Base.{
  ℕ, String, ◌≡◌, refl, ◌∙◌, Bool, true, false, Option, none, some, List, [], ◌∷◌, ◌++◌, arith,
  if◌then◌else◌,
}
use edge_fleet_operator_demo.Commands.Manager.{
  TlsConfig, with_authentication_and_authorization, ManagerOptions, Flags, disable_http2, tls_opts,
  webhook_server_options, metrics_server_options, manager_options, Registration,
  edge_device_registration, fleet_rollout_registration, Group, client_go, edge_v1alpha1, Runtime,
  Main, goes, exits, main_then, or_code, or_exit, manager_main,
}

-- What the program asks of the libraries, apart from the objects that they gave it.
pub data Request : Type 0 where
  adds : Group → Request
  reads_config : Request
  makes_manager : ManagerOptions → Request
  registers : Registration → Request
  adds_healthz adds_readyz : String → Request
  starts : Request

-- The whole program, when nothing fails.
abbrev pub requests : Flags → List Request
requests flags =
    adds client_go
    ∷ adds edge_v1alpha1
    ∷ reads_config
    ∷ makes_manager (manager_options flags)
    ∷ registers (edge_device_registration flags.heartbeat_timeout)
    ∷ registers fleet_rollout_registration
    ∷ adds_healthz "healthz"
    ∷ adds_readyz "readyz"
    ∷ starts
    ∷ []

-- The code with which the program exits when this fails.
abbrev pub code_of : Request → ℕ
code_of (adds _) = 2
code_of _ = 1

-- The log of a program that makes the requests in order, up to the first that fails, and exits with
-- its code; the second part of an entry is whether the request succeeded.
pub data Follows : List Request → List (Request × Bool) → Main (Unit {0}) → Type 0 where
  complete : Follows [] [] (goes tt)
  next :
      {r : Request} {rs : List Request} {log : List (Request × Bool)} {m : Main (Unit {0})}
      → Follows rs log m
      → Follows (r ∷ rs) ((r, true) ∷ log) m
  stops : {r : Request} {rs : List Request} → Follows (r ∷ rs) ((r, false) ∷ []) (exits (code_of r))

pub record Recorded (W : Type 0) : Type 0 where
  pub inner : W
  pub log : List (Request × Bool)

abbrev is_some : {A : Type 0} → Option A → Bool
is_some none = false
is_some (some _) = true

abbrev noted : {A W : Type 0} → Request → (W → Option A × W) → Recorded W → Option A × Recorded W
noted r f s =
    let (o, w) = f s.inner in (o, record { inner = w; log = s.log ++ (r, is_some o) ∷ [] })

-- The libraries, with a log of what was asked.
abbrev pub recording : Runtime → Runtime
recording R = record {
  World = Recorded R.World;
  RestConfig = R.RestConfig;
  Manager = R.Manager;
  add_to_scheme = λ g. noted (adds g) (R.add_to_scheme g);
  get_config = noted reads_config R.get_config;
  new_manager = λ c o. noted (makes_manager o) (R.new_manager c o);
  complete = λ m r. noted (registers r) (R.complete m r);
  add_healthz_check = λ m n. noted (adds_healthz n) (R.add_healthz_check m n);
  add_readyz_check = λ m n. noted (adds_readyz n) (R.add_readyz_check m n);
  start = λ m. noted starts (R.start m);
}

-- From a log on.
abbrev Goes :
    {W : Type 0} → List Request → List (Request × Bool) → Main (Unit {0}) × Recorded W → Type 0
Goes rs before o = (log : List (Request × Bool)) × (o.1.log ≡ before ++ log) × Follows rs log o.0

module _ {W : Type 0} where
  asked :
      {A : Type 0} (o : Option A) (w : W) (r : Request) (rs : List Request)
      (before : List (Request × Bool)) (k : A → Recorded W → Main (Unit {0}) × Recorded W)
      → ((a : A) (s : Recorded W) → Goes rs s.log (k a s))
      → Goes (r ∷ rs) before (
          main_then
            (or_code (code_of r) (o, record { inner = w; log = before ++ (r, is_some o) ∷ [] }))
            k)
  asked none w r rs before k h = ((r, false) ∷ [], refl, stops)
  asked (some a) w r rs before k h =
      let (log, e, follows) = h a (record { inner = w; log = before ++ (r, true) ∷ [] }) in
      ((r, true) ∷ log, e ∙ append_assoc before ((r, true) ∷ []) log, next follows)

  asks :
      {A : Type 0} (f : W → Option A × W) (r : Request) (rs : List Request)
      (k : A → Recorded W → Main (Unit {0}) × Recorded W)
      → ((a : A) (s : Recorded W) → Goes rs s.log (k a s))
      → (s : Recorded W) → Goes (r ∷ rs) s.log (main_then (or_exit (code_of r) (noted r f) s) k)
  asks f r rs k h s = let (o, w) = f s.inner in asked o w r rs s.log k h

  asked_last :
      (o : Option (Unit {0})) (w : W) (r : Request) (before : List (Request × Bool))
      → Goes
          (r ∷ [])
          before
          (or_code (code_of r) (o, record { inner = w; log = before ++ (r, is_some o) ∷ [] }))
  asked_last none w r before = ((r, false) ∷ [], refl, stops)
  asked_last (some u) w r before = ((r, true) ∷ [], refl, next complete)

  asks_last :
      (f : W → Option (Unit {0}) × W) (r : Request) (s : Recorded W)
      → Goes (r ∷ []) s.log (or_exit (code_of r) (noted r f) s)
  asks_last f r s = let (o, w) = f s.inner in asked_last o w r s.log

abbrev pub applied : List (TlsConfig → TlsConfig) → TlsConfig → TlsConfig
applied [] c = c
applied (f ∷ fs) c = applied fs (f c)

-- A server that offers HTTP/2 only if the flag says so.
abbrev pub IsHardened : Flags → List (TlsConfig → TlsConfig) → Type 0
IsHardened flags opts =
    (flags.enable_http2 ≡ false → (c : TlsConfig) → (applied opts c).next_protos ≡ "http/1.1" ∷ [])
    × (flags.enable_http2 ≡ true → (c : TlsConfig) → applied opts c ≡ c)

tls_opts-IsHardened : (flags : Flags) → IsHardened flags (tls_opts flags)
unfolding tls_opts disable_http2
tls_opts-IsHardened flags = (λ e c. rw e refl, λ e c. rw e refl)

metrics_lem :
    (flags : Flags)
    → let o = metrics_server_options flags in
      (o.tls_opts ≡ tls_opts flags)
      × (o.secure_serving ≡ flags.secure_metrics)
      × (o.filter_provider
          ≡ (if flags.secure_metrics then some with_authentication_and_authorization else none))
unfolding metrics_server_options
metrics_lem flags = ground arith

webhook_lem : (flags : Flags) → (webhook_server_options flags).tls_opts ≡ tls_opts flags
unfolding webhook_server_options
webhook_lem flags = ground arith

manager_main-Goes :
    (R : Runtime) (flags : Flags) (s : Recorded R.World)
    → Goes (requests flags) s.log (manager_main (recording R) flags s)
unfolding manager_main
manager_main-Goes R flags = asks (R.add_to_scheme client_go) _ _ _ (λ _ s.
    asks (R.add_to_scheme edge_v1alpha1) _ _ _
      (λ _ s.
        asks R.get_config _ _ _
          (λ config s.
            asks (R.new_manager config (manager_options flags)) _ _ _
              (λ mgr s.
                asks (R.complete mgr _) _ _ _
                  (λ _ s.
                    asks (R.complete mgr _) _ _ _
                      (λ _ s.
                        asks (R.add_healthz_check mgr _) _ _ _
                          (λ _ s.
                            asks (R.add_readyz_check mgr _) _ _ _
                              (λ _ s. asks_last (R.start mgr) _ s) s)
                          s)
                      s)
                  s)
              s)
          s)
      s)

-- Whatever the libraries answer, the program asks them for the two schemes, the configuration, the
-- manager, the two controllers, the two health checks and the start of the manager, in this order,
-- each once and after the one before it has succeeded. At the first that fails it exits, with 2 for
-- a scheme and 1 for the others; and it returns if none fails. The manager serves webhooks and
-- metrics with HTTP/1.1 alone unless HTTP/2 is enabled, and metrics behind authentication if they
-- are served securely.
pub manager_main-Follows :
    (R : Runtime) (flags : Flags) (w : R.World)
    → let o = manager_main (recording R) flags (record { inner = w; log = [] }) in
      Follows (requests flags) o.1.log o.0
      × IsHardened flags (manager_options flags).webhook.tls_opts
      × IsHardened flags (manager_options flags).metrics.tls_opts
      × (flags.secure_metrics ≡ true
          → (manager_options flags).metrics.filter_provider
            ≡ some with_authentication_and_authorization)
unfolding manager_options
manager_main-Follows R flags w =
    let o = manager_main (recording R) flags (record { inner = w; log = [] }) in
    let (log, e, follows) = manager_main-Goes R flags (record { inner = w; log = [] }) in
    let hard = tls_opts-IsHardened flags in
    let (tls_same, secure_same, filter) = metrics_lem flags in
    (
      subst⁻¹ (λ l. Follows (requests flags) l o.0) e follows,
      rw (webhook_lem flags) hard,
      rw tls_same hard,
      λ secure. filter ∙ (rw secure refl),
    )
