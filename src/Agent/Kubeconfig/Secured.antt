-- ===== src/Agent/Kubeconfig/Secured.antt =====
-- The transport that NewKubeClient of internal/agent/kube.go sets up, and the errors of
-- loadKubeconfig.
use text.Mathlib.Text.{starts_with}
use mathlib.Core.Path.{subst}
use edge_fleet_operator_demo.Base.{
  ◌≡◌, ◌≢◌, refl, sym, ap, ◌∙◌, ◌⊎◌, inl, inr, String, true, false, Bool-cases, Option, none, some,
  StringMap, lookup_or_empty, str_eq, eq_iff, if◌then◌else◌,
}
use edge_fleet_operator_demo.Agent.Kubeconfig.{
  fields_of, Crypto, KubeconfigError, unreadable, no_server, no_address, Result, ok, err, TlsConfig,
  KubeClient, load_tls, secured, load_kubeconfig, configured, new_kube_client,
}
use edge_fleet_operator_demo.Agent.Kubeconfig.Tls.{
  ok_injective, Trusts, FailsWith, load_tls-Trusts, load_tls-FailsWith,
}

module _ (C : Crypto) where
  -- What loadKubeconfig returns for a file: the server of the file, with no TLS configuration if its
  -- address begins with http://, or with the certificates of the file.
  abbrev pub Loads : StringMap → String × Option (TlsConfig C) → Type 0
  Loads fields (server, tls) =
      (server ≡ lookup_or_empty "server" fields)
      × (server ≢ "")
      × (((starts_with server "http://" ≡ true) × (tls ≡ none))
          ⊎ ((starts_with server "http://" ≡ false)
              × ((t : TlsConfig C) × (tls ≡ some t) × Trusts C fields t)))

  secured-Loads :
      (fields : StringMap) (server : String) (r : Result KubeconfigError (TlsConfig C))
      (found : String × Option (TlsConfig C))
      → secured C server r ≡ ok found
      → (t : TlsConfig C) × (r ≡ ok t) × (found ≡ (server, some t))
  secured-Loads fields server (ok t) found e = (t, refl, sym (ok_injective e))
  secured-Loads fields server (err x) found e = absurd (cc e)

  load_kubeconfig-Loads :
      (raw : String) (found : String × Option (TlsConfig C))
      → load_kubeconfig C (some raw) ≡ ok found
      → Loads (fields_of raw) found
  unfolding load_kubeconfig
  load_kubeconfig-Loads raw found e =
      let fields = fields_of raw in
      let server = lookup_or_empty "server" fields in
      elim (Bool-cases (str_eq server "")) [
        | inl none_given ↦ absurd (cc (rw none_given at e))
        | inr given ↦
            let named : server ≢ "" = λ h. cc ((eq_iff server "").1 h, given) in
            elim (Bool-cases (starts_with server "http://")) [
              | inl clear ↦
                  let same : (server, none) ≡ found = ok_injective (rw (given, clear) at e) in
                  subst (Loads fields) same (refl, named, inl (clear, refl))
              | inr tls ↦
                  let (t, loaded, is) =
                    secured-Loads fields server (load_tls C fields) found (rw (given, tls) at e) in
                  subst (Loads fields) (sym is)
                    (refl, named, inr (tls, (t, refl, load_tls-Trusts C fields t loaded)))
            ]
      ]

  secured-err :
      (server : String) (r : Result KubeconfigError (TlsConfig C)) (x : KubeconfigError)
      → secured C server r ≡ err x
      → r ≡ err x
  secured-err server (ok t) x e = absurd (cc e)
  secured-err server (err y) x e = let same : y ≡ x = cc e in ap err same

  -- Whenever loadKubeconfig fails, the error names what is wrong: the file cannot be read, or its
  -- fields have the fault of that name.
  pub load_kubeconfig-FailsWith :
      (read : Option String) (x : KubeconfigError)
      → load_kubeconfig C read ≡ err x
      → ((read ≡ none) × (x ≡ unreadable))
        ⊎ ((raw : String) × (read ≡ some raw) × FailsWith C (fields_of raw) x)
  unfolding load_kubeconfig
  load_kubeconfig-FailsWith none x e = inl (refl, cc e)
  load_kubeconfig-FailsWith (some raw) x e =
      let fields = fields_of raw in
      let server = lookup_or_empty "server" fields in
      inr (
        raw,
        refl,
        elim (Bool-cases (str_eq server "")) [
          | inl none_given ↦
              let is : no_server ≡ x = cc (rw none_given at e) in
              subst (FailsWith C fields) is ((eq_iff server "").0 none_given)
          | inr given ↦ elim (Bool-cases (starts_with server "http://")) [
            | inl clear ↦ absurd (cc (rw (given, clear) at e))
            | inr tls ↦
                load_tls-FailsWith C fields x
                  (secured-err server (load_tls C fields) x (rw (given, tls) at e))
          ]
        ],
      )

  -- The address and the transport of a client, by the arguments and the file.
  abbrev pub Connects : (String → Option String) → String → String → KubeClient C → Type 0
  Connects files server kubeconfig c =
      (c.base ≢ "")
      × (((kubeconfig ≡ "") × (c.base ≡ server) × (c.tls ≡ none))
          ⊎ ((kubeconfig ≢ "")
              × ((raw : String) × (files kubeconfig ≡ some raw)
                  × Loads (fields_of raw) (c.base, c.tls))))

  checked-ok :
      (made c : KubeClient C)
      → (if str_eq made.base "" then err no_address else ok made) ≡ ok c
      → (made.base ≢ "") × (made ≡ c)
  checked-ok made c e = elim (Bool-cases (str_eq made.base "")) [
    | inl h ↦ absurd (cc (rw h at e))
    | inr h ↦ (λ is. cc ((eq_iff made.base "").1 is, h), ok_injective (rw h at e))
  ]

  configured-ok :
      (namespace name : String) (r : Result KubeconfigError (String × Option (TlsConfig C)))
      (c : KubeClient C)
      → configured C namespace name r ≡ ok c
      → (r ≡ ok (c.base, c.tls)) × (c.base ≢ "") × (c.namespace ≡ namespace) × (c.name ≡ name)
  configured-ok namespace name (err x) c e = absurd (cc e)
  configured-ok namespace name (ok (server, tls)) c e =
      let made : KubeClient C = record {
        base = server;
        namespace = namespace;
        name = name;
        tls = tls;
      } in
      let (given, same) = checked-ok made c e in
      (
        ap (λ c. ok (c.base, c.tls)) same,
        λ h. given (ap (λ c. c.base) same ∙ h),
        ap (λ c. c.namespace) (sym same),
        ap (λ c. c.name) (sym same),
      )

  read-Loads :
      (read : Option String) (found : String × Option (TlsConfig C))
      → load_kubeconfig C read ≡ ok found
      → (raw : String) × (read ≡ some raw) × Loads (fields_of raw) found
  unfolding load_kubeconfig
  read-Loads none found e = absurd (cc e)
  read-Loads (some raw) found e = (raw, refl, load_kubeconfig-Loads raw found e)

  -- A client that NewKubeClient returns has an address, and the namespace and the name that were
  -- given. Without a kubeconfig it is the given server, and the client has no TLS configuration of
  -- its own, so that the transport of net/http goes by the scheme of the address. With one it is the
  -- server of the file, whatever server was given: with no TLS configuration only if the address
  -- begins with http://, and else with the certificates that the fields of the file decode to.
  pub new_kube_client-Connects :
      (files : String → Option String) (server kubeconfig namespace name : String)
      (c : KubeClient C)
      → new_kube_client C files server kubeconfig namespace name ≡ ok c
      → Connects files server kubeconfig c × (c.namespace ≡ namespace) × (c.name ≡ name)
  unfolding new_kube_client
  new_kube_client-Connects files server kubeconfig namespace name c e =
      elim (Bool-cases (str_eq kubeconfig "")) [
        | inl none_given ↦
            let made : KubeClient C = record {
              base = server;
              namespace = namespace;
              name = name;
              tls = none;
            } in
            let (given, same) = checked-ok made c (rw none_given at e) in
            (
              (
                λ h. given (ap (λ c. c.base) same ∙ h),
                inl (
                  (eq_iff kubeconfig "").0 none_given,
                  ap (λ c. c.base) (sym same),
                  ap (λ c. c.tls) (sym same),
                ),
              ),
              ap (λ c. c.namespace) (sym same),
              ap (λ c. c.name) (sym same),
            )
        | inr given ↦
            let (loaded, based, space, named) =
              configured-ok namespace name (load_kubeconfig C (files kubeconfig)) c
                (rw given at e) in
            (
              (
                based,
                inr (
                  λ h. cc ((eq_iff kubeconfig "").1 h, given),
                  read-Loads (files kubeconfig) (c.base, c.tls) loaded,
                ),
              ),
              space,
              named,
            )
      ]
