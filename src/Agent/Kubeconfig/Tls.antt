-- ===== src/Agent/Kubeconfig/Tls.antt =====
-- The certificates and the errors of loadKubeconfig in internal/agent/kube.go.
use mathlib.Core.Path.{subst}
use edge_fleet_operator_demo.Base.{
  ◌≡◌, refl, sym, ap, ◌∙◌, ◌⊎◌, inl, inr, String, Option, none, some, StringMap, lookup_or_empty,
}
use edge_fleet_operator_demo.Agent.Kubeconfig.{
  Crypto, KubeconfigError, unreadable, no_server, bad_ca, bad_client_cert, bad_client_key, bad_pair,
  bad_pool, Result, ok, err, or_fail, TlsConfig, load_tls,
}

module _ {E A B : Type 0} where
  or_fail_ok :
      (o : Option A) (e : E) (k : A → Result E B) {b : B}
      → or_fail o e k ≡ ok b
      → (a : A) × (o ≡ some a) × (k a ≡ ok b)
  or_fail_ok none e k h = absurd (cc h)
  or_fail_ok (some a) e k h = (a, refl, h)

  or_fail_err :
      (o : Option A) (e : E) (k : A → Result E B) {x : E}
      → or_fail o e k ≡ err x
      → ((o ≡ none) × (x ≡ e)) ⊎ ((a : A) × (o ≡ some a) × (k a ≡ err x))
  or_fail_err none e k h = inl (refl, cc h)
  or_fail_err (some a) e k h = inr (a, refl, h)

pub ok_injective : {E A : Type 0} {a b : A} → ◌≡◌ {A = Result E A} (ok a) (ok b) → a ≡ b
ok_injective e = cc e

module _ (C : Crypto) where
  abbrev pub decoded : String → StringMap → Option String
  decoded key fields = C.decode_base64 (lookup_or_empty key fields)

  -- The certificates are those of the fields.
  abbrev pub Trusts : StringMap → TlsConfig C → Type 0
  Trusts fields t =
      (ca : String) × (cert : String) × (key : String) × (decoded "certificate-authority-data"
          fields
        ≡ some ca)
      × (decoded "client-certificate-data" fields ≡ some cert)
      × (decoded "client-key-data" fields ≡ some key)
      × (C.key_pair cert key ≡ some t.certificate)
      × (C.parse_pool ca ≡ some t.root_cas)

  pub load_tls-Trusts :
      (fields : StringMap) (t : TlsConfig C) → load_tls C fields ≡ ok t → Trusts fields t
  unfolding load_tls
  load_tls-Trusts fields t e =
      let (ca, g1, e1) = or_fail_ok (decoded "certificate-authority-data" fields) bad_ca _ e in
      let (cert, g2, e2) =
        or_fail_ok (decoded "client-certificate-data" fields) bad_client_cert _ e1 in
      let (key, g3, e3) = or_fail_ok (decoded "client-key-data" fields) bad_client_key _ e2 in
      let (pair, g4, e4) = or_fail_ok (C.key_pair cert key) bad_pair _ e3 in
      let (pool, g5, e5) = or_fail_ok (C.parse_pool ca) bad_pool _ e4 in
      let same = ok_injective e5 in
      (
        ca,
        cert,
        key,
        g1,
        g2,
        g3,
        g4 ∙ ap (λ t. some t.certificate) same,
        g5 ∙ ap (λ t. some t.root_cas) same,
      )

  -- The first step that fails, and its error.
  abbrev pub FailsWith : StringMap → KubeconfigError → Type 0
  FailsWith fields bad_ca = decoded "certificate-authority-data" fields ≡ none
  FailsWith fields bad_client_cert =
      ((ca : String) × (decoded "certificate-authority-data" fields ≡ some ca))
      × (decoded "client-certificate-data" fields ≡ none)
  FailsWith fields bad_client_key =
      ((cert : String) × (decoded "client-certificate-data" fields ≡ some cert))
      × (decoded "client-key-data" fields ≡ none)
  FailsWith fields bad_pair =
      (cert : String) × (key : String) × (decoded "client-certificate-data" fields ≡ some cert)
      × (decoded "client-key-data" fields ≡ some key)
      × (C.key_pair cert key ≡ none)
  FailsWith fields bad_pool =
      (ca : String) × (decoded "certificate-authority-data" fields ≡ some ca)
      × (C.parse_pool ca ≡ none)
  FailsWith fields no_server = lookup_or_empty "server" fields ≡ ""
  FailsWith fields unreadable = ⊥

  pub load_tls-FailsWith :
      (fields : StringMap) (x : KubeconfigError) → load_tls C fields ≡ err x → FailsWith fields x
  unfolding load_tls
  load_tls-FailsWith fields x e =
      elim (or_fail_err (decoded "certificate-authority-data" fields) bad_ca _ e) [
        | inl (g, is) ↦ subst (FailsWith fields) (sym is) g
        | inr (ca, g1, e1) ↦
            elim (or_fail_err (decoded "client-certificate-data" fields) bad_client_cert _ e1) [
              | inl (g, is) ↦ subst (FailsWith fields) (sym is) ((ca, g1), g)
              | inr (cert, g2, e2) ↦
                  elim (or_fail_err (decoded "client-key-data" fields) bad_client_key _ e2) [
                    | inl (g, is) ↦ subst (FailsWith fields) (sym is) ((cert, g2), g)
                    | inr (key, g3, e3) ↦ elim (or_fail_err (C.key_pair cert key) bad_pair _ e3) [
                      | inl (g, is) ↦ subst (FailsWith fields) (sym is) (cert, key, g2, g3, g)
                      | inr (pair, g4, e4) ↦ elim (or_fail_err (C.parse_pool ca) bad_pool _ e4) [
                        | inl (g, is) ↦ subst (FailsWith fields) (sym is) (ca, g1, g)
                        | inr (pool, g5, e5) ↦ absurd (cc e5)
                      ]
                    ]
                  ]
            ]
      ]
