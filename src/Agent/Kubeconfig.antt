-- ===== src/Agent/Kubeconfig.antt =====
-- NewKubeClient, url and loadKubeconfig of internal/agent/kube.go: which API server the agent talks
-- to, and with which certificates.
pub mod Fields
pub mod Print
pub mod RoundTrip
pub mod Tls
pub mod Secured
use Prim.Native.Char.{code}
use Prim.Native.String.{len, slice}
use text.Mathlib.Text.{starts_with}
use edge_fleet_operator_demo.Base.{
  String, ◌<>◌, Bool, true, false, Option, none, some, List, [], ◌∷◌, StringMap, lookup,
  lookup_or_empty, str_eq, ◌==◌, if◌then◌else◌, ◌-◌,
}
use edge_fleet_operator_demo.Agent.Text.{trim_space, extend_first}

-- strings.Split at line ends
unfoldable pub split_lines : String → List String
split_lines String.[] = "" ∷ []
split_lines (String.◌∷◌ c s) =
    let rest = split_lines s in
    if code c == b'\n' then "" ∷ rest else extend_first (String.◌∷◌ c String.[]) rest

-- strings.CutPrefix, `none` where the prefix is not found.
unfoldable pub cut_prefix : String → String → Option String
cut_prefix s p = if starts_with s p then some (slice s (len p) (len s)) else none

-- strings.TrimSuffix of a slash
pub trim_slash : String → String
trim_slash s = if str_eq (slice s (len s - 1) (len s)) "/" then slice s 0 (len s - 1) else s

abbrev pub keys : List String
keys = "server" ∷ "certificate-authority-data" ∷ "client-certificate-data" ∷ "client-key-data" ∷ []

-- The first value of a key wins.
unfoldable pub keep_first : String → Option String → StringMap → StringMap
keep_first key none fields = fields
keep_first key (some v) fields = elim (lookup key fields) [
  | none ↦ (key, trim_space v) ∷ fields
  | some _ ↦ fields
]

-- The two loops over the lines and the keys.
unfoldable pub scan_line : String → List String → StringMap → StringMap
unfolding keep_first
scan_line line [] fields = fields
scan_line line (key ∷ rest) fields =
    scan_line line rest (keep_first key (cut_prefix line (key <> ": ")) fields)

unfoldable pub scan : List String → StringMap → StringMap
unfolding scan_line
scan [] fields = fields
scan (line ∷ lines) fields = scan lines (scan_line (trim_space line) keys fields)

unfoldable pub fields_of : String → StringMap
unfolding scan split_lines
fields_of raw = scan (split_lines raw) []

-- encoding/base64, crypto/tls and crypto/x509, each `none` for an error.
pub record Crypto : Type 1 where
  pub Certificate : Type 0
  pub Pool : Type 0
  pub decode_base64 : String → Option String
  pub key_pair : String → String → Option Certificate
  pub parse_pool : String → Option Pool

pub data KubeconfigError : Type 0 where
  unreadable no_server bad_ca bad_client_cert bad_client_key : KubeconfigError
  bad_pair bad_pool : KubeconfigError

pub data ClientError : Type 0 where
  kubeconfig_error : KubeconfigError → ClientError
  no_address : ClientError

pub data Result (E A : Type 0) : Type 0 where
  ok : A → Result E A
  err : E → Result E A

-- The error of a step that fails.
abbrev pub or_fail : {E A B : Type 0} → Option A → E → (A → Result E B) → Result E B
or_fail none e k = err e
or_fail (some a) e k = k a

pub record TlsConfig (C : Crypto) : Type 0 where
  pub root_cas : C.Pool
  pub certificate : C.Certificate

-- KubeClient: `tls` is the TLSClientConfig that the transport is given. With `none` the transport of
-- net/http goes by the scheme of the address: plain HTTP, or TLS by its own defaults.
pub record KubeClient (C : Crypto) : Type 0 where
  pub base : String
  pub namespace : String
  pub name : String
  pub tls : Option (TlsConfig C)

module _ (C : Crypto) where
  -- The certificates of a server that is not reached in the clear.
  unfoldable pub load_tls : StringMap → Result KubeconfigError (TlsConfig C)
  load_tls fields =
      or_fail (C.decode_base64 (lookup_or_empty "certificate-authority-data" fields)) bad_ca λ ca.
        or_fail (C.decode_base64 (lookup_or_empty "client-certificate-data" fields)) bad_client_cert
          λ cert.
            or_fail (C.decode_base64 (lookup_or_empty "client-key-data" fields)) bad_client_key
              λ key. or_fail (C.key_pair cert key) bad_pair λ pair.
                or_fail (C.parse_pool ca) bad_pool
                  λ pool. ok (record { root_cas = pool; certificate = pair })

  abbrev pub secured :
      String
      → Result KubeconfigError (TlsConfig C)
      → Result KubeconfigError (String × Option (TlsConfig C))
  secured server (err e) = err e
  secured server (ok t) = ok (server, some t)

  -- loadKubeconfig, by what reading the file gave.
  unfoldable pub load_kubeconfig :
      Option String → Result KubeconfigError (String × Option (TlsConfig C))
  unfolding fields_of load_tls
  load_kubeconfig none = err unreadable
  load_kubeconfig (some raw) =
      let server = lookup_or_empty "server" (fields_of raw) in
      if str_eq server ""
      then err no_server
      else if starts_with server "http://"
      then ok (server, none)
      else secured server (load_tls (fields_of raw))

  abbrev checked : KubeClient C → Result ClientError (KubeClient C)
  checked c = if str_eq c.base "" then err no_address else ok c

  abbrev pub configured :
      String
      → String
      → Result KubeconfigError (String × Option (TlsConfig C))
      → Result ClientError (KubeClient C)
  configured namespace name (err e) = err (kubeconfig_error e)
  configured namespace name (ok (server, tls)) =
      checked (record { base = server; namespace = namespace; name = name; tls = tls })

  -- NewKubeClient, with the file system as a function.
  unfoldable pub new_kube_client :
      (String → Option String)
      → String
      → String
      → String
      → String
      → Result ClientError (KubeClient C)
  unfolding load_kubeconfig
  new_kube_client files server kubeconfig namespace name =
      if str_eq kubeconfig ""
      then checked (record { base = server; namespace = namespace; name = name; tls = none })
      else configured namespace name (load_kubeconfig (files kubeconfig))

  -- url
  unfoldable pub url : KubeClient C → String → String
  unfolding trim_slash
  url c sub =
      trim_slash c.base
      <> "/apis/edge.example.com/v1alpha1/namespaces/"
      <> c.namespace
      <> "/edgedevices/"
      <> c.name
      <> sub
