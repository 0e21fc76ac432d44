-- ===== src/Tests/Kubeconfigs.antt =====
-- The theorems of the agent's configuration on two files.
use edge_fleet_operator_demo.Base.{
  ◌≡◌, refl, String, none, some, List, [], ◌∷◌, All, lookup, lookup_or_empty, str_eq, if◌then◌else◌,
}
use edge_fleet_operator_demo.Agent.Text.{trim_space}
use edge_fleet_operator_demo.Agent.Kubeconfig.{
  split_lines, cut_prefix, keep_first, scan_line, scan, fields_of, Crypto, KubeClient, load_tls,
  load_kubeconfig, new_kube_client,
}
use edge_fleet_operator_demo.Agent.Kubeconfig.Fields.{is_among}
use edge_fleet_operator_demo.Agent.Kubeconfig.Print.{
  Entry, print_entry, print, pairs, lacks, IsPrintable,
}
use edge_fleet_operator_demo.Agent.Kubeconfig.RoundTrip.{fields_of-print}
use edge_fleet_operator_demo.Agent.Text.{is_space, all_spaces, trim_right}
use edge_fleet_operator_demo.Agent.Text.Trim.{begins_ink}
use edge_fleet_operator_demo.Agent.Kubeconfig.Secured.{Connects, new_kube_client-Connects}

-- Stand-ins for the decoders, with one text that is refused.
abbrev pub plain : Crypto
plain = record {
  Certificate = String × String;
  Pool = String;
  decode_base64 = λ s. if str_eq s "!" then none else some s;
  key_pair = λ cert key. some (cert, key);
  parse_pool = λ ca. some ca;
}

abbrev kind_file : String
kind_file =
    "clusters:\n- cluster:\n    certificate-authority-data: Y2E=\n    server: https://127.0.0.1:6443 \n    server: https://other\nusers:\n    client-certificate-data: Y2VydA==\n    client-key-data: a2V5\n"

abbrev broken_file : String
broken_file = "server: https://host\nclient-key-data: !\n"

finds_server : lookup "server" (fields_of kind_file) ≡ some "https://127.0.0.1:6443"
unfolding lookup fields_of scan scan_line keep_first split_lines cut_prefix trim_space
finds_server = refl

abbrev client : KubeClient plain
client = record {
  base = "https://127.0.0.1:6443";
  namespace = "fleet";
  name = "a";
  tls = some (record { root_cas = "Y2E="; certificate = ("Y2VydA==", "a2V5") });
}

new_kube_client-Connects_example :
    Connects plain (λ _. some kind_file) "" "config" client
    × (client.namespace ≡ "fleet")
    × (client.name ≡ "a")
unfolding new_kube_client load_kubeconfig load_tls lookup_or_empty lookup fields_of scan scan_line
    keep_first split_lines cut_prefix trim_space
new_kube_client-Connects_example =
    new_kube_client-Connects plain (λ _. some kind_file) "" "config" "fleet" "a" client refl

abbrev written : List Entry
written =
    record { indent = "    "; key = "server"; value = "https://host" }
    ∷ record { indent = ""; key = "user"; value = "client-key-data: a" }
    ∷ record { indent = "  "; key = "server"; value = "http://other" }
    ∷ []

written-IsPrintable : All IsPrintable written
unfolding all_spaces is_space lacks begins_ink trim_right trim_space print_entry
written-IsPrintable = (
  record {
    spaces = refl;
    word = refl;
    starts_ink = refl;
    ends_ink = (λ e. cc e, refl);
    one_line = refl;
    plain_value = refl;
  },
  (
    record {
      spaces = refl;
      word = refl;
      starts_ink = refl;
      ends_ink = (λ e. cc e, refl);
      one_line = refl;
      plain_value = refl;
    },
    (
      record {
        spaces = refl;
        word = refl;
        starts_ink = refl;
        ends_ink = (λ e. cc e, refl);
        one_line = refl;
        plain_value = refl;
      },
      tt,
    ),
  ),
)

fields_of-print_example :
    lookup "server" (fields_of (print written)) ≡ lookup "server" (pairs written)
unfolding is_among
fields_of-print_example = fields_of-print written "server" written-IsPrintable refl
