-- ===== src/Dns/Tests.antt =====
-- A request for the name of a headless Service under a search domain, whose endpoint has two IPs.
use ztunnel.Common.{
  ◌≡◌, refl, ◌↔◌, inl, inr, Bool, true, false, List, [], ◌∷◌, some, String, In, subst, sym, ◌++◌,
  none, drop, length, ◌==◌, string_eq,
}
use ztunnel.Common.Map
use ztunnel.Examples.{near, far, endpoint, service_in}
use ztunnel.Net.{IpAddr, v6}
use ztunnel.Service.{Service}
use ztunnel.Workload.Index.{WorkloadStore, new}
use ztunnel.Dns.{
  a, aaaa, service, is_wanted, collect_addresses, get_addresses, ServerMatch, a_record,
  cname_record, answer_of, service_family_allowed,
}
use ztunnel.Dns.Names.{
  NameApi, NameStore, labels_eq, get_aliases, to_kube_fqdns, add_all, add_alias, strip_domains,
}
use ztunnel.Service.Index.{ServiceStore}
use ztunnel.Dns.Answers.{IsOffered, get_addresses_iff, IsTruthful, answer_of-IsTruthful}

abbrev headless : Service
headless = record (service_in "ns") { vips = []; endpoints = ("far", endpoint "far") ∷ [] }

abbrev workloads : WorkloadStore
workloads = record (new (some "node")) { by_uid = ("far", far) ∷ [] }

abbrev shuffle : List IpAddr → List IpAddr
shuffle xs = xs

kept : (b : IpAddr) (bs : List IpAddr) → In b (shuffle bs) ↔ In b bs
kept b bs = (λ h. h, λ h. h)

abbrev is_wildcard : String → Bool
is_wildcard name = false

abbrev found : ServerMatch String
found = record {
  name = "web.local";
  alias = record { name = "web.local"; stripped = some "web" };
  server = service headless;
}

records_of_headless :
    (answer_of shuffle is_wildcard true workloads near "web.corp" found a).records
    ≡ cname_record "web.corp" "web" ∷ a_record "web" 3 ∷ []
unfolding answer_of get_addresses collect_addresses service_family_allowed Map.get
records_of_headless = refl

get_addresses_iff_example :
    In (v6 3) (get_addresses shuffle true workloads near (service headless) aaaa) ↔ (
      IsOffered true workloads near (service headless) aaaa (v6 3)
      × (is_wanted true aaaa (v6 3) ≡ true))
get_addresses_iff_example =
    get_addresses_iff true workloads near shuffle (service headless) aaaa (v6 3) kept

answer_of-IsTruthful_example :
    IsTruthful true workloads near shuffle is_wildcard "web.corp" found a (a_record "web" 3)
answer_of-IsTruthful_example =
    answer_of-IsTruthful true workloads near shuffle is_wildcard "web.corp" found a
      (a_record "web" 3) kept
      (subst (In (a_record "web" 3)) (sym records_of_headless) (inr (inl refl)))

abbrev first_label : List String → String
first_label [] = ""
first_label (x ∷ xs) = x

-- Names as lists of labels; the text of a name is its first label.
abbrev api : NameApi (List String)
api = record {
  eq = labels_eq;
  iter = λ n. n;
  num_labels = length;
  is_wildcard = λ n. first_label n == "*";
  from_labels = λ n. n;
  from_text = λ t. t ∷ [];
  append_domain = ◌++◌;
  into_wildcard = λ n. "*" ∷ drop 1 n;
  base_name = drop 1;
  set_fqdn = λ qualified n. n;
  to_string = first_label;
}

abbrev names : NameStore (List String)
names = record {
  domain = "local" ∷ [];
  svc_domain = "svc" ∷ "local" ∷ [];
  svc_suffix = ".svc.local";
  prefered_service_namespace = none;
}

abbrev services : ServiceStore
services = record {
  staged_services = [];
  by_vip = [];
  by_host = ("web", service_in "ns" ∷ []) ∷ [];
}

aliases_of_web :
    get_aliases api names [] near ("web" ∷ [])
    ≡ record { name = "web" ∷ []; stripped = none }
      ∷ record { name = "web" ∷ near.namespace ∷ "svc" ∷ "local" ∷ []; stripped = none }
      ∷ []
unfolding get_aliases to_kube_fqdns add_all add_alias strip_domains
aliases_of_web = refl
