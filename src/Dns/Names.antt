-- ===== src/Dns/Names.antt =====
-- src/dns/server.rs and src/dns/name_util.rs: the aliases of a requested name, the wildcards that are
-- tried for each, and the Service that they find. What a name of the hickory crate is, and its
-- operations, are a parameter.
use ztunnel.Common.{
  ℕ, zero, suc, ◌-◌, Bool, true, false, ◌&&◌, ◌||◌, not, List, [], ◌∷◌, ◌++◌, Option, none, some,
  String, any, drop, take, length, leb, ltb, retain, is_empty, ◌==◌, string_eq, if◌then◌else◌,
}
use ztunnel.Common.Texts.{ends_with}
use ztunnel.Service.{Service}
use ztunnel.Service.Index.{ServiceStore, services_of, get_by_host}
use ztunnel.Service.Match.{find_best_match}
use ztunnel.Workload.{Workload}
use ztunnel.Dns.{Alias, ServerMatch, service}

-- `hickory_proto::rr::Name`: `iter` gives the labels; `append_domain` and `from_text` give what their
-- results hold.
pub record NameApi (Name : Type 0) : Type 0 where
  pub eq : Name → Name → Bool
  pub iter : Name → List String
  pub num_labels : Name → ℕ
  pub is_wildcard : Name → Bool
  pub from_labels : List String → Name
  pub from_text : String → Name
  pub append_domain : Name → Name → Name
  pub into_wildcard : Name → Name
  pub base_name : Name → Name
  pub set_fqdn : Bool → Name → Name
  pub to_string : Name → String

-- The part of `Store` that the names need; `svc_suffix` is the text of `svc_domain` after a dot,
-- without the final one.
pub record NameStore (Name : Type 0) : Type 0 where
  pub domain : Name
  pub svc_domain : Name
  pub svc_suffix : String
  pub prefered_service_namespace : Option String

abbrev pub namespace_or_empty : Option String → String
namespace_or_empty none = ""
namespace_or_empty (some namespace) = namespace

abbrev pub labels_eq : List String → List String → Bool
labels_eq [] [] = true
labels_eq (x ∷ xs) (y ∷ ys) = x == y && labels_eq xs ys
labels_eq _ _ = false

module _ {Name : Type 0} (api : NameApi Name) where
  -- A domain that is no wildcard has no more labels than a longer name, so the number to skip is exact.
  unfoldable pub has_domain : (name domain : Name) → Bool
  has_domain name domain =
      if api.is_wildcard domain || leb (api.num_labels name) (api.num_labels domain)
      then false
      else labels_eq (drop (length (api.iter name) - length (api.iter domain)) (api.iter name))
          (api.iter domain)

  unfoldable pub trim_domain : (name domain : Name) → Option Name
  trim_domain name domain =
      if has_domain name domain
      then some (
          api.set_fqdn false (
            api.from_labels
              (take (length (api.iter name) - api.num_labels domain) (api.iter name))))
      else none

  abbrev pub in_svc : Name → Name → List Name → List Name
  in_svc name domain rest =
      if has_domain name (api.from_text "svc") then api.append_domain name domain ∷ rest else rest

  -- The expansions of a name, by the number of its labels.
  unfoldable pub to_kube_fqdns : NameStore Name → (name namespaced_domain : Name) → List Name
  to_kube_fqdns st name namespaced_domain = expand (api.iter name)
    where
      expand : List String → List Name
      expand (a ∷ []) = api.append_domain name namespaced_domain ∷ []
      expand (a ∷ b ∷ []) =
          api.append_domain name st.svc_domain ∷ api.append_domain name namespaced_domain ∷ []
      expand (a ∷ b ∷ c ∷ []) = in_svc name st.domain (api.append_domain name st.svc_domain ∷ [])
      expand (a ∷ b ∷ c ∷ d ∷ []) = in_svc name st.domain []
      expand _ = []

  -- `added` holds the names of the aliases of `out`.
  unfoldable pub add_alias : Alias Name → List (Alias Name) → List (Alias Name)
  add_alias alias out = if any (λ x. api.eq x.name alias.name) out then out else out ++ (alias ∷ [])

  unfoldable pub add_all : Option Name → List Name → List (Alias Name) → List (Alias Name)
  add_all stripped [] out = out
  add_all stripped (name ∷ names) out =
      add_all stripped names (add_alias (record { name = name; stripped = stripped }) out)

  abbrev pub add_stripped :
      NameStore Name → Name → Option Name → List (Alias Name) → List (Alias Name)
  add_stripped st namespaced_domain none out = out
  add_stripped st namespaced_domain (some stripped) out =
      add_all (some stripped) (stripped ∷ to_kube_fqdns st stripped namespaced_domain) out

  unfoldable pub strip_domains :
      NameStore Name
      → (name namespaced_domain : Name) → List Name
      → List (Alias Name)
      → List (Alias Name)
  strip_domains st name namespaced_domain [] out = out
  strip_domains st name namespaced_domain (domain ∷ domains) out =
      strip_domains st name namespaced_domain domains
        (add_stripped st namespaced_domain (trim_domain name domain) out)

  -- `search_domains` are those of the forwarder for the client.
  unfoldable pub get_aliases :
      NameStore Name → (search_domains : List Name) → Workload → Name → List (Alias Name)
  get_aliases st search_domains client name =
      let namespaced_domain = api.append_domain (api.from_text client.namespace) st.svc_domain in
      strip_domains st name namespaced_domain search_domains
        (add_all none (name ∷ to_kube_fqdns st name namespaced_domain) [])

  -- The loop runs while more than one label is left: the number of labels is fuel enough.
  unfoldable pub wildcards : (fuel : ℕ) → Name → List Name
  wildcards zero name = []
  wildcards (suc fuel) name =
      let rest = wildcards fuel (api.base_name name) in
      if ltb 1 (api.num_labels name) then api.into_wildcard name ∷ rest else []

  unfoldable pub get_wildcards : Name → List Name
  get_wildcards name = name ∷ wildcards (api.num_labels name) name

  abbrev pub is_callable : NameStore Name → Service → Bool
  is_callable st s = not (is_empty s.vips) || ends_with s.hostname st.svc_suffix

  -- The Service that the text of a name finds, without its trailing dot.
  unfoldable pub find_service : NameStore Name → ServiceStore → Workload → Name → Option Service
  find_service st services client search_name =
      find_best_match
        (retain (is_callable st)
          (services_of (get_by_host (api.to_string (api.set_fqdn false search_name)) services)))
        (some client.namespace) (some (namespace_or_empty st.prefered_service_namespace))

  unfoldable pub match_names :
      NameStore Name → ServiceStore → Workload → Alias Name → List Name → Option (ServerMatch Name)
  match_names st services client alias [] = none
  match_names st services client alias (name ∷ names) =
      elim (find_service st services client name) [
        | none ↦ match_names st services client alias names
        | some s ↦ some (record {
          name = api.set_fqdn true (api.set_fqdn false name);
          alias = alias;
          server = service s;
        })
      ]

  unfoldable pub match_aliases :
      NameStore Name → ServiceStore → Workload → List (Alias Name) → Option (ServerMatch Name)
  match_aliases st services client [] = none
  match_aliases st services client (alias ∷ aliases) =
      elim (match_names st services client alias (get_wildcards alias.name)) [
        | none ↦ match_aliases st services client aliases
        | some m ↦ some m
      ]

  unfoldable pub find_server :
      NameStore Name
      → ServiceStore
      → (search_domains : List Name) → Workload
      → Name
      → Option (ServerMatch Name)
  find_server st services search_domains client requested_name =
      match_aliases st services client (get_aliases st search_domains client requested_name)
