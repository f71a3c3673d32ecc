-- ===== src/Dns/Aliases.antt =====
-- The aliases that src/dns/server.rs makes of a name, in their order.
use mathlib.Core.List.{append_assoc, append-nil}
use ztunnel.Common.{
  ◌≡◌, refl, sym, inl, inr, ◌∙◌, List, [], ◌∷◌, ◌++◌, Option, none, some, any, map, Bool-cases,
  if◌then◌else◌,
}
use ztunnel.Workload.{Workload}
use ztunnel.Dns.{Alias}
use ztunnel.Dns.Names.{
  NameApi, NameStore, add_alias, add_all, add_stripped, strip_domains, get_aliases, trim_domain,
  to_kube_fqdns,
}

module _ {Name : Type 0} (api : NameApi Name) where
  -- The first alias of each name, but for the names of those seen before.
  pub firsts : (seen aliases : List (Alias Name)) → List (Alias Name)
  firsts seen [] = []
  firsts seen (x ∷ xs) =
      let others = firsts seen xs in
      let later = firsts (seen ++ (x ∷ [])) xs in
      if any (λ y. api.eq y.name x.name) seen then others else x ∷ later

  abbrev as_aliases : Option Name → List Name → List (Alias Name)
  as_aliases stripped names = map (λ n. record { name = n; stripped = stripped }) names

  -- Aliases that are added one after the other.
  add_list : (out aliases : List (Alias Name)) → List (Alias Name)
  add_list out [] = out
  add_list out (x ∷ xs) = add_list (add_alias api x out) xs

  add_list-firsts :
      (out aliases : List (Alias Name)) → add_list out aliases ≡ out ++ firsts out aliases
  unfolding add_list firsts add_alias
  add_list-firsts out [] = sym (append-nil out)
  add_list-firsts out (x ∷ xs) = elim (Bool-cases (any (λ y. api.eq y.name x.name) out)) [
    | inl e ↦ rw e (add_list-firsts out xs)
    | inr e ↦ rw e (add_list-firsts (out ++ (x ∷ [])) xs ∙ append_assoc out (x ∷ []) _)
  ]

  add_list-append :
      (out xs ys : List (Alias Name)) → add_list out (xs ++ ys) ≡ add_list (add_list out xs) ys
  unfolding add_list
  add_list-append out [] ys = refl
  add_list-append out (x ∷ xs) ys = add_list-append (add_alias api x out) xs ys

  add_all-add_list :
      (stripped : Option Name) (names : List Name) (out : List (Alias Name))
      → add_all api stripped names out ≡ add_list out (as_aliases stripped names)
  unfolding add_all add_list
  add_all-add_list stripped [] out = refl
  add_all-add_list stripped (n ∷ ns) out =
      add_all-add_list stripped ns (add_alias api (record { name = n; stripped = stripped }) out)

  module _ (st : NameStore Name) (name namespaced_domain : Name) where
    -- The aliases of a name that a search domain was stripped off.
    abbrev pub below : Option Name → List (Alias Name)
    below none = []
    below (some s) = as_aliases (some s) (s ∷ to_kube_fqdns api st s namespaced_domain)

    abbrev pub below_all : List Name → List (Alias Name)
    below_all [] = []
    below_all (d ∷ ds) = below (trim_domain api name d) ++ below_all ds

    -- All aliases of a name: itself and its expansions, and for each search domain that it ends with
    -- what is left of it and the expansions of that.
    abbrev pub listed : List Name → List (Alias Name)
    listed domains =
        as_aliases none (name ∷ to_kube_fqdns api st name namespaced_domain) ++ below_all domains

    strip_domains-below_all :
        (domains : List Name) (out : List (Alias Name))
        → strip_domains api st name namespaced_domain domains out ≡ add_list out (below_all domains)
    unfolding strip_domains add_list
    strip_domains-below_all [] out = refl
    strip_domains-below_all (d ∷ ds) out =
        rw
          (
            add_list-append out (below (trim_domain api name d)) (below_all ds),
            ← stripped (trim_domain api name d) out,
          )
          (strip_domains-below_all ds _)
      where
        stripped :
            (o : Option Name) (out : List (Alias Name))
            → add_stripped api st namespaced_domain o out ≡ add_list out (below o)
        stripped none out = refl
        stripped (some s) out =
            add_all-add_list (some s) (s ∷ to_kube_fqdns api st s namespaced_domain) out

  abbrev pub domain_of : NameStore Name → Workload → Name
  domain_of st client = api.append_domain (api.from_text client.namespace) st.svc_domain

  -- The aliases of a name are all that are listed for it, the first of each name.
  pub get_aliases_lem :
      (st : NameStore Name) (domains : List Name) (client : Workload) (name : Name)
      → get_aliases api st domains client name
        ≡ firsts [] (listed st name (domain_of st client) domains)
  unfolding get_aliases
  get_aliases_lem st domains client name =
      let nd = domain_of st client in
      let own = name ∷ to_kube_fqdns api st name nd in
      rw
        (
          strip_domains-below_all st name nd domains (add_all api none own []),
          add_all-add_list none own [],
          ← add_list-append [] (as_aliases none own) (below_all st name nd domains),
        )
        (add_list-firsts [] (listed st name nd domains))
