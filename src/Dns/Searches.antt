-- ===== src/Dns/Searches.antt =====
-- The server that src/dns/server.rs finds for a name, and the order in which it tries names.
use ztunnel.Common.{ℕ, zero, suc, ◌-◌, ◌≡◌, List, [], ◌∷◌, ◌++◌, All, true, false}
use ztunnel.Service.{Service}
use ztunnel.Service.Index.{ServiceStore}
use ztunnel.Workload.{Workload}
use ztunnel.Dns.{Alias, ServerMatch, service}
use ztunnel.Dns.Names.{NameApi, NameStore}
use ztunnel.Dns.Aliases.{firsts, listed, domain_of}
use ztunnel.Dns.Choices.{IsCandidate, IsChosen}

module _ {Name : Type 0} (api : NameApi Name) where
  -- Wildcards in the place of the first label, of the first two, and so on.
  abbrev pub wildcards_over : ℕ → Name → List Name
  wildcards_over zero name = []
  wildcards_over (suc n) name = api.into_wildcard name ∷ wildcards_over n (api.base_name name)

  -- The names to try for one: itself, and the wildcards over all of its labels but the last.
  abbrev pub searched : Name → List Name
  searched name = name ∷ wildcards_over (api.num_labels name - 1) name

module _ {Name : Type 0} (api : NameApi Name) (st : NameStore Name) (services : ServiceStore)
    (client : Workload) where
  -- No Service may be taken by any of the names.
  abbrev pub HasNone : List Name → Type 0
  HasNone = All (λ n. (s : Service) → IsCandidate api st services client n s → ⊥)

  -- The match is that of the first name that has a Service to take, and holds the best of them.
  pub record IsFirstName (names : List Name) (m : ServerMatch Name) : Type 0 where
    pub before : List Name
    pub after : List Name
    pub name : Name
    pub chosen : Service
    pub parts : names ≡ before ++ (name ∷ after)
    pub skipped : HasNone before
    pub best : IsChosen api st services client name chosen
    pub is_qualified : m.name ≡ api.set_fqdn true (api.set_fqdn false name)
    pub server : m.server ≡ service chosen

  -- None of the names to try for an alias has a Service to take.
  abbrev pub IsPassed : Alias Name → Type 0
  IsPassed alias = HasNone (searched api alias.name)

  -- The match is that of the first alias with a name that has a Service to take.
  pub record IsFirstAlias (aliases : List (Alias Name)) (m : ServerMatch Name) : Type 0 where
    pub before : List (Alias Name)
    pub after : List (Alias Name)
    pub parts : aliases ≡ before ++ (m.alias ∷ after)
    pub skipped : All IsPassed before
    pub found : IsFirstName (searched api m.alias.name) m

  abbrev pub aliases_of : List Name → Name → List (Alias Name)
  aliases_of search_domains name =
      firsts api [] (listed api st name (domain_of api st client) search_domains)
