-- ===== src/Dns/Choices.antt =====
-- Which of the Services of a name src/dns/server.rs takes.
use ztunnel.Common.{
  ◌≡◌, ◌≢◌, refl, ◌⊎◌, ◌↔◌, inl, inr, Bool, true, false, not, ◌||◌, List, [], ◌∷◌, Option, none,
  some, String, arith, In, In-retain, find, first, retain, is_empty, string_eq, Bool-cases,
}
use text.Mathlib.TextEquality.{eq_iff}
use ztunnel.Common.Texts.{ends_with}
use ztunnel.Service.{Service}
use ztunnel.Service.Index.{ServiceStore, services_of, get_by_host}
use ztunnel.Service.Match.{find_best_match, find_last, is_client, is_preferred, find_best_match_lem}
use ztunnel.Workload.{Workload}
use ztunnel.Dns.Names.{NameApi, NameStore, is_callable, namespace_or_empty, find_service}

-- Nothing passes a test, or what is found passes it.
IsFound : (Service → Bool) → List Service → Option Service → Type 0
IsFound p xs o =
    ((o ≡ none) × ((t : Service) → In t xs → p t ≡ false))
    ⊎ ((s : Service) × (o ≡ some s) × In s xs × (p s ≡ true))

find-IsFound : (p : Service → Bool) (xs : List Service) → IsFound p xs (find p xs)
unfolding IsFound
find-IsFound p [] = inl (refl, λ t i. elim i [ ])
find-IsFound p (x ∷ xs) = elim (Bool-cases (p x)) [
  | inl e ↦ rw e (inr (x, refl, inl refl, e))
  | inr e ↦ rw e (elim (find-IsFound p xs) [
    | inl h ↦
        inl (h.0, λ t i. elim i [ inl here ↦ ground (arith, here, e) | inr there ↦ h.1 t there ])
    | inr (s, f, i, q) ↦ inr (s, f, inr i, q)
  ])
]

find_last-IsFound : (p : Service → Bool) (xs : List Service) → IsFound p xs (find_last p xs)
unfolding IsFound
find_last-IsFound p [] = inl (refl, λ t i. elim i [ ])
find_last-IsFound p (x ∷ xs) = elim (find_last-IsFound p xs) [
  | inr (s, f, i, q) ↦ rw f (inr (s, refl, inr i, q))
  | inl h ↦ elim (Bool-cases (p x)) [
    | inl e ↦ rw (h.0, e) (inr (x, refl, inl refl, e))
    | inr e ↦
        rw (h.0, e)
          (inl
            (refl, λ t i. elim i [ inl here ↦ ground (arith, here, e) | inr there ↦ h.1 t there ]))
  ]
]

-- The order in which the Services that may be taken are preferred: one of the client's namespace, else a
-- canonical one, else one of the preferred namespace, else any.
pub IsBest : (may : Service → Type 0) (client preferred : String) → Service → Type 0
IsBest may client preferred s =
    (s.namespace ≡ client)
    ⊎ (((t : Service) → may t → t.namespace ≢ client)
        × ((s.canonical ≡ true)
            ⊎ (((t : Service) → may t → t.canonical ≡ false)
                × ((s.namespace ≡ preferred) ⊎ ((t : Service) → may t → t.namespace ≢ preferred)))))

IsBest-mono :
    (may could : Service → Type 0) (client preferred : String) (s : Service)
    → ((t : Service) → may t → could t)
    → IsBest could client preferred s
    → IsBest may client preferred s
unfolding IsBest
IsBest-mono may could client preferred s f h = elim h [
  | inl e ↦ inl e
  | inr (a, b) ↦ inr (
    λ t m. a t (f t m),
    elim b [
      | inl e ↦ inl e
      | inr (c, d) ↦
          inr (λ t m. c t (f t m), elim d [ inl e ↦ inl e | inr g ↦ inr (λ t m. g t (f t m)) ])
    ],
  )
]

-- The first of a list.
first-IsFound :
    (xs : List Service)
    → ((first xs ≡ none) × ((t : Service) → In t xs → ⊥))
      ⊎ ((s : Service) × (first xs ≡ some s) × In s xs)
first-IsFound [] = inl (refl, λ t i. elim i [ ])
first-IsFound (x ∷ xs) = inr (x, refl, inl refl)

is_client_iff : (ns : String) (t : Service) → (is_client (some ns) t ≡ true) ↔ (t.namespace ≡ ns)
is_client_iff ns t = ground (arith, eq_iff t.namespace ns)

is_preferred_iff :
    (ns : String) (t : Service) → (is_preferred (some ns) t ≡ true) ↔ (t.namespace ≡ ns)
is_preferred_iff ns t = ground (arith, eq_iff ns t.namespace)

find_best_match-IsBest :
    (xs : List Service) (client preferred : String)
    → ((find_best_match xs (some client) (some preferred) ≡ none) × ((t : Service) → In t xs → ⊥))
      ⊎ ((s : Service) × (find_best_match xs (some client) (some preferred) ≡ some s)
          × In s xs
          × IsBest (λ t. In t xs) client preferred s)
unfolding IsFound IsBest
find_best_match-IsBest xs client preferred =
    rw (find_best_match_lem xs (some client) (some preferred))
      (elim (find-IsFound (is_client (some client)) xs) [
        | inr (s, f, i, q) ↦ rw f (inr (s, refl, i, inl ((is_client_iff client s).0 q)))
        | inl (f, c) ↦
            let others : (t : Service) → In t xs → t.namespace ≢ client =
              λ t i e. absurd (ground (arith, c t i, (is_client_iff client t).1 e)) in
            rw f (elim (find_last-IsFound (λ t. t.canonical) xs) [
              | inr (s, g, i, q) ↦ rw g (inr (s, refl, i, inr (others, inl q)))
              | inl (g, d) ↦ rw g (elim (find_last-IsFound (is_preferred (some preferred)) xs) [
                | inr (s, k, i, q) ↦ rw k (
                    inr
                      (s, refl, i, inr (others, inr (d, inl ((is_preferred_iff preferred s).0 q)))))
                | inl (k, p) ↦ rw k (elim (first-IsFound xs) [
                  | inl (z, n) ↦ inl (z, n)
                  | inr (s, z, i) ↦ inr (
                    s,
                    z,
                    i,
                    inr (
                      others,
                      inr (
                        d,
                        inr (λ t j e.
                            absurd (ground (arith, p t j, (is_preferred_iff preferred t).1 e))),
                      ),
                    ),
                  )
                ])
              ])
            ])
      ])

module _ {Name : Type 0} (api : NameApi Name) (st : NameStore Name) (services : ServiceStore)
    (client : Workload) where
  -- A Service that a client may be sent to by a name: it is stored under the text of the name without
  -- its trailing dot, and it has a VIP or lies in the Kubernetes domain.
  pub IsCandidate : Name → Service → Type 0
  IsCandidate name s =
      In s (services_of (get_by_host (api.to_string (api.set_fqdn false name)) services))
      × ((s.vips ≢ []) ⊎ (ends_with s.hostname st.svc_suffix ≡ true))

  is_callable-IsCandidate :
      (name : Name) (s : Service)
      → In s (
          retain
            (is_callable api st)
            (services_of (get_by_host (api.to_string (api.set_fqdn false name)) services)))
        ↔ IsCandidate name s
  unfolding IsCandidate
  is_callable-IsCandidate name s =
      let stored = services_of (get_by_host (api.to_string (api.set_fqdn false name)) services) in
      let (kept, keep) = In-retain (is_callable api st) s stored in
      (
        λ i. ((kept i).0, (callable s s.vips refl).0 (kept i).1),
        λ h. keep (h.0, (callable s s.vips refl).1 h.1),
      )
    where
      callable :
          (s : Service) (vips : _)
          → s.vips ≡ vips
          → (not (is_empty vips) || ends_with s.hostname st.svc_suffix ≡ true)
            ↔ ((s.vips ≢ []) ⊎ (ends_with s.hostname st.svc_suffix ≡ true))
      callable s [] e = (λ h. inr h, λ h. elim h [ inl n ↦ absurd (n e) | inr q ↦ q ])
      callable s (v ∷ vs) e = (λ h. inl (λ q. absurd (ground (arith, e, q))), λ h. refl)

  -- The Service is the best candidate of a name.
  pub IsChosen : Name → Service → Type 0
  IsChosen name s =
      IsCandidate name s
      × IsBest (IsCandidate name) client.namespace
          (namespace_or_empty st.prefered_service_namespace) s

  abbrev candidates : Name → List Service
  candidates name =
      retain (is_callable api st)
        (services_of (get_by_host (api.to_string (api.set_fqdn false name)) services))

  pub find_service_lem :
      (name : Name)
      → ((find_service api st services client name ≡ none)
          × ((s : Service) → IsCandidate name s → ⊥))
        ⊎ ((s : Service) × (find_service api st services client name ≡ some s) × IsChosen name s)
  unfolding find_service IsChosen
  find_service_lem name =
      let may = is_callable-IsCandidate name in
      let preferred = namespace_or_empty st.prefered_service_namespace in
      elim (find_best_match-IsBest (candidates name) client.namespace preferred) [
        | inl (e, n) ↦ inl (e, λ s m. n s ((may s).1 m))
        | inr (s, e, i, b) ↦
            let best =
              IsBest-mono (IsCandidate name) (λ t. In t (candidates name)) client.namespace
                preferred s (λ t m. (may t).1 m) b in
            inr (s, e, ((may s).0 i, best))
      ]
