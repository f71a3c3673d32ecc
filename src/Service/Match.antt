-- ===== src/Service/Match.antt =====
-- `ServiceMatch::find_best_match`: which of the Services that share a hostname is meant.
use ztunnel.Common.{
  ◌≡◌, refl, inl, inr, Bool, true, false, not, ◌&&◌, List, [], ◌∷◌, first as list_first, find,
  Option, none, some, String, arith, option_beq, string_eq, Bool-cases, if◌then◌else◌,
}
use ztunnel.Service.{Service}

pub data ServiceMatch : Type 0 where
  canonical namespace preferred_namespace first : Service → ServiceMatch
  no_match : ServiceMatch

abbrev pub is_canonical : ServiceMatch → Bool
is_canonical (canonical s) = true
is_canonical _ = false

-- `match r { None => First(s), _ => r }`
abbrev pub or_first : ServiceMatch → Service → ServiceMatch
or_first no_match s = first s
or_first r s = r

-- `From<ServiceMatch> for Option<&Arc<Service>>`
abbrev pub matched : ServiceMatch → Option Service
matched (canonical s) = some s
matched (namespace s) = some s
matched (preferred_namespace s) = some s
matched (first s) = some s
matched no_match = none

-- A round of the fold that goes on.
abbrev pub continue_with : Option String → ServiceMatch → Service → ServiceMatch
continue_with preferred r s =
    if s.canonical
    then canonical s
    else if option_beq preferred (some s.namespace) && not (is_canonical r)
    then preferred_namespace s
    else or_first r s

-- `fold_while`: a Service of the client's namespace ends it.
pub fold_matches : Option String → Option String → ServiceMatch → List Service → ServiceMatch
fold_matches client preferred r [] = r
fold_matches client preferred r (s ∷ ss) =
    let rest = fold_matches client preferred (continue_with preferred r s) ss in
    if option_beq (some s.namespace) client then namespace s else rest

unfoldable pub find_best_match : List Service → Option String → Option String → Option Service
unfolding fold_matches
find_best_match services client preferred =
    matched (fold_matches client preferred no_match services)

abbrev pub or_else : Option Service → Option Service → Option Service
or_else none b = b
or_else (some a) b = some a

-- The last Service of a list that passes a test.
abbrev pub find_last : (Service → Bool) → List Service → Option Service
find_last p [] = none
find_last p (s ∷ ss) = or_else (find_last p ss) (if p s then some s else none)

abbrev pub is_client : Option String → Service → Bool
is_client client s = option_beq (some s.namespace) client

abbrev pub is_preferred : Option String → Service → Bool
is_preferred preferred s = option_beq preferred (some s.namespace)

-- What the fold finds from a match reached.
abbrev reached : Option String → ServiceMatch → List Service → Option Service
reached preferred r ss =
    if is_canonical r
    then matched r
    else or_else (find_last (is_preferred preferred) ss) (or_else (matched r) (list_first ss))

fold_matches_lem :
    (client preferred : Option String) (r : ServiceMatch) (ss : List Service)
    → matched (fold_matches client preferred r ss)
      ≡ or_else
          (find (is_client client) ss)
          (or_else (find_last (λ s. s.canonical) ss) (reached preferred r ss))
unfolding fold_matches
fold_matches_lem client preferred (canonical x) [] = refl
fold_matches_lem client preferred (namespace x) [] = refl
fold_matches_lem client preferred (preferred_namespace x) [] = refl
fold_matches_lem client preferred (first x) [] = refl
fold_matches_lem client preferred no_match [] = refl
fold_matches_lem client preferred r (s ∷ ss) =
    let ih = fold_matches_lem client preferred (continue_with preferred r s) ss in
    elim (Bool-cases (is_client client s)) [
      | inl hit ↦ rw hit
      | inr miss ↦ rw miss (ground (arith, ih))
    ]

-- Of the Services of a hostname the choice is the first in the client's namespace; else the last
-- canonical one; else the last in the preferred namespace; else the first of all.
pub find_best_match_lem :
    (services : List Service) (client preferred : Option String)
    → find_best_match services client preferred
      ≡ or_else (find (is_client client) services) (
          or_else
            (find_last (λ s. s.canonical) services)
            (or_else (find_last (is_preferred preferred) services) (list_first services)))
unfolding find_best_match
find_best_match_lem services client preferred = fold_matches_lem client preferred no_match services
