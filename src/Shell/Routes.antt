-- ===== src/Shell/Routes.antt =====
-- Where the links of the pages lead in web/src/App.tsx.
use infra_orch_studio.Common.{
  ◌≡◌, refl, ◌∙◌, Bool, true, false, not, ◌||◌, [], ◌∷◌, ◌++◌, Text, units, ◌==◌, all, str_eq,
  if◌then◌else◌, arith, Bool-cases, inl, inr,
}
use infra_orch_studio.Js.Text.{starts_with, includes}
use infra_orch_studio.Api.{Environment}
use infra_orch_studio.Pages.Dashboard.{next_environment_route}
use infra_orch_studio.Shell.{RouteKey, review, approval, environment_detail, route_key}

-- A text without a slash.
abbrev pub has_no_slash : Text → Bool
has_no_slash id = all (λ c. not (c == b'/')) id

-- An identifier that is one piece of an address, and does not begin like the name of a page.
abbrev pub IsPlain : Text → Type 0
IsPlain id =
    (has_no_slash id ≡ true)
    × (starts_with (units "review") id ≡ false)
    × (starts_with (units "approval") id ≡ false)

-- What may follow an identifier in an address.
abbrev pub IsSuffix : Text → Type 0
IsSuffix [] = Unit
IsSuffix (c ∷ rest) = (c == b'/') ≡ true

includes-append :
    (part id rest : Text)
    → has_no_slash id ≡ true
    → includes (b'/' ∷ part) (id ++ rest) ≡ includes (b'/' ∷ part) rest
unfolding includes starts_with
includes-append part [] rest h = refl
includes-append part (c ∷ id) rest h = ground (arith, includes-append part id rest)

starts_with-append :
    (part id rest : Text)
    → has_no_slash part ≡ true
    → IsSuffix rest
    → starts_with part (id ++ rest) ≡ starts_with part id
unfolding starts_with
starts_with-append [] [] rest h s = refl
starts_with-append [] (c ∷ id) rest h s = refl
starts_with-append (p ∷ part) [] [] h s = refl
starts_with-append (p ∷ part) [] (c ∷ rest) h s = ground arith
starts_with-append (p ∷ part) (c ∷ id) rest h s = ground (arith, starts_with-append part id rest)

abbrev under_environments : Text → Text
under_environments rest = units "/environments/" ++ rest

-- The shell tells the pages of an environment apart by the rest of the address.
abbrev key_of : Text → RouteKey
key_of rest =
    if starts_with (units "review") rest || includes (units "/review") rest
    then review
    else if starts_with (units "approval") rest || includes (units "/approval") rest
    then approval
    else environment_detail

route_key-under_environments : (rest : Text) → route_key (under_environments rest) ≡ key_of rest
unfolding route_key starts_with includes
route_key-under_environments rest = refl

key_of-append :
    (id suffix : Text)
    → IsPlain id
    → IsSuffix suffix
    → key_of (id ++ suffix) ≡ (
        if includes (units "/review") suffix
        then review
        else if includes (units "/approval") suffix
        then approval
        else environment_detail)
key_of-append id suffix (slash, no_review, no_approval) s =
    rw
      (
        starts_with-append (units "review") id suffix refl s,
        starts_with-append (units "approval") id suffix refl s,
        includes-append (units "review") id suffix slash,
        includes-append (units "approval") id suffix slash,
        no_review,
        no_approval,
      )
      refl

-- From an environment whose identifier is plain, the link of the overview leads to the page that the
-- shell takes for its review while it waits for approval, for its approval page once it is
-- approved, and for its detail page in every other case.
pub route_key-next_environment_route :
    (item : Environment)
    → IsPlain (units item.id)
    → route_key (next_environment_route item) ≡ (
        if str_eq item.status "pending_approval"
        then review
        else if str_eq item.approval_status "approved"
        then approval
        else environment_detail)
unfolding next_environment_route starts_with includes
route_key-next_environment_route item plain =
    elim (Bool-cases (str_eq item.status "pending_approval")) [
      | inl pending ↦ rw pending (
          route_key-under_environments (units item.id ++ units "/review")
          ∙ key_of-append (units item.id) (units "/review") plain refl)
      | inr other ↦ elim (Bool-cases (str_eq item.approval_status "approved")) [
        | inl approved ↦
            rw (other, approved)
              (route_key-under_environments (units item.id ++ units "/approval")
                ∙ key_of-append (units item.id) (units "/approval") plain refl)
        | inr neither ↦
            rw (other, neither)
              (route_key-under_environments (units item.id ++ units "")
                ∙ key_of-append (units item.id) (units "") plain tt)
      ]
    ]
