-- ===== src/Shell/Navigation.antt =====
-- The sidebar and the heading of web/src/App.tsx.
use infra_orch_studio.Common.{
  ℕ, zero, suc, Bool, true, false, ◌||◌, ◌==◌, Option, none, some, List, [], ◌∷◌, String, Text,
  units, text_eq, text_eq_iff, get_elem?, if◌then◌else◌, ◌≡◌, refl, sym, ◌∙◌, ap, arith, inl, inr,
  Bool-cases,
}
use infra_orch_studio.Js.Text.{starts_with}
use infra_orch_studio.Shell.{route_key, defer_guide_panel}
use infra_orch_studio.I18n.{CopyShape}

-- A link of the sidebar; `active` is its class `nav-item-active`.
pub record Entry : Type 0 where
  pub address : String
  pub index : String
  pub label : String
  pub active : Bool

abbrev under : String → Text → Bool
under prefix path = starts_with (units prefix) path

unfoldable pub entries : CopyShape → Bool → Text → List Entry
entries copy ko path =
    record {
      address = "/dashboard";
      index = "01";
      label = copy.shell.nav.dashboard;
      active = text_eq path (units "/dashboard") || text_eq path (units "/");
    }
    ∷ record {
      address = "/guided-start";
      index = "02";
      label = copy.shell.nav.guided_start;
      active = under "/guided-start" path;
    }
    ∷ record {
      address = "/environments";
      index = "03";
      label = copy.shell.nav.environments;
      active = under "/environments" path;
    }
    ∷ record {
      address = "/create-environment";
      index = "04";
      label = copy.shell.nav.create;
      active = under "/create-environment" path;
    }
    ∷ record {
      address = "/jobs";
      index = "05";
      label = copy.shell.nav.jobs;
      active = under "/jobs" path;
    }
    ∷ record {
      address = "/templates";
      index = "06";
      label = copy.shell.nav.templates;
      active = under "/templates" path;
    }
    ∷ record {
      address = "/providers";
      index = "07";
      label = if ko then "공급자" else "Providers";
      active = under "/providers" path;
    }
    ∷ record {
      address = "/audit";
      index = "08";
      label = copy.shell.nav.audit;
      active = under "/audit" path;
    }
    ∷ record {
      address = "/users";
      index = "09";
      label = copy.shell.nav.users;
      active = under "/users" path;
    }
    ∷ []

-- The heading.
unfoldable pub title : CopyShape → Bool → Text → String
title copy ko path =
    if under "/providers" path
    then (if ko then "공급자 연결" else "Provider connections")
    else copy.shell.route_titles (route_key path)

-- Which part of the page the guide stands before or behind; there is none on the login page.
pub data Place : Type 0 where
  nowhere before behind : Place

unfoldable pub guide_place : Text → Place
guide_place path =
    if text_eq path (units "/login")
    then nowhere
    else if defer_guide_panel path
    then behind
    else before

-- The second unit of an address tells which link it is under.
abbrev place_of : Option ℕ → ℕ
place_of none = 0
place_of (some c) =
    if c == b'g'
    then 1
    else if c == b'e'
    then 2
    else if c == b'c'
    then 3
    else if c == b'j'
    then 4
    else if c == b't'
    then 5
    else if c == b'p'
    then 6
    else if c == b'a'
    then 7
    else if c == b'u'
    then 8
    else 0

starts_with-second :
    (a b : ℕ) (rest path : Text)
    → starts_with (a ∷ b ∷ rest) path ≡ true
    → get_elem? path 1 ≡ some b
unfolding starts_with
starts_with-second a b rest [] h = cc
starts_with-second a b rest (c ∷ []) h = ground arith
starts_with-second a b rest (c ∷ d ∷ path) h = ground arith

-- An address under a link has the second unit of the link.
second_place :
    (a b : ℕ) (rest path : Text) (n : ℕ)
    → starts_with (a ∷ b ∷ rest) path ≡ true
    → place_of (some b) ≡ n
    → place_of (get_elem? path 1) ≡ n
second_place a b rest path n h e = ap place_of (starts_with-second a b rest path h) ∙ e

dashboard_place :
    (path : Text)
    → (text_eq path (units "/dashboard") || text_eq path (units "/")) ≡ true
    → place_of (get_elem? path 1) ≡ 0
dashboard_place path h = elim (Bool-cases (text_eq path (units "/dashboard"))) [
  | inl there ↦ at ((text_eq_iff path (units "/dashboard")).0 there) refl
  | inr other ↦ at ((text_eq_iff path (units "/")).0 (ground (arith, h, other))) refl
]
  where
    at : {p q : Text} → p ≡ q → place_of (get_elem? q 1) ≡ 0 → place_of (get_elem? p 1) ≡ 0
    at e h = rw e h

is_active : {e f : Entry} → some e ≡ some f → f.active ≡ true → e.active ≡ true
is_active {e} {f} h a = ap active_of h ∙ a
  where
    active_of : Option Entry → Bool
    active_of none = false
    active_of (some x) = x.active

-- The active entry is the one of the second unit.
active-place :
    (copy : CopyShape) (ko : Bool) (path : Text) (i : ℕ) (e : Entry)
    → get_elem? (entries copy ko path) i ≡ some e
    → e.active ≡ true
    → place_of (get_elem? path 1) ≡ i
unfolding entries
active-place copy ko path zero e h a = dashboard_place path (is_active h a)
active-place copy ko path (suc zero) e h a = second_place _ _ _ path 1 (is_active h a) refl
active-place copy ko path (suc (suc zero)) e h a = second_place _ _ _ path 2 (is_active h a) refl
active-place copy ko path (suc (suc (suc zero))) e h a =
    second_place _ _ _ path 3 (is_active h a) refl
active-place copy ko path (suc (suc (suc (suc zero)))) e h a =
    second_place _ _ _ path 4 (is_active h a) refl
active-place copy ko path (suc (suc (suc (suc (suc zero))))) e h a =
    second_place _ _ _ path 5 (is_active h a) refl
active-place copy ko path (suc (suc (suc (suc (suc (suc zero)))))) e h a =
    second_place _ _ _ path 6 (is_active h a) refl
active-place copy ko path (suc (suc (suc (suc (suc (suc (suc zero))))))) e h a =
    second_place _ _ _ path 7 (is_active h a) refl
active-place copy ko path (suc (suc (suc (suc (suc (suc (suc (suc zero)))))))) e h a =
    second_place _ _ _ path 8 (is_active h a) refl
active-place copy ko path (suc (suc (suc (suc (suc (suc (suc (suc (suc i))))))))) e h a = cc

-- Whatever the address, at most one link of the sidebar is shown as the active one.
pub active_unique :
    (copy : CopyShape) (ko : Bool) (path : Text) (i j : ℕ) (a b : Entry)
    → get_elem? (entries copy ko path) i ≡ some a
    → get_elem? (entries copy ko path) j ≡ some b
    → a.active ≡ true
    → b.active ≡ true
    → i ≡ j
active_unique copy ko path i j a b hi hj x y =
    sym (active-place copy ko path i a hi x) ∙ active-place copy ko path j b hj y
