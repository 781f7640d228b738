-- ===== src/Pages/Providers.antt =====
-- web/src/pages/Providers.tsx: the connections to clouds and the form that saves one. `new URL` and
-- `JSON.parse` are the platform's, so what they say of a text is a parameter.
pub mod Saved
pub mod Checks
use infra_orch_studio.Common.{
  ℕ, ◌+◌, Bool, true, false, not, ◌&&◌, ◌||◌, Option, none, some, List, [], ◌∷◌, ◌++◌, String, Text,
  units, truthy, given, text_eq, if◌then◌else◌, any, length, ◌==◌, is_some,
}
use infra_orch_studio.Js.Text.{trim, join}
use infra_orch_studio.Js.Object.{Object, text_key, put}
use infra_orch_studio.Options.{is_safe_provider_name}
use infra_orch_studio.UiCopy.{say}
use infra_orch_studio.Pages.Fetch.{
  Fetch, signed_out, failed, fetched, Answer, answered, refused, message_or,
}

pub record Draft : Type 0 where
  pub name : Text
  pub auth_url : Text
  pub username : Text
  pub password : Text
  pub project_name : Text
  pub project_id : Text
  pub user_domain_name : Text
  pub project_domain_name : Text
  pub region_name : Text
  pub interface : Text
  pub identity_interface : Text
  pub endpoint_override_json : Text

unfoldable pub initial_draft : Draft
initial_draft = record {
  name = units "new-cloud";
  auth_url = [];
  username = [];
  password = [];
  project_name = [];
  project_id = [];
  user_domain_name = units "Default";
  project_domain_name = units "Default";
  region_name = units "RegionOne";
  interface = units "internal";
  identity_interface = units "internal";
  endpoint_override_json = units "{}";
}

unfoldable pub openstack_interfaces : List Text
openstack_interfaces = units "internal" ∷ units "public" ∷ units "admin" ∷ []

-- A parsed JSON value: the entries of an object, each a text or something else, or no object.
pub data Json : Type 0 where
  entries : List (Text × Option Text) → Json
  no_object : Json

-- `providers.upsert`
pub record Upsert : Type 0 where
  pub name : Text
  pub auth_url : Text
  pub region_name : Text
  pub interface : Text
  pub identity_interface : Text
  pub username : Text
  pub password : Text
  pub project_name : Text
  pub project_id : Text
  pub user_domain_name : Text
  pub project_domain_name : Text
  pub endpoint_override : Object Text Text

-- `out[key] = value`: the key `__proto__` names no entry.
unfoldable pub put_own : Text → Text → Object Text Text → Object Text Text
put_own key value out = if text_eq key (units "__proto__") then out else put key value out

abbrev pub text_or : Text → String → Text
text_or t other = if truthy t then t else units other

abbrev label : String → Text → Text
label name value = units name ++ value

unfoldable pub clouds_lines : Draft → List Text
clouds_lines draft =
    units "clouds:"
    ∷ (units "  " ++ (trim draft.name ++ units ":"))
    ∷ units "    auth:"
    ∷ label "      auth_url: " (text_or (trim draft.auth_url) "<keystone-url>/v3")
    ∷ label "      username: " (text_or (trim draft.username) "<username>")
    ∷ label "      password: " (text_or draft.password "<password>")
    ∷ (if truthy (trim draft.project_id)
        then label "      project_id: " (trim draft.project_id)
        else label "      project_name: " (text_or (trim draft.project_name) "<project>"))
    ∷ label "      user_domain_name: " (text_or (trim draft.user_domain_name) "Default")
    ∷ label "      project_domain_name: " (text_or (trim draft.project_domain_name) "Default")
    ∷ label "    region_name: " (text_or (trim draft.region_name) "RegionOne")
    ∷ label "    interface: " (text_or (trim draft.interface) "internal")
    ∷ label "    identity_interface: " (text_or (trim draft.identity_interface) "internal")
    ∷ []

unfoldable pub build_clouds_snippet : Draft → Text
build_clouds_snippet draft = join (units "\n") (clouds_lines draft)

pub record Page {ℓ} (Connection : Type ℓ) : Type ℓ where
  pub items : List Connection
  pub default_cloud : Text
  pub error : Option Text
  pub notice : Option Text
  pub saving : Bool
  pub draft : Draft

unfoldable pub is_known_interface : Text → Bool
is_known_interface value = any (λ item. text_eq item (trim value)) openstack_interfaces

-- The button of the form is not `disabled`.
unfoldable pub can_save {ℓ} : {C : Type ℓ} → Page C → Bool
can_save page =
    let d = page.draft in
    let name = trim d.name in
    not page.saving
    && truthy d.name
    && (not (truthy name) || is_safe_provider_name name)
    && truthy d.auth_url
    && truthy d.username
    && truthy d.password
    && (truthy d.project_name || truthy d.project_id)

unfoldable pub upsert_of : Draft → Object Text Text → Upsert
upsert_of d override = record {
  name = trim d.name;
  auth_url = trim d.auth_url;
  region_name = trim d.region_name;
  interface = trim d.interface;
  identity_interface = trim d.identity_interface;
  username = trim d.username;
  password = d.password;
  project_name = trim d.project_name;
  project_id = trim d.project_id;
  user_domain_name = text_or (trim d.user_domain_name) "Default";
  project_domain_name = text_or (trim d.project_domain_name) "Default";
  endpoint_override = override;
}

module _ (is_web_protocol : Text → Bool) (parse : Text → Option Json) where
  -- `isHttpUrl`: `is_web_protocol` says that a text is a URL with the protocol `http:` or `https:`.
  unfoldable pub is_http_url : Text → Bool
  is_http_url value = is_web_protocol value

  unfoldable pub override_entries :
      List (Text × Option Text) → Object Text Text → Option (Object Text Text)
  override_entries [] out = some out
  override_entries ((key, none) ∷ rest) out = none
  override_entries ((key, some value) ∷ rest) out =
      let next = override_entries rest (put_own (trim key) (trim value) out) in
      if truthy (trim key) && is_http_url (trim value) then next else none

  abbrev pub override_of : Option Json → Option (Object Text Text)
  override_of none = none
  override_of (some no_object) = none
  override_of (some (entries list)) = override_entries list []

  unfoldable pub parse_endpoint_override : Text → Option (Object Text Text)
  parse_endpoint_override raw =
      if truthy (trim raw) then override_of (parse (trim raw)) else some []

  abbrev with_error {ℓ} : {C : Type ℓ} → Text → Page C → Page C × Option Upsert
  with_error message page = (record page { error = some message; notice = none }, none)

  abbrev pub send {ℓ} :
      {C : Type ℓ} → Bool → Option (Object Text Text) → Page C → Page C × Option Upsert
  send ko none page =
      with_error
        (say ko "Endpoint override는 값이 http(s) URL인 JSON 객체여야 합니다."
          "Endpoint override must be a JSON object whose values are http(s) URLs.")
        page
  send ko (some override) page = (
    record page { error = none; notice = none; saving = true },
    some (upsert_of page.draft override),
  )

  -- `saveProvider` up to its request.
  unfoldable pub save_provider {ℓ} : {C : Type ℓ} → Bool → Page C → Page C × Option Upsert
  save_provider ko page =
      if not (is_safe_provider_name (trim page.draft.name))
      then with_error
          (say ko "공급자 이름은 영문, 숫자, 점, 밑줄, 하이픈만 사용할 수 있습니다."
            "Provider name can contain only letters, numbers, dots, underscores, or dashes.")
          page
      else if not (is_known_interface page.draft.interface)
          || not (is_known_interface page.draft.identity_interface)
      then with_error
          (say ko "인터페이스는 internal, public, admin 중 하나여야 합니다."
            "Interface values must be one of internal, public, or admin.")
          page
      else if not (is_http_url (trim page.draft.auth_url))
      then with_error
          (say ko "Keystone Auth URL은 http 또는 https URL이어야 합니다."
            "Keystone Auth URL must be an http or https URL.")
          page
      else send ko (parse_endpoint_override page.draft.endpoint_override_json) page
