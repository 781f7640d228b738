-- ===== src/Pages/Fetch.antt =====
-- What the `load` functions of the pages wait for: first the session, then the data.
use infra_orch_studio.Common.{
  Bool, false, Option, none, some, String, Text, units, truthy, if◌then◌else◌,
}
use infra_orch_studio.Api.{User}

-- `auth.me()` fails, or it succeeds and the requests behind it fail or bring an `A`.
pub data Fetch {ℓ} (A : Type ℓ) : Type ℓ where
  signed_out : Fetch A
  failed : User → (message : Option Text) → Fetch A
  fetched : User → A → Fetch A

-- The answer of a request.
pub data Answer {ℓ} (A : Type ℓ) : Type ℓ where
  refused : (message : Option Text) → Answer A
  answered : A → Answer A

-- `err?.message || fallback`
abbrev pub message_or : String → Option Text → Text
message_or fallback none = units fallback
message_or fallback (some m) = if truthy m then m else units fallback

-- `Boolean(flag)` for an optional property.
abbrev pub is_set : Option Bool → Bool
is_set none = false
is_set (some flag) = flag
