-- ===== src/Server/Ensures.antt =====
-- What holds of everything that a handler hands over: rules for the ways in which the handlers go on.
use infra_orch_studio.Common.{
  Bool, true, false, Option, none, some, String, inl, inr, ◌≡◌, refl, subst,
}
use infra_orch_studio.Server.Validation.{Checked}
use infra_orch_studio.Server.Domain.{Job}
use infra_orch_studio.Server.Access.{Refusal, Answer, refuse_if, pass, or_bad_request}
use infra_orch_studio.Server.Handlers.{Body, absent, invalid, parsed, decoded, decoded_or, loaded}

pub data Ensures {ℓ κ} {A : Type ℓ} (P : A → Type κ) : Answer A → Type (ℓ ⊔ κ) where
  refused : (r : Refusal) → Ensures P (inl r)
  handed : (a : A) → P a → Ensures P (inr a)

module _ {ℓ κ} {B : Type ℓ} {P : B → Type κ} where
  pub Ensures-refuse_if :
      (test : Bool) (r : Refusal) (rest : Answer B)
      → (test ≡ false → Ensures P rest)
      → Ensures P (refuse_if test r rest)
  unfolding refuse_if
  Ensures-refuse_if true r rest h = refused r
  Ensures-refuse_if false r rest h = h refl

  pub Ensures-pass :
      (o : Option Refusal) (rest : Answer B) → (o ≡ none → Ensures P rest) → Ensures P (pass o rest)
  unfolding pass
  Ensures-pass none rest h = h refl
  Ensures-pass (some r) rest h = refused r

  pub Ensures-loaded :
      (o : Option Job) (message : String) (next : Job → Answer B)
      → ((job : Job) → o ≡ some job → Ensures P (next job))
      → Ensures P (loaded o message next)
  unfolding loaded
  Ensures-loaded none message next h = refused _
  Ensures-loaded (some job) message next h = h job refl

  pub Ensures-or_bad_request {μ} :
      {A : Type μ} (c : Checked A) (next : A → Answer B)
      → ((a : A) → c ≡ inr a → Ensures P (next a))
      → Ensures P (or_bad_request c next)
  unfolding or_bad_request
  Ensures-or_bad_request (inl message) next h = refused _
  Ensures-or_bad_request (inr a) next h = h a refl

  pub Ensures-decoded {μ} :
      {A : Type μ} (body : Body A) (next : A → Answer B)
      → ((a : A) → Ensures P (next a))
      → Ensures P (decoded body next)
  unfolding decoded
  Ensures-decoded absent next h = refused _
  Ensures-decoded invalid next h = refused _
  Ensures-decoded (parsed a) next h = h a

  pub Ensures-decoded_or {μ} :
      {A : Type μ} (default : A) (body : Body A) (next : A → Answer B)
      → ((a : A) → Ensures P (next a))
      → Ensures P (decoded_or default body next)
  unfolding decoded_or
  Ensures-decoded_or default absent next h = h default
  Ensures-decoded_or default invalid next h = refused _
  Ensures-decoded_or default (parsed a) next h = h a

  pub ensured : {x : Answer B} → Ensures P x → (b : B) → x ≡ inr b → P b
  ensured (refused r) b h = cc
  ensured (handed a p) b h = subst P (cc) p
