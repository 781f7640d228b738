-- ===== src/UiCopy/Laws.antt =====
-- What the error texts of web/src/utils/uiCopy.ts keep.
use infra_orch_studio.Common.{
  ℕ, ◌≡◌, ◌≢◌, ◌↔◌, Bool, true, false, Option, none, some, List, [], ◌∷◌, ◌++◌, Text, str_eq,
  eq_iff, arith, ==_iff, ◌==◌,
}
use infra_orch_studio.Js.Text.{includes, starts_with}
use infra_orch_studio.Api.{Environment}
use infra_orch_studio.UiCopy.{
  opt_differ, push_if, conflict_changes, operator_message, error_looks_raw,
}

-- A summary that still looks like a raw error is the message itself, in either language.
pub operator_message-raw :
    (ko : Bool) (n m : Text)
    → error_looks_raw (some (operator_message ko n m)) ≡ true
    → operator_message ko n m ≡ m
unfolding operator_message error_looks_raw includes starts_with
operator_message-raw true n m h = ground arith
operator_message-raw false n m h = ground arith

opt_differ_iff :
    {A : Type 0} (same : A → A → Bool) (a b : Option A)
    → ((x y : A) → (same x y ≡ true) ↔ (x ≡ y))
    → (opt_differ same a b ≡ false) ↔ (a ≡ b)
opt_differ_iff same none none h = ground arith
opt_differ_iff same none (some y) h = ground arith
opt_differ_iff same (some x) none h = ground arith
opt_differ_iff same (some x) (some y) h = ground (arith, h x y)

append-ne-nil : (xs : List Text) (x : Text) → xs ++ x ∷ [] ≢ []
append-ne-nil [] x = ground arith
append-ne-nil (y ∷ xs) x = ground arith

push_if-eq-nil_iff :
    (t : Bool) (x : Text) (xs : List Text) → (push_if t x xs ≡ []) ↔ ((t ≡ false) × (xs ≡ []))
push_if-eq-nil_iff true x xs = ground (arith, append-ne-nil xs x)
push_if-eq-nil_iff false x xs = ground arith

-- A reload after a conflict reports no change exactly when the revision, the status, the approval
-- status and the last job are the same as before.
pub conflict_changes-eq-nil_iff :
    (show : ℕ → Text) (p c : Environment) (ko : Bool)
    → (conflict_changes show p c ko ≡ []) ↔ (
        (p.revision ≡ c.revision)
        × (p.status ≡ c.status)
        × (p.approval_status ≡ c.approval_status)
        × (p.last_job_id ≡ c.last_job_id))
unfolding conflict_changes
conflict_changes-eq-nil_iff show p c ko = grind (
  arith,
  push_if-eq-nil_iff,
  opt_differ_iff (λ (a b : ℕ). a == b) p.revision c.revision ==_iff,
  opt_differ_iff str_eq p.last_job_id c.last_job_id eq_iff,
  eq_iff p.status c.status,
  eq_iff p.approval_status c.approval_status,
)
