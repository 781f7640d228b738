-- ===== src/Shell/Dialog.antt =====
-- web/src/components/ConfirmDialog.tsx: what the dialog shows, and which call a key or a button makes.
use infra_orch_studio.Common.{
  Bool, true, false, not, ◌&&◌, Option, none, some, List, map, String, given, str_eq, length,
  if◌then◌else◌, ◌==◌, ◌≡◌, arith,
}

pub data Tone : Type 0 where
  warning danger : Tone

pub record DialogDetail : Type 0 where
  pub label : String
  pub value : String

-- The properties of the component, without the two callbacks.
pub record Dialog : Type 0 where
  pub is_open : Bool
  pub title : String
  pub description : String
  pub confirm_label : String
  pub cancel_label : String
  pub tone : Tone
  pub details : List DialogDetail
  pub busy : Bool

pub data Input : Type 0 where
  key : String → Input
  press_cancel press_confirm : Input

pub data Call : Type 0 where
  on_cancel on_confirm : Call

-- The listener for keys exists while the dialog is open; a disabled button makes no call.
unfoldable pub dialog_call : Dialog → Input → Option Call
dialog_call d (key k) = if d.is_open && str_eq k "Escape" then some on_cancel else none
dialog_call d press_cancel = if d.is_open && not d.busy then some on_cancel else none
dialog_call d press_confirm = if d.is_open && not d.busy then some on_confirm else none

-- What is rendered.
pub record DialogView : Type 0 where
  pub card_class : String
  pub kicker : String
  pub badge_class : String
  pub badge : String
  pub title : String
  pub description : String
  pub details : Option (List DialogDetail)
  pub cancel_label : String
  pub confirm_label : String
  pub confirm_class : String
  pub buttons_disabled : Bool

abbrev dash_value : DialogDetail → DialogDetail
dash_value item = record item { value = if given item.value then item.value else "-" }

abbrev by_tone : Tone → String → String → String
by_tone danger a b = a
by_tone warning a b = b

unfoldable pub dialog_view : Dialog → Option DialogView
dialog_view d =
    if d.is_open
    then some (record {
      card_class =
          by_tone d.tone "dialog-card dialog-card-danger" "dialog-card dialog-card-warning";
      kicker = by_tone d.tone "High Risk" "Confirmation";
      badge_class = by_tone d.tone "badge badge-failed" "badge badge-queued";
      badge = by_tone d.tone "Risk" "Review";
      title = d.title;
      description = d.description;
      details = if length d.details == 0 then none else some (map dash_value d.details);
      cancel_label = d.cancel_label;
      confirm_label = d.confirm_label;
      confirm_class = by_tone d.tone "danger-action" "";
      buttons_disabled = d.busy;
    })
    else none

-- A dialog that is closed makes no call, an open one that is busy can still be cancelled by a key
-- though its buttons are disabled, and it confirms only while it is open and not busy.
pub dialog_call_lem :
    (d : Dialog) (i : Input)
    → (d.is_open ≡ false → dialog_call d i ≡ none)
      × (d.is_open ≡ true
          → d.busy ≡ true
          → (dialog_call d (key "Escape") ≡ some on_cancel) × (dialog_call d press_cancel ≡ none))
      × (dialog_call d i ≡ some on_confirm → (d.is_open ≡ true) × (d.busy ≡ false))
unfolding dialog_call
dialog_call_lem d (key k) = (λ h. ground arith, λ h b. ground arith, λ h. ground arith)
dialog_call_lem d press_cancel = (λ h. ground arith, λ h b. ground arith, λ h. ground arith)
dialog_call_lem d press_confirm = (λ h. ground arith, λ h b. ground arith, λ h. ground arith)
