-- ===== src/Create/Review/Fresh.antt =====
-- The invariant of the preview that web/src/pages/CreateEnvironment.tsx shows, and the events that
-- leave it alone.
use infra_orch_studio.Common.{
  ℕ, ◌≡◌, refl, ◌∙◌, inl, inr, Bool, true, false, ◌&&◌, ==_iff, length, Option, none, some, List,
  Text, eq_iff, ◌==◌, arith, Bool-cases,
}
use infra_orch_studio.UiCopy.{text_given}
use infra_orch_studio.Create.{
  PreviewRequest, Preview, Wizard, restore, use_draft, closure_of, Event, draft_restored,
  preview_answered, draft_used, handle, same_dependencies, preview_effect,
}

abbrev pub at_review : Wizard → Bool
at_review w = w.viewer_ready && w.step == 6

-- A request for what the wizard holds.
abbrev pub IsCurrent : Wizard → PreviewRequest → Type 0
IsCurrent w r = (r.spec ≡ w.spec) × (r.template_name ≡ w.selected_template)

abbrev pub IsLive : Wizard → Option PreviewRequest → Type 0
IsLive w none = Unit
IsLive w (some r) = IsCurrent w r

-- The preview that is shown, if any, answers a request for what the wizard holds.
abbrev pub Shows : Wizard → Option Preview → Type 0
Shows w none = ⊥
Shows w (some p) = IsCurrent w p.answers

-- The request under way is the closure of its token.
abbrev pub IsKnown : List PreviewRequest → Option PreviewRequest → Type 0
IsKnown sent none = Unit
IsKnown sent (some r) = closure_of r.token sent ≡ some r

pub record IsFresh (w : Wizard) : Type 0 where
  pub live : IsLive w w.live
  pub known : IsKnown w.sent w.live
  pub shown :
      at_review w ≡ true
      → w.preview_loading ≡ false
      → text_given w.preview_error ≡ false
      → Shows w w.preview

-- The parts that the invariant reads are the same in both wizards.
pub record Agrees (v w : Wizard) : Type 0 where
  ready : v.viewer_ready ≡ w.viewer_ready
  step : v.step ≡ w.step
  spec : v.spec ≡ w.spec
  template : v.selected_template ≡ w.selected_template
  preview : v.preview ≡ w.preview
  error : v.preview_error ≡ w.preview_error
  loading : v.preview_loading ≡ w.preview_loading
  live : v.live ≡ w.live
  sent : v.sent ≡ w.sent

IsLive-Agrees : {v w : Wizard} (r : Option PreviewRequest) → Agrees v w → IsLive v r → IsLive w r
IsLive-Agrees none a h = h
IsLive-Agrees (some r) a h = (h.0 ∙ a.spec, h.1 ∙ a.template)

Shows-Agrees : {v w : Wizard} (p : Option Preview) → Agrees v w → Shows v p → Shows w p
Shows-Agrees none a h = h
Shows-Agrees (some p) a h = (h.0 ∙ a.spec, h.1 ∙ a.template)

pub IsFresh-Agrees : {v w : Wizard} → Agrees v w → IsFresh v → IsFresh w
IsFresh-Agrees {v} {w} a h = record {
  live = IsLive-Agrees w.live a (rw (← a.live) h.live);
  known = rw (← a.live, ← a.sent) h.known;
  shown = λ at_6 loaded clear.
      Shows-Agrees w.preview a
        (rw (← a.preview) (h.shown (ground arith) (a.loading ∙ loaded) (ground arith)));
}

pub preview_effect-IsFresh : (w : Wizard) → IsFresh (preview_effect w)
unfolding preview_effect closure_of
preview_effect-IsFresh w = elim (Bool-cases (at_review w)) [
  | inl here ↦ rw here (record {
    live = (refl, refl);
    known = rw ((==_iff (length w.sent) (length w.sent)).1 refl) refl;
    shown = λ _ loaded _. absurd (ground arith);
  })
  | inr away ↦ rw away (record { live = tt; known = tt; shown = λ here _ _. absurd (ground arith) })
]

same_dependencies_sound :
    (v w : Wizard)
    → same_dependencies v w ≡ true
    → (v.viewer_ready ≡ w.viewer_ready)
      × (v.step ≡ w.step)
      × (v.spec_version ≡ w.spec_version)
      × (v.selected_template ≡ w.selected_template)
unfolding same_dependencies
same_dependencies_sound v w h = ground (arith, eq_iff v.selected_template w.selected_template)

abbrev pub IsNoAnswer : Event → Type 0
IsNoAnswer (preview_answered _ _) = ⊥
IsNoAnswer _ = Unit

-- An event that is no answer to a preview and changes none of the effect's dependencies changes
-- nothing that the invariant reads.
module _ (show : ℕ → Text) where
  handle_keeps :
      (w : Wizard) (e : Event)
      → IsNoAnswer e
      → (w.preview ≡ (handle show w e).preview)
        × (w.preview_error ≡ (handle show w e).preview_error)
        × (w.preview_loading ≡ (handle show w e).preview_loading)
        × (w.live ≡ (handle show w e).live)
        × (w.sent ≡ (handle show w e).sent)
  unfolding handle restore use_draft
  handle_keeps w (preview_answered t r) n = absurd n
  handle_keeps w (draft_restored s) n = ground arith
  handle_keeps w draft_used n = ground arith
  handle_keeps w _ n = ground arith

  handle_spec :
      (w : Wizard) (e : Event)
      → IsNoAnswer e
      → w.spec_version ≡ (handle show w e).spec_version
      → w.spec ≡ (handle show w e).spec
  unfolding handle restore use_draft
  handle_spec w (preview_answered t r) n h = absurd n
  handle_spec w (draft_restored s) n h = ground arith
  handle_spec w draft_used n h = ground arith
  handle_spec w _ n h = ground arith

  pub handle-Agrees :
      (w : Wizard) (e : Event)
      → IsNoAnswer e
      → same_dependencies w (handle show w e) ≡ true
      → Agrees w (handle show w e)
  handle-Agrees w e n h =
      let (ready, step, version, template) = same_dependencies_sound w (handle show w e) h in
      let (preview, error, loading, live, sent) = handle_keeps w e n in
      record {
        ready = ready;
        step = step;
        spec = handle_spec w e n version;
        template = template;
        preview = preview;
        error = error;
        loading = loading;
        live = live;
        sent = sent;
      }
