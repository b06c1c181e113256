-- ===== src/Reconcile/Plan/Invariant.antt =====
-- The invariant of the planner's loops (src/reconcile/plan.rs).
use byssus.Base.{
  ℕ, ◌≡◌, inl, inr, Option, some, List, [], ◌∷◌, ◌++◌, arith, Option-cases, All, All-mono,
  All-append, get_elem?, get_elem?-append,
}
use mathlib.Core.Option
use byssus.Base.Map
use byssus.Base.Map.{Map}
use byssus.Identity.{DevIno, MountIdentity}
use byssus.State.{RecordKey, key_ord}
use byssus.Reconcile.Types.{
  Location, location_ord, ObservedAttrs, resolved, not_mounted, mounted, PlanInput, Action, unmount,
  drop_record, mount,
}
use byssus.Reconcile.Builder.{target_at, source_of}
use byssus.Reconcile.Plan.Spec.{IsJustified, IsReady, IsRemoval}

abbrev pub Entry : Type 0
Entry = Action × List ℕ

abbrev pub action_at : List Entry → ℕ → Option Action
action_at steps id = Option.map (λ s. s.0) (get_elem? steps id)

pub action_at-append :
    (steps more : List Entry) (id : ℕ) (a : Action)
    → action_at steps id ≡ some a
    → action_at (steps ++ more) id ≡ some a
action_at-append steps more id a e = elim (Option-cases (get_elem? steps id)) [
  | inl n ↦ absurd (ground arith)
  | inr (s, p) ↦ rw (get_elem?-append steps more id p) (rw p at e)
]

pub IsRemoval-append :
    (steps more : List Entry) (id : ℕ)
    → IsRemoval (action_at steps id)
    → IsRemoval (action_at (steps ++ more) id)
IsRemoval-append steps more id h = elim (Option-cases (get_elem? steps id)) [
  | inl n ↦ absurd (rw n at h)
  | inr (s, p) ↦ rw (get_elem?-append steps more id p) (rw p at h)
]

module _ (input : PlanInput) where
  pub target_at-get :
      (l : Location) (found : MountIdentity) (attrs : Option ObservedAttrs)
      → target_at input l ≡ mounted found attrs
      → Map.get l input.observations.targets ≡ some (mounted found attrs)
  unfolding target_at
  target_at-get l found attrs e = ground arith

  pub target_at-get_none :
      (l : Location)
      → target_at input l ≡ not_mounted
      → Map.get l input.observations.targets ≡ some not_mounted
  unfolding target_at
  target_at-get_none l e = ground arith

  pub source_of-get :
      (k : RecordKey) (root : DevIno)
      → source_of input k ≡ resolved root
      → Map.get k input.observations.sources ≡ some (resolved root)
  unfolding source_of
  source_of-get k root e = ground arith

  -- A step is sound among the steps: justified, ready, and waiting for removals only.
  abbrev pub IsSound : List Entry → Entry → Type 0
  IsSound steps s =
      IsJustified input s.0
      × IsReady input (action_at steps) s.0 s.1
      × All (λ id. IsRemoval (action_at steps id)) s.1

  abbrev pub AllSound : List Entry → Type 0
  AllSound steps = All (IsSound steps) steps

  IsReady-append :
      (steps more : List Entry) (a : Action) (deps : List ℕ)
      → IsReady input (action_at steps) a deps
      → IsReady input (action_at (steps ++ more)) a deps
  IsReady-append steps more (mount d) deps (inl e) = inl e
  IsReady-append steps more (mount d) deps (inr (id, a, m, e, f)) =
      inr (id, a, m, action_at-append steps more id a e, f)
  IsReady-append steps more (unmount r reason) deps h = h
  IsReady-append steps more (drop_record r reason) deps h = h

  IsSound-append :
      (steps more : List Entry) (s : Entry) → IsSound steps s → IsSound (steps ++ more) s
  IsSound-append steps more s h = (
    h.0,
    IsReady-append steps more s.0 s.1 h.1,
    All-mono (λ id. IsRemoval (action_at steps id)) (λ id. IsRemoval (action_at (steps ++ more) id))
        s.1 (λ id. IsRemoval-append steps more id) h.2,
  )

  -- A further step that is sound among those before it.
  pub AllSound-snoc :
      (steps : List Entry) (s : Entry)
      → AllSound steps
      → IsSound steps s
      → AllSound (steps ++ (s ∷ []))
  AllSound-snoc steps s h k =
      All-append (IsSound (steps ++ (s ∷ []))) steps (s ∷ [])
        (All-mono (IsSound steps) (IsSound (steps ++ (s ∷ []))) steps
          (λ t. IsSound-append steps (s ∷ []) t) h)
        (IsSound-append steps (s ∷ []) s k, tt)
