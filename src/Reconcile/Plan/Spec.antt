-- ===== src/Reconcile/Plan/Spec.antt =====
-- What a plan may contain, said of the observations and the records and not of the planner.
use byssus.Base.{ℕ, ◌≡◌, ◌⊎◌, true, false, Option, none, some, List, [], Elem, contains}
use byssus.Base.Map
use byssus.Name.{GroupId, group_eq}
use byssus.Identity.{DevIno, MountIdentity, matches}
use byssus.State
use byssus.State.{key_ord, MountRecord, identity}
use byssus.Reconcile.Types.{
  Location, location_ord, target_location, ObservedAttrs, resolved, not_mounted, mounted, PlanInput,
  Action, unmount, drop_record, mount, phase,
}

module _ (input : PlanInput) where
  -- The group is not frozen.
  abbrev pub IsThawed : GroupId → Type 0
  IsThawed g = contains input.frozen_groups g ≡ false

  -- The mount observed at the record's target is the recorded one.
  abbrev pub IsOurs : MountRecord → Type 0
  IsOurs r =
      (found : MountIdentity) × (attrs : Option ObservedAttrs) × (Map.get (target_location r)
          input.observations.targets
        ≡ some (mounted found attrs))
      × (matches found (identity r) ≡ true)

  -- Nothing, or another mount, was observed at the record's target.
  abbrev pub IsGone : MountRecord → Type 0
  IsGone r =
      (Map.get (target_location r) input.observations.targets ≡ some not_mounted)
      ⊎ ((found : MountIdentity) × (attrs : Option ObservedAttrs) × (Map.get (target_location r)
              input.observations.targets
            ≡ some (mounted found attrs))
          × (matches found (identity r) ≡ false))

  abbrev pub IsRecorded : MountRecord → Type 0
  IsRecorded r = Elem r (State.records input.state) × IsThawed r.group

  -- A step is justified by what was observed: an unmount by our own mount at the target, a dropped
  -- record by the absence of it, a mount by a source directory of a desired member.
  abbrev pub IsJustified : Action → Type 0
  IsJustified (unmount r reason) = IsRecorded r × IsOurs r
  IsJustified (drop_record r reason) = IsRecorded r × IsGone r
  IsJustified (mount d) =
      Elem d input.desired
      × IsThawed d.key.group
      × ((root : DevIno) × (Map.get d.key input.observations.sources ≡ some (resolved root)))

  -- The action unmounts our mount at this location.
  abbrev pub Frees : Location → Action → Type 0
  Frees l (unmount r reason) = (target_location r ≡ l) × IsOurs r
  Frees l _ = ⊥

  -- A target is ready for a mount if nothing is mounted there, or if a step that the mount waits
  -- for unmounts what is; `at` gives the action of a step.
  abbrev pub IsReady : (ℕ → Option Action) → Action → List ℕ → Type 0
  IsReady at (mount d) deps =
      (Map.get d.target input.observations.targets ≡ some not_mounted)
      ⊎ ((id : ℕ) × (a : Action) × Elem id deps × (at id ≡ some a) × Frees d.target a)
  IsReady at _ deps = deps ≡ []

-- A step that removes a record.
abbrev pub IsRemoval : Option Action → Type 0
IsRemoval none = ⊥
IsRemoval (some a) = phase a ≡ 0
