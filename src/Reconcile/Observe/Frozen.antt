-- ===== src/Reconcile/Observe/Frozen.antt =====
-- Frozen groups and the state during an observation (src/reconcile/observe.rs).
use byssus.Base.{
  ◌≡◌, refl, ◌∙◌, Bool, true, false, Bool-cases, inl, inr, contains, List, [], ◌∷◌, Result, ok, err,
  Text,
}
use byssus.Base.Map
use byssus.Base.Map.{Map}
use byssus.Base.Set
use byssus.Name.{Name, GroupId, name_ord, group_ord, group_eq}
use byssus.Config.Groups.{GroupConfig}
use byssus.Membership.{Membership}
use byssus.Template.{InterpolateError}
use byssus.Template.Interpolation.{interpolate}
use byssus.State.{RecordKey, key_ord}
use byssus.System.{System, IoError}
use byssus.Fsops.{is_deleted, scan_membership}
use byssus.Runtime.{GroupRuntime}
use byssus.Runtime.Scan.{or_false}
use byssus.Reconcile.Types.{Location, location_ord, DesiredMount, SourceState, TargetState}
use byssus.Reconcile.Notes.{Observed}
use byssus.Reconcile.Observe.{
  desire, desire_all, note_ignored, observe_members, read_members, observe_group, observe_groups,
  observe_kernel, observe, targets_of, source_found, observe_source, observe_sources, target_found,
  observe_target, observe_targets, default_observed,
}
use byssus.Reconcile.Execute.{Machine, root_of}
use byssus.Reconcile.Execute.StateLaws.{Keeps-root_of}

module _ (group : GroupId) (cfg : GroupConfig) where
  desire-frozen :
      (name : Name) (s t : Result InterpolateError Text) (o : Observed)
      → (desire group cfg name s t o).frozen ≡ o.frozen
  desire-frozen name (ok s) (ok t) o = refl
  desire-frozen name (ok s) (err e) o = refl
  desire-frozen name (err e) t o = refl

  desire_all-frozen :
      (names : List Name) (o : Observed) → (desire_all group cfg names o).frozen ≡ o.frozen
  unfolding desire_all
  desire_all-frozen [] o = refl
  desire_all-frozen (name ∷ names) o =
      desire_all-frozen names _
      ∙ desire-frozen name (interpolate cfg.source name) (interpolate cfg.target name) o

  note_ignored-frozen :
      (names : List Text) (o : Observed) → (note_ignored group cfg names o).frozen ≡ o.frozen
  note_ignored-frozen [] o = refl
  note_ignored-frozen (n ∷ names) o = refl

  observe_members-frozen :
      (m : Membership) (o : Observed) → (observe_members group cfg m o).frozen ≡ o.frozen
  unfolding observe_members
  observe_members-frozen m o =
      desire_all-frozen (Map.keys m.members) _ ∙ note_ignored-frozen m.ignored o

-- The group is frozen.
abbrev pub IsFrozen : GroupId → Observed → Type 0
IsFrozen g o = Set.has o.frozen g ≡ true

module _ (sys : System) where
  open sys use {World, Errno}

  read_members-IsFrozen :
      (g group : GroupId) (cfg : GroupConfig) (r : Result (IoError Errno) Membership) (o : Observed)
      → IsFrozen g o
      → IsFrozen g (read_members sys group cfg r o)
  read_members-IsFrozen g group cfg (ok m) o h = rw (observe_members-frozen group cfg m o) h
  read_members-IsFrozen g group cfg (err e) o h = Set.has-insert g group o.frozen h

  observe_group-IsFrozen :
      (g group : GroupId) (gr : GroupRuntime sys) (o : Observed) (w : World)
      → IsFrozen g o
      → IsFrozen g (observe_group sys group gr (o, w)).0
  unfolding observe_group
  observe_group-IsFrozen g group gr o w h =
      let (deleted, w') = is_deleted sys gr.membership_dir w in
      let (r, w'') = scan_membership sys gr.membership_dir w' in
      elim (Bool-cases (or_false sys deleted)) [
        | inl e ↦ rw e (Set.has-insert g group o.frozen h)
        | inr e ↦ rw e (read_members-IsFrozen g group gr.config r o h)
      ]

  observe_groups-IsFrozen :
      (g : GroupId) (degraded : List GroupId) (groups : Map GroupId (GroupRuntime sys))
      (o : Observed) (w : World)
      → IsFrozen g o
      → IsFrozen g (observe_groups sys degraded groups (o, w)).0
  unfolding observe_groups
  observe_groups-IsFrozen g degraded [] o w h = h
  observe_groups-IsFrozen g degraded ((group, gr) ∷ groups) o w h =
      elim (Bool-cases (contains degraded group)) [
        | inl e ↦ rw e (observe_groups-IsFrozen g degraded groups o w h)
        | inr e ↦ rw e (
            observe_groups-IsFrozen g degraded groups _ _ (observe_group-IsFrozen g group gr o w h))
      ]

  observe_kernel-frozen :
      (unique_supported : Bool) (o : Observed) (m : Machine sys)
      → (observe_kernel sys unique_supported o m).0.frozen ≡ o.frozen
  unfolding observe_kernel
  observe_kernel-frozen unique_supported o m = refl

  -- What is degraded is frozen.
  pub observe-IsFrozen :
      (g : GroupId) (unique_supported : Bool) (groups : Map GroupId (GroupRuntime sys))
      (degraded : List GroupId) (m : Machine sys)
      → Set.has degraded g ≡ true
      → IsFrozen g (observe sys unique_supported groups degraded m).0
  unfolding observe
  observe-IsFrozen g unique_supported groups degraded m h =
      let (o, w) =
        observe_groups sys degraded groups
          (record default_observed { frozen = degraded }, m.world) in
      rw (observe_kernel-frozen unique_supported o (record m { world = w })) (
        observe_groups-IsFrozen g degraded groups (record default_observed { frozen = degraded })
          m.world h)

-- An observation does not change the state.
module _ (sys : System) where
  source_found-state :
      (l : Location) (r : Result Text sys.Fd) (m : Machine sys)
      → (source_found sys false l (r, m)).1.state ≡ m.state
  source_found-state l (ok root) m = refl
  source_found-state l (err e) m = refl

  module _ (unique_supported : Bool) where
    observe_sources-state :
        (ds : List DesiredMount) (sources : Map RecordKey SourceState) (m : Machine sys)
        → (observe_sources sys unique_supported ds (sources, m)).1.state ≡ m.state
    unfolding observe_sources observe_source
    observe_sources-state [] sources m = refl
    observe_sources-state (d ∷ ds) sources m =
        let (state, m') = observe_source sys unique_supported d.source m in
        let root = root_of sys d.source.root m in
        observe_sources-state ds (Map.insert d.key state sources) m'
        ∙ (source_found-state d.source root.0 root.1 ∙ Keeps-root_of sys d.source.root m)

    target_found-state :
        (l : Location) (r : Result Text sys.Fd) (m : Machine sys)
        → (target_found sys unique_supported l (r, m)).1.state ≡ m.state
    target_found-state l (ok root) m = refl
    target_found-state l (err e) m = refl

    observe_targets-state :
        (ls : List Location) (targets : Map Location TargetState) (m : Machine sys)
        → (observe_targets sys unique_supported ls (targets, m)).1.state ≡ m.state
    unfolding observe_targets observe_target
    observe_targets-state [] targets m = refl
    observe_targets-state (l ∷ ls) targets m =
        let (state, m') = observe_target sys unique_supported l m in
        let root = root_of sys l.root m in
        observe_targets-state ls (Map.insert l state targets) m'
        ∙ (target_found-state l root.0 root.1 ∙ Keeps-root_of sys l.root m)

    observe_kernel-state :
        (o : Observed) (m : Machine sys)
        → (observe_kernel sys unique_supported o m).1.state ≡ m.state
    unfolding observe_kernel
    observe_kernel-state o m =
        let (sources, m') =
          observe_sources sys unique_supported o.desired (o.observations.sources, m) in
        observe_targets-state (targets_of sys unique_supported m.state o) o.observations.targets m'
        ∙ observe_sources-state o.desired o.observations.sources m

    pub observe-state :
        (groups : Map GroupId (GroupRuntime sys)) (degraded : List GroupId) (m : Machine sys)
        → (observe sys unique_supported groups degraded m).1.state ≡ m.state
    unfolding observe
    observe-state groups degraded m =
        let (o, w) =
          observe_groups sys degraded groups
            (record default_observed { frozen = degraded }, m.world) in
        observe_kernel-state o (record m { world = w })
