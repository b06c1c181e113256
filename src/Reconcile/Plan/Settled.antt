-- ===== src/Reconcile/Plan/Settled.antt =====
-- Plans when everything is as it should be (src/reconcile/plan.rs, `plan`).
use byssus.Base.{
  ◌≡◌, ◌⊎◌, refl, sym, ap, ◌∙◌, true, false, inl, inr, Option, some, List, [], ◌∷◌, map, ◌==◌,
  ==_refl, Bool-cases, All, All-mono, All-get, Elem, IsNodup, option_eq, nat_eq,
}
use byssus.Base.Map
use byssus.Base.Map.{Map}
use byssus.Name.{group_eq}
use byssus.Identity.{MountIdentity, matches, dev_ino_eq, identity_eq}
use byssus.Config.{attrs_eq}
use byssus.State
use byssus.State.{RecordKey, key_ord, MountRecord, key, identity}
use byssus.Reconcile.Types.{DesiredMount, ObservedAttrs, SourceState, resolved, mounted, PlanInput}
use byssus.Reconcile.Builder.{
  Builder, empty_builder, target_at, source_of, frozen, record_matches_desired, finish,
}
use byssus.Reconcile.Collisions.{resolve_collisions}
use byssus.Reconcile.Collisions.Laws.{
  IsAccepted, resolve_collisions-IsAccepted, resolve_collisions-steps,
}
use byssus.Reconcile.Plan.Safety.{planned}
use byssus.Reconcile.Collisions.Complete.{resolve_collisions-get}
use byssus.Reconcile.Plan.{
  Departures, no_departures, drifted, plan_our_mount, plan_recorded_member, plan_departing_record,
  plan_departing_records, plan_member, plan_members, plan,
}

module _ (input : PlanInput) where
  -- The member is recorded where it is desired, and the recorded mount is there, of the source and
  -- with the attributes that are desired.
  pub record IsInPlace (d : DesiredMount) (r : MountRecord) : Type 0 where
    pub recorded : State.get input.state d.key ≡ some r
    pub located : record_matches_desired r d ≡ true
    pub found : MountIdentity
    pub attrs : Option ObservedAttrs
    pub observed : target_at input d.target ≡ mounted found attrs
    pub ours : matches found (identity r) ≡ true
    pub source : source_of input d.key ≡ resolved (identity r).root
    pub attributes : (State.attrs r == d.attrs) ≡ true
    pub enforced : drifted attrs d ≡ false

  -- A record of a frozen group, or of a member that is desired where it is.
  abbrev pub IsWantedHere : MountRecord → Type 0
  IsWantedHere r =
      (frozen input r.group ≡ true)
      ⊎ ((d : DesiredMount) × Elem d input.desired
          × (frozen input d.key.group ≡ false)
          × (d.key ≡ key r)
          × (record_matches_desired r d ≡ true))

  -- The members' keys and targets are distinct, each member of a group that is not frozen is in its
  -- place, and every record is wanted.
  pub record IsSettled : Type 0 where
    pub keys : IsNodup (map (λ (d : DesiredMount). d.key) input.desired)
    pub targets : IsNodup (map (λ (d : DesiredMount). d.target) input.desired)
    pub members :
        All
          (λ d. frozen input d.key.group ≡ false → (r : MountRecord) × IsInPlace d r)
          input.desired
    pub records : All IsWantedHere (State.records input.state)

  our_mount-steps :
      (d : DesiredMount) (r : MountRecord) (attrs : Option ObservedAttrs) (b : Builder)
      → (State.attrs r == d.attrs) ≡ true
      → drifted attrs d ≡ false
      → plan_our_mount d r attrs (resolved (identity r).root) b ≡ b
  unfolding plan_our_mount
  our_mount-steps d r attrs b h k = rw (==_refl (identity r).root) (rw h (rw k refl))

  recorded_member-steps :
      (d : DesiredMount) (r : MountRecord) (found : MountIdentity) (attrs : Option ObservedAttrs)
      (source : SourceState) (b : Builder)
      → matches found (identity r) ≡ true
      → plan_our_mount d r attrs source b ≡ b
      → plan_recorded_member d r (mounted found attrs) source b ≡ b
  unfolding plan_recorded_member
  recorded_member-steps d r found attrs source b h k = rw h k

  in_place-steps :
      (departures : Departures) (d : DesiredMount) (r : MountRecord) (b : Builder)
      → IsInPlace d r
      → plan_member input departures d b ≡ b
  unfolding plan_member
  in_place-steps departures d r b h =
      let same =
        recorded_member-steps d r h.found h.attrs (resolved (identity r).root) b h.ours
          (our_mount-steps d r h.attrs b h.attributes h.enforced) in
      rw (h.recorded, plan_member) (rw h.located (rw (h.observed, h.source) same))

  -- The group is frozen, or an accepted member is desired where the record is.
  abbrev IsHere : Map RecordKey DesiredMount → MountRecord → Type 0
  IsHere desired r =
      (frozen input r.group ≡ true)
      ⊎ ((d : DesiredMount) × (Map.get (key r) desired ≡ some d)
          × (record_matches_desired r d ≡ true))

  wanted_departing :
      (desired : Map RecordKey DesiredMount) (r : MountRecord) (s : Builder × Departures)
      → IsHere desired r
      → plan_departing_record input desired r s ≡ s
  unfolding plan_departing_record
  wanted_departing desired r s (inl h) = rw h refl
  wanted_departing desired r s (inr (d, e, h)) =
      rw (e, plan_departing_record)
        (rw h (elim (Bool-cases (frozen input r.group)) [ inl f ↦ rw f refl | inr f ↦ rw f refl ]))

  departing-settled :
      (desired : Map RecordKey DesiredMount) (rs : List MountRecord) (s : Builder × Departures)
      → All (IsHere desired) rs
      → plan_departing_records input desired rs s ≡ s
  unfolding plan_departing_records
  departing-settled desired [] s h = refl
  departing-settled desired (r ∷ rs) s h =
      departing-settled desired rs (plan_departing_record input desired r s) h.1
      ∙ wanted_departing desired r s h.0

  members-settled :
      (departures : Departures) (accepted : Map RecordKey DesiredMount) (b : Builder)
      → All (λ e. (r : MountRecord) × IsInPlace e.1 r) accepted
      → plan_members input departures accepted b ≡ b
  unfolding plan_members
  members-settled departures [] b h = refl
  members-settled departures ((k, d) ∷ rest) b h =
      members-settled departures rest (plan_member input departures d b) h.1
      ∙ in_place-steps departures d h.0.0 b h.0.1

  settled-IsHere :
      (b : Builder) (r : MountRecord)
      → IsSettled
      → IsWantedHere r
      → IsHere (resolve_collisions input b).1 r
  settled-IsHere b r h (inl f) = inl f
  settled-IsHere b r h (inr (d, m, f, k, l)) = inr (
    d,
    ap (λ x. Map.get x (resolve_collisions input b).1) (sym k)
        ∙ resolve_collisions-get input d b h.keys h.targets m f,
    l,
  )

  planned-settled : IsSettled → (planned input).steps ≡ []
  planned-settled h =
      let (b, accepted) = resolve_collisions input empty_builder in
      let departing =
        departing-settled accepted (State.records input.state) (b, no_departures)
          (All-mono IsWantedHere _ (State.records input.state)
            (λ r w. settled-IsHere empty_builder r h w) h.records) in
      let members : All (λ (e : RecordKey × DesiredMount). (r : MountRecord) × IsInPlace e.1 r)
          accepted =
        All-mono (IsAccepted input) _ accepted
          (λ e a. All-get _ input.desired e.1 h.members a.1.0 a.1.1)
          (resolve_collisions-IsAccepted input empty_builder) in
      rw departing (
        ap (λ (x : Builder). x.steps) (members-settled no_departures accepted b members)
        ∙ resolve_collisions-steps input empty_builder)

finish_none : (b : Builder) → b.steps ≡ [] → (finish b).steps ≡ []
unfolding finish
finish_none b h = rw h refl

-- A plan has no step if the keys and targets of the members are distinct, each member of a group that
-- is not frozen has its record and its mount as desired, and every record is of such a member or of a
-- frozen group.
pub plan_settled : (input : PlanInput) → IsSettled input → (plan input).steps ≡ []
unfolding plan
plan_settled input h = finish_none (planned input) (planned-settled input h)
