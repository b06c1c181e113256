-- ===== src/Reconcile/Execute/Gone.antt =====
-- What was done when a step that removes a record is completed (src/reconcile/execute.rs).
use mathlib.Core.Path.{subst}
use byssus.Base.{◌≡◌, sym, ap, ◌∙◌, ◌⊎◌, inl, inr, Bool, Result, ok, err, Text}
use byssus.Base.Exec.{Exec, ◌>>=◌, attempt, lift}
use byssus.System.{System}
use byssus.State
use byssus.State.{State, MountRecord, key, identity}
use byssus.Fsops.{remove_empty_dir}
use byssus.Mount.{VerifiedOpError, io_message, unmount_verified}
use byssus.Reconcile.Types.{Location, target_location}
use byssus.Reconcile.Execute.{
  rsplit_slash, refusal, Machine, Sink, Run, in_world, root_of, remove_target_dir, forget,
  try_unmount,
}
use byssus.Reconcile.Execute.Success.{bind_ok, bind_cases, in_world_ok, persist_ok}
use byssus.Reconcile.Execute.StateLaws.{
  Keeps, Keeps-bind, Keeps-in_world, Keeps-root_of, Keeps-persist,
}

module _ (sys : System) (sink : Sink sys) (unique_supported : Bool) where
  abbrev pub IsForgotten : MountRecord → State → State → Type 0
  IsForgotten r s s' = s' ≡ (State.remove s (key r)).0

  pub forget_lem :
      (r : MountRecord) (m : Machine sys)
      → IsForgotten r m.state (forget sys sink unique_supported r m).1.state
  unfolding forget
  forget_lem r m =
      Keeps-persist sys sink unique_supported
        (record m { state = (State.remove m.state (key r)).0 })

  -- The record is gone, and the state without it was written.
  abbrev pub IsDropped : MountRecord → Machine sys → Machine sys → Type 0
  IsDropped r m m' =
      IsForgotten r m.state m'.state × (sink.save m'.state m.world ≡ (ok tt, m'.world))

  pub forget_ok :
      (r : MountRecord) (m m' : Machine sys)
      → forget sys sink unique_supported r m ≡ (ok tt, m')
      → IsDropped r m m'
  unfolding forget
  forget_ok r m m' h =
      let (saved, same) =
        persist_ok sys sink unique_supported (record m { state = (State.remove m.state (key r)).0 })
          m' h in
      (same, subst (λ s. sink.save s m.world ≡ (ok tt, m'.world)) (sym same) saved)

  Keeps-remove_target_dir :
      (t : Location) → Keeps sys (remove_target_dir sys sink unique_supported t)
  unfolding remove_target_dir
  Keeps-remove_target_dir t m =
      let (parent, leaf) = rsplit_slash t.path in
      let call = λ (root : sys.Fd). remove_empty_dir sys root parent leaf in
      Keeps-bind sys (root_of sys t.root) (λ root. in_world sys (io_message sys) (call root))
        (Keeps-root_of sys t.root) (λ root. Keeps-in_world sys (io_message sys) (call root)) m

  -- The mount of the record was removed from its target, its identity verified.
  pub record IsDetached (r : MountRecord) (m : Machine sys) (unmounted : sys.World) : Type 0 where
    pub root : sys.Fd
    pub after_root : Machine sys
    pub root_opened : root_of sys r.target_root m ≡ (ok root, after_root)
    pub mount_removed :
        unmount_verified sys root r.target (identity r) unique_supported after_root.world
        ≡ (ok tt, unmounted)

  -- It was removed, the record is gone, and the state without it was written.
  abbrev pub IsGone : MountRecord → Machine sys → Machine sys → Type 0
  IsGone r m m' =
      (unmounted : sys.World) × (written : sys.World) × IsDetached r m unmounted
      × IsForgotten r m.state m'.state
      × (sink.save m'.state unmounted ≡ (ok tt, written))

  -- The state is as it was, or the mount was removed and the record is gone.
  abbrev pub IsLeft : MountRecord → Machine sys → Machine sys → Type 0
  IsLeft r m m' =
      (m'.state ≡ m.state)
      ⊎ ((unmounted : sys.World) × IsDetached r m unmounted × IsForgotten r m.state m'.state)

  abbrev tidy : MountRecord → Result Text (Unit {0}) → Run sys (Unit {0})
  tidy r p = remove_target_dir sys sink unique_supported (target_location r) >>= (λ v. lift p)

  abbrev forgetting : MountRecord → Run sys (Unit {0})
  forgetting r = attempt (forget sys sink unique_supported r) >>= tidy r

  abbrev verified : MountRecord → sys.Fd → Exec sys.World (VerifiedOpError sys.Errno) (Unit {0})
  verified r root = unmount_verified sys root r.target (identity r) unique_supported

  -- The value of an attempt.
  abbrev value_of : Result Text (Result Text (Unit {0})) → Result Text (Unit {0})
  value_of (ok r) = r
  value_of (err e) = err e

  abbrev removing : MountRecord → sys.Fd → Run sys (Unit {0})
  removing r root = in_world sys (refusal sys) (verified r root)

  forgetting_lem :
      (r : MountRecord) (m : Machine sys) → IsForgotten r m.state (forgetting r m).1.state
  unfolding remove_target_dir
  forgetting_lem r m =
      Keeps-remove_target_dir (target_location r) (forget sys sink unique_supported r m).1
      ∙ forget_lem r m

  forgetting_ok :
      (r : MountRecord) (m m' : Machine sys)
      → forgetting r m ≡ (ok tt, m')
      → IsForgotten r m.state m'.state
        × ((w : sys.World) × (sink.save m'.state m.world ≡ (ok tt, w)))
  forgetting_ok r m m' h =
      let call : Run sys (Result Text (Unit {0})) = attempt (forget sys sink unique_supported r) in
      let (p, m3, e3, h3) = bind_ok call (tidy r) m m' tt h in
      let (v, m4, e4, h4) =
        bind_ok (remove_target_dir sys sink unique_supported (target_location r)) (λ v. lift p) m3
          m' tt h3 in
      let gone : p ≡ ok tt = ap (λ q. q.0) h4 in
      let forgot : forget sys sink unique_supported r m ≡ (ok tt, m3) =
        λ i. ((ap (λ q. value_of q.0) e3 ∙ gone) i, (e3 i).1) in
      let (state, saved) = forget_ok r m m3 forgot in
      let same : m'.state ≡ m3.state =
        ap (λ q. q.1.state) (sym h4)
        ∙ (ap (λ q. q.1.state) (sym e4) ∙ Keeps-remove_target_dir (target_location r) m3) in
      (
        same ∙ state,
        (m3.world, subst (λ s. sink.save s m.world ≡ (ok tt, m3.world)) (sym same) saved),
      )

  kept_by :
      {A : Type 0} (f : Run sys A) (m m' : Machine sys) (r : Result Text A)
      → Keeps sys f
      → f m ≡ (r, m')
      → m'.state ≡ m.state
  kept_by f m m' r k e = ap (λ q. q.1.state) (sym e) ∙ k m

  pub try_unmount_ok :
      (r : MountRecord) (m m' : Machine sys)
      → try_unmount sys sink unique_supported r m ≡ (ok tt, m')
      → IsGone r m m'
  unfolding try_unmount
  try_unmount_ok r m m' h =
      let (root, m1, e1, h1) =
        bind_ok (root_of sys r.target_root) (λ root. removing r root >>= (λ u. forgetting r)) m m'
          tt h in
      let (u, m2, e2, h2) = bind_ok (removing r root) (λ u. forgetting r) m1 m' tt h1 in
      let (removed, s2) = in_world_ok sys (refusal sys) (verified r root) m1 m2 tt e2 in
      let (state, written) = forgetting_ok r m2 m' h2 in
      let s1 =
        kept_by (root_of sys r.target_root) m m1 (ok root) (Keeps-root_of sys r.target_root) e1 in
      (
        m2.world,
        written.0,
        record { root = root; after_root = m1; root_opened = e1; mount_removed = removed },
        subst (λ s. IsForgotten r s m'.state) (s2 ∙ s1) state,
        written.1,
      )

  after_root-IsLeft :
      (r : MountRecord) (root : sys.Fd) (m m1 : Machine sys)
      → root_of sys r.target_root m ≡ (ok root, m1)
      → m1.state ≡ m.state
      → IsLeft r m ((removing r root >>= (λ u. forgetting r)) m1).1
  after_root-IsLeft r root m m1 e1 s1 = elim (bind_cases (removing r root) (λ u. forgetting r) m1) [
    | inl (u, m2, e2, h2) ↦
        let (removed, s2) = in_world_ok sys (refusal sys) (verified r root) m1 m2 tt e2 in
        inr (
          m2.world,
          record { root = root; after_root = m1; root_opened = e1; mount_removed = removed },
          ap (λ q. q.1.state) h2
              ∙ subst (λ s. IsForgotten r s (forgetting r m2).1.state) (s2 ∙ s1)
                  (forgetting_lem r m2),
        )
    | inr (x, m2, e2, h2) ↦ inl (
        ap (λ q. q.1.state) h2
        ∙ (kept_by (removing r root) m1 m2 (err x)
              (Keeps-in_world sys (refusal sys) (verified r root)) e2
            ∙ s1))
  ]

  pub try_unmount-IsLeft :
      (r : MountRecord) (m : Machine sys) → IsLeft r m (try_unmount sys sink unique_supported r m).1
  unfolding try_unmount
  try_unmount-IsLeft r m =
      let keeps = Keeps-root_of sys r.target_root in
      elim (bind_cases (root_of sys r.target_root) (λ root. removing r root >>= (λ u. forgetting r))
        m) [
          | inl (root, m1, e1, h1) ↦ subst (IsLeft r m) (ap (λ q. q.1) (sym h1)) (
              after_root-IsLeft r root m m1 e1
                (kept_by (root_of sys r.target_root) m m1 (ok root) keeps e1))
          | inr (x, m1, e1, h1) ↦
              inl
                (ap (λ q. q.1.state) h1 ∙ kept_by (root_of sys r.target_root) m m1 (err x) keeps e1)
        ]
