-- ===== src/Reconcile/Execute/StateLaws.antt =====
-- What mounting does to the state (src/reconcile/execute.rs).
use byssus.Base.{
  text, ◌≡◌, refl, sym, ap, ◌∙◌, Bool, true, false, Option, none, some, Result, ok, err, arith,
  Text, split, slash,
}
use byssus.Base.Exec.{attempt, raise, Exec, continue, ◌>>=◌}
use byssus.Base.Map
use byssus.System.{System, IoError}
use byssus.Identity.{MountIdentity}
use byssus.Config.{AbsPath, abs_path_ord}
use byssus.State
use byssus.State.{State, key_ord, MountRecord, RecordKey, Timestamp, key, identity}
use byssus.State.Laws.{IsKeyed, IsKeyed-get}
use byssus.Fsops.{resolve_dir, ensure_dirs_beneath}
use byssus.Mount.{io_message, is_mount_root, create_bind, unmount_verified}
use byssus.Reconcile.Types.{DesiredMount}
use byssus.Reconcile.Execute.{
  at, open_source, open_target, recorded, rolled_back, Machine, Sink, Run, called, in_world,
  root_of, cached, new_record, restore, persist, roll_back, record_mount, create, try_mount,
}

module _ (sys : System) where
  -- The code does not change the state.
  abbrev pub Keeps : {A : Type 0} → Run sys A → Type 0
  Keeps f = (m : Machine sys) → (f m).1.state ≡ m.state

  Keeps-continue :
      {A B : Type 0} (r : Result Text A) (g : A → Run sys B)
      → ((a : A) → Keeps (g a))
      → Keeps (continue r g)
  Keeps-continue (ok a) g k m = k a m
  Keeps-continue (err e) g k m = refl

  pub Keeps-bind :
      {A B : Type 0} (f : Run sys A) (g : A → Run sys B)
      → Keeps f
      → ((a : A) → Keeps (g a))
      → Keeps (f >>= g)
  Keeps-bind f g h k m = Keeps-continue (f m).0 g k (f m).1 ∙ h m

  kept :
      {E A : Type 0} (message : E → Text) (m : Machine sys) (r : Result E A) (w : sys.World)
      → (called sys message m r w).1.state ≡ m.state
  kept message m (ok a) w = refl
  kept message m (err e) w = refl

  pub Keeps-in_world :
      {E A : Type 0} (message : E → Text) (call : Exec sys.World E A)
      → Keeps (in_world sys message call)
  Keeps-in_world message call m = kept message m (call m.world).0 (call m.world).1

  Keeps-cached : (root : AbsPath) (o : Option sys.Fd) → Keeps (cached sys root o)
  Keeps-cached root (some fd) m = refl
  Keeps-cached root none m = ground arith

  pub Keeps-root_of : (root : AbsPath) → Keeps (root_of sys root)
  unfolding root_of
  Keeps-root_of root m = Keeps-cached root (Map.get root m.roots) m

  continued :
      {A B : Type 0} (P : State → Result Text B → State → Type 0) (r : Result Text A)
      (g : A → Run sys B)
      → ((s : State) (e : Text) → P s (err e) s)
      → ((a : A) (m : Machine sys) → P m.state (g a m).0 (g a m).1.state)
      → (m : Machine sys) (s : State) → m.state ≡ s
      → P s (continue r g m).0 (continue r g m).1.state
  continued P (ok a) g e k m s q = rw (sym q) (k a m)
  continued P (err x) g e k m s q = rw (sym q) (e m.state x)

  -- The state of a run whose code keeps it up to its last step.
  pub after :
      {A B : Type 0} (P : State → Result Text B → State → Type 0) (f : Run sys A)
      (g : A → Run sys B)
      → Keeps f
      → ((s : State) (e : Text) → P s (err e) s)
      → ((a : A) (m : Machine sys) → P m.state (g a m).0 (g a m).1.state)
      → (m : Machine sys) → P m.state ((f >>= g) m).0 ((f >>= g) m).1.state
  after P f g h e k m = continued P (f m).0 g e k (f m).1 m.state (h m)

  -- The record of the new mount replaces that of the member, or nothing changes.
  abbrev pub IsMounted : DesiredMount → State → Result Text (Unit {0}) → State → Type 0
  IsMounted d s (ok u) s' =
      (id : MountIdentity) × (now : Timestamp) × (s' ≡ (State.insert s (new_record sys d id now)).0)
  IsMounted d s (err e) s' = IsKeyed s → s' ≡ s

  State-eta :
      (s : State) (m : Map.Map RecordKey MountRecord) → m ≡ s.entries → record { entries = m } ≡ s
  State-eta s m e = ap (λ m. record { entries = m }) e

  restored :
      (s : State) (r : MountRecord) (o : Option MountRecord)
      → IsKeyed s
      → State.get s (key r) ≡ o
      → restore sys (key r) o (State.insert s r).0 ≡ s
  unfolding restore State.get State.insert State.remove
  restored s r none h e =
      State-eta s (Map.remove (key r) (Map.insert (key r) r s.entries))
        (Map.remove-insert (key r) r s.entries h.sorted e)
  restored s r (some q) h e =
      let k : key r ≡ key q = IsKeyed-get s (key r) q h e in
      State-eta s (Map.insert (key q) q (Map.insert (key r) r s.entries))
        (rw (sym k) (Map.insert-insert (key r) r q s.entries h.sorted e))

  restore-insert :
      (s : State) (r : MountRecord)
      → IsKeyed s
      → restore sys (key r) (State.insert s r).1 (State.insert s r).0 ≡ s
  unfolding State.get State.insert
  restore-insert s r h = restored s r _ h refl

  module _ (sink : Sink sys) (unique_supported : Bool) where
    abbrev pub IsFailure : State → Result Text (Unit {0}) → State → Type 0
    IsFailure s (ok u) s' = ⊥
    IsFailure s (err e) s' = s' ≡ s

    pub roll_back_lem :
        (d : DesiredMount) (id : MountIdentity) (previous : Option MountRecord) (e : Text)
        (m : Machine sys)
        → IsFailure
            (restore sys d.key previous m.state)
            (roll_back sys sink unique_supported d id previous e m).0
            (roll_back sys sink unique_supported d id previous e m).1.state
    unfolding roll_back
    roll_back_lem d id previous e m =
        after IsFailure (root_of sys d.target.root)
          (λ root.
            in_world sys (io_message sys) (
              attempt {F = IoError sys.Errno}
                (unmount_verified sys root d.target.path id unique_supported))
            >>= (λ r. raise (rolled_back sys e r)))
          (Keeps-root_of d.target.root) (λ s e. refl)
          (λ root m.
            Keeps-in_world (io_message sys)
              (attempt {F = IoError sys.Errno}
                (unmount_verified sys root d.target.path id unique_supported))
              m)
          (record m { state = restore sys d.key previous m.state })

    pub Keeps-persist : Keeps (persist sys sink unique_supported)
    unfolding persist
    Keeps-persist m = Keeps-in_world _ (sink.save m.state) m

    failed-IsMounted :
        (d : DesiredMount) (s s0 : State) (r : Result Text (Unit {0})) (s' : State)
        → IsFailure s0 r s'
        → (IsKeyed s → s0 ≡ s)
        → IsMounted d s r s'
    failed-IsMounted d s s0 (ok u) s' h k = elim h [ ]
    failed-IsMounted d s s0 (err e) s' h k = λ keyed. h ∙ k keyed

    recorded_lem :
        (d : DesiredMount) (id : MountIdentity) (s : State) (now : Timestamp)
        (r : Result Text (Unit {0})) (m : Machine sys)
        → m.state ≡ (State.insert s (new_record sys d id now)).0
        → IsMounted d s
            (recorded sys sink unique_supported d id
              (State.insert s (new_record sys d id now)).1
              r
              m).0
            (recorded sys sink unique_supported d id
              (State.insert s (new_record sys d id now)).1
              r
              m).1.state
    recorded_lem d id s now (ok u) m e = (id, now, e)
    recorded_lem d id s now (err x) m e =
        let r = new_record sys d id now in
        failed-IsMounted d s (restore sys d.key (State.insert s r).1 m.state)
          (roll_back sys sink unique_supported d id (State.insert s r).1 x m).0
          (roll_back sys sink unique_supported d id (State.insert s r).1 x m).1.state
          (roll_back_lem d id (State.insert s r).1 x m) (λ h. rw e (restore-insert s r h))

    record_mount_lem :
        (d : DesiredMount) (id : MountIdentity) (m : Machine sys)
        → IsMounted d m.state
            (record_mount sys sink unique_supported d id m).0
            (record_mount sys sink unique_supported d id m).1.state
    unfolding record_mount
    record_mount_lem d id m =
        let s = (State.insert m.state (new_record sys d id (sink.now m.world))).0 in
        let m' = (record m { state = s }) in
        recorded_lem d id m.state (sink.now m.world) (persist sys sink unique_supported m').0
          (persist sys sink unique_supported m').1 (Keeps-persist m')

    create_lem :
        (d : DesiredMount) (source target : sys.Fd) (occupied : Bool) (m : Machine sys)
        → IsMounted d m.state
            (create sys sink unique_supported d source target occupied m).0
            (create sys sink unique_supported d source target occupied m).1.state
    create_lem d source target true m = λ h. refl
    create_lem d source target false m =
        let call = create_bind sys source target d.attrs unique_supported in
        after (IsMounted d) (in_world sys (io_message sys) call)
          (record_mount sys sink unique_supported d) (Keeps-in_world (io_message sys) call)
          (λ s e h. refl) (record_mount_lem d) m

    pub Keeps-open_source : (d : DesiredMount) → Keeps (open_source sys sink unique_supported d)
    unfolding open_source
    Keeps-open_source d =
        let opening = λ (root : sys.Fd).
          in_world sys (at sys (text "source") d.source) (resolve_dir sys root d.source.path) in
        Keeps-bind (root_of sys d.source.root) opening (Keeps-root_of d.source.root) (λ root.
          Keeps-in_world (at sys (text "source") d.source) (resolve_dir sys root d.source.path))

    pub Keeps-open_target : (d : DesiredMount) → Keeps (open_target sys sink unique_supported d)
    unfolding open_target
    Keeps-open_target d =
        let path = split slash d.target.path in
        let opening = λ (root : sys.Fd).
          in_world sys (at sys (text "target") d.target) (ensure_dirs_beneath sys root path) in
        Keeps-bind (root_of sys d.target.root) opening (Keeps-root_of d.target.root) (λ root.
          Keeps-in_world (at sys (text "target") d.target) (ensure_dirs_beneath sys root path))

    pub try_mount_lem :
        (d : DesiredMount) (m : Machine sys)
        → IsMounted d m.state
            (try_mount sys sink unique_supported d m).0
            (try_mount sys sink unique_supported d m).1.state
    unfolding try_mount
    try_mount_lem d m =
        let look = λ (target : sys.Fd).
          in_world sys (at sys (text "target") d.target) (is_mount_root sys target) in
        let create_at =
          λ (source : sys.Fd) (target : sys.Fd). create sys sink unique_supported d source target in
        let mount_at =
          λ (source : sys.Fd) (target : sys.Fd). look target >>= create_at source target in
        after (IsMounted d) (open_source sys sink unique_supported d)
          (λ source. open_target sys sink unique_supported d >>= mount_at source)
          (Keeps-open_source d) (λ s e h. refl)
          (λ source.
            after (IsMounted d) (open_target sys sink unique_supported d) (mount_at source)
              (Keeps-open_target d) (λ s e h. refl)
              (λ target.
                after (IsMounted d) (look target) (create_at source target)
                  (Keeps-in_world (at sys (text "target") d.target) (is_mount_root sys target))
                  (λ s e h. refl) (create_lem d source target)))
          m
