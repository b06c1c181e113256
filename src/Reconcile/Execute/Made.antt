-- ===== src/Reconcile/Execute/Made.antt =====
-- What was done when a step that mounts is completed (src/reconcile/execute.rs).
use mathlib.Core.Path.{subst}
use byssus.Base.{
  ◌≡◌, refl, sym, ap, ◌∙◌, Bool, true, false, Option, Result, ok, err, Text, text, arith,
}
use byssus.Base.Exec.{◌>>=◌, map_error}
use byssus.System.{System, os}
use byssus.Identity.{MountIdentity}
use byssus.Fsops.{Io}
use byssus.State
use byssus.State.{State, MountRecord, key, identity, attrs}
use byssus.Mount.{io_message, is_mount_root, create_bind, attr_bits, read_identity}
use byssus.Reconcile.Types.{DesiredMount}
use byssus.Reconcile.Execute.{
  at, open_source, open_target, recorded, Machine, Sink, Run, in_world, new_record, restore,
  persist, record_mount, create, try_mount,
}
use byssus.Reconcile.Execute.Success.{bind_ok, map_error_ok, in_world_ok, persist_ok}
use byssus.Reconcile.Execute.StateLaws.{
  IsFailure, roll_back_lem, Keeps-open_source, Keeps-open_target,
}

module _ (sys : System) (sink : Sink sys) (unique_supported : Bool) where
  -- Source and target were opened, nothing was mounted at the target, and the source's tree was cloned,
  -- restricted and moved to the target; the member's record has the locations and attributes that
  -- were desired and the identity that the kernel then reported of this tree; and the state with the
  -- record was written.
  pub record IsMade (d : DesiredMount) (m m' : Machine sys) : Type 0 where
    pub source : sys.Fd
    pub target : sys.Fd
    pub tree : sys.Fd
    pub id : MountIdentity
    pub after_source : Machine sys
    pub after_target : Machine sys
    pub looked : sys.World
    pub cloned : sys.World
    pub restricted : sys.World
    pub moved : sys.World
    pub identified : sys.World
    pub source_opened : open_source sys sink unique_supported d m ≡ (ok source, after_source)
    pub target_opened :
        open_target sys sink unique_supported d after_source ≡ (ok target, after_target)
    pub free : is_mount_root sys target after_target.world ≡ (ok false, looked)
    pub tree_cloned : sys.open_tree source looked ≡ (ok tree, cloned)
    pub tree_restricted :
        sys.mount_setattr_add tree (attr_bits d.attrs) cloned ≡ (ok tt, restricted)
    pub tree_moved : sys.move_mount tree target restricted ≡ (ok tt, moved)
    pub id_read : read_identity sys tree unique_supported moved ≡ (ok id, identified)
    pub made : MountRecord
    pub of_member : key made ≡ d.key
    pub of_source : (made.source_root ≡ d.source.root) × (made.source ≡ d.source.path)
    pub of_target : (made.target_root ≡ d.target.root) × (made.target ≡ d.target.path)
    pub of_tree : identity made ≡ id
    pub of_attrs : attrs made ≡ d.attrs
    pub of_time : made.created_at ≡ sink.now identified
    pub recorded_as : m'.state ≡ (State.insert m.state made).0
    pub saved : sink.save m'.state identified ≡ (ok tt, m'.world)

  abbrev Bound : DesiredMount → sys.Fd → sys.Fd → MountIdentity → sys.World → sys.World → Type 0
  Bound d source target id w w' =
      (tree : sys.Fd) × (w1 : sys.World) × (w2 : sys.World) × (w3 : sys.World) × (sys.open_tree
          source w
        ≡ (ok tree, w1))
      × (sys.mount_setattr_add tree (attr_bits d.attrs) w1 ≡ (ok tt, w2))
      × (sys.move_mount tree target w2 ≡ (ok tt, w3))
      × (read_identity sys tree unique_supported w3 ≡ (ok id, w'))

  create_bind_ok :
      (d : DesiredMount) (source target : sys.Fd) (id : MountIdentity) (w w' : sys.World)
      → create_bind sys source target d.attrs unique_supported w ≡ (ok id, w')
      → Bound d source target id w w'
  unfolding create_bind
  create_bind_ok d source target id w w' h =
      let cloning : Io sys sys.Fd = map_error os (sys.open_tree source) in
      let restricting : sys.Fd → Io sys (Unit {0}) =
        λ tree. map_error os (sys.mount_setattr_add tree (attr_bits d.attrs)) in
      let moving : sys.Fd → Io sys (Unit {0}) = λ tree. map_error os (sys.move_mount tree target) in
      let reading : sys.Fd → Io sys MountIdentity =
        λ tree. read_identity sys tree unique_supported in
      let finish : sys.Fd → Io sys MountIdentity = λ tree. moving tree >>= (λ v. reading tree) in
      let (tree, w1, e1, h1) =
        bind_ok cloning (λ tree. restricting tree >>= (λ u. finish tree)) w w' id h in
      let (u, w2, e2, h2) = bind_ok (restricting tree) (λ u. finish tree) w1 w' id h1 in
      let (v, w3, e3, h3) = bind_ok (moving tree) (λ v. reading tree) w2 w' id h2 in
      (
        tree,
        w1,
        w2,
        w3,
        map_error_ok os (sys.open_tree source) w w1 tree e1,
        map_error_ok os (sys.mount_setattr_add tree (attr_bits d.attrs)) w1 w2 tt e2,
        map_error_ok os (sys.move_mount tree target) w2 w3 tt e3,
        h3,
      )

  -- A roll-back is a failure.
  recorded_ok :
      (d : DesiredMount) (id : MountIdentity) (previous : Option MountRecord)
      (r : Result Text (Unit {0})) (m m' : Machine sys)
      → recorded sys sink unique_supported d id previous r m ≡ (ok tt, m')
      → ◌≡◌ {A = Result Text (Unit {0}) × Machine sys} (r, m) (ok tt, m')
  recorded_ok d id previous (ok u) m m' h = h
  recorded_ok d id previous (err e) m m' h =
      let f = roll_back_lem sys sink unique_supported d id previous e m in
      absurd (
        subst
          (λ p.
            IsFailure sys sink unique_supported (restore sys d.key previous m.state) p.0 p.1.state)
          h f)

  record_mount_ok :
      (d : DesiredMount) (id : MountIdentity) (m m' : Machine sys)
      → record_mount sys sink unique_supported d id m ≡ (ok tt, m')
      → (m'.state ≡ (State.insert m.state (new_record sys d id (sink.now m.world))).0)
        × (sink.save m'.state m.world ≡ (ok tt, m'.world))
  unfolding record_mount
  record_mount_ok d id m m' h =
      let (s, previous) = State.insert m.state (new_record sys d id (sink.now m.world)) in
      let put : Machine sys = record m { state = s } in
      let p = persist sys sink unique_supported put in
      let (saved, same) =
        persist_ok sys sink unique_supported put m' (recorded_ok d id previous p.0 p.1 m' h) in
      (same, subst (λ x. sink.save x m.world ≡ (ok tt, m'.world)) (sym same) saved)

  create_ok :
      (d : DesiredMount) (source target : sys.Fd) (occupied : Bool) (m m' : Machine sys)
      → create sys sink unique_supported d source target occupied m ≡ (ok tt, m')
      → (occupied ≡ false)
        × (id : MountIdentity) × (w : sys.World) × (create_bind sys source target d.attrs
              unique_supported m.world
            ≡ (ok id, w))
        × (m'.state ≡ (State.insert m.state (new_record sys d id (sink.now w))).0)
        × (sink.save m'.state w ≡ (ok tt, m'.world))
  create_ok d source target true m m' h = absurd (ground arith)
  create_ok d source target false m m' h =
      let call = create_bind sys source target d.attrs unique_supported in
      let (id, t, e, rest) =
        bind_ok (in_world sys (io_message sys) call) (record_mount sys sink unique_supported d) m m'
          tt h in
      let (made, same) = in_world_ok sys (io_message sys) call m t id e in
      let (state, saved) = record_mount_ok d id t m' rest in
      (
        refl,
        id,
        t.world,
        made,
        subst (λ s. m'.state ≡ (State.insert s (new_record sys d id (sink.now t.world))).0) same
            state,
        saved,
      )

  pub try_mount_ok :
      (d : DesiredMount) (m m' : Machine sys)
      → try_mount sys sink unique_supported d m ≡ (ok tt, m')
      → IsMade d m m'
  unfolding try_mount
  try_mount_ok d m m' h =
      let opening = open_source sys sink unique_supported d in
      let reaching = open_target sys sink unique_supported d in
      let looking : sys.Fd → Run sys Bool =
        λ target. in_world sys (at sys (text "target") d.target) (is_mount_root sys target) in
      let create_at : sys.Fd → sys.Fd → Run sys (Unit {0}) =
        λ source target. looking target >>= create sys sink unique_supported d source target in
      let (source, m1, e1, h1) =
        bind_ok opening (λ source. reaching >>= create_at source) m m' tt h in
      let (target, m2, e2, h2) = bind_ok reaching (create_at source) m1 m' tt h1 in
      let (occupied, m3, e3, h3) =
        bind_ok (looking target) (create sys sink unique_supported d source target) m2 m' tt h2 in
      let (looked, s3) =
        in_world_ok sys (at sys (text "target") d.target) (is_mount_root sys target) m2 m3 occupied
          e3 in
      let (free, id, w, made, state, saved) = create_ok d source target occupied m3 m' h3 in
      let (tree, w1, w2, w3, cloned, restricted, moved, read) =
        create_bind_ok d source target id m3.world w made in
      let s1 : m1.state ≡ m.state =
        ap (λ p. p.1.state) (sym e1) ∙ Keeps-open_source sys sink unique_supported d m in
      let s2 : m2.state ≡ m1.state =
        ap (λ p. p.1.state) (sym e2) ∙ Keeps-open_target sys sink unique_supported d m1 in
      record {
        source = source;
        target = target;
        tree = tree;
        id = id;
        after_source = m1;
        after_target = m2;
        looked = m3.world;
        cloned = w1;
        restricted = w2;
        moved = w3;
        identified = w;
        source_opened = e1;
        target_opened = e2;
        free = subst (λ b. is_mount_root sys target m2.world ≡ (ok b, m3.world)) free looked;
        tree_cloned = cloned;
        tree_restricted = restricted;
        tree_moved = moved;
        id_read = read;
        made = new_record sys d id (sink.now w);
        of_member = refl;
        of_source = (refl, refl);
        of_target = (refl, refl);
        of_tree = refl;
        of_attrs = refl;
        of_time = refl;
        recorded_as =
            subst (λ s. m'.state ≡ (State.insert s (new_record sys d id (sink.now w))).0)
              (s3 ∙ (s2 ∙ s1)) state;
        saved = saved;
      }
