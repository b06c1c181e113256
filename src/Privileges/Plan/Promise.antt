-- ===== src/Privileges/Plan/Promise.antt =====
-- The whole plan of src/privileges/plan.rs and what it promises.
use mathlib.Core.Option
use byssus.Base.{
  ℕ, Elem, ◌↔◌, ◌≡◌, refl, sym, true, Option, none, some, List, Result, ok, err, ◌>>=◌, arith,
}
use byssus.Privileges.Plan.{
  Capabilities, Credentials, ServiceUser, FinalGroups, Request, PrivilegePlan, PlanError, Warning,
  Op, keep, plan_ops, check_goal, check_switch, switch_to, final_groups, plan, uid_after,
  any_uid_is_root,
}
use byssus.Privileges.Plan.Kernel.{IsSets, Process, IsLocked, IsKernel}
use byssus.Privileges.Plan.Drop.{Reaches, IsDropped, IsSwitched}
use byssus.Privileges.Plan.Minimal.{IsStart, ops_stage}

module _ (c : Capabilities) (sets : IsSets c) (apply : Op c → Process c → Option (Process c))
    (kernel : IsKernel c apply) where
  open c use {CapabilitySet, empty, setpcap, has}

  -- With the groups of a switch, all user IDs are the plan's and the groups are these; else the user
  -- IDs are those of before.
  abbrev IsUser : Option FinalGroups → ℕ → Process c → Process c → Type 0
  IsUser none uid s s' =
      (s'.real_uid ≡ s.real_uid)
      × ((s'.effective_uid ≡ s.effective_uid) × (s'.saved_uid ≡ s.saved_uid))
  IsUser (some g) uid s s' =
      (s'.real_uid ≡ uid)
      × ((s'.effective_uid ≡ uid)
          × ((s'.saved_uid ≡ uid)
              × ((s'.gid ≡ g.gid) × ((x : ℕ) → Elem x s'.groups ↔ Elem x g.groups))))

  pub record IsMinimal (current : Credentials c) (p : PrivilegePlan c) (s s' : Process c)
      : Type 0 where
    pub effective : s'.effective ≡ p.final_caps
    pub permitted : s'.permitted ≡ p.final_caps
    pub inheritable : s'.inheritable ≡ empty
    pub ambient : s'.ambient ≡ empty
    pub bounding : has current.caps.permitted setpcap ≡ true → has p.final_caps s'.bounding ≡ true
    pub locked : has current.caps.permitted setpcap ≡ true → IsLocked c s'.secure_bits
    pub no_new_privs : s'.no_new_privs ≡ true
    pub user : IsUser p.final_groups p.final_uid s s'

  abbrev built : Credentials c → Request → Option ServiceUser → List Warning → PrivilegePlan c
  built current request user warnings = record {
    ops = plan_ops c current request.goal user;
    warnings = warnings;
    final_uid = uid_after c current.effective_uid user;
    final_caps = keep c request.goal;
    final_groups = Option.map final_groups user;
  }

  record IsBuilt (current : Credentials c) (request : Request) (p : PrivilegePlan c) : Type 0 where
    pub user : Option ServiceUser
    pub warnings : List Warning
    pub goal_met : check_goal c request.goal current.caps.permitted ≡ ok tt
    pub can_switch : check_switch c user current.caps.permitted ≡ ok tt
    pub is_built : built current request user warnings ≡ p

  checked-IsBuilt :
      (current : Credentials c) (request : Request) (p : PrivilegePlan c)
      (user : Option ServiceUser) (warnings : List Warning) (r : Result PlanError (Unit {0}))
      → check_goal c request.goal current.caps.permitted ≡ ok tt
      → check_switch c user current.caps.permitted ≡ r
      → (do v ← r; ok (built current request user warnings)) ≡ ok p
      → IsBuilt current request p
  checked-IsBuilt current request p user warnings (err x) g w h = absurd (ground arith)
  checked-IsBuilt current request p user warnings (ok u) g w h = record {
    user = user;
    warnings = warnings;
    goal_met = g;
    can_switch = w;
    is_built = ground arith;
  }

  abbrev rest :
      Credentials c
      → Request
      → Option ServiceUser × List Warning
      → Result PlanError (PrivilegePlan c)
  rest current request (user, warnings) = do
    v ← check_switch c user current.caps.permitted
    ok (built current request user warnings)

  parts-IsBuilt :
      (current : Credentials c) (request : Request) (p : PrivilegePlan c)
      (r : Result PlanError (Unit {0})) (q : Result PlanError (Option ServiceUser × List Warning))
      → check_goal c request.goal current.caps.permitted ≡ r
      → (do u ← r; x ← q; rest current request x) ≡ ok p
      → IsBuilt current request p
  parts-IsBuilt current request p (err x) q g h = absurd (ground arith)
  parts-IsBuilt current request p (ok u) (err x) g h = absurd (ground arith)
  parts-IsBuilt current request p (ok u) (ok (user, warnings)) g h =
      checked-IsBuilt current request p user warnings (check_switch c user current.caps.permitted) g
        refl h

  plan-IsBuilt :
      (current : Credentials c) (request : Request) (p : PrivilegePlan c)
      → plan c current request ≡ ok p
      → IsBuilt current request p
  unfolding plan
  plan-IsBuilt current request p h =
      parts-IsBuilt current request p (check_goal c request.goal current.caps.permitted)
        (switch_to c (any_uid_is_root c current) current.effective_uid request request.user) refl h

  switched-IsUser :
      (current : Credentials c) (s s' : Process c) (user : Option ServiceUser)
      → IsSwitched c sets apply kernel s user s'
      → IsUser (Option.map final_groups user) (uid_after c current.effective_uid user) s s'
  switched-IsUser current s s' none h = h
  switched-IsUser current s s' (some u) h = h

  dropped-IsMinimal :
      (current : Credentials c) (request : Request) (p : PrivilegePlan c) (s s' : Process c)
      (b : IsBuilt current request p)
      → IsDropped c sets apply kernel s
          (keep c request.goal)
          (has current.caps.permitted setpcap)
          b.user
          s'
      → IsMinimal current p s s'
  dropped-IsMinimal current request p s s' b h = rw (sym b.is_built) (record {
    effective = h.effective;
    permitted = h.permitted;
    inheritable = h.inheritable;
    ambient = h.ambient;
    bounding = h.bounding;
    locked = h.locked;
    no_new_privs = h.no_new_privs;
    user = switched-IsUser current s s' b.user h.switched;
  })

  -- On a kernel that does what is documented, every operation of a plan succeeds, for a process with
  -- the planned credentials whose effective capabilities are permitted, that can set the locked secure
  -- bits if `CAP_SETPCAP` is permitted, and that can set `KEEPCAPS` if not. It ends with the planned
  -- capabilities as its effective and its permitted ones, none inheritable or ambient, no new
  -- privileges, and either all user IDs, the group ID and, in whatever order, the supplementary groups of
  -- the service user, or the user IDs of before; if `CAP_SETPCAP` was permitted, with no other capability
  -- in the bounding set and all secure bits but `KEEP_CAPS` set.
  pub plan-IsMinimal :
      (current : Credentials c) (request : Request) (p : PrivilegePlan c) (s : Process c)
      → plan c current request ≡ ok p
      → IsStart c sets apply kernel current s
      → Reaches c sets apply kernel p.ops (IsMinimal current p s) s
  plan-IsMinimal current request p s e h =
      let b = plan-IsBuilt current request p e in
      let r =
        ops_stage c sets apply kernel current s request.goal b.user h b.goal_met b.can_switch in
      record {
        final = r.final;
        runs = rw (sym b.is_built) r.runs;
        reached = dropped-IsMinimal current request p s r.final b r.reached;
      }
