-- ===== src/Config/Load/Daemon.antt =====
-- What the daemon's settings keep to (src/config.rs, `validate_daemon`).
use byssus.Base.{
  ℕ, ◌≤◌, ◌<◌, ◌≡◌, refl, inl, inr, if◌then◌else◌, ltb, ltb→le, ◌==◌, nat_eq, true, Bool-cases,
  Option, none, some, List, Text, text, arith,
}
use byssus.Config.{AbsPath}
use byssus.Config.Paths.{IsPlain}
use byssus.Config.Issues.{Issue, RawDaemon, DaemonConfig}
use byssus.Config.Validate.{
  is_valid_user_name, max_resync_interval_secs, default_daemon, set_user, set_state_dir,
  check_state_dir, set_interval, validate_daemon,
}
use byssus.Config.Load.Valid.{Holds, check_abs-IsPlain}

abbrev pub IsInterval : ℕ → Type 0
IsInterval secs = (0 < secs) × (secs ≤ max_resync_interval_secs)

-- A user's name that may be one, a plain path, and an interval that is not 0 and at most a day.
pub record IsDaemon (d : DaemonConfig) : Type 0 where
  pub user : Holds (λ u. is_valid_user_name u ≡ true) d.user
  pub state_dir : IsPlain d.state_dir
  pub interval : Holds IsInterval d.resync_interval

pub default_daemon-IsDaemon : IsDaemon default_daemon
default_daemon-IsDaemon = record {
  user = tt;
  state_dir = (refl, (refl, (refl, tt)));
  interval = (ground arith, ground arith);
}

set_user-IsDaemon :
    (path : Text) (user : Option Text) (d : DaemonConfig) (i : List Issue)
    → IsDaemon d
    → IsDaemon (set_user path user d i).0
set_user-IsDaemon path none d i v = v
set_user-IsDaemon path (some user) d i v = elim (Bool-cases (is_valid_user_name user)) [
  | inl e ↦ rw e (record { user = e; state_dir = v.state_dir; interval = v.interval })
  | inr e ↦ rw e v
]

set_state_dir-IsDaemon :
    (path : Text) (p : Option AbsPath) (d : DaemonConfig)
    → Holds IsPlain p
    → IsDaemon d
    → IsDaemon (set_state_dir path p d)
set_state_dir-IsDaemon path none d h v = v
set_state_dir-IsDaemon path (some p) d h v = record {
  user = v.user;
  state_dir = h;
  interval = v.interval;
}

check_state_dir-IsDaemon :
    (path : Text) (dir : Option Text) (d : DaemonConfig) (i : List Issue)
    → IsDaemon d
    → IsDaemon (check_state_dir path dir d i).0
check_state_dir-IsDaemon path none d i v = v
check_state_dir-IsDaemon path (some dir) d i v =
    set_state_dir-IsDaemon path _ d (check_abs-IsPlain path none (text "daemon.state_dir") dir i) v

unless_zero-IsInterval :
    (secs : ℕ)
    → secs ≤ max_resync_interval_secs
    → Holds IsInterval (if secs == 0 then none else some secs)
unless_zero-IsInterval secs h = elim (Bool-cases (secs == 0)) [
  | inl e ↦ rw e tt
  | inr e ↦ rw e (ground arith, h)
]

set_interval-IsDaemon :
    (path : Text) (secs : Option ℕ) (d : DaemonConfig) (i : List Issue)
    → IsDaemon d
    → IsDaemon (set_interval path secs d i).0
set_interval-IsDaemon path none d i v = v
set_interval-IsDaemon path (some secs) d i v =
    elim (Bool-cases (ltb max_resync_interval_secs secs)) [
      | inl e ↦ rw e v
      | inr e ↦ rw e (record {
        user = v.user;
        state_dir = v.state_dir;
        interval = unless_zero-IsInterval secs (ltb→le max_resync_interval_secs secs e);
      })
    ]

pub validate_daemon-IsDaemon :
    (path : Text) (raw : RawDaemon) (i : List Issue) → IsDaemon (validate_daemon path raw i).0
unfolding validate_daemon
validate_daemon-IsDaemon path raw i = set_interval-IsDaemon path raw.resync_interval_secs _ _ (
    check_state_dir-IsDaemon path raw.state_dir _ _
      (set_user-IsDaemon path raw.user default_daemon i default_daemon-IsDaemon))
