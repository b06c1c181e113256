-- ===== src/Lib.antt =====
-- Byssus turns membership files into read-only bind mounts: a member of a group is an empty file
-- in the group's directory, and the daemon keeps a bind mount of the member's source at the member's
-- target for as long as the file is there.
--
-- A pass goes through these parts. The configuration and the membership directories give the desired
-- mounts; the state file gives the mounts that Byssus made before; the kernel is asked what is at
-- each source and target. From these the planner, a function without effects, makes an ordered list
-- of steps (src/reconcile/plan.rs), and the executor carries them out against the kernel and rewrites
-- the state file after each (src/reconcile/execute.rs). What is mounted at a target counts as Byssus's own
-- only while its identity is the recorded one (src/identity.rs, src/mount.rs).
--
-- Files:
--   Base       shared helpers: Boolean tests, lists, orders and equality as instances, text, a
--              stable sort, `BTreeMap` as a sorted association list (Map), and code that acts
--              on a state and may fail (Exec).
--   Name       src/name.rs: names and group identifiers; Name/Allowed and Name/Groups say which
--              texts are names and identifiers.
--   Identity   src/identity.rs: devices, inodes and the identity of a mount.
--   Config     src/config.rs. Config/Paths has absolute paths, Config/Groups groups and sets of
--              groups, Config/Issues the problems and the format, Config/Validate the checks of one
--              group, one set and the daemon's settings, and Config/Load puts the files together. The
--              parser of TOML is a parameter, and a message is kept as its data. Load/Cross, Load/Valid
--              and Load/Daemon are about the checks, Load/Assembled about a whole configuration.
--   State      src/state.rs: records of mounts and the map of them; State/Laws is its invariant.
--              State/Codec is its encoding, with the JSON library as a parameter, which is given the
--              code that writes and reads a name, a group identifier and a path.
--   Reconcile  src/reconcile/. Types is the planner's data; Builder, Collisions and Plan are the
--              planner, function by function; Execute is the executor. The children of Plan state
--              what justifies a step (Spec) and prove it of the builder's steps as they are pushed
--              (Invariant, Departing, Members), then of the finished plan (Safety, Targets). Settled and
--              Progress (with Pushed) are about plans without and with steps. Those
--              of Execute are about skipped steps (Dependencies), about the state (StateLaws), about
--              what was done when a step completes (Success, Made, Gone), and about steps and plans
--              as a whole (Effects).
--              Messages and Notes are the log of what observations report, Observe gathers what is
--              desired and what the kernel says, and Pass is a whole pass; Notes/Laws, Observe/Frozen
--              and Pass/Frozen are about the log and about frozen groups.
--   Runtime    src/runtime.rs: open directories, and the groups of sets (Runtime/Scan).
--   System     the system calls, as a record that Fsops, Mount and Execute take as a parameter:
--              the kernel's mounts and files are a state that only these calls change, and nothing
--              is assumed of what they return. System/Toy is a small instance for the tests.
--   Fsops      src/fsops.rs: directories beneath trusted roots. Fsops/Retry is about repeated calls,
--              Fsops/Plain about the names of directories.
--   Mount      src/mount.rs: inspection, creation and verified removal of mounts. Mount/Lasting and
--              Mount/Verified are about removal, Mount/Attrs about the restrictions of a new mount.
--   Mountinfo  src/mountinfo.rs: the parser of the mount table. Mountinfo/Escapes and
--              Mountinfo/Numbers are about fields, Lines about a line as the kernel writes it, Table
--              about the whole table.
--   Membership src/membership.rs: which directory entries are members. Membership/Members and
--              Membership/Names are about the names that are found.
--   Template   src/template.rs: path templates. Template/Interpolation fills in names and the levels
--              of a group set; Template/Shown and Template/Fuel are about the loop that parses a
--              component, WellFormed about the templates that are accepted, Depth about the levels
--              that they refer to, and Interpolated, Clean and Unique about the paths that they give.
--   Users      src/users.rs: the service user in the texts of the password and group files. Users/Member
--              and Users/Exact are about its groups, Users/Resolved about the whole lookup.
--   Privileges src/privileges/plan.rs: the operations that drop privileges. Sets of capabilities,
--              the flags of the library and the kernel's answers are parameters; Plan/Kernel states what the manual pages say
--              of them, Plan/Drop and Plan/Minimal follow the operations, stage by stage from the
--              last to the first, and Plan/Promise is about the whole plan. Apply is
--              src/privileges/apply.rs, with one operation and reading the process as parameters, and
--              Apply/Verified about a plan that was applied.
--
-- How the source is written down: numbers are natural numbers, none of which the modelled code
-- computes with beyond indices and counts. Text is the list of its bytes. A validated path is the
-- list of its components, by which Rust compares paths. `BTreeMap` and `BTreeSet` are sorted
-- association lists, and the order of iteration is theirs. A vector that the source indexes is a list
-- with `get_elem?`. A `&mut self` method takes the state and gives it back beside its result; an
-- error is a value, and what was done before it stays done. A call that returns `EAGAIN` is repeated at
-- most 16 times, by recursion on the retries that are left, as in the source. Points of time are
-- carried and never computed with. Three recursions have a bound that the source
-- does not have: the decimal digits of a message, where the number itself bounds them, and the loop
-- that parses a component of a template, where the length of the component does, since each turn
-- takes a placeholder off its front. The scan of a set goes down by its levels, whose number the set's
-- configuration gives. What a directory's reader returns is a list, entries and errors in order. A
-- panic is an error of the model, but for the assertion of `GroupId::in_set` on the number of levels:
-- there the value is built all the same. The callers keep to one or two levels as long as the depth of
-- a set does, which is checked when the configuration is loaded.
--
-- Not modelled: log lines, loading and saving the state file, watching directories, the
-- system calls that carry out one operation of a privilege plan, reading the configuration's files
-- and the parser of their format, the daemon's loop, the command line and its reports.
pub mod Base
pub mod Name
pub mod Identity
pub mod Config
pub mod State
pub mod Reconcile
pub mod System
pub mod Fsops
pub mod Mount
pub mod Mountinfo
pub mod Membership
pub mod Template
pub mod Users
pub mod Runtime
pub mod Privileges
