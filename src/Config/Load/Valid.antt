-- ===== src/Config/Load/Valid.antt =====
-- What every group and every set of a configuration keeps to (src/config.rs).
use mathlib.Core.Path.{subst}
use byssus.Base.{
  ℕ, ltb, ltb→lt, ltb→le, ◌+◌, ◌≤◌, ◌<◌, zero, suc, ◌≡◌, refl, inl, inr, Bool, if◌then◌else◌, true,
  false, Bool-cases, Option, none, some, List, Result, ok, err, Yields, Yields-mono, Text, arith,
}
use byssus.Name.{max_set_depth, Name, name_ord, statically}
use byssus.Config.{AbsPath}
use byssus.Config.Groups.{GroupConfig, GroupSetConfig}
use byssus.Config.Paths.{AbsPathError, IsPlain, new, new-IsWritten}
use byssus.Config.Issues.{Issue, RawGroup, RawGroupSet}
use byssus.Config.Validate.{
  path_or_issue, check_abs, check_template, group_of, validate_group, depth_of, missing_from,
  missing_of, unless_missing, set_of, validate_group_set,
}
use byssus.Template.{Template, TemplateError, parse, parse_for_set}
use byssus.Template.Interpolation.{depth, has_level, max}
use byssus.Template.Depth.{max-le, depth-le}
use byssus.Template.WellFormed.{IsTemplate, parse_inner-IsTemplate}

-- The property of a value, if there is one.
abbrev pub Holds {ℓ} : {A : Type 0} → (A → Type ℓ) → Option A → Type ℓ
Holds P none = Unit
Holds P (some a) = P a

-- A group under its name: plain paths, and templates without levels.
pub record IsGroup (name : Name) (g : GroupConfig) : Type 0 where
  pub named : g.name ≡ statically name
  pub source_root : IsPlain g.source_root
  pub target_root : IsPlain g.target_root
  pub membership : IsPlain g.membership
  pub source : IsTemplate false g.source
  pub target : IsTemplate false g.target

-- A set under its name: its depth is that of its templates, and its target has every level.
pub record IsGroupSet (name : Name) (set : GroupSetConfig) : Type 0 where
  pub named : set.name ≡ name
  pub membership_root : IsPlain set.membership_root
  pub source_root : IsPlain set.source_root
  pub target_root : IsPlain set.target_root
  pub source : IsTemplate true set.source
  pub target : IsTemplate true set.target
  pub deep : set.depth ≡ max (max (depth set.source) (depth set.target)) 1
  pub shallow : (0 < set.depth) × (set.depth ≤ max_set_depth)
  pub levels : (l : ℕ) → l < set.depth → has_level set.target l ≡ true

path_or_issue-IsPlain :
    (file : Text) (g : Option Text) (field : Text) (r : Result AbsPathError AbsPath)
    (i : List Issue)
    → Yields IsPlain r
    → Holds IsPlain (path_or_issue file g field r i).0
path_or_issue-IsPlain file g field (ok p) i h = h
path_or_issue-IsPlain file g field (err e) i h = tt

pub check_abs-IsPlain :
    (file : Text) (g : Option Text) (field value : Text) (i : List Issue)
    → Holds IsPlain (check_abs file g field value i).0
unfolding check_abs
check_abs-IsPlain file g field value i =
    path_or_issue-IsPlain file g field (new value) i
      (Yields-mono _ IsPlain (new value) (λ p h. h.0) (new-IsWritten value))

check_template-IsTemplate :
    (allow : Bool) (file : Text) (g : Option Text) (field raw : Text)
    (r : Result TemplateError Template) (i : List Issue)
    → Yields (λ t. IsTemplate allow t × (t.raw ≡ raw)) r
    → Holds (IsTemplate allow) (check_template file g field r i).0
check_template-IsTemplate allow file g field raw (ok t) i h = h.0
check_template-IsTemplate allow file g field raw (err e) i h = tt

group_of-IsGroup :
    (name : Name) (raw : RawGroup) (path : Text) (source_root : Option AbsPath)
    (source : Option Template) (target_root : Option AbsPath) (target : Option Template)
    (membership : Option AbsPath)
    → Holds IsPlain source_root
    → Holds (IsTemplate false) source
    → Holds IsPlain target_root
    → Holds (IsTemplate false) target
    → Holds IsPlain membership
    → Holds (IsGroup name) (group_of name raw path source_root source target_root target membership)
group_of-IsGroup name raw path none b c d e h1 h2 h3 h4 h5 = tt
group_of-IsGroup name raw path (some a) none c d e h1 h2 h3 h4 h5 = tt
group_of-IsGroup name raw path (some a) (some b) none d e h1 h2 h3 h4 h5 = tt
group_of-IsGroup name raw path (some a) (some b) (some c) none e h1 h2 h3 h4 h5 = tt
group_of-IsGroup name raw path (some a) (some b) (some c) (some d) none h1 h2 h3 h4 h5 = tt
group_of-IsGroup name raw path (some a) (some b) (some c) (some d) (some e) h1 h2 h3 h4 h5 =
    record {
      named = refl;
      source_root = h1;
      target_root = h3;
      membership = h5;
      source = h2;
      target = h4;
    }

pub validate_group-IsGroup :
    (name : Name) (raw : RawGroup) (path : Text) (i : List Issue)
    → Holds (IsGroup name) (validate_group name raw path i).0
unfolding validate_group parse
validate_group-IsGroup name raw path i =
    group_of-IsGroup name raw path _ _ _ _ _ (check_abs-IsPlain path _ _ raw.source_root _)
      (check_template-IsTemplate false path _ _ raw.source _ _
        (parse_inner-IsTemplate raw.source false))
      (check_abs-IsPlain path _ _ raw.target_root _)
      (check_template-IsTemplate false path _ _ raw.target _ _
        (parse_inner-IsTemplate raw.target false))
      (check_abs-IsPlain path _ _ raw.membership _)

not_missing :
    (c : Bool) (rest : Option ℕ) (level : ℕ)
    → (if c then rest else some level) ≡ none
    → (c ≡ true) × (rest ≡ none)
not_missing true rest level h = (refl, h)
not_missing false rest level h = absurd (ground arith)

-- No level is missing from `level` on.
missing_from-levels :
    (t : Template) (level n l : ℕ)
    → missing_from t level n ≡ none
    → level ≤ l
    → l < level + n
    → has_level t l ≡ true
unfolding missing_from
missing_from-levels t level zero l h ge lt = absurd (ground arith)
missing_from-levels t level (suc n) l h ge lt =
    let both = not_missing (has_level t level) (missing_from t (level + 1) n) level h in
    elim (Bool-cases (ltb level l)) [
      | inl e ↦
          missing_from-levels t (level + 1) n l both.1 (ground (arith, ltb→lt level l e))
            (ground arith)
      | inr e ↦
          let same : level ≡ l = ground (arith, ltb→le level l e) in
          subst (λ k. has_level t k ≡ true) same both.0
    ]

set_of-IsGroupSet :
    (name : Name) (raw : RawGroupSet) (path : Text) (membership_root source_root : Option AbsPath)
    (source : Option Template) (target_root : Option AbsPath) (target : Option Template)
    → Holds IsPlain membership_root
    → Holds IsPlain source_root
    → Holds (IsTemplate true) source
    → Holds IsPlain target_root
    → Holds (IsTemplate true) target
    → missing_of target (depth_of source target) ≡ none
    → Holds (IsGroupSet name) (
        set_of name raw path
          (depth_of source target)
          membership_root
          source_root
          source
          target_root
          target)
set_of-IsGroupSet name raw path none b c d e h1 h2 h3 h4 h5 m = tt
set_of-IsGroupSet name raw path (some a) none c d e h1 h2 h3 h4 h5 m = tt
set_of-IsGroupSet name raw path (some a) (some b) none d e h1 h2 h3 h4 h5 m = tt
set_of-IsGroupSet name raw path (some a) (some b) (some c) none e h1 h2 h3 h4 h5 m = tt
set_of-IsGroupSet name raw path (some a) (some b) (some c) (some d) none h1 h2 h3 h4 h5 m = tt
set_of-IsGroupSet name raw path (some a) (some b) (some c) (some d) (some e) h1 h2 h3 h4 h5 m =
    record {
      named = refl;
      membership_root = h1;
      source_root = h2;
      target_root = h4;
      source = h3;
      target = h5;
      deep = refl;
      shallow = (
        ground arith,
        max-le (max (depth c) (depth e)) 1 max_set_depth
            (max-le (depth c) (depth e) max_set_depth (depth-le true c h3) (depth-le true e h5))
            (ground arith),
      );
      levels = λ l lt.
          missing_from-levels e 0 (depth_of (some c) (some e)) l m (ground arith) (ground arith);
    }

unless_missing-Holds :
    (P : GroupSetConfig → Type 0) (path : Text) (label : Option Text) (missing : Option ℕ)
    (set : Option GroupSetConfig) (i : List Issue)
    → (missing ≡ none → Holds P set)
    → Holds P (unless_missing path label missing set i).0
unless_missing-Holds P path label (some level) set i h = tt
unless_missing-Holds P path label none set i h = h refl

pub validate_group_set-IsGroupSet :
    (name : Name) (raw : RawGroupSet) (path : Text) (i : List Issue)
    → Holds (IsGroupSet name) (validate_group_set name raw path i).0
unfolding validate_group_set parse_for_set
validate_group_set-IsGroupSet name raw path i =
    unless_missing-Holds (IsGroupSet name) path _ _ _ _ (
      set_of-IsGroupSet name raw path _ _ _ _ _ (check_abs-IsPlain path _ _ raw.membership_root _)
        (check_abs-IsPlain path _ _ raw.source_root _)
        (check_template-IsTemplate true path _ _ raw.source _ _
          (parse_inner-IsTemplate raw.source true))
        (check_abs-IsPlain path _ _ raw.target_root _)
        (check_template-IsTemplate true path _ _ raw.target _ _
          (parse_inner-IsTemplate raw.target true)))
