-- ===== src/Config/Load/Cross.antt =====
-- What a configuration without errors keeps apart (src/config.rs, `check_cross_group`).
use byssus.Base.{
  ◌≡◌, ◌≢◌, refl, Bool, true, false, inl, inr, Bool-cases, Option, List, [], ◌∷◌, ◌++◌, any, All,
  if◌then◌else◌, ◌==◌, list_eq, nat_eq, ==→≡, Text, arith,
}
use byssus.Config.Paths.{is_at_or_beneath}
use byssus.Config.Issues.{Config, Issue, Message, is_error, has_errors, add_error}
use byssus.Config.Load.{
  MembershipArea, check_target, is_overlapping, check_overlap, check_area, check_areas,
  check_cross_group, areas_of,
}

abbrev pub IsFine : List Issue → Type 0
IsFine issues = has_errors issues ≡ false

any-snoc :
    (p : Issue → Bool) (xs : List Issue) (x : Issue) → p x ≡ true → any p (xs ++ (x ∷ [])) ≡ true
any-snoc p [] x h = rw h refl
any-snoc p (y ∷ xs) x h = ground (arith, any-snoc p xs x h)

add_error-IsFine :
    (file group : Option Text) (m : Message) (issues : List Issue)
    → has_errors (add_error file group m issues) ≡ true
unfolding has_errors
add_error-IsFine file group m issues = any-snoc (λ i. is_error i.severity) issues _ refl

-- The membership is not at or beneath the other's target root, and does not overlap another's root of
-- a set.
abbrev pub IsApart : MembershipArea → MembershipArea → Type 0
IsApart area other =
    (is_at_or_beneath area.path other.target_root ≡ false)
    × (area.label ≢ other.label
        → other.is_set ≡ true
        → (is_at_or_beneath area.path other.path ≡ false)
          × (is_at_or_beneath other.path area.path ≡ false))

-- The form of both checks.
guarded-IsFine :
    (c : Bool) (file group : Option Text) (m : Message) (issues : List Issue)
    → IsFine (if c then add_error file group m issues else issues)
    → IsFine issues × (c ≡ false)
guarded-IsFine true file group m issues h =
    absurd (let e = add_error-IsFine file group m issues in ground arith)
guarded-IsFine false file group m issues h = (h, refl)

overlap-IsApart :
    (area other : MembershipArea)
    → is_at_or_beneath area.path other.target_root ≡ false
    → is_overlapping area other ≡ false
    → IsApart area other
overlap-IsApart area other e f = (
  e,
  λ d is_set. elim (Bool-cases (area.label == other.label)) [
    | inl same ↦ absurd (d (==→≡ area.label other.label same))
    | inr differs ↦ ground arith
  ],
)

check_area-IsFine :
    (area : MembershipArea) (others : List MembershipArea) (issues : List Issue)
    → IsFine (check_area area others issues)
    → IsFine issues × All (IsApart area) others
unfolding check_area check_target check_overlap
check_area-IsFine area [] issues h = (h, tt)
check_area-IsFine area (other ∷ others) issues h =
    let rest =
      check_area-IsFine area others (check_overlap area other (check_target area other issues)) h in
    let second =
      guarded-IsFine (is_overlapping area other) _ _ _ (check_target area other issues) rest.0 in
    let first =
      guarded-IsFine (is_at_or_beneath area.path other.target_root) _ _ _ issues second.0 in
    (first.0, (overlap-IsApart area other first.1 second.1, rest.1))

check_areas-IsFine :
    (areas every : List MembershipArea) (issues : List Issue)
    → IsFine (check_areas areas every issues)
    → IsFine issues × All (λ area. All (IsApart area) every) areas
unfolding check_areas
check_areas-IsFine [] every issues h = (h, tt)
check_areas-IsFine (area ∷ areas) every issues h =
    let rest = check_areas-IsFine areas every (check_area area every issues) h in
    let first = check_area-IsFine area every issues rest.0 in (first.0, (first.1, rest.1))

-- The memberships of a configuration do not stand at or beneath the target root of any group or set,
-- and none contains, or is contained in, the membership root of another set.
unfoldable pub IsDisjoint : Config → Type 0
unfolding areas_of
IsDisjoint config = All (λ area. All (IsApart area) (areas_of config)) (areas_of config)

pub check_cross_group-IsDisjoint :
    (config : Config) (issues : List Issue)
    → IsFine (check_cross_group config issues)
    → IsFine issues × IsDisjoint config
unfolding check_cross_group IsDisjoint
check_cross_group-IsDisjoint config issues h =
    check_areas-IsFine (areas_of config) (areas_of config) issues h
