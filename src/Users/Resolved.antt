-- ===== src/Users/Resolved.antt =====
-- The user that is resolved (src/users.rs, `resolve_from`).
use byssus.Base.{
  ℕ, ◌≡◌, ◌≢◌, refl, inl, inr, not, Bool-cases, Option, none, some, List, [], ◌∷◌, All, All-mono,
  Elem, keep, Result, ok, err, Yields, bind-Yields, ◌==◌, nat_eq, beq_nat_iff, Text, arith,
}
use byssus.Privileges.Plan.{ServiceUser}
use byssus.Users.{find_user, supplementary_groups, ResolveError, found_or, located, resolve_from}

abbrev pub IsOther : ℕ → List ℕ → ℕ → Type 0
IsOther gid gids g = (g ≢ gid) × Elem g gids

keep-IsOther : (gid : ℕ) (xs : List ℕ) → All (IsOther gid xs) (keep (λ g. not (g == gid)) xs)
keep-IsOther gid [] = tt
keep-IsOther gid (x ∷ xs) =
    let rest =
      All-mono (IsOther gid xs) (IsOther gid (x ∷ xs)) (keep (λ g. not (g == gid)) xs)
        (λ g h. (h.0, inr h.1)) (keep-IsOther gid xs) in
    elim (Bool-cases (x == gid)) [
      | inl e ↦ rw e rest
      | inr e ↦ rw e ((ground (arith, beq_nat_iff x gid), inl refl), rest)
    ]

Elem-keep : (gid g : ℕ) (xs : List ℕ) → g ≢ gid → Elem g xs → Elem g (keep (λ y. not (y == gid)) xs)
Elem-keep gid g [] d h = h
Elem-keep gid g (x ∷ xs) d h = ground (arith, Elem-keep gid g xs d, beq_nat_iff x gid)

module _ {Io : Type 0} (read_to_string : Text → Result Io Text) (name passwd group : Text) where
  -- Both files were read; the numbers are those of the user's entry, and the groups are those of the
  -- group file but the user's own.
  pub record IsResolved (user : ServiceUser) : Type 0 where
    pub passwd_text : Text
    pub group_text : Text
    pub passwd_read : read_to_string passwd ≡ ok passwd_text
    pub group_read : read_to_string group ≡ ok group_text
    pub named : user.name ≡ name
    pub found : find_user passwd_text name ≡ some (user.uid, user.gid)
    pub others : All (IsOther user.gid (supplementary_groups group_text name)) user.groups
    pub complete :
        (g : ℕ) → g ≢ user.gid → Elem g (supplementary_groups group_text name) → Elem g user.groups

  located-Yields : (path : Text) (r : Result Io Text) → Yields (λ s. r ≡ ok s) (located path r)
  located-Yields path (ok s) = refl
  located-Yields path (err e) = tt

  found_or-Yields :
      (e : ResolveError Io) (o : Option (ℕ × ℕ)) → Yields (λ ids. o ≡ some ids) (found_or e o)
  found_or-Yields e none = tt
  found_or-Yields e (some ids) = refl

  -- A user that is resolved has the name that was asked for and the numbers that `find_user` finds for
  -- it in the password file; its supplementary groups are exactly those that the group file gives, but
  -- for its own group. Both files were read.
  pub resolve_from-IsResolved : Yields IsResolved (resolve_from read_to_string name passwd group)
  unfolding resolve_from
  resolve_from-IsResolved =
      bind-Yields _ _ (located passwd (read_to_string passwd)) _
        (located-Yields passwd (read_to_string passwd))
        (λ passwd_text p.
          bind-Yields _ _ (found_or _ (find_user passwd_text name)) _
            (found_or-Yields _ (find_user passwd_text name))
            (λ ids f.
              bind-Yields _ _ (located group (read_to_string group)) _
                (located-Yields group (read_to_string group))
                (λ group_text q. record {
                  passwd_text = passwd_text;
                  group_text = group_text;
                  passwd_read = p;
                  group_read = q;
                  named = refl;
                  found = f;
                  others = keep-IsOther ids.1 (supplementary_groups group_text name);
                  complete = λ g d h. Elem-keep ids.1 g (supplementary_groups group_text name) d h;
                })))
