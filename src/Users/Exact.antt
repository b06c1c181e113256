-- ===== src/Users/Exact.antt =====
-- Which groups a user is found to be in (src/users.rs, `supplementary_groups`).
use mathlib.Core.Path.{subst}
use byssus.Base.{
  ℕ, ◌≤◌, ◌<◌, ◌≡◌, refl, ◌⊎◌, inl, inr, Bool-cases, Option, none, some, List, [], ◌∷◌, All,
  All-mono, Elem, ◌==◌, nat_eq, by_number, sort_by, dedup, dedup_after, beq_nat_iff, All-sort_by,
  All-dedup, Elem-sort_by, Ascends, sort_by-Ascends, Text, arith,
}
use byssus.Users.Member.{IsMember, group_entry-IsMember, IsMember-group_entry}
use byssus.Users.{lines, group_entry, cons_some, group_entries, supplementary_groups}

abbrev pub Strict : List ℕ → Type 0
Strict [] = Unit
Strict (x ∷ xs) = All (λ y. x < y) xs × Strict xs

abbrev StrictAfter : ℕ → List ℕ → Type 0
StrictAfter x ys = All (λ y. x < y) ys × Strict ys

dedup_after-Strict :
    (x : ℕ) (ys : List ℕ)
    → All (λ y. x ≤ y) ys
    → Ascends (λ y. y) ys
    → StrictAfter x (dedup_after x ys)
dedup_after-Strict x [] a s = (tt, tt)
dedup_after-Strict x (y ∷ ys) a s = elim (Bool-cases (x == y)) [
  | inl e ↦ rw (e, dedup_after) (dedup_after-Strict x ys a.1 s.1)
  | inr e ↦
      let rest = dedup_after-Strict y ys s.0 s.1 in
      let before : x < y = ground (arith, a.0) in
      rw (e, dedup_after)
        (
          (
            before,
            All-mono (λ z. y < z) (λ z. x < z) (dedup_after y ys) (λ z q. omega arith) rest.0,
          ),
          rest,
        )
]

dedup-Strict : (xs : List ℕ) → Ascends (λ y. y) xs → Strict (dedup xs)
unfolding dedup
dedup-Strict [] s = tt
dedup-Strict (x ∷ xs) s = dedup_after-Strict x xs s.0 s.1

Elem-dedup_after : (a x : ℕ) (ys : List ℕ) → Elem a ys → (a ≡ x) ⊎ Elem a (dedup_after x ys)
Elem-dedup_after a x [] h = elim h [ ]
Elem-dedup_after a x (y ∷ ys) h =
    ground (arith, Elem-dedup_after a x ys, Elem-dedup_after a y ys, beq_nat_iff x y)

Elem-dedup : (a : ℕ) (xs : List ℕ) → Elem a xs → Elem a (dedup xs)
unfolding dedup
Elem-dedup a [] h = h
Elem-dedup a (x ∷ xs) (inl e) = inl e
Elem-dedup a (x ∷ xs) (inr h) = Elem-dedup_after a x xs h

-- A line that makes the user a member of the group.
abbrev pub IsFrom : Text → List Text → ℕ → Type 0
IsFrom name ls gid = (line : Text) × Elem line ls × (group_entry name line ≡ some gid)

later-IsFrom :
    (name line : Text) (ls : List Text) (gids : List ℕ)
    → All (IsFrom name ls) gids
    → All (IsFrom name (line ∷ ls)) gids
later-IsFrom name line ls gids h =
    All-mono (IsFrom name ls) (IsFrom name (line ∷ ls)) gids
      (λ g f. let (l, at_line, e) = f in (l, inr at_line, e)) h

cons_some-IsFrom :
    (name line : Text) (ls : List Text) (o : Option ℕ) (gids : List ℕ)
    → group_entry name line ≡ o
    → All (IsFrom name ls) gids
    → All (IsFrom name (line ∷ ls)) (cons_some o gids)
cons_some-IsFrom name line ls none gids e h = later-IsFrom name line ls gids h
cons_some-IsFrom name line ls (some gid) gids e h =
    ((line, inl refl, e), later-IsFrom name line ls gids h)

group_entries-IsFrom : (name : Text) (ls : List Text) → All (IsFrom name ls) (group_entries name ls)
group_entries-IsFrom name [] = tt
group_entries-IsFrom name (line ∷ ls) =
    cons_some-IsFrom name line ls (group_entry name line) (group_entries name ls) refl
      (group_entries-IsFrom name ls)

Elem-cons_some : (o : Option ℕ) (g : ℕ) (gids : List ℕ) → Elem g gids → Elem g (cons_some o gids)
Elem-cons_some none g gids h = h
Elem-cons_some (some x) g gids h = inr h

Elem-group_entries :
    (name : Text) (ls : List Text) (line : Text) (gid : ℕ)
    → Elem line ls
    → group_entry name line ≡ some gid
    → Elem gid (group_entries name ls)
Elem-group_entries name [] line gid h e = elim h [ ]
Elem-group_entries name (l ∷ ls) line gid (inl same) e =
    let f : group_entry name l ≡ some gid = subst (λ k. group_entry name k ≡ some gid) same e in
    rw f (inl refl)
Elem-group_entries name (l ∷ ls) line gid (inr h) e =
    Elem-cons_some (group_entry name l) gid (group_entries name ls)
      (Elem-group_entries name ls line gid h e)

-- A group of a line that lists the user.
abbrev pub IsListed : Text → Text → ℕ → Type 0
IsListed name group gid = (line : Text) × Elem line (lines group) × IsMember name line gid

-- The groups are those of the lines that list the user, ascending without repetition.
pub record AreGroups (name group : Text) (gids : List ℕ) : Type 0 where
  pub strict : Strict gids
  pub sound : All (IsListed name group) gids
  pub complete : (gid : ℕ) → IsListed name group gid → Elem gid gids

-- `supplementary_groups` gives exactly the numbers of those lines of the file that are
-- `group:password:number:members`, with more fields or not, where the user is one of the members, which
-- commas separate, and the number is one of 32 bits. They ascend, so each is there once.
pub supplementary_groups-AreGroups :
    (group name : Text) → AreGroups name group (supplementary_groups group name)
unfolding supplementary_groups
supplementary_groups-AreGroups group name =
    let found = group_entries name (lines group) in
    let sorted = sort_by (by_number (λ g. g)) found in
    record {
      strict = dedup-Strict sorted (sort_by-Ascends (λ g. g) found);
      sound =
          All-mono (IsFrom name (lines group)) (IsListed name group) (dedup sorted)
            (λ gid f.
              let (line, there, e) = f in (line, there, group_entry-IsMember name line gid e))
            (All-dedup (IsFrom name (lines group)) sorted (
              All-sort_by (by_number (λ g. g)) (IsFrom name (lines group)) found
                (group_entries-IsFrom name (lines group))));
      complete = λ gid f.
          let (line, there, h) = f in
          Elem-dedup gid sorted (
            Elem-sort_by (by_number (λ g. g)) found gid (
              Elem-group_entries name (lines group) line gid there
                (IsMember-group_entry name line gid h)));
    }
