-- ===== src/Users/Member.antt =====
-- Which lines of the group file list a user (src/users.rs, `supplementary_groups`).
use mathlib.Core.Path.{subst}
use byssus.Base.{
  ℕ, ◌≡◌, refl, sym, ap, ◌∙◌, inl, inr, Bool, true, false, Bool-cases, Option, some, List, [], ◌∷◌,
  any, All, Elem, ◌==◌, nat_eq, list_eq, ==→≡, ==_refl, Text, Free, split, join, join-split,
  split-join, split-All, split-cons, parse_uint, arith,
}
use byssus.Users.{if_member, gid_of, group_entry}

-- The line is `group:password:number:members`, and perhaps more fields; the members are separated by
-- commas, and the name is one of them; and the number is the group's.
pub record IsMember (name line : Text) (gid : ℕ) : Type 0 where
  pub group_name : Text
  pub password : Text
  pub number : Text
  pub first : Text
  pub others : List Text
  pub rest : List Text
  pub written :
      line ≡ join b':' (group_name ∷ password ∷ number ∷ join b',' (first ∷ others) ∷ rest)
  pub fields : All (Free b':') (group_name ∷ password ∷ number ∷ join b',' (first ∷ others) ∷ rest)
  pub members : All (Free b',') (first ∷ others)
  pub member : Elem name (first ∷ others)
  pub numbered : parse_uint 32 number ≡ some gid

any-Elem : (name : Text) (xs : List Text) → any (λ m. m == name) xs ≡ true → Elem name xs
any-Elem name [] h = absurd (ground arith)
any-Elem name (x ∷ xs) h = elim (Bool-cases (x == name)) [
  | inl e ↦ inl (sym (==→≡ x name e))
  | inr e ↦ inr (any-Elem name xs (ground arith))
]

Elem-any : (name : Text) (xs : List Text) → Elem name xs → any (λ m. m == name) xs ≡ true
Elem-any name [] h = elim h [ ]
Elem-any name (x ∷ xs) (inl e) =
    let f : (x == name) ≡ true = subst (λ y. (y == name) ≡ true) e (==_refl name) in rw f refl
Elem-any name (x ∷ xs) (inr h) = ground (arith, Elem-any name xs h)

listed :
    (name g p n m line : Text) (rest : List Text) (gid : ℕ)
    → line ≡ join b':' (g ∷ p ∷ n ∷ m ∷ rest)
    → All (Free b':') (g ∷ p ∷ n ∷ m ∷ rest)
    → any (λ x. x == name) (split b',' m) ≡ true
    → parse_uint 32 n ≡ some gid
    → IsMember name line gid
listed name g p n m line rest gid w f a e =
    let (first, others, s) = split-cons b',' m in
    let whole : m ≡ join b',' (first ∷ others) = sym (join-split b',' m) ∙ ap (join b',') s in
    record {
      group_name = g;
      password = p;
      number = n;
      first = first;
      others = others;
      rest = rest;
      written = subst (λ x. line ≡ join b':' (g ∷ p ∷ n ∷ x ∷ rest)) whole w;
      fields = subst (λ x. All (Free b':') (g ∷ p ∷ n ∷ x ∷ rest)) whole f;
      members = subst (All (Free b',')) s (split-All b',' m);
      member = subst (Elem name) s (any-Elem name (split b',' m) a);
      numbered = e;
    }

if_member-some :
    (b : Bool) (o : Option ℕ) (gid : ℕ) → if_member b o ≡ some gid → (b ≡ true) × (o ≡ some gid)
if_member-some true o gid h = (refl, h)
if_member-some false o gid h = absurd (ground arith)

gid_of-IsMember :
    (name line : Text) (fields : List Text) (gid : ℕ)
    → line ≡ join b':' fields
    → All (Free b':') fields
    → gid_of name fields ≡ some gid
    → IsMember name line gid
gid_of-IsMember name line [] gid w f e = absurd (ground arith)
gid_of-IsMember name line (g ∷ []) gid w f e = absurd (ground arith)
gid_of-IsMember name line (g ∷ p ∷ []) gid w f e = absurd (ground arith)
gid_of-IsMember name line (g ∷ p ∷ n ∷ []) gid w f e = absurd (ground arith)
gid_of-IsMember name line (g ∷ p ∷ n ∷ m ∷ rest) gid w f e =
    let both = if_member-some (any (λ x. x == name) (split b',' m)) (parse_uint 32 n) gid e in
    listed name g p n m line rest gid w f both.0 both.1

pub group_entry-IsMember :
    (name line : Text) (gid : ℕ) → group_entry name line ≡ some gid → IsMember name line gid
unfolding group_entry
group_entry-IsMember name line gid e =
    gid_of-IsMember name line (split b':' line) gid (sym (join-split b':' line))
      (split-All b':' line) e

pub IsMember-group_entry :
    (name line : Text) (gid : ℕ) → IsMember name line gid → group_entry name line ≡ some gid
unfolding group_entry
IsMember-group_entry name line gid h =
    rw
      (
        h.written,
        split-join b':' h.group_name _ h.fields,
        split-join b',' h.first h.others h.members,
        Elem-any name (h.first ∷ h.others) h.member,
      )
      h.numbered
