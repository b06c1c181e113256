-- ===== src/Name/Groups.antt =====
-- The textual form of group identifiers (src/name.rs): parsing and printing.
use byssus.Base.{
  ◌>>=◌, ℕ, ◌≤◌, ◌<◌, ◌≡◌, ◌∙◌, refl, ap, sym, true, false, Option, none, some, List, [], ◌∷◌,
  length, leb, All, All-mono, Free, Result, ok, err, Text, slash, arith, join, split-join,
  join-split, split-Free, split-cons, ◌==◌, nat_eq,
}
use byssus.Name.{
  Name, NameError, GroupId, statically, in_set, strs, is_allowed_byte, from_bytes, parse, display,
  of_parts, parse_parts, collect_names,
}
use byssus.Name.Allowed.{IsName, from_bytes_iff}

-- An identifier that the program makes: a static group's name, or a set and one or two levels.
pub record IsGroup (g : GroupId) : Type 0 where
  pub names : All (λ n. IsName n.str) g.path
  pub set_name : (s : Name) → g.set ≡ some s → IsName s.str
  pub levels : (0 < length g.path) × (length g.path ≤ 2)
  pub flat : g.set ≡ none → length g.path ≡ 1

allowed_slash : (b : ℕ) → is_allowed_byte b ≡ true → (b == slash) ≡ false
unfolding is_allowed_byte
allowed_slash b h = ground arith

pub allowed-Free : (s : Text) → All (λ b. is_allowed_byte b ≡ true) s → Free slash s
allowed-Free s h = All-mono _ _ s (λ b e. allowed_slash b e) h

-- The names have these texts, and pass the allowlist.
abbrev IsNames : List Text → List Name → Type 0
IsNames ps ns = (strs ns ≡ ps) × All (λ n. IsName n.str) ns

IsNames-cons :
    (p : Text) (ps : List Text) (r : Result NameError Name) (rs : Result NameError (List Name))
    (ns : List Name)
    → from_bytes p ≡ r
    → ((ms : List Name) → rs ≡ ok ms → IsNames ps ms)
    → (do n ← r; ms ← rs; ok (n ∷ ms)) ≡ ok ns
    → IsNames (p ∷ ps) ns
IsNames-cons p ps (err x) rs ns e k h = absurd (ground arith)
IsNames-cons p ps (ok n) (err x) ns e k h = absurd (ground arith)
IsNames-cons p ps (ok n) (ok ms) ns e k h =
    let u : n ∷ ms ≡ ns = ground arith in
    let (name, t) = (from_bytes_iff p n).0 e in
    let (all, names) = k ms refl in rw (sym u) ((λ i. t i ∷ all i), (rw t name, names))

collect_names-IsNames : (ps : List Text) (ns : List Name) → collect_names ps ≡ ok ns → IsNames ps ns
collect_names-IsNames [] ns h = let u : [] ≡ ns = ground arith in rw (sym u) (refl, tt)
collect_names-IsNames (p ∷ ps) ns h =
    IsNames-cons p ps (from_bytes p) (collect_names ps) ns refl (collect_names-IsNames ps) h

name-from_bytes : (n : Name) → IsName n.str → from_bytes n.str ≡ ok n
name-from_bytes n h = (from_bytes_iff n.str n).1 (h, refl)

strs-collect_names : (ns : List Name) → All (λ n. IsName n.str) ns → collect_names (strs ns) ≡ ok ns
strs-collect_names [] h = refl
strs-collect_names (n ∷ ns) h = rw (name-from_bytes n h.0, strs-collect_names ns h.1) refl

strs-Free : (ns : List Name) → All (λ n. IsName n.str) ns → All (Free slash) (strs ns)
strs-Free [] h = tt
strs-Free (n ∷ ns) h = (allowed-Free n.str h.0.allowed, strs-Free ns h.1)

abbrev of : Option Name → List Name → GroupId
of set path = record { set = set; path = path }

parse-display_of :
    (o : Option Name) (path : List Name)
    → IsGroup (of o path)
    → parse (display (of o path)) ≡ ok (of o path)
unfolding parse display join
parse-display_of (some s) [] h = absurd (omega (arith, h.levels.0))
parse-display_of (some s) (n ∷ rest) h =
    let name = h.set_name s refl in
    let pieces =
      split-join slash s.str (strs (n ∷ rest))
        (allowed-Free s.str name.allowed, strs-Free (n ∷ rest) h.names) in
    let first = name-from_bytes s name in
    let others = strs-collect_names (n ∷ rest) h.names in
    let levels : leb (length (n ∷ rest)) 2 ≡ true = ground (arith, h.levels.1) in
    rw pieces (rw first (rw others (rw levels refl)))
parse-display_of none [] h = absurd (omega (arith, h.levels.0))
parse-display_of none (n ∷ m ∷ rest) h = absurd (omega (arith, h.flat refl))
parse-display_of none (n ∷ []) h =
    let first = name-from_bytes n h.names.0 in
    let pieces = split-Free slash n.str (allowed-Free n.str h.names.0.allowed) in
    rw pieces (rw first refl)

-- An identifier that is printed and parsed is itself.
pub parse-display : (g : GroupId) → IsGroup g → parse (display g) ≡ ok g
parse-display g h = parse-display_of g.set g.path h

-- The parts of a text, and the identifier that they make.
of_parts_lem :
    (s : Text) (first : Name) (ns : List Name) (g : GroupId)
    → join slash (strs (first ∷ ns)) ≡ s
    → All (λ n. IsName n.str) (first ∷ ns)
    → of_parts s first ns ≡ ok g
    → IsGroup g × (display g ≡ s)
unfolding display join
of_parts_lem s first [] g j h e =
    let u : statically first ≡ g = ground arith in
    rw (sym u) (
      record {
        names = (h.0, tt);
        set_name = λ s x. absurd (ground arith);
        levels = (omega arith, omega arith);
        flat = λ x. refl;
      },
      j,
    )
of_parts_lem s first (n ∷ ns) g j h e =
    let u : in_set first (n ∷ ns) ≡ g = ground arith in
    rw (sym u) (
      record {
        names = h.1;
        set_name = λ s x. let v : first ≡ s = ground arith in rw (sym v) h.0;
        levels = (omega arith, ground arith);
        flat = λ x. absurd (ground arith);
      },
      j,
    )

parse_parts_lem :
    (s : Text) (ps : List Text) (r : Result NameError Name) (rs : Result NameError (List Name))
    (g : GroupId)
    → ((n : Name) (ns : List Name) → r ≡ ok n → rs ≡ ok ns → IsNames ps (n ∷ ns))
    → join slash ps ≡ s
    → (do first ← r; rest ← rs; of_parts s first rest) ≡ ok g
    → IsGroup g × (display g ≡ s)
parse_parts_lem s ps (err e) rs g k j h = absurd (ground arith)
parse_parts_lem s ps (ok n) (err e) g k j h = absurd (ground arith)
parse_parts_lem s ps (ok n) (ok ns) g k j h =
    let (texts, names) = k n ns refl refl in of_parts_lem s n ns g (rw texts j) names h

-- A text that is parsed and printed is itself, and what it is parsed as is well-formed: a static
-- group's name, or a set and one or two levels, all of them names.
pub display-parse : (s : Text) (g : GroupId) → parse s ≡ ok g → IsGroup g × (display g ≡ s)
unfolding parse
display-parse s g h =
    let (p, ps, e) = split-cons slash s in
    let j : join slash (p ∷ ps) ≡ s = rw (sym e) (join-split slash s) in
    parse_parts_lem s (p ∷ ps) (from_bytes p) (collect_names ps) g
      (λ n ns x y.
        let (name, t) = (from_bytes_iff p n).0 x in
        let (all, names) = collect_names-IsNames ps ns y in
        ((λ i. t i ∷ all i), (rw t name, names)))
      j (sym (ap (parse_parts s) e) ∙ h)
