-- ===== src/Mountinfo/Table.antt =====
-- The whole table, and the first line that is refused (src/mountinfo.rs, `MountTable::parse`).
use byssus.Base.{
  ℕ, ◌+◌, ◌≡◌, refl, ap, inl, inr, true, false, Bool-cases, List, [], ◌∷◌, ◌++◌, map, keep, not,
  length, is_empty, Result, ok, err, Result-cases, ◌>>=◌, Text, split, All, arith,
}
use byssus.Mountinfo.{MountInfo, Reason, ParseError, parse_line, parse_lines, parse_table}

module _ (lossy : Text → Text) where
  -- A line that is passed over, or that is an entry.
  abbrev pub IsGoodLine : Text → Type 0
  IsGoodLine line = (is_empty line ≡ false) → (m : MountInfo) × (parse_line lossy line ≡ ok m)

  -- The error is that of the line with its number, and the lines before are good. `n` is the number
  -- of the first line.
  pub record IsFirstBad (n : ℕ) (lines : List Text) (e : ParseError) : Type 0 where
    pub before : List Text
    pub line : Text
    pub after : List Text
    pub parts : lines ≡ before ++ (line ∷ after)
    pub number : e.line ≡ n + length before
    pub full : is_empty line ≡ false
    pub good : All IsGoodLine before
    pub bad : parse_line lossy line ≡ err e.reason

  -- The entries are those of the lines that are not empty, or the error is the first. `n` is the number
  -- of the first line.
  abbrev pub Outcome : ℕ → List Text → Result ParseError (List MountInfo) → Type 0
  Outcome n lines (ok mounts) =
      map ok mounts ≡ map (parse_line lossy) (keep (λ l. not (is_empty l)) lines)
  Outcome n lines (err e) = IsFirstBad n lines e

  after_good :
      (n : ℕ) (line : Text) (lines : List Text) (e : ParseError)
      → IsGoodLine line
      → IsFirstBad (n + 1) lines e
      → IsFirstBad n (line ∷ lines) e
  after_good n line lines e g b = record {
    before = line ∷ b.before;
    line = b.line;
    after = b.after;
    parts = ap (λ ls. line ∷ ls) b.parts;
    number = omega (arith, b.number);
    full = b.full;
    good = (g, b.good);
    bad = b.bad;
  }

  skip-Outcome :
      (n : ℕ) (line : Text) (lines : List Text) (r : Result ParseError (List MountInfo))
      → is_empty line ≡ true
      → Outcome (n + 1) lines r
      → Outcome n (line ∷ lines) r
  skip-Outcome n line lines (ok mounts) h o = rw h o
  skip-Outcome n line lines (err e) h o = after_good n line lines e (λ f. absurd (ground arith)) o

  abbrev put : MountInfo → Result ParseError (List MountInfo) → Result ParseError (List MountInfo)
  put m r = do ms ← r; ok (m ∷ ms)

  entry-Outcome :
      (n : ℕ) (line : Text) (lines : List Text) (m : MountInfo)
      (r : Result ParseError (List MountInfo))
      → is_empty line ≡ false
      → parse_line lossy line ≡ ok m
      → Outcome (n + 1) lines r
      → Outcome n (line ∷ lines) (put m r)
  entry-Outcome n line lines m (ok mounts) d h o = rw (d, h) (λ i. ok m ∷ o i)
  entry-Outcome n line lines m (err e) d h o = after_good n line lines e (λ f. (m, h)) o

  bad_line :
      (n : ℕ) (line : Text) (lines : List Text) (reason : Reason)
      → is_empty line ≡ false
      → parse_line lossy line ≡ err reason
      → IsFirstBad n (line ∷ lines) (record { line = n; reason = reason })
  bad_line n line lines reason d h = record {
    before = [];
    line = line;
    after = lines;
    parts = refl;
    number = omega arith;
    full = d;
    good = tt;
    bad = h;
  }

  parse_lines-Outcome : (n : ℕ) (lines : List Text) → Outcome n lines (parse_lines lossy n lines)
  unfolding parse_lines
  parse_lines-Outcome n [] = refl
  parse_lines-Outcome n (line ∷ lines) =
      let rest = parse_lines-Outcome (n + 1) lines in
      elim (Bool-cases (is_empty line)) [
        | inl e ↦ rw e (skip-Outcome n line lines (parse_lines lossy (n + 1) lines) e rest)
        | inr e ↦ elim (Result-cases (parse_line lossy line)) [
          | inl (m, f) ↦
              rw (e, f) (entry-Outcome n line lines m (parse_lines lossy (n + 1) lines) e f rest)
          | inr (reason, f) ↦ rw (e, f) (bad_line n line lines reason e f)
        ]
      ]

  -- A table that is accepted has the entries of its lines that are not empty, in order, each as it is
  -- read alone. One that is refused has a first line that is refused alone, not empty, and the error
  -- has its number from 1 and its reason; every line before it is empty or an entry.
  pub parse_table-Outcome :
      (content : Text) → Outcome 1 (split b'\n' content) (parse_table lossy content)
  unfolding parse_table
  parse_table-Outcome content = parse_lines-Outcome 1 (split b'\n' content)
