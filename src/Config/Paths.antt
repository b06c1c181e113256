-- ===== src/Config/Paths.antt =====
-- Absolute paths (src/config.rs, `AbsPath`).
use byssus.Base.{
  ◌≡◌, ◌⊎◌, refl, sym, ap, ◌∙◌, inl, inr, Bool, true, false, ◌||◌, List, [], ◌∷◌, ◌++◌, is_empty,
  contains, if◌then◌else◌, ◌==◌, nat_eq, list_eq, Bool-cases, All, Result, ok, err, ◌>>=◌, Yields,
  bind-Yields, Yields-mono, ==→≡, Text, text, slash, Free, split, split-All, join, join-split,
  Free-contains, arith,
}
use byssus.Config.{AbsPath, path_text}
use byssus.Template.Interpolation.{is_plain_component}

pub data AbsPathError : Type 0 where
  not_absolute : AbsPathError
  empty_component : AbsPathError
  dot_component : Text → AbsPathError
  nul : AbsPathError

-- `strip_suffix('/')`, or the text itself
unfoldable pub drop_slash : Text → Text
drop_slash [] = []
drop_slash (c ∷ []) = if c == slash then [] else c ∷ []
drop_slash (c ∷ d ∷ s) = c ∷ drop_slash (d ∷ s)

abbrev pub check_path_component : Text → Result AbsPathError (Unit {0})
check_path_component c =
    if is_empty c
    then err empty_component
    else if c == text "." || c == text ".."
    then err (dot_component c)
    else ok tt

unfoldable pub check_components : List Text → Result AbsPathError (Unit {0})
check_components [] = ok tt
check_components (c ∷ cs) = do u ← check_path_component c; check_components cs

abbrev pub of_components : List Text → Result AbsPathError AbsPath
of_components cs = do u ← check_components cs; ok (record { components = cs })

abbrev pub of_rest : Text → Result AbsPathError AbsPath
of_rest [] = ok (record { components = [] })
of_rest (c ∷ s) = of_components (split slash (drop_slash (c ∷ s)))

abbrev pub of_raw : Text → Result AbsPathError AbsPath
of_raw [] = err not_absolute
of_raw (c ∷ rest) = if c == slash then of_rest rest else err not_absolute

unfoldable pub new : Text → Result AbsPathError AbsPath
unfolding check_components split drop_slash
new raw = if contains raw 0 then err nul else of_raw raw

-- `Path::path_starts_with`
abbrev pub path_starts_with : List Text → List Text → Bool
path_starts_with path [] = true
path_starts_with [] (q ∷ prefix) = false
path_starts_with (p ∷ path) (q ∷ prefix) = if p == q then path_starts_with path prefix else false

unfoldable pub is_at_or_beneath : AbsPath → AbsPath → Bool
is_at_or_beneath p other = path_starts_with p.components other.components

-- The components are plain names.
abbrev pub IsPlain : AbsPath → Type 0
IsPlain p = All (λ c. is_plain_component c ≡ true) p.components

check_path_component-plain :
    (c : Text) → Free slash c → Yields (λ u. is_plain_component c ≡ true) (check_path_component c)
check_path_component-plain c h =
    let e = Free-contains slash c h in
    elim (Bool-cases (is_empty c)) [
      | inl f ↦ rw f tt
      | inr f ↦ elim (Bool-cases (c == text "." || c == text "..")) [
        | inl g ↦ rw (f, g) tt
        | inr g ↦ rw (f, g) (ground arith)
      ]
    ]

check_components-plain :
    (cs : List Text)
    → All (Free slash) cs
    → Yields (λ u. All (λ c. is_plain_component c ≡ true) cs) (check_components cs)
unfolding check_components
check_components-plain [] h = tt
check_components-plain (c ∷ cs) h =
    bind-Yields _ _ (check_path_component c) _ (check_path_component-plain c h.0) (λ u plain.
      Yields-mono (λ v. All (λ x. is_plain_component x ≡ true) cs) _ (check_components cs)
        (λ v rest. (plain, rest)) (check_components-plain cs h.1))

-- The path as written, but for a slash at the end.
abbrev pub IsWritten : Text → AbsPath → Type 0
IsWritten raw p = (path_text p ≡ raw) ⊎ (path_text p ++ (slash ∷ []) ≡ raw)

drop_slash-append : (s : Text) → (drop_slash s ≡ s) ⊎ (drop_slash s ++ (slash ∷ []) ≡ s)
unfolding drop_slash
drop_slash-append [] = inl refl
drop_slash-append (c ∷ []) = elim (Bool-cases (c == slash)) [
  | inl e ↦ rw e (inr (let f : slash ≡ c = sym (==→≡ c slash e) in λ i. f i ∷ []))
  | inr e ↦ rw e (inl refl)
]
drop_slash-append (c ∷ d ∷ s) = elim (drop_slash-append (d ∷ s)) [
  | inl e ↦ inl (λ i. c ∷ e i)
  | inr e ↦ inr (λ i. c ∷ e i)
]

of_components-IsWritten :
    (rest : Text)
    → Yields
        (λ p. IsPlain p × IsWritten (slash ∷ rest) p)
        (of_components (split slash (drop_slash rest)))
of_components-IsWritten rest =
    let cs = split slash (drop_slash rest) in
    let shown = join-split slash (drop_slash rest) in
    bind-Yields _ _ (check_components cs) _
      (check_components-plain cs (split-All slash (drop_slash rest)))
      (λ u plain. (
        plain,
        elim (drop_slash-append rest) [
          | inl e ↦ inl (ap (λ s. slash ∷ s) (shown ∙ e))
          | inr e ↦ inr (ap (λ s. slash ∷ s) (ap (λ s. s ++ (slash ∷ [])) shown ∙ e))
        ],
      ))

of_rest-IsWritten :
    (rest : Text) → Yields (λ p. IsPlain p × IsWritten (slash ∷ rest) p) (of_rest rest)
unfolding join
of_rest-IsWritten [] = (tt, inl refl)
of_rest-IsWritten (c ∷ s) = of_components-IsWritten (c ∷ s)

of_raw-IsWritten : (raw : Text) → Yields (λ p. IsPlain p × IsWritten raw p) (of_raw raw)
of_raw-IsWritten [] = tt
of_raw-IsWritten (c ∷ rest) = elim (Bool-cases (c == slash)) [
  | inl e ↦ rw (e) (rw (==→≡ c slash e) (of_rest-IsWritten rest))
  | inr e ↦ rw e tt
]

-- A path that is accepted has only plain names as components, and its text is as it was given, but for
-- one slash that may have stood at the end.
pub new-IsWritten : (raw : Text) → Yields (λ p. IsPlain p × IsWritten raw p) (new raw)
unfolding new
new-IsWritten raw = elim (Bool-cases (contains raw 0)) [
  | inl e ↦ rw e tt
  | inr e ↦ rw e (of_raw-IsWritten raw)
]
