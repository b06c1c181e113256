-- ===== src/Fsops/Plain.antt =====
-- Names as directory names (src/fsops.rs, src/name.rs).
use byssus.Base.{
  ◌≡◌, ◌≢◌, refl, true, false, [], ◌∷◌, Text, slash, contains, nat_eq, list_eq, Free, arith,
}
use byssus.Name.Allowed.{IsName}
use byssus.Name.Groups.{allowed-Free}
use byssus.Fsops.{is_plain}

Free-contains : (s : Text) → Free slash s → contains s slash ≡ false
Free-contains [] h = refl
Free-contains (b ∷ s) h = ground (arith, h.0, Free-contains s h.1)

-- A name passes for a directory name everywhere: it is not empty, `.` or `..`, and has no `/`.
pub name-is_plain : (s : Text) → IsName s → is_plain s ≡ true
name-is_plain [] h = absurd (ground (arith, h.not_empty))
name-is_plain (b ∷ s) h =
    let whole = Free-contains (b ∷ s) (allowed-Free (b ∷ s) h.allowed) in
    let visible : b ≢ 46 = h.visible in rw whole (ground arith)
