-- ===== src/Reconcile/Execute/Success.antt =====
-- What was done when a step is completed (src/reconcile/execute.rs).
use byssus.Base.{◌⊎◌, inl, inr, ◌≡◌, refl, sym, ap, Bool, Result, ok, err, map_err, Text, arith}
use byssus.Base.Exec.{Exec, ◌>>=◌, continue, map_error}
use byssus.System.{System}
use byssus.Reconcile.Execute.{Machine, Sink, called, in_world, persist}

module _ {S E A B : Type 0} where
  -- A first part that succeeded, and the rest after it.
  abbrev pub Ran : Exec S E A → (A → Exec S E B) → S → B → S → Type 0
  Ran f g s b s' = (a : A) × (t : S) × (f s ≡ (ok a, t)) × (g a t ≡ (ok b, s'))

  bind_ok_of :
      (f : Exec S E A) (g : A → Exec S E B) (s s' : S) (b : B) (r : Result E A) (t : S)
      → f s ≡ (r, t)
      → continue r g t ≡ (ok b, s')
      → Ran f g s b s'
  bind_ok_of f g s s' b (ok a) t e h = (a, t, e, h)
  bind_ok_of f g s s' b (err x) t e h = absurd (ground arith)

  pub bind_ok :
      (f : Exec S E A) (g : A → Exec S E B) (s s' : S) (b : B)
      → (f >>= g) s ≡ (ok b, s')
      → Ran f g s b s'
  bind_ok f g s s' b h = bind_ok_of f g s s' b (f s).0 (f s).1 refl h

module _ {S E A B : Type 0} where
  abbrev Split : Exec S E A → (A → Exec S E B) → S → Type 0
  Split f g s =
      ((a : A) × (t : S) × (f s ≡ (ok a, t)) × ((f >>= g) s ≡ g a t))
      ⊎ ((e : E) × (t : S) × (f s ≡ (err e, t)) × ((f >>= g) s ≡ (err e, t)))

  bind_cases_of :
      (f : Exec S E A) (g : A → Exec S E B) (s : S) (r : Result E A) (t : S)
      → f s ≡ (r, t)
      → (f >>= g) s ≡ continue r g t
      → Split f g s
  bind_cases_of f g s (ok a) t e h = inl (a, t, e, h)
  bind_cases_of f g s (err x) t e h = inr (x, t, e, h)

  -- The first part succeeds, and the rest follows, or it fails, and that is all.
  pub bind_cases : (f : Exec S E A) (g : A → Exec S E B) (s : S) → Split f g s
  bind_cases f g s = bind_cases_of f g s (f s).0 (f s).1 refl refl

-- The value, or this one.
abbrev ok_of : {E A : Type 0} → A → Result E A → A
ok_of x (ok a) = a
ok_of x (err e) = x

module _ {S E F A : Type 0} (k : E → F) where
  mapped_ok :
      (r : Result E A) (t s' : S) (a : A)
      → ◌≡◌ {A = Result F A × S} (map_err k r, t) (ok a, s')
      → ◌≡◌ {A = Result E A × S} (r, t) (ok a, s')
  mapped_ok (ok x) t s' a h = λ i. (ok (ok_of x (h i).0), (h i).1)
  mapped_ok (err x) t s' a h = absurd (ground arith)

  pub map_error_ok :
      (f : Exec S E A) (s s' : S) (a : A) → map_error k f s ≡ (ok a, s') → f s ≡ (ok a, s')
  map_error_ok f s s' a h = mapped_ok (f s).0 (f s).1 s' a h

module _ (sys : System) where
  called_ok :
      {E A : Type 0} (message : E → Text) (m m' : Machine sys) (a : A) (r : Result E A)
      (w : sys.World)
      → called sys message m r w ≡ (ok a, m')
      → (r ≡ ok a) × (w ≡ m'.world) × (m'.state ≡ m.state)
  called_ok message m m' a (ok x) w h =
      (ap (λ p. ok (ok_of x p.0)) h, ap (λ p. p.1.world) h, sym (ap (λ p. p.1.state) h))
  called_ok message m m' a (err x) w h = absurd (ground arith)

  pub in_world_ok :
      {E A : Type 0} (message : E → Text) (call : Exec sys.World E A) (m m' : Machine sys) (a : A)
      → in_world sys message call m ≡ (ok a, m')
      → (call m.world ≡ (ok a, m'.world)) × (m'.state ≡ m.state)
  in_world_ok message call m m' a h =
      let (e, f, g) = called_ok message m m' a (call m.world).0 (call m.world).1 h in
      ((λ i. (e i, f i)), g)

  module _ (sink : Sink sys) (unique_supported : Bool) where
    pub persist_ok :
        (m m' : Machine sys)
        → persist sys sink unique_supported m ≡ (ok tt, m')
        → (sink.save m.state m.world ≡ (ok tt, m'.world)) × (m'.state ≡ m.state)
    unfolding persist
    persist_ok m m' h = in_world_ok _ (sink.save m.state) m m' tt h
