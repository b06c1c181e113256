-- ===== src/Reconcile/Builder/Finish.antt =====
-- The order that `finish` gives the steps, and their dependencies in it (src/reconcile/plan.rs).
use native.Mathlib.Decide.{ℕ_discrete, dec_lt}
use byssus.Base.{
  ℕ, zero, suc, ◌+◌, ◌≤◌, ◌<◌, ◌≡◌, refl, sym, ◌∙◌, ◌≢◌, inl, inr, some, List, [], ◌∷◌, arith,
  length, some_inj, get_elem?, get_or, set, replicate, All, All-get, All-mono, Elem, Elem-get_elem?,
  get_elem?-Elem, get_elem?-lt, lt-get_elem?, IsNodup, length-set, length-replicate,
  get_or-set_self, get_or-set_ne, All-sort_by, IsNodup-sort_by, Elem-sort_by, sort_by-Ascends,
  Ascends, Ascends-get,
}
use byssus.Reconcile.Types.{Action, Step, phase}
use byssus.Reconcile.Builder.{
  Builder, indices, phase_at, phase_order, fill_index, final_step, take_steps, order_of,
  index_table, finish,
}

indices-lt : (i n : ℕ) → All (λ j. (i ≤ j) × (j < i + n)) (indices i n)
indices-lt i zero = tt
indices-lt i (suc n) = (
  (omega arith, omega arith),
  All-mono (λ j. (i + 1 ≤ j) × (j < i + 1 + n)) (λ j. (i ≤ j) × (j < i + suc n)) (indices (i + 1) n)
      (λ j h. (omega arith, omega arith)) (indices-lt (i + 1) n),
)

indices-IsNodup : (i n : ℕ) → IsNodup (indices i n)
indices-IsNodup i zero = tt
indices-IsNodup i (suc n) = (
  All-mono (λ j. (i + 1 ≤ j) × (j < i + 1 + n)) (λ j. i ≢ j) (indices (i + 1) n)
      (λ j h. omega arith) (indices-lt (i + 1) n),
  indices-IsNodup (i + 1) n,
)

Elem-indices : (i n j : ℕ) → i ≤ j → j < i + n → Elem j (indices i n)
Elem-indices i zero j h k = absurd (omega arith)
Elem-indices i (suc n) j h k = elim (ℕ_discrete i j) [
  | yes e ↦ inl (sym e)
  | no e ↦ inr (Elem-indices (i + 1) n j (omega arith) (omega arith))
]

fill_index_fresh :
    (index : ℕ) (order table : List ℕ) (id : ℕ)
    → All (λ j. j ≢ id) order
    → get_or (fill_index index order table) id 0 ≡ get_or table id 0
unfolding fill_index
fill_index_fresh index [] table id h = refl
fill_index_fresh index (x ∷ order) table id h =
    fill_index_fresh (index + 1) order (set table x index) id h.1
    ∙ get_or-set_ne table x id index 0 h.0

-- The table has the place of each id in the order.
get_or-fill_index :
    (index : ℕ) (order table : List ℕ) (k id : ℕ)
    → IsNodup order
    → id < length table
    → get_elem? order k ≡ some id
    → get_or (fill_index index order table) id 0 ≡ index + k
unfolding fill_index
get_or-fill_index index [] table k id u h e = absurd (ground arith)
get_or-fill_index index (x ∷ order) table zero id u h e =
    let p : x ≡ id = ground arith in
    fill_index_fresh (index + 1) order (set table x index) id
      (All-mono (λ y. x ≢ y) (λ j. j ≢ id) order (λ y ne q. ne (p ∙ sym q)) u.0)
    ∙ rw p (get_or-set_self table id index 0 h ∙ omega arith)
get_or-fill_index index (x ∷ order) table (suc k) id u h e =
    get_or-fill_index (index + 1) order (set table x index) k id u.1
      (omega (arith, length-set table x index)) e
    ∙ omega arith

module _ (steps : List (Action × List ℕ)) where
  -- The place that a step gets.
  abbrev pub index_of : ℕ → ℕ
  index_of id = get_or (index_table steps) id 0

  order_of-IsNodup : IsNodup (order_of steps)
  unfolding order_of
  order_of-IsNodup = IsNodup-sort_by (phase_order steps) _ (indices-IsNodup 0 (length steps))

  order_of-lt : All (λ id. id < length steps) (order_of steps)
  unfolding order_of
  order_of-lt =
      All-sort_by (phase_order steps) (λ id. id < length steps) (indices 0 (length steps))
        (All-mono (λ j. (0 ≤ j) × (j < 0 + length steps)) (λ id. id < length steps)
          (indices 0 (length steps)) (λ j h. omega arith) (indices-lt 0 (length steps)))

  order_of-Ascends : Ascends (phase_at steps) (order_of steps)
  unfolding order_of
  order_of-Ascends = sort_by-Ascends (phase_at steps) (indices 0 (length steps))

  Elem-order_of : (id : ℕ) → id < length steps → Elem id (order_of steps)
  unfolding order_of
  Elem-order_of id h =
      Elem-sort_by (phase_order steps) _ id
        (Elem-indices 0 (length steps) id (omega arith) (omega arith))

  index_of_lem : (k id : ℕ) → get_elem? (order_of steps) k ≡ some id → index_of id ≡ k
  unfolding index_table
  index_of_lem k id e =
      get_or-fill_index 0 (order_of steps) (replicate (length steps) 0) k id order_of-IsNodup
        (rw (length-replicate {A = ℕ} (length steps) 0) (
          All-get (λ j. j < length steps) (order_of steps) id order_of-lt
            (get_elem?-Elem (order_of steps) k id e)))
        e
      ∙ omega arith

  order_of-index_of :
      (id : ℕ) → id < length steps → get_elem? (order_of steps) (index_of id) ≡ some id
  order_of-index_of id h =
      let r = Elem-get_elem? (order_of steps) id (Elem-order_of id h) in
      rw (index_of_lem r.0 id r.1) r.1

  -- Taking the steps in the order reads each of them once.
  get_elem?-take_steps :
      (table order : List ℕ) (k id : ℕ) (s : Action × List ℕ)
      → All (λ j. j < length steps) order
      → get_elem? order k ≡ some id
      → get_elem? steps id ≡ some s
      → get_elem? (take_steps table steps order) k ≡ some (final_step table s)
  unfolding take_steps
  get_elem?-take_steps table [] k id s a e f = absurd (ground arith)
  get_elem?-take_steps table (x ∷ order) zero id s a e f =
      let p : x ≡ id = ground arith in rw (p, f, take_steps) refl
  get_elem?-take_steps table (x ∷ order) (suc k) id s a e f =
      let r = get_elem?-lt steps x a.0 in
      rw (r.1, take_steps) (get_elem?-take_steps table order k id s a.1 e f)

  take_steps-lt :
      (table order : List ℕ) (k : ℕ) (s : Step)
      → get_elem? (take_steps table steps order) k ≡ some s
      → All (λ j. j < length steps) order
      → (id : ℕ) × (get_elem? order k ≡ some id)
  unfolding take_steps
  take_steps-lt table [] k s e a = absurd (ground arith)
  take_steps-lt table (x ∷ order) zero s e a = (x, refl)
  take_steps-lt table (x ∷ order) (suc k) s e a =
      let r = get_elem?-lt steps x a.0 in
      take_steps-lt table order k s (rw (r.1, take_steps) at e) a.1

module _ (b : Builder) where
  -- Every step of the builder stands in the plan, at its place.
  pub finish-index_of :
      (id : ℕ) (s : Action × List ℕ)
      → get_elem? b.steps id ≡ some s
      → get_elem? (finish b).steps (index_of b.steps id) ≡ some (final_step (index_table b.steps) s)
  unfolding finish
  finish-index_of id s e =
      get_elem?-take_steps b.steps _ _ _ id s (order_of-lt b.steps)
        (order_of-index_of b.steps id (lt-get_elem? b.steps id s e)) e

  -- Every step of the plan is a step of the builder.
  pub finish-step :
      (k : ℕ) (t : Step)
      → get_elem? (finish b).steps k ≡ some t
      → (id : ℕ) × (s : Action × List ℕ) × (index_of b.steps id ≡ k)
        × (get_elem? b.steps id ≡ some s)
        × (t ≡ final_step (index_table b.steps) s)
  unfolding finish
  finish-step k t e =
      let o =
        take_steps-lt b.steps (index_table b.steps) (order_of b.steps) k t e
          (order_of-lt b.steps) in
      let r = get_elem?-lt b.steps o.0 (
        All-get (λ j. j < length b.steps) (order_of b.steps) o.0 (order_of-lt b.steps)
          (get_elem?-Elem (order_of b.steps) k o.0 o.1)) in
      let p = get_elem?-take_steps b.steps _ _ k o.0 r.0 (order_of-lt b.steps) o.1 r.1 in
      (o.0, r.0, index_of_lem b.steps k o.0 o.1, r.1, some_inj _ _ (sym e ∙ p))

  -- A step of an earlier phase comes first.
  pub finish_phases :
      (i j : ℕ) (s t : Action × List ℕ)
      → get_elem? b.steps i ≡ some s
      → get_elem? b.steps j ≡ some t
      → phase s.0 < phase t.0
      → index_of b.steps i < index_of b.steps j
  finish_phases i j s t e f h = elim (dec_lt (index_of b.steps i) (index_of b.steps j)) [
    | yes p ↦ p
    | no p ↦
        let x = order_of-index_of b.steps i (lt-get_elem? b.steps i s e) in
        let y = order_of-index_of b.steps j (lt-get_elem? b.steps j t f) in
        let u : phase_at b.steps i ≡ phase s.0 = rw (e, phase_at) in
        let v : phase_at b.steps j ≡ phase t.0 = rw (f, phase_at) in
        absurd (
          omega (
            arith,
            u,
            v,
            Ascends-get (phase_at b.steps) (order_of b.steps) _ _ j i (order_of-Ascends b.steps)
                (omega arith) y x,
          ))
  ]
