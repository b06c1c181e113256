-- ===== src/Base/Order.antt =====
-- `PartialEq` and `Ord`: decidable equality and lexicographic total orders, as the derives give them.
use Prim.Native.Nat.{ℕ, compare, Ordering}
use mathlib.Core.Path.{◌≡◌, refl}
use mathlib.Core.Logic.{◌↔◌}
use mathlib.Core.List.{List, [], ◌∷◌}
use mathlib.Core.Option.{Option, none, some}
use mathlib.Core.Bool.{Bool, true, false, ◌||◌, ◌&&◌}
use native.Mathlib.Omega.{arith}

pub record Eq (A : Type 0) : Type 0 where
  pub beq : A → A → Bool
  pub beq_iff : (a b : A) → (beq a b ≡ true) ↔ (a ≡ b)

infix 50 ◌==◌
abbrev pub ◌==◌ : {A : Type 0} ⦃e : Eq A⦄ → A → A → Bool
◌==◌ ⦃e⦄ = e.beq

pub ==→≡ : {A : Type 0} ⦃e : Eq A⦄ (a b : A) → (a == b) ≡ true → a ≡ b
==→≡ ⦃e⦄ a b = (e.beq_iff a b).0

pub ==_refl : {A : Type 0} ⦃e : Eq A⦄ (a : A) → (a == a) ≡ true
==_refl ⦃e⦄ a = (e.beq_iff a a).1 refl

-- `slice::contains`
abbrev pub contains : {A : Type 0} ⦃e : Eq A⦄ → List A → A → Bool
contains [] a = false
contains (x ∷ xs) a = x == a || contains xs a

abbrev beq_nat : ℕ → ℕ → Bool
beq_nat a b = elim (compare a b) [ Ordering.eq ↦ true | _ ↦ false ]

pub beq_nat_iff : (a b : ℕ) → (beq_nat a b ≡ true) ↔ (a ≡ b)
beq_nat_iff a b = ground arith

instance abbrev pub nat_eq : Eq ℕ
nat_eq = record { beq = beq_nat; beq_iff = beq_nat_iff }

abbrev beq_bool : Bool → Bool → Bool
beq_bool true b = b
beq_bool false true = false
beq_bool false false = true

pub beq_bool_iff : (a b : Bool) → (beq_bool a b ≡ true) ↔ (a ≡ b)
beq_bool_iff a b = ground arith

instance abbrev pub bool_eq : Eq Bool
bool_eq = record { beq = beq_bool; beq_iff = beq_bool_iff }

module _ {A : Type 0} ⦃e : Eq A⦄ where
  abbrev beq_list : List A → List A → Bool
  beq_list [] [] = true
  beq_list [] (y ∷ ys) = false
  beq_list (x ∷ xs) [] = false
  beq_list (x ∷ xs) (y ∷ ys) = e.beq x y && beq_list xs ys

  pub beq_list_iff : (xs ys : List A) → (beq_list xs ys ≡ true) ↔ (xs ≡ ys)
  beq_list_iff [] [] = ground arith
  beq_list_iff [] (y ∷ ys) = ground arith
  beq_list_iff (x ∷ xs) [] = ground arith
  beq_list_iff (x ∷ xs) (y ∷ ys) = ground (arith, e.beq_iff x y, beq_list_iff xs ys)

  abbrev beq_option : Option A → Option A → Bool
  beq_option none none = true
  beq_option none (some y) = false
  beq_option (some x) none = false
  beq_option (some x) (some y) = e.beq x y

  pub beq_option_iff : (a b : Option A) → (beq_option a b ≡ true) ↔ (a ≡ b)
  beq_option_iff none none = ground arith
  beq_option_iff none (some y) = ground arith
  beq_option_iff (some x) none = ground arith
  beq_option_iff (some x) (some y) = ground (arith, e.beq_iff x y)

instance abbrev pub list_eq : {A : Type 0} ⦃e : Eq A⦄ → Eq (List A)
list_eq ⦃e⦄ = record { beq = beq_list; beq_iff = beq_list_iff }

instance abbrev pub option_eq : {A : Type 0} ⦃e : Eq A⦄ → Eq (Option A)
option_eq ⦃e⦄ = record { beq = beq_option; beq_iff = beq_option_iff }

-- `Ord`. The laws are those that an ordered map relies on.
abbrev pub flip : Ordering → Ordering
flip Ordering.lt = Ordering.gt
flip Ordering.eq = Ordering.eq
flip Ordering.gt = Ordering.lt

pub record Ord (A : Type 0) : Type 0 where
  pub cmp : A → A → Ordering
  pub cmp_eq : (a b : A) → (cmp a b ≡ Ordering.eq) ↔ (a ≡ b)
  pub cmp_flip : (a b : A) → cmp b a ≡ flip (cmp a b)
  pub cmp_trans :
      (a b c : A) → cmp a b ≡ Ordering.lt → cmp b c ≡ Ordering.lt → cmp a c ≡ Ordering.lt

-- The order of a record that derives it: field by field, the later by the earlier's leave.
abbrev pub then : Ordering → Ordering → Ordering
then Ordering.lt o = Ordering.lt
then Ordering.eq o = o
then Ordering.gt o = Ordering.gt

pub nat_cmp_eq : (a b : ℕ) → (compare a b ≡ Ordering.eq) ↔ (a ≡ b)
nat_cmp_eq a b = ground arith

pub nat_cmp_flip : (a b : ℕ) → compare b a ≡ flip (compare a b)
nat_cmp_flip a b = ground arith

pub nat_cmp_trans :
    (a b c : ℕ) → compare a b ≡ Ordering.lt → compare b c ≡ Ordering.lt → compare a c ≡ Ordering.lt
nat_cmp_trans a b c h k = ground arith

instance abbrev pub nat_ord : Ord ℕ
nat_ord = record {
  cmp = compare;
  cmp_eq = nat_cmp_eq;
  cmp_flip = nat_cmp_flip;
  cmp_trans = nat_cmp_trans;
}

module _ {A : Type 0} ⦃o : Ord A⦄ where
  abbrev cmp_list : List A → List A → Ordering
  cmp_list [] [] = Ordering.eq
  cmp_list [] (y ∷ ys) = Ordering.lt
  cmp_list (x ∷ xs) [] = Ordering.gt
  cmp_list (x ∷ xs) (y ∷ ys) = then (o.cmp x y) (cmp_list xs ys)

  pub cmp_list_eq : (xs ys : List A) → (cmp_list xs ys ≡ Ordering.eq) ↔ (xs ≡ ys)
  cmp_list_eq [] [] = ground arith
  cmp_list_eq [] (y ∷ ys) = ground arith
  cmp_list_eq (x ∷ xs) [] = ground arith
  cmp_list_eq (x ∷ xs) (y ∷ ys) = ground (arith, o.cmp_eq x y, cmp_list_eq xs ys)

  pub cmp_list-flip : (xs ys : List A) → cmp_list ys xs ≡ flip (cmp_list xs ys)
  cmp_list-flip [] [] = refl
  cmp_list-flip [] (y ∷ ys) = refl
  cmp_list-flip (x ∷ xs) [] = refl
  cmp_list-flip (x ∷ xs) (y ∷ ys) = ground (arith, o.cmp_flip x y, cmp_list-flip xs ys)

  pub cmp_list_trans :
      (xs ys zs : List A)
      → cmp_list xs ys ≡ Ordering.lt
      → cmp_list ys zs ≡ Ordering.lt
      → cmp_list xs zs ≡ Ordering.lt
  cmp_list_trans [] [] zs h k = ground arith
  cmp_list_trans [] (y ∷ ys) [] h k = ground arith
  cmp_list_trans [] (y ∷ ys) (z ∷ zs) h k = refl
  cmp_list_trans (x ∷ xs) [] zs h k = ground arith
  cmp_list_trans (x ∷ xs) (y ∷ ys) [] h k = ground arith
  cmp_list_trans (x ∷ xs) (y ∷ ys) (z ∷ zs) h k =
      ground (arith, o.cmp_eq x y, o.cmp_eq y z, o.cmp_trans x y z, cmp_list_trans xs ys zs)

  abbrev cmp_option : Option A → Option A → Ordering
  cmp_option none none = Ordering.eq
  cmp_option none (some y) = Ordering.lt
  cmp_option (some x) none = Ordering.gt
  cmp_option (some x) (some y) = o.cmp x y

  pub cmp_option_eq : (a b : Option A) → (cmp_option a b ≡ Ordering.eq) ↔ (a ≡ b)
  cmp_option_eq none none = ground arith
  cmp_option_eq none (some y) = ground arith
  cmp_option_eq (some x) none = ground arith
  cmp_option_eq (some x) (some y) = ground (arith, o.cmp_eq x y)

  pub cmp_option-flip : (a b : Option A) → cmp_option b a ≡ flip (cmp_option a b)
  cmp_option-flip none none = refl
  cmp_option-flip none (some y) = refl
  cmp_option-flip (some x) none = refl
  cmp_option-flip (some x) (some y) = o.cmp_flip x y

  pub cmp_option_trans :
      (a b c : Option A)
      → cmp_option a b ≡ Ordering.lt
      → cmp_option b c ≡ Ordering.lt
      → cmp_option a c ≡ Ordering.lt
  cmp_option_trans none none c h k = ground arith
  cmp_option_trans none (some y) none h k = ground arith
  cmp_option_trans none (some y) (some z) h k = refl
  cmp_option_trans (some x) none c h k = ground arith
  cmp_option_trans (some x) (some y) none h k = ground arith
  cmp_option_trans (some x) (some y) (some z) h k = o.cmp_trans x y z h k

instance abbrev pub list_ord : {A : Type 0} ⦃o : Ord A⦄ → Ord (List A)
list_ord ⦃o⦄ = record {
  cmp = cmp_list;
  cmp_eq = cmp_list_eq;
  cmp_flip = cmp_list-flip;
  cmp_trans = cmp_list_trans;
}

instance abbrev pub option_ord : {A : Type 0} ⦃o : Ord A⦄ → Ord (Option A)
option_ord ⦃o⦄ = record {
  cmp = cmp_option;
  cmp_eq = cmp_option_eq;
  cmp_flip = cmp_option-flip;
  cmp_trans = cmp_option_trans;
}

-- A record of one field, read by `f`.
module _ {T A : Type 0} ⦃oa : Ord A⦄ (f : T → A) (inj : (s t : T) → f s ≡ f t → s ≡ t) where
  abbrev cmp_field : T → T → Ordering
  cmp_field s t = oa.cmp (f s) (f t)

  pub cmp_field_eq : (s t : T) → (cmp_field s t ≡ Ordering.eq) ↔ (s ≡ t)
  cmp_field_eq s t =
      (λ h. inj s t ((oa.cmp_eq (f s) (f t)).0 h), λ e. rw e ((oa.cmp_eq (f t) (f t)).1 refl))

  pub cmp_field-flip : (s t : T) → cmp_field t s ≡ flip (cmp_field s t)
  cmp_field-flip s t = oa.cmp_flip (f s) (f t)

  pub cmp_field_trans :
      (s t u : T)
      → cmp_field s t ≡ Ordering.lt
      → cmp_field t u ≡ Ordering.lt
      → cmp_field s u ≡ Ordering.lt
  cmp_field_trans s t u = oa.cmp_trans (f s) (f t) (f u)

  abbrev pub ord_field : Ord T
  ord_field = record {
    cmp = cmp_field;
    cmp_eq = cmp_field_eq;
    cmp_flip = cmp_field-flip;
    cmp_trans = cmp_field_trans;
  }

-- A record of two fields, read by `f` and `g`.
module _ {T A B : Type 0} ⦃oa : Ord A⦄ ⦃ob : Ord B⦄ (f : T → A) (g : T → B) where
  abbrev cmp_fields : T → T → Ordering
  cmp_fields s t = then (oa.cmp (f s) (f t)) (ob.cmp (g s) (g t))

  module _ (inj : (s t : T) → f s ≡ f t → g s ≡ g t → s ≡ t) where
    pub cmp_fields_eq : (s t : T) → (cmp_fields s t ≡ Ordering.eq) ↔ (s ≡ t)
    cmp_fields_eq s t = (
      λ h.
          inj s t ((oa.cmp_eq (f s) (f t)).0 (ground arith))
            ((ob.cmp_eq (g s) (g t)).0 (ground arith)),
      λ e. rw e (rw ((oa.cmp_eq (f t) (f t)).1 refl) ((ob.cmp_eq (g t) (g t)).1 refl)),
    )

    pub cmp_fields-flip : (s t : T) → cmp_fields t s ≡ flip (cmp_fields s t)
    cmp_fields-flip s t = ground (arith, oa.cmp_flip (f s) (f t), ob.cmp_flip (g s) (g t))

    pub cmp_fields_trans :
        (s t u : T)
        → cmp_fields s t ≡ Ordering.lt
        → cmp_fields t u ≡ Ordering.lt
        → cmp_fields s u ≡ Ordering.lt
    cmp_fields_trans s t u h k = ground (
      arith,
      oa.cmp_eq (f s) (f t),
      oa.cmp_eq (f t) (f u),
      oa.cmp_trans (f s) (f t) (f u),
      ob.cmp_trans (g s) (g t) (g u),
    )

    abbrev pub ord_fields : Ord T
    ord_fields = record {
      cmp = cmp_fields;
      cmp_eq = cmp_fields_eq;
      cmp_flip = cmp_fields-flip;
      cmp_trans = cmp_fields_trans;
    }

-- A type with a total order has its equality.
module _ {A : Type 0} (o : Ord A) where
  abbrev beq_ord : A → A → Bool
  beq_ord a b = elim (o.cmp a b) [ Ordering.eq ↦ true | _ ↦ false ]

  pub beq_ord_iff : (a b : A) → (beq_ord a b ≡ true) ↔ (a ≡ b)
  beq_ord_iff a b = ground (arith, o.cmp_eq a b)

  abbrev pub eq_of_ord : Eq A
  eq_of_ord = record { beq = beq_ord; beq_iff = beq_ord_iff }
