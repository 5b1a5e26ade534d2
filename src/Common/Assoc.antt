-- ===== src/Common/Assoc.antt =====
-- Go maps whose size counts: association lists, with one entry for each key.
use cordis.Common.Tests.{Comparable, ◌==◌, Bool-cases, if◌then◌else◌}
use cordis.Common.Lists.{length}
use Prim.Native.Nat.{◌≤◌, ◌<◌}
use mathlib.Core.Path.{◌≡◌, refl, sym, ap, subst, ◌∙◌}
use mathlib.Core.Logic.{inl, inr}
use mathlib.Core.Bool.{Bool, false}
use mathlib.Core.Option.{Option, none, some}
use mathlib.Core.List.{List, [], ◌∷◌}
use native.Mathlib.Omega.{arith}

abbrev pub kept {ℓ} : {A : Type ℓ} → (A → Bool) → Option A → Option A
kept p none = none
kept p (some a) = if p a then some a else none

module _ {ℓ κ} {K : Type κ} ⦃c : Comparable K⦄ {A : Type ℓ} where
  abbrev pub lookup : List (K × A) → K → Option A
  lookup [] k = none
  lookup ((j, a) ∷ m) k = if k == j then some a else lookup m k

  abbrev pub delete : List (K × A) → K → List (K × A)
  delete [] k = []
  delete ((j, a) ∷ m) k = if k == j then delete m k else (j, a) ∷ delete m k

  abbrev pub insert : List (K × A) → K → A → List (K × A)
  insert m k a = (k, a) ∷ delete m k

  -- `for k, a := range m { if !p(a) { delete(m, k) } }`
  abbrev pub keep : (A → Bool) → List (K × A) → List (K × A)
  keep p [] = []
  keep p ((j, a) ∷ m) = if p a then (j, a) ∷ keep p m else keep p m

  pub data Keyed : List (K × A) → Type (ℓ ⊔ κ) where
    no_keys : Keyed []
    new_key : {j : K} {a : A} {m : List (K × A)} → lookup m j ≡ none → Keyed m → Keyed ((j, a) ∷ m)

  pub lookup-delete_self : (m : List (K × A)) (k : K) → lookup (delete m k) k ≡ none
  lookup-delete_self [] k = refl
  lookup-delete_self ((j, a) ∷ m) k = elim (Bool-cases (k == j)) [
    | inl e ↦ rw e (lookup-delete_self m k)
    | inr e ↦ rw e (rw e (lookup-delete_self m k))
  ]

  pub lookup-delete_other :
      (m : List (K × A)) (k i : K) → (i == k) ≡ false → lookup (delete m k) i ≡ lookup m i
  lookup-delete_other [] k i n = refl
  lookup-delete_other ((j, a) ∷ m) k i n = elim (Bool-cases (k == j)) [
    | inl e ↦
        let d : (i == j) ≡ false = subst (λ t. (i == t) ≡ false) ((c.same_iff k j).0 e) n in
        rw e (rw d (lookup-delete_other m k i n))
    | inr e ↦ rw e (ap (λ t. if i == j then some a else t) (lookup-delete_other m k i n))
  ]

  -- An entry is found under every key that equals its own.
  pub lookup-insert_self : (m : List (K × A)) (k : K) (a : A) → lookup (insert m k a) k ≡ some a
  lookup-insert_self m k a = rw ((c.same_iff k k).1 refl) refl

  pub lookup-insert_other :
      (m : List (K × A)) (k i : K) (a : A) → (i == k) ≡ false → lookup (insert m k a) i ≡ lookup m i
  lookup-insert_other m k i a n = rw n (lookup-delete_other m k i n)

  pub delete-none : (m : List (K × A)) (k i : K) → lookup m i ≡ none → lookup (delete m k) i ≡ none
  delete-none m k i h = elim (Bool-cases (i == k)) [
    | inl e ↦
        subst (λ t. lookup (delete m k) t ≡ none) (sym ((c.same_iff i k).0 e))
          (lookup-delete_self m k)
    | inr e ↦ lookup-delete_other m k i e ∙ h
  ]

  pub delete-Keyed : (m : List (K × A)) (k : K) → Keyed m → Keyed (delete m k)
  delete-Keyed [] k no_keys = no_keys
  delete-Keyed ((j, a) ∷ m) k (new_key f v) = elim (Bool-cases (k == j)) [
    | inl e ↦ rw e (delete-Keyed m k v)
    | inr e ↦ rw e (new_key (delete-none m k j f) (delete-Keyed m k v))
  ]

  pub insert-Keyed : (m : List (K × A)) (k : K) (a : A) → Keyed m → Keyed (insert m k a)
  insert-Keyed m k a v = new_key (lookup-delete_self m k) (delete-Keyed m k v)

  pub keep-none :
      (p : A → Bool) (m : List (K × A)) (k : K) → lookup m k ≡ none → lookup (keep p m) k ≡ none
  keep-none p [] k h = refl
  keep-none p ((j, a) ∷ m) k h = elim (Bool-cases (k == j)) [
    | inl e ↦ let q : some a ≡ none = sym (rw e refl) ∙ h in cc
    | inr e ↦ elim (Bool-cases (p a)) [
      | inl y ↦ rw y (rw e (keep-none p m k (sym (rw e refl) ∙ h)))
      | inr y ↦ rw y (keep-none p m k (sym (rw e refl) ∙ h))
    ]
  ]

  pub keep-Keyed : (p : A → Bool) (m : List (K × A)) → Keyed m → Keyed (keep p m)
  keep-Keyed p [] no_keys = no_keys
  keep-Keyed p ((j, a) ∷ m) (new_key f v) = elim (Bool-cases (p a)) [
    | inl y ↦ rw y (new_key (keep-none p m j f) (keep-Keyed p m v))
    | inr y ↦ rw y (keep-Keyed p m v)
  ]

  pub lookup-keep :
      (p : A → Bool) (m : List (K × A)) (k : K)
      → Keyed m
      → lookup (keep p m) k ≡ kept p (lookup m k)
  lookup-keep p [] k no_keys = refl
  lookup-keep p ((j, a) ∷ m) k (new_key f v) = elim (Bool-cases (p a)) [
    | inl y ↦ elim (Bool-cases (k == j)) [
      | inl e ↦ rw y (rw e (rw y refl))
      | inr e ↦ rw y (rw e (lookup-keep p m k v))
    ]
    | inr y ↦ elim (Bool-cases (k == j)) [
      | inl e ↦ rw y (
          rw e (
            rw y (keep-none p m k (subst (λ t. lookup m t ≡ none) (sym ((c.same_iff k j).0 e)) f))))
      | inr e ↦ rw y (rw e (lookup-keep p m k v))
    ]
  ]

  pub length-delete : (m : List (K × A)) (k : K) → length (delete m k) ≤ length m
  length-delete [] k = omega arith
  length-delete ((j, a) ∷ m) k = elim (Bool-cases (k == j)) [
    | inl e ↦ rw e (omega (arith, length-delete m k))
    | inr e ↦ rw e (omega (arith, length-delete m k))
  ]

  pub length-delete_present :
      (m : List (K × A)) (k : K) (a : A) → lookup m k ≡ some a → length (delete m k) < length m
  length-delete_present [] k a h = cc
  length-delete_present ((j, b) ∷ m) k a h = elim (Bool-cases (k == j)) [
    | inl e ↦ rw e (omega (arith, length-delete m k))
    | inr e ↦ rw e (omega (arith, length-delete_present m k a (sym (rw e refl) ∙ h)))
  ]

  pub length-keep : (p : A → Bool) (m : List (K × A)) → length (keep p m) ≤ length m
  length-keep p [] = omega arith
  length-keep p ((j, a) ∷ m) = elim (Bool-cases (p a)) [
    | inl y ↦ rw y (omega (arith, length-keep p m))
    | inr y ↦ rw y (omega (arith, length-keep p m))
  ]
