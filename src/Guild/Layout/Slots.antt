-- ===== src/Guild/Layout/Slots.antt =====
-- The slots of channel_layout.go: every channel gets one.
use cordis.Common.{
  ℕ, zero, suc, ◌+◌, ◌≡◌, refl, sym, ap, subst, ◌∙◌, Bool, true, false, not, ◌||◌, ◌==◌, Option,
  none, some, inl, inr, List, [], ◌∷◌, ◌++◌, arith, length, get_elem?, set, Bool-cases,
}
use cordis.Common.Int.{ℤ, int_eq, int_beq_iff}
use cordis.Common.Assoc.{lookup, Keyed, no_keys, new_key}
use mathlib.Core.List.{Permᴰ}
use mathlib.Core.List.Permᴰ
use cordis.Guild.Layout.{Channel, select, by_id, no_slots, fill}
use cordis.Guild.Layout.Numbering.{same_sym}

-- An id that is not in a list is not in its head, nor in its tail.
absent_apart :
    (k : ℤ) (c : Channel) (cs : List Channel)
    → lookup (by_id (c ∷ cs)) k ≡ none
    → (k == c.id) ≡ false
absent_apart k c cs h = elim (Bool-cases (k == c.id)) [
  | inl e ↦ let q : some c ≡ none = sym (rw e refl) ∙ h in cc
  | inr e ↦ e
]

absent_tail :
    (k : ℤ) (c : Channel) (cs : List Channel)
    → lookup (by_id (c ∷ cs)) k ≡ none
    → lookup (by_id cs) k ≡ none
absent_tail k c cs h = sym (rw (absent_apart k c cs h) refl) ∙ h

absent_cons :
    (k : ℤ) (c : Channel) (cs : List Channel)
    → (k == c.id) ≡ false
    → lookup (by_id cs) k ≡ none
    → lookup (by_id (c ∷ cs)) k ≡ none
absent_cons k c cs e h = rw e h

-- The ids of a list do not depend on its order.
absent-Permᴰ :
    {xs ys : List Channel} (k : ℤ)
    → Permᴰ xs ys
    → lookup (by_id xs) k ≡ none
    → lookup (by_id ys) k ≡ none
absent-Permᴰ k Permᴰ.nil h = h
absent-Permᴰ k (Permᴰ.cons {a = a} {b = b} {l₁ = xs} {l₂ = ys} e d) h =
    absent_cons k b ys (subst (λ t. (k == t.id) ≡ false) e (absent_apart k a xs h))
      (absent-Permᴰ k d (absent_tail k a xs h))
absent-Permᴰ k (Permᴰ.swap {a = a} {b = b} {a' = c} {b' = d} {l = l} e f) h =
    let t = absent_tail k a (b ∷ l) h in
    absent_cons k c (d ∷ l) (subst (λ t. (k == t.id) ≡ false) f (absent_apart k b l t)) (
      absent_cons k d l (subst (λ t. (k == t.id) ≡ false) e (absent_apart k a (b ∷ l) h))
        (absent_tail k b l t))
absent-Permᴰ k (Permᴰ.trans d e) h = absent-Permᴰ k e (absent-Permᴰ k d h)

swap-Keyed :
    (a b : Channel) (l : List Channel) → Keyed (by_id (a ∷ b ∷ l)) → Keyed (by_id (b ∷ a ∷ l))
swap-Keyed a b l (new_key g (new_key h v)) =
    new_key (absent_cons b.id a l (same_sym b.id a.id ∙ absent_apart a.id b l g) h)
      (new_key (absent_tail a.id b l g) v)

pub Keyed-Permᴰ : {xs ys : List Channel} → Permᴰ xs ys → Keyed (by_id xs) → Keyed (by_id ys)
Keyed-Permᴰ Permᴰ.nil v = v
Keyed-Permᴰ (Permᴰ.cons {a = a} {b = b} {l₁ = xs} {l₂ = ys} e d) (new_key f v) =
    new_key (subst (λ t. lookup (by_id ys) t.id ≡ none) e (absent-Permᴰ a.id d f)) (Keyed-Permᴰ d v)
Keyed-Permᴰ (Permᴰ.swap {a = a} {b = b} {a' = c} {b' = d} {l = l} e f) v =
    subst (λ x. Keyed (by_id (x ∷ d ∷ l))) f
      (subst (λ x. Keyed (by_id (b ∷ x ∷ l))) e (swap-Keyed a b l v))
Keyed-Permᴰ (Permᴰ.trans d e) v = Keyed-Permᴰ e (Keyed-Permᴰ d v)

pub length-Permᴰ : {xs ys : List Channel} → Permᴰ xs ys → length xs ≡ length ys
length-Permᴰ Permᴰ.nil = refl
length-Permᴰ (Permᴰ.cons e d) = ap suc (length-Permᴰ d)
length-Permᴰ (Permᴰ.swap e f) = refl
length-Permᴰ (Permᴰ.trans d e) = length-Permᴰ d ∙ length-Permᴰ e

-- What does not satisfy a test follows what does.
pub split-Permᴰ :
    (p : Channel → Bool) (xs : List Channel) → Permᴰ (select p xs ++ select (λ c. not (p c)) xs) xs
split-Permᴰ p [] = Permᴰ.nil
split-Permᴰ p (x ∷ xs) = elim (Bool-cases (p x)) [
  | inl e ↦ rw e (Permᴰ.cons refl (split-Permᴰ p xs))
  | inr e ↦ rw e (
      Permᴰ.trans (Permᴰ.middle x (select p xs) (select (λ c. not (p c)) xs))
        (Permᴰ.cons refl (split-Permᴰ p xs)))
]

-- The channels in the slots, and the free slots.
abbrev pub filled : List (Option Channel) → List Channel
filled [] = []
filled (none ∷ slots) = filled slots
filled (some c ∷ slots) = c ∷ filled slots

abbrev pub holes : List (Option Channel) → ℕ
holes [] = 0
holes (none ∷ slots) = suc (holes slots)
holes (some c ∷ slots) = holes slots

pub length-filled :
    (slots : List (Option Channel)) → length (filled slots) + holes slots ≡ length slots
length-filled [] = refl
length-filled (none ∷ slots) = omega (arith, length-filled slots)
length-filled (some c ∷ slots) = omega (arith, length-filled slots)

pub filled-set :
    (slots : List (Option Channel)) (i : ℕ) (c : Channel)
    → get_elem? slots i ≡ some none
    → Permᴰ (filled (set slots i (some c))) (c ∷ filled slots)
filled-set [] i c h = cc
filled-set (none ∷ slots) zero c h = Permᴰ.refl (c ∷ filled slots)
filled-set (some o ∷ slots) zero c h = cc
filled-set (none ∷ slots) (suc i) c h = filled-set slots i c h
filled-set (some o ∷ slots) (suc i) c h =
    Permᴰ.trans (Permᴰ.cons refl (filled-set slots i c h)) (Permᴰ.swap refl refl)

pub length-set :
    (slots : List (Option Channel)) (i : ℕ) (o : Option Channel)
    → length (set slots i o) ≡ length slots
length-set [] i o = refl
length-set (s ∷ slots) zero o = refl
length-set (s ∷ slots) (suc i) o = ap suc (length-set slots i o)

-- As many channels as free slots fill all.
pub fill-Permᴰ :
    (slots : List (Option Channel)) (cs : List Channel)
    → length cs ≡ holes slots
    → (ordered : List Channel) × (fill slots cs ≡ some ordered) × Permᴰ ordered (filled slots ++ cs)
unfolding fill
fill-Permᴰ [] [] h = ([], refl, Permᴰ.nil)
fill-Permᴰ [] (c ∷ cs) h = ground (arith, h)
fill-Permᴰ (none ∷ slots) [] h = ground (arith, h)
fill-Permᴰ (none ∷ slots) (c ∷ cs) h =
    let (ordered, e, d) = fill-Permᴰ slots cs (omega (arith, h)) in
    (
      c ∷ ordered,
      rw e refl,
      Permᴰ.trans (Permᴰ.cons refl d) (Permᴰ.symm (Permᴰ.middle c (filled slots) cs)),
    )
fill-Permᴰ (some c ∷ slots) cs h =
    let (ordered, e, d) = fill-Permᴰ slots cs h in (c ∷ ordered, rw e refl, Permᴰ.cons refl d)

pub filled-no_slots : (channels : List Channel) → filled (no_slots channels) ≡ []
filled-no_slots [] = refl
filled-no_slots (c ∷ cs) = filled-no_slots cs

-- The channels that a test of ids leaves out.
abbrev pub others : (ℤ → Bool) → List Channel → List Channel
others q channels = select (λ c. not (q c.id)) channels

pub others_none : (cs : List Channel) → others (λ j. false) cs ≡ cs
others_none [] = refl
others_none (c ∷ cs) = ap (λ l. c ∷ l) (others_none cs)

others_absent :
    (q : ℤ → Bool) (x : ℤ) (cs : List Channel)
    → lookup (by_id cs) x ≡ none
    → others (λ i. q i || i == x) cs ≡ others q cs
others_absent q x [] h = refl
others_absent q x (c ∷ cs) h =
    let e : (c.id == x) ≡ false = same_sym c.id x ∙ absent_apart x c cs h in
    let v = others_absent q x cs (absent_tail x c cs h) in
    elim (Bool-cases (q c.id)) [ inl t ↦ rw t v | inr t ↦ rw t (rw e (ap (λ l. c ∷ l) v)) ]

-- One more id leaves out one more channel.
pub others_one :
    (q : ℤ → Bool) (x : ℤ) (c : Channel) (cs : List Channel)
    → Keyed (by_id cs)
    → q x ≡ false
    → lookup (by_id cs) x ≡ some c
    → Permᴰ (others q cs) (c ∷ others (λ i. q i || i == x) cs)
others_one q x c [] no_keys n h = cc
others_one q x c (d ∷ cs) (new_key f v) n h = elim (Bool-cases (x == d.id)) [
  | inl e ↦
      let w : x ≡ d.id = (int_beq_iff x d.id).0 e in
      let taken : q d.id ≡ false = subst (λ t. q t ≡ false) w n in
      let own : (d.id == x) ≡ true = same_sym d.id x ∙ e in
      let same : some d ≡ some c = sym (rw e refl) ∙ h in
      let gone : others (λ i. q i || i == x) cs ≡ others q cs =
        others_absent q x cs (subst (λ t. lookup (by_id cs) t ≡ none) (sym w) f) in
      let head : d ≡ c = cc in
      rw taken (
        rw own (
          Permᴰ.cons head
            (subst (λ l. Permᴰ (others q cs) l) (sym gone) (Permᴰ.refl (others q cs)))))
  | inr e ↦
      let other : (d.id == x) ≡ false = same_sym d.id x ∙ e in
      let ih = others_one q x c cs v n (sym (rw e refl) ∙ h) in
      elim (Bool-cases (q d.id)) [
        | inl t ↦ rw t ih
        | inr t ↦ rw t (rw other (Permᴰ.trans (Permᴰ.cons refl ih) (Permᴰ.swap refl refl)))
      ]
]
