-- ===== src/Guild/Layout/Placement.antt =====
-- The placements of channel_layout.go: the requested channels in their slots, the others in the free ones.
use cordis.Common.{
  ℕ, ◌≡◌, ◌≢◌, ◌⊎◌, refl, sym, ap, subst, ◌∙◌, fun_ext, Bool, true, false, ◌||◌, ◌==◌, Option, none,
  some, inl, inr, List, [], ◌∷◌, ◌++◌, arith, length, length-append, length-map, get_elem?, set,
  Bool-cases, Option-cases,
}
use cordis.Common.Int.{ℤ, int_eq, int_beq_iff}
use cordis.Common.Assoc.{lookup, Keyed, new_key}
use cordis.Common.Action.{Result, ok, err}
use mathlib.Core.List.{Permᴰ}
use mathlib.Core.List.Permᴰ
use cordis.Guild.Layout.{
  Channel, LayoutError, out_of_range, channel_not_found, positions_conflict, panicked, by_id,
  is_present, is_requested, no_slots, place, fill, order_channels,
}
use cordis.Guild.Layout.Slots.{
  length-Permᴰ, filled, holes, length-filled, filled-set, length-set, fill-Permᴰ, filled-no_slots,
  others, others_one, others_none,
}

Result-cases : {E A : Type 0} (r : Result E A) → ((a : A) × (r ≡ ok a)) ⊎ ((e : E) × (r ≡ err e))
Result-cases (ok a) = inl (a, refl)
Result-cases (err e) = inr (e, refl)

or_false : (b : Bool) → b ≡ (b || false)
or_false true = refl
or_false false = refl

module _ (channels : List Channel) (v : Keyed (by_id channels)) where
  -- The channels of the slots, and those that are not requested so far, are all channels.
  record Placed (q : ℤ → Bool) (slots : List (Option Channel)) : Type 0 where
    all_there : Permᴰ (filled slots ++ others q channels) channels
    all_slots : length slots ≡ length channels

  set-Placed :
      (q : ℤ → Bool) (slots : List (Option Channel)) (x : ℤ) (i : ℕ) (c : Channel)
      → Placed q slots
      → q x ≡ false
      → lookup (by_id channels) x ≡ some c
      → get_elem? slots i ≡ some none
      → Placed (λ j. q j || j == x) (set slots i (some c))
  set-Placed q slots x i c w n h g = record {
    all_there =
        Permᴰ.trans
          (Permᴰ.append_right (others (λ j. q j || j == x) channels) (filled-set slots i c g))
          (Permᴰ.trans
            (Permᴰ.symm (Permᴰ.middle c (filled slots) (others (λ j. q j || j == x) channels)))
            (Permᴰ.trans
              (Permᴰ.append_left (filled slots) (Permᴰ.symm (others_one q x c channels v n h)))
              w.all_there));
    all_slots = length-set slots i (some c) ∙ w.all_slots;
  }

  -- The ids of a list of requests that a test does not hold of yet.
  abbrev Fresh : (ℤ → Bool) → List (ℤ × ℕ) → Type 0
  Fresh q rest = (x : ℤ) → is_requested rest x ≡ true → q x ≡ false

  requested_head :
      (x : ℤ) (p : ℕ) (rest : List (ℤ × ℕ)) (j : ℤ)
      → (j == x) ≡ true
      → is_requested ((x, p) ∷ rest) j ≡ true
  requested_head x p rest j e = rw e refl

  requested_tail :
      (x : ℤ) (p : ℕ) (rest : List (ℤ × ℕ)) (j : ℤ)
      → (j == x) ≡ false
      → is_requested ((x, p) ∷ rest) j ≡ is_requested rest j
  requested_tail x p rest j e = rw e refl

  requested_or :
      (q : ℤ → Bool) (x : ℤ) (p : ℕ) (rest : List (ℤ × ℕ)) (j : ℤ)
      → (q j || j == x) || is_requested rest j ≡ q j || is_requested ((x, p) ∷ rest) j
  requested_or q x p rest j = elim (Bool-cases (q j)) [
    | inl t ↦ rw t refl
    | inr t ↦ rw t (elim (Bool-cases (j == x)) [ inl e ↦ rw e refl | inr e ↦ rw e refl ])
  ]

  Fresh-tail :
      (q : ℤ → Bool) (x : ℤ) (p : ℕ) (rest : List (ℤ × ℕ))
      → lookup rest x ≡ none
      → Fresh q ((x, p) ∷ rest)
      → Fresh (λ j. q j || j == x) rest
  Fresh-tail q x p rest n f y r = elim (Bool-cases (y == x)) [
    | inl e ↦
        let w : is_requested rest x ≡ true =
          subst (λ t. is_requested rest t ≡ true) ((int_beq_iff y x).0 e) r in
        let no : is_requested rest x ≡ false = ap is_present n in cc
    | inr e ↦ rw e (ground (arith, f y (requested_tail x p rest y e ∙ r)))
  ]

  place-Placed :
      (rest : List (ℤ × ℕ)) (q : ℤ → Bool) (slots slots' : List (Option Channel))
      → Keyed rest
      → Fresh q rest
      → Placed q slots
      → place channels rest slots ≡ ok slots'
      → Placed (λ j. q j || is_requested rest j) slots'
  unfolding place
  place-Placed [] q slots slots' k f w h =
      let same : slots ≡ slots' = cc in
      subst (λ g. Placed g slots') (fun_ext (λ j. or_false (q j))) (subst (Placed q) same w)
  place-Placed ((x, p) ∷ rest) q slots slots' (new_key n k) f w h =
      elim (Option-cases (get_elem? slots p)) [
        | inl e ↦ let no : err out_of_range ≡ ok slots' = sym (rw (e, place) refl) ∙ h in cc
        | inr (o, e) ↦ elim (Option-cases (lookup (by_id channels) x)) [
          | inl g ↦
              let no : err channel_not_found ≡ ok slots' = sym (rw (e, place) (rw g refl)) ∙ h in cc
          | inr (c, g) ↦ elim (Option-cases o) [
            | inr (d, i) ↦
                let no : err positions_conflict ≡ ok slots' =
                  sym (rw (e, place) (rw g (rw i refl))) ∙ h in
                cc
            | inl i ↦
                let next : place channels rest (set slots p (some c)) ≡ ok slots' =
                  sym (rw (e, place) (rw g (rw i refl))) ∙ h in
                subst (λ q'. Placed q' slots') (fun_ext (requested_or q x p rest))
                  (place-Placed rest (λ j. q j || j == x) (set slots p (some c)) slots' k
                    (Fresh-tail q x p rest n f)
                    (set-Placed q slots x p c w
                      (f x (requested_head x p rest x ((int_beq_iff x x).1 refl))) g
                      (e ∙ ap (λ a. some a) i))
                    next)
          ]
        ]
      ]

  no_slots-Placed : Placed (λ j. false) (no_slots channels)
  no_slots-Placed = record {
    all_there =
        subst (λ l. Permᴰ l channels)
          (sym (
            ap (λ l. l ++ others (λ j. false) channels) (filled-no_slots channels)
            ∙ others_none channels))
          (Permᴰ.refl channels);
    all_slots = length-map (λ c. none) channels;
  }

  -- The free slots are as many as the channels without a requested position.
  Placed-fill :
      (q : ℤ → Bool) (slots : List (Option Channel))
      → Placed q slots
      → (ordered : List Channel) × (fill slots (others q channels) ≡ some ordered)
        × Permᴰ ordered channels
  Placed-fill q slots w =
      let n : length (others q channels) ≡ holes slots = omega (
        arith,
        length-Permᴰ w.all_there,
        length-append (filled slots) (others q channels),
        w.all_slots,
        length-filled slots,
      ) in
      let (ordered, e, d) = fill-Permᴰ slots (others q channels) n in
      (ordered, e, Permᴰ.trans d w.all_there)

  place_error :
      (rest : List (ℤ × ℕ)) (slots : List (Option Channel))
      → place channels rest slots ≢ err panicked
  unfolding place
  place_error [] slots = λ e. cc
  place_error ((x, p) ∷ rest) slots = elim (Option-cases (get_elem? slots p)) [
    | inl e ↦ rw (e, place) (λ h. cc)
    | inr (o, e) ↦ elim (Option-cases (lookup (by_id channels) x)) [
      | inl g ↦ rw (e, place) (rw g (λ h. cc))
      | inr (c, g) ↦ elim (Option-cases o) [
        | inr (d, i) ↦ rw (e, place) (rw g (rw i (λ h. cc)))
        | inl i ↦ rw (e, place) (rw g (rw i (place_error rest (set slots p (some c)))))
      ]
    ]
  ]

  module _ (positions : List (ℤ × ℕ)) (k : Keyed positions) where
    -- The outcome of the placements: an order of all channels, or an error that is not a panic.
    pub order-cases :
        ((ordered : List Channel) × (order_channels channels positions ≡ ok ordered)
          × Permᴰ ordered channels)
        ⊎ ((e : LayoutError) × (order_channels channels positions ≡ err e) × (e ≢ panicked))
    unfolding order_channels
    order-cases = elim (Result-cases (place channels positions (no_slots channels))) [
      | inl (slots, h) ↦
          let w =
            place-Placed positions (λ j. false) (no_slots channels) slots k (λ x r. refl)
              no_slots-Placed h in
          let (ordered, e, d) = Placed-fill (is_requested positions) slots w in
          inl (ordered, rw (h, order_channels) (rw e refl), d)
      | inr (e, h) ↦ inr (
        e,
        rw (h, order_channels) refl,
        λ i. place_error positions (no_slots channels) (h ∙ ap (λ x. err x) i),
      )
    ]
