-- ===== src/Guild/Layout/Move.antt =====
-- A move of a channel into a category by channel_layout.go.
use cordis.Common.{
  ℕ, zero, suc, ◌+◌, ◌-◌, ◌≤◌, ◌≡◌, ◌⊎◌, true, ap, refl, sym, subst, ◌∙◌, false, not, ◌==◌, Option,
  none, some, inl, inr, List, [], ◌∷◌, ◌++◌, map, arith, take, drop, take-drop, leb, Bool-cases,
  Option-cases,
}
use cordis.Common.Int.{ℤ, pos, int_eq}
use cordis.Common.Assoc.{lookup, Keyed}
use cordis.Common.Action.{ok, err}
use mathlib.Core.List.{Permᴰ}
use mathlib.Core.List.Permᴰ
use cordis.Guild.Layout.{
  Channel, PositionUpdate, channel_not_found, select, by_id, is_of_family, family_end, destination,
  moved_parent, updates_from, move_updates, channel_parent_move_updates, update_row,
}
use cordis.Guild.Layout.Slots.{Keyed-Permᴰ, others, others_one, others_none}
use cordis.Guild.Layout.Numbering.{numbered, updates-number}

module _ (p : ℤ) where
  family_end_le :
      (i a d : ℕ) (cs : List Channel) → a ≤ i → family_end p i cs (some a) ≡ some d → a ≤ d
  unfolding family_end
  family_end_le i a d [] l h = let e : a ≡ d = cc in omega (arith, e)
  family_end_le i a d (c ∷ cs) l h = elim (Bool-cases (is_of_family p c)) [
    | inl e ↦
        omega (arith, l, family_end_le (i + 1) (i + 1) d cs (omega arith) (sym (rw e refl) ∙ h))
    | inr e ↦ family_end_le (i + 1) a d cs (omega (arith, l)) (sym (rw e refl) ∙ h)
  ]

  drop-nil : (n : ℕ) → drop {A = Channel} n [] ≡ []
  drop-nil zero = refl
  drop-nil (suc n) = refl

  -- Nothing of the family follows its end.
  family_end_last :
      (i d : ℕ) (cs : List Channel) (found : Option ℕ)
      → family_end p i cs found ≡ some d
      → select (is_of_family p) (drop (d - i) cs) ≡ []
  unfolding family_end
  family_end_last i d [] found h = rw (drop-nil (d - i)) refl
  family_end_last i d (c ∷ cs) found h = elim (Bool-cases (is_of_family p c)) [
    | inl e ↦
        let g : family_end p (i + 1) cs (some (i + 1)) ≡ some d = sym (rw e refl) ∙ h in
        let n : d - i ≡ suc (d - (i + 1)) =
          omega (arith, family_end_le (i + 1) (i + 1) d cs (omega arith) g) in
        rw n (family_end_last (i + 1) d cs (some (i + 1)) g)
    | inr e ↦
        let ih = family_end_last (i + 1) d cs found (sym (rw e refl) ∙ h) in
        elim (Bool-cases (leb d i)) [
          | inl b ↦
              let n : d - i ≡ zero = ground (arith, b) in
              let m : d - (i + 1) ≡ zero = ground (arith, b) in
              let none_left : select (is_of_family p) cs ≡ [] = sym (rw m refl) ∙ ih in
              rw n (rw e none_left)
          | inr b ↦ let n : d - i ≡ suc (d - (i + 1)) = ground (arith, b) in rw n ih
        ]
  ]

-- A list that ends with a channel of the category or with the category itself.
pub record EndsInFamily (p : ℤ) (cs : List Channel) : Type 0 where
  pub front : List Channel
  pub final : Channel
  pub is_split : cs ≡ front ++ final ∷ []
  pub is_final : is_of_family p final ≡ true

module _ (p : ℤ) where
  longer :
      (i d : ℕ) (c : Channel) (cs : List Channel)
      → EndsInFamily p (take (d - (i + 1)) cs)
      → EndsInFamily p (take (d - i) (c ∷ cs))
  longer i d c cs e = elim (Bool-cases (leb d (i + 1))) [
    | inl b ↦
        let n : d - (i + 1) ≡ zero = ground (arith, b) in
        absurd (
          no_end cs e.front e.final (subst (λ m. take m cs ≡ e.front ++ e.final ∷ []) n e.is_split))
    | inr b ↦
        let n : d - i ≡ suc (d - (i + 1)) = ground (arith, b) in
        rw n (record {
          front = c ∷ e.front;
          final = e.final;
          is_split = ap (λ l. c ∷ l) e.is_split;
          is_final = e.is_final;
        })
  ]
    where
      no_end : (l init : List Channel) (x : Channel) → take zero l ≡ init ++ x ∷ [] → ⊥
      no_end [] [] x h = cc
      no_end [] (y ∷ ys) x h = cc
      no_end (z ∷ zs) [] x h = cc
      no_end (z ∷ zs) (y ∷ ys) x h = cc

  -- What comes before the end of the family ends with one of the family.
  family_end_behind :
      (i d : ℕ) (cs : List Channel) (found : Option ℕ)
      → family_end p i cs found ≡ some d
      → (found ≡ some d) ⊎ EndsInFamily p (take (d - i) cs)
  unfolding family_end
  family_end_behind i d [] found h = inl h
  family_end_behind i d (c ∷ cs) found h = elim (Bool-cases (is_of_family p c)) [
    | inl e ↦
        let g : family_end p (i + 1) cs (some (i + 1)) ≡ some d = sym (rw e refl) ∙ h in
        elim (family_end_behind (i + 1) d cs (some (i + 1)) g) [
          | inl f ↦
              let j : i + 1 ≡ d = cc in
              let n : d - i ≡ suc zero = omega (arith, j) in
              inr (rw n (record { front = []; final = c; is_split = one_taken cs; is_final = e }))
          | inr w ↦ inr (longer i d c cs w)
        ]
    | inr e ↦ elim (family_end_behind (i + 1) d cs found (sym (rw e refl) ∙ h)) [
      | inl f ↦ inl f
      | inr w ↦ inr (longer i d c cs w)
    ]
  ]
    where
      one_taken : (l : List Channel) → take (suc zero) (c ∷ l) ≡ c ∷ []
      one_taken [] = refl
      one_taken (x ∷ xs) = refl

accepted_move :
    (channels : List Channel) (id parent_id : ℤ) (updates : List PositionUpdate)
    → channel_parent_move_updates channels id parent_id ≡ ok updates
    → move_updates channels id parent_id ≡ ok updates
unfolding channel_parent_move_updates
accepted_move [] id parent_id updates h = cc
accepted_move (c ∷ cs) id parent_id updates h = h

module _ (channels : List Channel) (v : Keyed (by_id channels)) (id parent_id : ℤ) where
  -- The others and the channel that moves are all channels.
  moved-Permᴰ :
      (moving : Channel) (d : ℕ)
      → lookup (by_id channels) id ≡ some moving
      → Permᴰ
          (take d (others (λ i. i == id) channels)
            ++ moving ∷ drop d (others (λ i. i == id) channels))
          channels
  moved-Permᴰ moving d h =
      let rest = others (λ i. i == id) channels in
      let back : Permᴰ (moving ∷ (take d rest ++ drop d rest)) channels = rw (take-drop d rest) (
        subst (λ l. Permᴰ (moving ∷ rest) l) (others_none channels)
          (Permᴰ.symm (others_one (λ i. false) id moving channels v refl h))) in
      Permᴰ.trans (Permᴰ.middle moving (take d rest) (drop d rest)) back

  -- Where the channels have distinct ids: the updates of a move into a category that is accepted, put
  -- into the rows, number all channels from 0 without gaps in the order of the other channels, with the
  -- one that moves right behind the last one of the category and its channels, and change the parent of that one only.
  pub move_joins_category :
      (updates : List PositionUpdate)
      → (parent_id == pos 0) ≡ false
      → channel_parent_move_updates channels id parent_id ≡ ok updates
      → (moving : Channel) × (before : List Channel) × (after : List Channel) × (lookup
            (by_id channels)
            id
          ≡ some moving)
        × Permᴰ (before ++ moving ∷ after) channels
        × (before ++ after ≡ select (λ c. not (c.id == id)) channels)
        × EndsInFamily parent_id before
        × (select (is_of_family parent_id) after ≡ [])
        × (map (update_row updates) (before ++ moving ∷ after)
            ≡ numbered (moved_parent moving.id parent_id) 0 (before ++ moving ∷ after))
  unfolding move_updates destination
  move_joins_category updates z h =
      let rest = others (λ i. i == id) channels in
      let h' = accepted_move channels id parent_id updates h in
      elim (Option-cases (lookup (by_id channels) id)) [
        | inl e ↦
            let no : err channel_not_found ≡ ok updates = sym (rw (e, move_updates) refl) ∙ h' in cc
        | inr (moving, e) ↦ elim (Option-cases (family_end parent_id 0 rest none)) [
          | inl g ↦
              let no : err channel_not_found ≡ ok updates =
                sym (rw (e, move_updates) (rw (z, destination) (rw g refl))) ∙ h' in
              cc
          | inr (d, g) ↦
              let all = take d rest ++ moving ∷ drop d rest in
              let parent_of = moved_parent moving.id parent_id in
              let given : ok (updates_from parent_of 0 all) ≡ ok updates =
                sym (rw (e, move_updates) (rw (z, destination) (rw g refl))) ∙ h' in
              let same : updates_from parent_of 0 all ≡ updates = cc in
              let perm = moved-Permᴰ moving d e in
              let zero_left : d - 0 ≡ d = omega arith in
              (
                moving,
                take d rest,
                drop d rest,
                e,
                perm,
                take-drop d rest,
                subst (λ n. EndsInFamily parent_id (take n rest)) zero_left
                    (behind d rest (family_end_behind parent_id 0 d rest none g)),
                subst (λ n. select (is_of_family parent_id) (drop n rest) ≡ []) zero_left
                    (family_end_last parent_id 0 d rest none g),
                subst (λ us. map (update_row us) all ≡ numbered parent_of 0 all) same
                    (updates-number parent_of 0 all (Keyed-Permᴰ (Permᴰ.symm perm) v)),
              )
        ]
      ]
    where
      behind :
          (d : ℕ) (rest : List Channel)
          → (none ≡ some d) ⊎ EndsInFamily parent_id (take (d - 0) rest)
          → EndsInFamily parent_id (take (d - 0) rest)
      behind d rest (inl e) = cc
      behind d rest (inr w) = w
