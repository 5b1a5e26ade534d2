-- ===== src/Guild/Layout/Numbering.antt =====
-- The updates of channel_layout.go number the channels in their order.
use cordis.Common.{
  ℕ, ◌+◌, ◌≡◌, refl, sym, ap, ◌∙◌, true, false, ◌==◌, none, some, inl, inr, List, [], ◌∷◌, map,
  arith, Bool-cases,
}
use cordis.Common.Int.{ℤ, pos, int_eq, int_beq_iff}
use cordis.Common.Assoc.{lookup, Keyed, no_keys, new_key}
use cordis.Guild.Layout.{Channel, PositionUpdate, by_id, is_in_place, updates_from, update_row}

-- The channels of an order with their places in it as positions.
abbrev pub numbered : (Channel → ℤ) → ℕ → List Channel → List Channel
numbered parent_of i [] = []
numbered parent_of i (c ∷ cs) =
    record c { position = pos i; parent_id = parent_of c } ∷ numbered parent_of (i + 1) cs

pub same_sym : (a b : ℤ) → (a == b) ≡ (b == a)
same_sym a b = ground (arith, int_beq_iff a b, int_beq_iff b a)

module _ (parent_of : Channel → ℤ) where
  -- A channel that is not in the order is left as it is.
  update_row_absent :
      (i : ℕ) (os : List Channel) (c : Channel)
      → lookup (by_id os) c.id ≡ none
      → update_row (updates_from parent_of i os) c ≡ c
  unfolding update_row updates_from
  update_row_absent i [] c h = refl
  update_row_absent i (o ∷ os) c h = elim (Bool-cases (c.id == o.id)) [
    | inl e ↦ let q : some o ≡ none = sym (rw e refl) ∙ h in cc
    | inr e ↦
        let v = update_row_absent (i + 1) os c (sym (rw e refl) ∙ h) in
        elim (Bool-cases (is_in_place parent_of i o)) [ inl p ↦ rw p v | inr p ↦ rw p (rw e v) ]
  ]

  -- An update for a channel that is not in a list changes nothing in it.
  map-update_row :
      (u : PositionUpdate) (us : List PositionUpdate) (cs : List Channel)
      → lookup (by_id cs) u.channel_id ≡ none
      → map (update_row (u ∷ us)) cs ≡ map (update_row us) cs
  unfolding update_row
  map-update_row u us [] h = refl
  map-update_row u us (c ∷ cs) h = elim (Bool-cases (u.channel_id == c.id)) [
    | inl e ↦ let q : some c ≡ none = sym (rw e refl) ∙ h in cc
    | inr e ↦
        let d : (c.id == u.channel_id) ≡ false = same_sym c.id u.channel_id ∙ e in
        rw d (ap (λ l. update_row us c ∷ l) (map-update_row u us cs (sym (rw e refl) ∙ h)))
  ]

  update_row_own :
      (u : PositionUpdate) (us : List PositionUpdate) (c : Channel)
      → c.id ≡ u.channel_id
      → update_row (u ∷ us) c ≡ record c { position = pos u.position; parent_id = u.parent_id }
  unfolding update_row
  update_row_own u us c e = rw ((int_beq_iff c.id u.channel_id).1 e) refl

  in_place :
      (i : ℕ) (c : Channel)
      → is_in_place parent_of i c ≡ true
      → c ≡ record c { position = pos i; parent_id = parent_of c }
  in_place i c h =
      let a : c.position ≡ pos i = (int_beq_iff c.position (pos i)).0 (ground (arith, h)) in
      let b : c.parent_id ≡ parent_of c =
        (int_beq_iff c.parent_id (parent_of c)).0 (ground (arith, h)) in
      ap (λ x. record c { position = x }) a
      ∙ ap (λ x. record c { position = pos i; parent_id = x }) b

  updates_kept :
      (i : ℕ) (c : Channel) (cs : List Channel)
      → is_in_place parent_of i c ≡ true
      → updates_from parent_of i (c ∷ cs) ≡ updates_from parent_of (i + 1) cs
  unfolding updates_from
  updates_kept i c cs p = rw p refl

  updates_changed :
      (i : ℕ) (c : Channel) (cs : List Channel)
      → is_in_place parent_of i c ≡ false
      → updates_from parent_of i (c ∷ cs)
        ≡ record { channel_id = c.id; position = i; parent_id = parent_of c }
          ∷ updates_from parent_of (i + 1) cs
  unfolding updates_from
  updates_changed i c cs p = rw p refl

  -- Distinct channels take the places of the order.
  pub updates-number :
      (i : ℕ) (os : List Channel)
      → Keyed (by_id os)
      → map (update_row (updates_from parent_of i os)) os ≡ numbered parent_of i os
  unfolding update_row
  updates-number i [] no_keys = refl
  updates-number i (c ∷ cs) (new_key f v) =
      let rest = updates_from parent_of (i + 1) cs in
      let ih = updates-number (i + 1) cs v in
      elim (Bool-cases (is_in_place parent_of i c)) [
        | inl p ↦
            ap (λ us. map (update_row us) (c ∷ cs)) (updates_kept i c cs p)
            ∙ ap (λ x. x ∷ map (update_row rest) cs)
                (update_row_absent (i + 1) cs c f ∙ in_place i c p)
            ∙ ap (λ l. record c { position = pos i; parent_id = parent_of c } ∷ l) ih
        | inr p ↦
            let u : PositionUpdate = record {
              channel_id = c.id;
              position = i;
              parent_id = parent_of c;
            } in
            ap (λ us. map (update_row us) (c ∷ cs)) (updates_changed i c cs p)
            ∙ ap (λ x. x ∷ map (update_row (u ∷ rest)) cs) (update_row_own u rest c refl)
            ∙ ap (λ l. record c { position = pos i; parent_id = parent_of c } ∷ l)
                (map-update_row u rest cs f ∙ ih)
      ]
