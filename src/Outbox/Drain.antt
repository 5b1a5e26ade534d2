-- ===== src/Outbox/Drain.antt =====
-- A relay that meets no failure drains its shard: the loop of processShard ends with no row left.
use cordis.Common.{
  ℕ, zero, suc, ◌≤◌, ◌<◌, ◌≡◌, ◌⊎◌, inl, inr, refl, sym, ap, subst, ◌∙◌, Bool, true, false, not,
  ◌&&◌, ◌||◌, ◌==◌, nat_eq, List, [], ◌∷◌, arith, Bool-cases, leb, length, if◌then◌else◌,
}
use cordis.Outbox.{Record, has_id}
use cordis.Outbox.Relay.{
  World, Turn, PublishResult, published, is_head, due_heads, order_by_age, select_heads,
  delete_delivered, delivered_ids, failed_updates, update_failed, publish_heads, process_shard,
}
use cordis.Outbox.Tags.{All}
use cordis.Outbox.Streams.{take-All, order_by_age-All}
use cordis.Outbox.Heads.{is_of_shard, rows_left, are_due, first_true, due_rest, select_heads_finds}

-- Kafka takes every record of a batch.
abbrev pub all_published : ℕ → List PublishResult
all_published zero = []
all_published (suc n) = published ∷ all_published n

abbrev pub smooth_turn : ℕ → ℕ → Turn
smooth_turn now batch_size = record {
  selected_at = now;
  published_at = now;
  results = all_published batch_size;
  is_committed = true;
}

abbrev pub smooth_turns : ℕ → ℕ → ℕ → List Turn
smooth_turns now batch_size zero = []
smooth_turns now batch_size (suc n) = smooth_turn now batch_size ∷ smooth_turns now batch_size n

no_updates : (now n : ℕ) (heads : List Record) → failed_updates now heads (all_published n) ≡ []
unfolding failed_updates
no_updates now n [] = refl
no_updates now zero (h ∷ hs) = refl
no_updates now (suc n) (h ∷ hs) = no_updates now n hs

no_update : (events : List Record) → update_failed [] events ≡ events
unfolding update_failed
no_update [] = refl
no_update (r ∷ rs) = ap (λ l. r ∷ l) (no_update rs)

still_due : (a b c : Bool) → (a && b) ≡ true → (b ≡ true → c ≡ true) → (a && c) ≡ true
still_due true b c d f = f d
still_due false b c d f = d

not_empty : (n : ℕ) → (n == 0) ≡ true → 0 < n → ⊥
not_empty n c f = ground (arith, c, f)

own_id : (n : ℕ) (ns : List ℕ) → has_id n (n ∷ ns) ≡ true
own_id n ns = let e : (n == n) ≡ true = ground arith in rw e refl

if_cases :
    {A : Type 0} (P : A → Type 0) (b : Bool) (x y : A)
    → (b ≡ true → P x)
    → (b ≡ false → P y)
    → P (if b then x else y)
if_cases P true x y f g = f refl
if_cases P false x y f g = g refl

module _ (shard now : ℕ) where
  -- A row of the shard is among those with these ids.
  abbrev Doomed : List ℕ → List Record → Type 0
  Doomed delivered [] = ⊥
  Doomed delivered (r ∷ rs) =
      ((is_of_shard shard now r ≡ true) × (has_id r.outbox_id delivered ≡ true))
      ⊎ Doomed delivered rs

  -- A record of the shard that is among the rows.
  abbrev Kin : List Record → Record → Type 0
  Kin events b =
      (delivered : List ℕ) → has_id b.outbox_id delivered ≡ true → Doomed delivered events

  due_heads-Kin :
      (events rs : List Record)
      → ((delivered : List ℕ) → Doomed delivered rs → Doomed delivered events)
      → All (Kin events) (due_heads events shard now rs)
  due_heads-Kin events [] m = tt
  due_heads-Kin events (r ∷ rs) m =
      let rest = due_heads-Kin events rs (λ delivered i. m delivered (inr i)) in
      elim (Bool-cases
        (is_of_shard shard now r && (is_head r events && leb r.next_attempt_at now))) [
          | inl c ↦
              let o =
                first_true (is_of_shard shard now r) (is_head r events) (leb r.next_attempt_at now)
                  c in
              rw c ((λ delivered h. m delivered (inl (o, h))), rest)
          | inr c ↦ rw c rest
        ]

  select_heads-Kin :
      (limit : ℕ) (events : List Record) → All (Kin events) (select_heads shard now limit events)
  unfolding select_heads
  select_heads-Kin limit events =
      take-All (Kin events) limit (order_by_age (due_heads events shard now events)) (
        order_by_age-All (Kin events) (due_heads events shard now events)
          (due_heads-Kin events events (λ delivered i. i)))

  delete_le :
      (delivered : List ℕ) (rs : List Record)
      → rows_left shard now (delete_delivered delivered rs) ≤ rows_left shard now rs
  unfolding delete_delivered
  delete_le delivered [] = omega arith
  delete_le delivered (r ∷ rs) = elim (Bool-cases (has_id r.outbox_id delivered)) [
    | inl c ↦ rw c (omega (arith, delete_le delivered rs))
    | inr c ↦ rw c (omega (arith, delete_le delivered rs))
  ]

  delete_lt :
      (delivered : List ℕ) (rs : List Record)
      → Doomed delivered rs
      → rows_left shard now (delete_delivered delivered rs) < rows_left shard now rs
  unfolding delete_delivered
  delete_lt delivered [] d = absurd d
  delete_lt delivered (r ∷ rs) (inl (o, h)) = rw h (rw o (omega (arith, delete_le delivered rs)))
  delete_lt delivered (r ∷ rs) (inr d) = elim (Bool-cases (has_id r.outbox_id delivered)) [
    | inl c ↦ rw c (omega (arith, delete_lt delivered rs d))
    | inr c ↦ rw c (omega (arith, delete_lt delivered rs d))
  ]

  delete_due :
      (delivered : List ℕ) (rs : List Record)
      → are_due shard now rs ≡ true
      → are_due shard now (delete_delivered delivered rs) ≡ true
  unfolding delete_delivered
  delete_due delivered [] d = refl
  delete_due delivered (r ∷ rs) d = elim (Bool-cases (has_id r.outbox_id delivered)) [
    | inl c ↦ rw c (
        delete_due delivered rs (
          due_rest (not (is_of_shard shard now r) || leb r.next_attempt_at now)
            (are_due shard now rs) d))
    | inr c ↦ rw c (
        still_due (not (is_of_shard shard now r) || leb r.next_attempt_at now)
          (are_due shard now rs) (are_due shard now (delete_delivered delivered rs)) d
          (delete_due delivered rs))
  ]

  first_goes :
      (n : ℕ) (events heads : List Record)
      → All (Kin events) heads
      → 0 < length heads
      → Doomed (delivered_ids heads (all_published (suc n))) events
  unfolding delivered_ids
  first_goes n events [] k l = absurd (omega (arith, l))
  first_goes n events (h ∷ hs) k l =
      (k.0) (h.outbox_id ∷ delivered_ids hs (all_published n))
        (own_id h.outbox_id (delivered_ids hs (all_published n)))

  -- A relay whose publications and commits succeed, in as many turns as there are rows of its shard, all
  -- of them due, leaves none.
  pub relay_drains :
      (turns n : ℕ) (w : World)
      → are_due shard now (w.tables.events) ≡ true
      → rows_left shard now (w.tables.events) ≤ turns
      → rows_left shard now
          ((process_shard shard (suc n) (smooth_turns now (suc n) turns) w).tables.events)
        ≡ 0
  unfolding process_shard publish_heads
  relay_drains zero n w d l = omega (arith, l)
  relay_drains (suc turns) n w d l =
      let events = w.tables.events in
      let heads = select_heads shard now (suc n) events in
      let delivered = delivered_ids heads (all_published (suc n)) in
      let rows = delete_delivered delivered events in
      let after = publish_heads (smooth_turn now (suc n)) heads w in
      let e : after.tables.events ≡ rows =
        ap (λ us. update_failed us rows) (no_updates now (suc n) heads) ∙ no_update rows in
      let rest : rows_left shard now rows ≤ turns
          → rows_left shard now
              ((process_shard shard (suc n) (smooth_turns now (suc n) turns) after).tables.events)
            ≡ 0 =
        λ m.
          relay_drains turns n after
            (subst (λ rs. are_due shard now rs ≡ true) (sym e) (delete_due delivered events d))
            (subst (λ rs. rows_left shard now rs ≤ turns) (sym e) m) in
      let P : World → Type 0 = λ v. rows_left shard now (v.tables.events) ≡ 0 in
      let next = process_shard shard (suc n) (smooth_turns now (suc n) turns) after in
      elim (select_heads_finds shard now n events d) [
        | inl z ↦
            if_cases P (length heads == 0) w next (λ c. z)
              (λ c. rest (omega (arith, z, delete_le delivered events)))
        | inr f ↦
            let less =
              delete_lt delivered events
                (first_goes n events heads (select_heads-Kin (suc n) events) f) in
            if_cases P (length heads == 0) w next (λ c. absurd (not_empty (length heads) c f))
              (λ c. rest (omega (arith, less, l)))
      ]
