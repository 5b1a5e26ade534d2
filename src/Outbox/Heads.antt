-- ===== src/Outbox/Heads.antt =====
-- A shard whose rows are all due has a head that SelectHeads finds.
use cordis.Common.{
  ℕ, suc, ◌+◌, ◌≤◌, ◌<◌, ◌≡◌, ◌⊎◌, inl, inr, refl, ap, ◌∙◌, Bool, true, false, not, ◌&&◌, ◌||◌,
  ◌==◌, string_eq, nat_eq, List, [], ◌∷◌, arith, Bool-cases, leb, leb→le, le→leb, length, take,
  count_if, bit_of, if◌then◌else◌,
}
use cordis.Outbox.{Record}
use cordis.Outbox.Relay.{
  is_head, due_heads, comes_before, insert_ordered, order_by_age, select_heads,
}
use cordis.Outbox.Tags.{All}

same_shard : (x : Bool) (m n s : ℕ) → (x && m == n) ≡ true → (n == s) ≡ true → (m == s) ≡ true
same_shard true m n s c o = ground (arith, c, o)
same_shard false m n s c o = cc

due_now : (a b c : Bool) → ((not a || b) && c) ≡ true → a ≡ true → b ≡ true
due_now true true c d o = refl
due_now true false c d o = d
due_now false b c d o = cc

pub due_rest : (a c : Bool) → (a && c) ≡ true → c ≡ true
due_rest true c d = d
due_rest false c d = cc

pub first_true : (a b c : Bool) → (a && (b && c)) ≡ true → a ≡ true
first_true true b c d = refl
first_true false b c d = d

if_longer :
    (b : Bool) (r : Record) (rs : List Record)
    → 0 < length rs
    → 0 < length (if b then r ∷ rs else rs)
if_longer true r rs l = omega (arith, l)
if_longer false r rs l = l

module _ (shard now : ℕ) where
  abbrev pub is_of_shard : Record → Bool
  is_of_shard r = r.relay_shard_id == shard

  -- How many rows of the shard there are, and whether they are all due.
  abbrev pub rows_left : List Record → ℕ
  rows_left events = count_if is_of_shard events

  abbrev pub are_due : List Record → Bool
  are_due [] = true
  are_due (r ∷ rs) = (not (is_of_shard r) || leb r.next_attempt_at now) && are_due rs

  abbrev Least : Record → List Record → Type 0
  Least r rs = All (λ q. is_of_shard q ≡ true → r.stream_sequence ≤ q.stream_sequence) rs

  minimal_is_head :
      (r : Record) (rs : List Record) → is_of_shard r ≡ true → Least r rs → is_head r rs ≡ true
  minimal_is_head r [] o l = refl
  minimal_is_head r (q ∷ qs) o l =
      elim (Bool-cases (q.stream_key == r.stream_key && q.relay_shard_id == r.relay_shard_id)) [
        | inl c ↦
            let j =
              same_shard (q.stream_key == r.stream_key) q.relay_shard_id r.relay_shard_id shard c
                o in
            rw c (
              rw (le→leb r.stream_sequence q.stream_sequence ((l.0) j))
                (minimal_is_head r qs o (l.1)))
        | inr c ↦ rw c (minimal_is_head r qs o (l.1))
      ]

  -- A row of the shard that no other row of the shard precedes.
  data Front (events : List Record) : List Record → Type 0 where
    here :
        (r : Record) (rs : List Record)
        → is_of_shard r ≡ true
        → Least r events
        → Front events (r ∷ rs)
    later : (r : Record) (rs : List Record) → Front events rs → Front events (r ∷ rs)

  due_heads-front :
      (events rs : List Record)
      → are_due rs ≡ true
      → Front events rs
      → 0 < length (due_heads events shard now rs)
  due_heads-front events rs d (here r qs o l) =
      let h = minimal_is_head r events o l in
      let e = due_now (is_of_shard r) (leb r.next_attempt_at now) (are_due qs) d o in
      rw o (rw h (rw e (omega arith)))
  due_heads-front events rs d (later r qs f) =
      if_longer (is_of_shard r && (is_head r events && leb r.next_attempt_at now)) r
        (due_heads events shard now qs)
        (due_heads-front events qs
          (due_rest (not (is_of_shard r) || leb r.next_attempt_at now) (are_due qs) d) f)

  record Lowest (rs : List Record) : Type 0 where
    row : Record
    on_shard : is_of_shard row ≡ true
    least : Least row rs
    front : (events : List Record) → Least row events → Front events rs

  none_Least : (r : Record) (rs : List Record) → rows_left rs ≡ 0 → Least r rs
  none_Least r [] e = tt
  none_Least r (q ∷ qs) e = (
    λ o. absurd (some_left (is_of_shard q) (rows_left qs) o e),
    none_Least r qs (omega (arith, e)),
  )
    where
      some_left : (b : Bool) (n : ℕ) → b ≡ true → bit_of b + n ≡ 0 → ⊥
      some_left true n o e = omega (arith, e)
      some_left false n o e = cc

  below_Least :
      (r q : Record) (rs : List Record)
      → r.stream_sequence ≤ q.stream_sequence
      → Least q rs
      → Least r rs
  below_Least r q [] l h = tt
  below_Least r q (p ∷ ps) l h = (λ o. omega (arith, l, (h.0) o), below_Least r q ps l (h.1))

  lower :
      (r : Record) (rs : List Record)
      → is_of_shard r ≡ true
      → (rows_left rs ≡ 0) ⊎ Lowest rs
      → Lowest (r ∷ rs)
  lower r rs o (inl e) = record {
    row = r;
    on_shard = o;
    least = (λ i. omega arith, none_Least r rs e);
    front = λ events l. here r rs o l;
  }
  lower r rs o (inr w) = elim (Bool-cases (leb r.stream_sequence ((w.row).stream_sequence))) [
    | inl c ↦ record {
      row = r;
      on_shard = o;
      least = (
        λ i. omega arith,
        below_Least r w.row rs (leb→le r.stream_sequence ((w.row).stream_sequence) c) w.least,
      );
      front = λ events l. here r rs o l;
    }
    | inr c ↦ record {
      row = w.row;
      on_shard = w.on_shard;
      least = (λ i. ground (arith, c), w.least);
      front = λ events l. later r rs (w.front events l);
    }
  ]

  lowest : (rs : List Record) → (rows_left rs ≡ 0) ⊎ Lowest rs
  lowest [] = inl refl
  lowest (r ∷ rs) = elim (Bool-cases (is_of_shard r)) [
    | inl c ↦ inr (lower r rs c (lowest rs))
    | inr c ↦ elim (lowest rs) [
      | inl e ↦ inl (rw c (omega (arith, e)))
      | inr w ↦ inr (record {
        row = w.row;
        on_shard = w.on_shard;
        least = (λ o. cc, w.least);
        front = λ events l. later r rs (w.front events l);
      })
    ]
  ]

  length-insert_ordered :
      (r : Record) (rs : List Record) → length (insert_ordered r rs) ≡ suc (length rs)
  length-insert_ordered r [] = refl
  length-insert_ordered r (q ∷ qs) = elim (Bool-cases (comes_before r q)) [
    | inl c ↦ rw c refl
    | inr c ↦ rw c (ap suc (length-insert_ordered r qs))
  ]

  length-order_by_age : (rs : List Record) → length (order_by_age rs) ≡ length rs
  length-order_by_age [] = refl
  length-order_by_age (r ∷ rs) =
      length-insert_ordered r (order_by_age rs) ∙ ap suc (length-order_by_age rs)

  length-take_pos : (n : ℕ) (rs : List Record) → 0 < length rs → 0 < length (take (suc n) rs)
  length-take_pos n [] l = l
  length-take_pos n (r ∷ rs) l = omega arith

  -- A shard with rows, all due, has a head to publish.
  pub select_heads_finds :
      (n : ℕ) (events : List Record)
      → are_due events ≡ true
      → (rows_left events ≡ 0) ⊎ (0 < length (select_heads shard now (suc n) events))
  unfolding select_heads
  select_heads_finds n events d = elim (lowest events) [
    | inl e ↦ inl e
    | inr w ↦
        let f : 0 < length (due_heads events shard now events) =
          due_heads-front events events d (w.front events w.least) in
        inr (
          length-take_pos n (order_by_age (due_heads events shard now events))
            (omega (arith, f, length-order_by_age (due_heads events shard now events))))
  ]
