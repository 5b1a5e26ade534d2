-- ===== src/Outbox/Tags.antt =====
-- What of an outbox row never changes, and the sequences of a stream in a table of rows.
use cordis.Common.{
  ℕ, suc, ◌≤◌, ◌<◌, ◌≡◌, ◌⊎◌, inl, inr, refl, sym, ap, subst, ◌∙◌, Bool, true, false, ◌==◌,
  string_eq, nat_eq, List, [], ◌∷◌, map, arith, Bool-cases, String,
}
use cordis.Outbox.{Record, has_id, FailedUpdate}
use cordis.Outbox.Relay.{is_head, delete_delivered, apply_update, update_failed}

pub record Tag : Type 0 where
  pub id : ℕ
  pub key : String
  pub shard : ℕ
  pub sequence : ℕ

abbrev pub tag : Record → Tag
tag r = record {
  id = r.outbox_id;
  key = r.stream_key;
  shard = r.relay_shard_id;
  sequence = r.stream_sequence;
}

abbrev pub tags : List Record → List Tag
tags rs = map tag rs

abbrev pub Among : Tag → List Tag → Type 0
Among t [] = ⊥
Among t (u ∷ us) = (t ≡ u) ⊎ Among t us

abbrev pub All : {A : Type 0} → (A → Type 0) → List A → Type 0
All P [] = Unit {0}
All P (x ∷ xs) = P x × All P xs

abbrev pub grow : Bool → ℕ → List ℕ → List ℕ
grow true s ss = s ∷ ss
grow false s ss = ss

-- The sequences of a stream, in the order of the rows.
abbrev pub sequences : String → List Tag → List ℕ
sequences k [] = []
sequences k (t ∷ ts) = grow (t.key == k) t.sequence (sequences k ts)

-- The numbers above the first one up to the last.
abbrev pub Run : ℕ → List ℕ → ℕ → Type 0
Run first [] last = first ≡ last
Run first (s ∷ ss) last = (s ≡ suc first) × Run (suc first) ss last

apply_update-tag : (us : List FailedUpdate) (r : Record) → tag (apply_update us r) ≡ tag r
apply_update-tag [] r = refl
apply_update-tag (u ∷ us) r = elim (Bool-cases (u.outbox_id == r.outbox_id)) [
  | inl e ↦ rw e refl
  | inr e ↦ rw e (apply_update-tag us r)
]

pub update-tags :
    (us : List FailedUpdate) (events : List Record) → tags (update_failed us events) ≡ tags events
unfolding update_failed
update-tags us [] = refl
update-tags us (r ∷ rs) =
    ap (λ t. t ∷ tags (update_failed us rs)) (apply_update-tag us r)
    ∙ ap (λ ts. tag r ∷ ts) (update-tags us rs)

pub same_key : (j k : String) → j ≡ k → (j == k) ≡ true
same_key j k e = (string_eq.same_iff j k).1 e

pub key_same : (j k : String) → (j == k) ≡ true → j ≡ k
key_same j k e = (string_eq.same_iff j k).0 e

pub Run_bound : (first last : ℕ) (ss : List ℕ) → Run first ss last → first ≤ last
Run_bound first last [] h = omega (arith, h)
Run_bound first last (s ∷ ss) h = omega (arith, Run_bound (suc first) last ss (h.1))

-- The first row is of the stream or it is not.
pub Run-cases :
    (k : String) (first last : ℕ) (u : Tag) (us : List Tag)
    → Run first (sequences k (u ∷ us)) last
    → ((u.key ≡ k) × (u.sequence ≡ suc first) × Run (suc first) (sequences k us) last)
      ⊎ (((u.key == k) ≡ false) × Run first (sequences k us) last)
Run-cases k first last u us h = elim (Bool-cases (u.key == k)) [
  | inl c ↦
      let g : Run first (grow true u.sequence (sequences k us)) last =
        subst (λ b. Run first (grow b u.sequence (sequences k us)) last) c h in
      inl (key_same u.key k c, g.0, g.1)
  | inr c ↦ inr (c, subst (λ b. Run first (grow b u.sequence (sequences k us)) last) c h)
]

other_key : (k : String) (t u : Tag) → t ≡ u → t.key ≡ k → (u.key == k) ≡ false → ⊥
other_key k t u i e c =
    let d : (u.key == k) ≡ true = same_key u.key k (ap (λ x. x.key) (sym i) ∙ e) in cc

pub above :
    (k : String) (first last : ℕ) (t : Tag) (ts : List Tag)
    → Run first (sequences k ts) last
    → Among t ts
    → t.key ≡ k
    → (first < t.sequence) × (t.sequence ≤ last)
above k first last t [] h a e = absurd a
above k first last t (u ∷ us) h (inl i) e = elim (Run-cases k first last u us h) [
  | inl (c, s, g) ↦
      let q : t.sequence ≡ suc first = ap (λ x. x.sequence) i ∙ s in
      (omega (arith, q), omega (arith, q, Run_bound (suc first) last (sequences k us) g))
  | inr (c, g) ↦ absurd (other_key k t u i e c)
]
above k first last t (u ∷ us) h (inr m) e = elim (Run-cases k first last u us h) [
  | inl (c, s, g) ↦ let (l, b) = above k (suc first) last t us g m e in (omega (arith, l), b)
  | inr (c, g) ↦ above k first last t us g m e
]

-- A stream with rows has one with the first sequence.
pub first_of :
    (k : String) (first last : ℕ) (t : Tag) (ts : List Tag)
    → Run first (sequences k ts) last
    → Among t ts
    → t.key ≡ k
    → (u : Tag) × Among u ts × (u.key ≡ k) × (u.sequence ≡ suc first)
first_of k first last t [] h a e = absurd a
first_of k first last t (u ∷ us) h a e = elim (Run-cases k first last u us h) [
  | inl (c, s, g) ↦ (u, inl refl, c, s)
  | inr (c, g) ↦ elim a [
    | inl i ↦ absurd (other_key k t u i e c)
    | inr m ↦ let (v, n, x, y) = first_of k first last t us g m e in (v, inr n, x, y)
  ]
]

pub is_head_least :
    (b : Record) (t : Tag) (events : List Record)
    → is_head b events ≡ true
    → Among t (tags events)
    → t.key ≡ b.stream_key
    → t.shard ≡ b.relay_shard_id
    → b.stream_sequence ≤ t.sequence
is_head_least b t [] h a e f = absurd a
is_head_least b t (r ∷ rs) h (inl i) e f =
    let c : (r.stream_key == b.stream_key) ≡ true =
      same_key r.stream_key b.stream_key (ap (λ x. x.key) (sym i) ∙ e) in
    let d : r.relay_shard_id ≡ b.relay_shard_id = ap (λ x. x.shard) (sym i) ∙ f in
    let s : t.sequence ≡ r.stream_sequence = ap (λ x. x.sequence) i in ground (arith, c, d, s, h)
is_head_least b t (r ∷ rs) h (inr m) e f = is_head_least b t rs (ground (arith, h)) m e f

-- Where no row above the first number is deleted, the stream stays.
kept-sequences :
    (k : String) (delivered : List ℕ) (first last : ℕ) (rs : List Record)
    → Run first (sequences k (tags rs)) last
    → ((t : Tag)
        → Among t (tags rs)
        → t.key ≡ k
        → has_id t.id delivered ≡ true
        → t.sequence ≤ first)
    → Run first (sequences k (tags (delete_delivered delivered rs))) last
unfolding delete_delivered
kept-sequences k delivered first last [] h d = h
kept-sequences k delivered first last (r ∷ rs) h d =
    elim (Run-cases k first last (tag r) (tags rs) h) [
      | inl (c, s, g) ↦
          let e : has_id r.outbox_id delivered ≡ false =
            not_deleted (has_id r.outbox_id delivered) refl c s in
          rw e (
            subst
              (λ b.
                Run first
                  (grow b r.stream_sequence (sequences k (tags (delete_delivered delivered rs))))
                  last)
              (sym (same_key r.stream_key k c))
              (
                s,
                kept-sequences k delivered (suc first) last rs g
                    (λ t m x y. omega (arith, d t (inr m) x y)),
              ))
      | inr (c, g) ↦ elim (Bool-cases (has_id r.outbox_id delivered)) [
        | inl e ↦ rw e (kept-sequences k delivered first last rs g (λ t m. d t (inr m)))
        | inr e ↦ rw e (rw c (kept-sequences k delivered first last rs g (λ t m. d t (inr m))))
      ]
    ]
  where
    not_deleted :
        (b : Bool)
        → has_id r.outbox_id delivered ≡ b
        → r.stream_key ≡ k
        → r.stream_sequence ≡ suc first
        → b ≡ false
    not_deleted true e c s = absurd (omega (arith, d (tag r) (inl refl) c e, s))
    not_deleted false e c s = refl

-- What is left of a stream after a deletion: all of it, or all but the first row.
pub delete-sequences :
    (k : String) (delivered : List ℕ) (first last : ℕ) (N : Type 0) (rs : List Record)
    → Run first (sequences k (tags rs)) last
    → ((t : Tag)
        → Among t (tags rs)
        → t.key ≡ k
        → has_id t.id delivered ≡ true
        → (t.sequence ≡ suc first) × N)
    → Run first (sequences k (tags (delete_delivered delivered rs))) last
      ⊎ (Run (suc first) (sequences k (tags (delete_delivered delivered rs))) last × N)
unfolding delete_delivered
delete-sequences k delivered first last N [] h d = inl h
delete-sequences k delivered first last N (r ∷ rs) h d =
    elim (Run-cases k first last (tag r) (tags rs) h) [
      | inl (c, s, g) ↦ elim (Bool-cases (has_id r.outbox_id delivered)) [
        | inl e ↦ rw e (
            inr (
              kept-sequences k delivered (suc first) last rs g
                  (λ t m x y. omega (arith, (d t (inr m) x y).0)),
              (d (tag r) (inl refl) c e).1,
            ))
        | inr e ↦ rw e (
            inl (
              subst
                (λ b.
                  Run first
                    (grow b r.stream_sequence (sequences k (tags (delete_delivered delivered rs))))
                    last)
                (sym (same_key r.stream_key k c))
                (
                  s,
                  kept-sequences k delivered (suc first) last rs g
                      (λ t m x y. omega (arith, (d t (inr m) x y).0)),
                )))
      ]
      | inr (c, g) ↦ elim (Bool-cases (has_id r.outbox_id delivered)) [
        | inl e ↦ rw e (delete-sequences k delivered first last N rs g (λ t m. d t (inr m)))
        | inr e ↦ rw e (rw c (delete-sequences k delivered first last N rs g (λ t m. d t (inr m))))
      ]
    ]
