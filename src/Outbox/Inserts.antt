-- ===== src/Outbox/Inserts.antt =====
-- What a batch of new rows makes of the streams: InsertBatch of pkg/outbox/outbox.go.
use cordis.Common.{
  ℕ, suc, ◌+◌, ◌≡◌, ◌⊎◌, inl, inr, refl, sym, ap, subst, ◌∙◌, false, ◌==◌, string_eq, nat_eq,
  Option, none, some, List, [], ◌∷◌, ◌++◌, arith, Bool-cases, length, String,
}
use cordis.Outbox.{Record, has_id, ids, insert_batch}
use cordis.Outbox.Tags.{Tag, tag, tags, Among, grow, sequences, Run, same_key}
use cordis.Outbox.Rounds.{Unique}

Run-snoc :
    (first last : ℕ) (ss : List ℕ) → Run first ss last → Run first (ss ++ suc last ∷ []) (suc last)
Run-snoc first last [] h = (ap suc (sym h), ap suc h)
Run-snoc first last (s ∷ ss) h = (h.0, Run-snoc (suc first) last ss (h.1))

sequences-snoc :
    (k : String) (r : Record) (rs : List Record)
    → sequences k (tags (rs ++ r ∷ []))
      ≡ sequences k (tags rs) ++ grow (r.stream_key == k) r.stream_sequence []
sequences-snoc k r [] = refl
sequences-snoc k r (q ∷ qs) = elim (Bool-cases (q.stream_key == k)) [
  | inl c ↦ rw c (ap (λ ss. q.stream_sequence ∷ ss) (sequences-snoc k r qs))
  | inr c ↦ rw c (sequences-snoc k r qs)
]

Among-snoc :
    (t : Tag) (r : Record) (rs : List Record)
    → Among t (tags (rs ++ r ∷ []))
    → Among t (tags rs) ⊎ (t ≡ tag r)
Among-snoc t r [] (inl e) = inr e
Among-snoc t r [] (inr m) = absurd m
Among-snoc t r (q ∷ qs) (inl e) = inl (inl e)
Among-snoc t r (q ∷ qs) (inr m) = elim (Among-snoc t r qs m) [ inl n ↦ inl (inr n) | inr e ↦ inr e ]

fresh_id :
    (t : Tag) (n : ℕ) (rs : List Record)
    → has_id n (ids rs) ≡ false
    → Among t (tags rs)
    → t.id ≡ n
    → ⊥
fresh_id t n [] h m e = m
fresh_id t n (r ∷ rs) h (inl i) e =
    let j : r.outbox_id ≡ n = ap (λ x. x.id) (sym i) ∙ e in ground (arith, j, h)
fresh_id t n (r ∷ rs) h (inr m) e = fresh_id t n rs (ground (arith, h)) m e

snoc-Unique :
    (r : Record) (rs : List Record)
    → has_id r.outbox_id (ids rs) ≡ false
    → Unique (tags rs)
    → Unique (tags (rs ++ r ∷ []))
snoc-Unique r rs f u s t m n e = elim (Among-snoc s r rs m) [
  | inl a ↦ elim (Among-snoc t r rs n) [
    | inl b ↦ u s t a b e
    | inr b ↦ absurd (fresh_id s r.outbox_id rs f a (e ∙ ap (λ x. x.id) b))
  ]
  | inr a ↦ elim (Among-snoc t r rs n) [
    | inl b ↦ absurd (fresh_id t r.outbox_id rs f b (sym e ∙ ap (λ x. x.id) a))
    | inr b ↦ (ap (λ x. x.key) (a ∙ sym b), ap (λ x. x.sequence) (a ∙ sym b))
  ]
]

-- Records of a stream, from a sequence on.
abbrev pub Numbered : String → ℕ → ℕ → List Record → Type 0
Numbered key shard s [] = Unit {0}
Numbered key shard s (r ∷ rs) =
    ((r.stream_key ≡ key) × (r.relay_shard_id ≡ shard) × (r.stream_sequence ≡ s))
    × Numbered key shard (suc s) rs

pub record Inserted (key : String) (shard last : ℕ) (before after : List Record) (count : ℕ)
    : Type 0 where
  pub unique : Unique (tags after)
  pub old_or_new :
      (t : Tag) → Among t (tags after) → Among t (tags before) ⊎ ((t.key ≡ key) × (t.shard ≡ shard))
  pub own :
      (first : ℕ)
      → Run first (sequences key (tags before)) last
      → Run first (sequences key (tags after)) (last + count)
  pub others :
      (k : String) → (key == k) ≡ false → sequences k (tags after) ≡ sequences k (tags before)

abbrev pub InsertedIf : String → ℕ → ℕ → List Record → ℕ → Option (List Record) → Type 0
InsertedIf key shard last before count none = Unit {0}
InsertedIf key shard last before count (some after) = Inserted key shard last before after count

append-nil_lem : (ss : List ℕ) → ss ++ [] ≡ ss
append-nil_lem [] = refl
append-nil_lem (s ∷ ss) = ap (λ l. s ∷ l) (append-nil_lem ss)

one_row :
    (key : String) (shard last : ℕ) (r : Record) (events : List Record)
    → Unique (tags events)
    → has_id r.outbox_id (ids events) ≡ false
    → (r.stream_key ≡ key) × (r.relay_shard_id ≡ shard) × (r.stream_sequence ≡ suc last)
    → Inserted key shard last events (events ++ r ∷ []) 1
one_row key shard last r events u f (e, g, h) = record {
  unique = snoc-Unique r events f u;
  old_or_new = λ t m. elim (Among-snoc t r events m) [
    | inl a ↦ inl a
    | inr a ↦ inr (ap (λ x. x.key) a ∙ e, ap (λ x. x.shard) a ∙ g)
  ];
  own = λ first run.
      let c : grow (r.stream_key == key) r.stream_sequence [] ≡ suc last ∷ [] =
        ap (λ b. grow b r.stream_sequence []) (same_key r.stream_key key e) ∙ ap (λ s. s ∷ []) h in
      let n : suc last ≡ last + 1 = omega arith in
      subst (λ m. Run first (sequences key (tags (events ++ r ∷ []))) m) n
        (subst (λ ss. Run first ss (suc last))
          (sym (sequences-snoc key r events ∙ ap (λ ss. sequences key (tags events) ++ ss) c))
          (Run-snoc first last (sequences key (tags events)) run));
  others = λ k d.
      let c : (r.stream_key == k) ≡ false = subst (λ x. (x == k) ≡ false) (sym e) d in
      sequences-snoc k r events
      ∙ ap (λ b. sequences k (tags events) ++ grow b r.stream_sequence []) c
      ∙ append-nil_lem (sequences k (tags events));
}

chain_rows :
    (key : String) (shard last m n : ℕ) (a b c : List Record)
    → m ≡ suc n
    → Inserted key shard last a b 1
    → Inserted key shard (suc last) b c n
    → Inserted key shard last a c m
chain_rows key shard last m n a b c e f g = record {
  unique = g.unique;
  old_or_new = λ t i. elim (g.old_or_new t i) [ inl j ↦ f.old_or_new t j | inr j ↦ inr j ];
  own = λ first run.
      let p : last + 1 ≡ suc last = omega arith in
      let q : suc last + n ≡ last + m = omega (arith, e) in
      subst (λ l. Run first (sequences key (tags c)) l) q
        (g.own first (subst (λ l. Run first (sequences key (tags b)) l) p (f.own first run)));
  others = λ k d. g.others k d ∙ f.others k d;
}

chain_if :
    (key : String) (shard last m n : ℕ) (a b : List Record) (c : Option (List Record))
    → m ≡ suc n
    → Inserted key shard last a b 1
    → InsertedIf key shard (suc last) b n c
    → InsertedIf key shard last a m c
chain_if key shard last m n a b none e f g = tt
chain_if key shard last m n a b (some c) e f g = chain_rows key shard last m n a b c e f g

pub insert_batch_keeps :
    (key : String) (shard last : ℕ) (rs events : List Record)
    → Unique (tags events)
    → Numbered key shard (suc last) rs
    → InsertedIf key shard last events (length rs) (insert_batch rs events)
unfolding insert_batch
insert_batch_keeps key shard last [] events u n = record {
  unique = u;
  old_or_new = λ t m. inl m;
  own = λ first run. subst (λ l. Run first (sequences key (tags events)) l) (omega arith) run;
  others = λ k d. refl;
}
insert_batch_keeps key shard last (r ∷ rs) events u n =
    elim (Bool-cases (has_id r.outbox_id (ids events))) [
      | inl c ↦ rw c tt
      | inr c ↦
          let one : Inserted key shard last events (events ++ r ∷ []) 1 =
            one_row key shard last r events u c (n.0) in
          rw c (
            chain_if key shard last (suc (length rs)) (length rs) events (events ++ r ∷ [])
              (insert_batch rs (events ++ r ∷ [])) refl one
              (insert_batch_keeps key shard (suc last) rs (events ++ r ∷ []) one.unique (n.1)))
    ]
