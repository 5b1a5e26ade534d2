-- ===== src/Session/Watermark/Cleanups.antt =====
-- Nobody notices a cleanup of watermark.go.
use cordis.Common.{
  ℕ, ◌+◌, ◌≤◌, ◌≡◌, ◌⊎◌, ◌∙◌, ◌&&◌, Bool, Option, none, leb, leb→le, le→leb, nat_beq, inl, inr,
  refl, sym, ap, false, some, List, [], ◌∷◌, arith, Bool-cases,
}
use cordis.Common.Int.{ℤ, pos, int_leb}
use cordis.Session.Watermark.{
  WatermarkKey, WatermarkEntry, WatermarkStore, key_beq, ttl, shard_of, is_stale, put, accept,
  sweep, cleanup,
}
use cordis.Session.Watermark.Order.{Op, accepts, cleans}

-- What the operations answer to the sequences, one after the other.
unfoldable pub answers : WatermarkStore → List (ℕ × Op) → List Bool
unfolding accept cleanup
answers ws [] = []
answers ws ((now, accepts key sequence) ∷ ops) =
    (accept ws now key sequence).1 ∷ answers (accept ws now key sequence).0 ops
answers ws ((now, cleans) ∷ ops) = answers (cleanup now ws) ops

-- The times do not go back.
abbrev pub InOrder : ℕ → List (ℕ × Op) → Type 0
InOrder from [] = Unit {0}
InOrder from ((now, op) ∷ ops) = (from ≤ now) × InOrder now ops

abbrev IsOver : ℕ → Option WatermarkEntry → Type 0
IsOver now none = Unit {0}
IsOver now (some e) = e.expires_at ≤ now

-- The same entries but for those that are over.
abbrev Alike : ℕ → WatermarkStore → WatermarkStore → Type 0
Alike now ws vs =
    (i : ℕ) (k : WatermarkKey)
    → (ws.values i k ≡ vs.values i k) ⊎ (IsOver now (ws.values i k) × IsOver now (vs.values i k))

IsOver-later :
    (now later : ℕ) (o : Option WatermarkEntry) → now ≤ later → IsOver now o → IsOver later o
IsOver-later now later none l h = tt
IsOver-later now later (some e) l h = omega (arith, l, h)

Alike-later :
    (now later : ℕ) (ws vs : WatermarkStore) → now ≤ later → Alike now ws vs → Alike later ws vs
Alike-later now later ws vs l a i k = elim (a i k) [
  | inl e ↦ inl e
  | inr (x, y) ↦
      inr (IsOver-later now later (ws.values i k) l x, IsOver-later now later (vs.values i k) l y)
]

IsOver-fresh :
    (now : ℕ) (n : ℤ) (o : Option WatermarkEntry) → IsOver now o → is_stale o now n ≡ false
IsOver-fresh now n none h = refl
IsOver-fresh now n (some e) h = ground (arith, h)

Alike-stale :
    (ws vs : WatermarkStore) (key : WatermarkKey) (n : ℤ) (now : ℕ)
    → Alike now ws vs
    → is_stale (ws.values (shard_of key) key) now n ≡ is_stale (vs.values (shard_of key) key) now n
Alike-stale ws vs key n now a = elim (a (shard_of key) key) [
  | inl e ↦ ap (λ o. is_stale o now n) e
  | inr (x, y) ↦
      IsOver-fresh now n (ws.values (shard_of key) key) x
      ∙ sym (IsOver-fresh now n (vs.values (shard_of key) key) y)
]

sweep-IsOver :
    (now : ℕ) (o : Option WatermarkEntry)
    → (sweep now o ≡ o) ⊎ (IsOver now (sweep now o) × IsOver now o)
sweep-IsOver now none = inl refl
sweep-IsOver now (some e) = elim (Bool-cases (leb e.expires_at now)) [
  | inl c ↦ inr (rw c tt, leb→le e.expires_at now c)
  | inr c ↦ inl (rw c refl)
]

IsOver-sweep : (now : ℕ) (o : Option WatermarkEntry) → IsOver now o → IsOver now (sweep now o)
IsOver-sweep now none h = tt
IsOver-sweep now (some e) h = rw (le→leb e.expires_at now h) tt

cleanup-Alike : (now : ℕ) (ws : WatermarkStore) → Alike now (cleanup now ws) ws
unfolding cleanup
cleanup-Alike now ws i k = sweep-IsOver now (ws.values i k)

cleanups-Alike :
    (now : ℕ) (ws vs : WatermarkStore)
    → Alike now ws vs
    → Alike now (cleanup now ws) (cleanup now vs)
unfolding cleanup
cleanups-Alike now ws vs a i k = elim (a i k) [
  | inl e ↦ inl (ap (λ o. sweep now o) e)
  | inr (x, y) ↦ inr (IsOver-sweep now (ws.values i k) x, IsOver-sweep now (vs.values i k) y)
]

puts-Alike :
    (now : ℕ) (ws vs : WatermarkStore) (key : WatermarkKey) (e : WatermarkEntry)
    → Alike now ws vs
    → Alike now (put ws key e) (put vs key e)
puts-Alike now ws vs key e a i k = elim (Bool-cases (nat_beq i (shard_of key) && key_beq k key)) [
  | inl c ↦ inl (rw c refl)
  | inr c ↦ rw c (a i k)
]

accept-Alike :
    (now : ℕ) (ws vs : WatermarkStore) (key : WatermarkKey) (n : ℤ)
    → Alike now ws vs
    → ((accept ws now key n).1 ≡ (accept vs now key n).1)
      × Alike now (accept ws now key n).0 (accept vs now key n).0
unfolding accept
accept-Alike now ws vs key n a = elim (Bool-cases (int_leb n (pos 0))) [
  | inl c ↦ rw c (refl, a)
  | inr c ↦
      let e = Alike-stale ws vs key n now a in
      rw c (
        rw e (elim (Bool-cases (is_stale (vs.values (shard_of key) key) now n)) [
          | inl d ↦ rw d (refl, a)
          | inr d ↦
              rw d
                (refl, puts-Alike now ws vs key (record { sequence = n; expires_at = now + ttl }) a)
        ]))
]

Alike-answers :
    (from : ℕ) (ws vs : WatermarkStore) (ops : List (ℕ × Op))
    → InOrder from ops
    → Alike from ws vs
    → answers ws ops ≡ answers vs ops
unfolding answers
Alike-answers from ws vs [] o a = refl
Alike-answers from ws vs ((now, accepts key n) ∷ ops) o a =
    let (e, b) = accept-Alike now ws vs key n (Alike-later from now ws vs (o.0) a) in
    ap (λ x. x ∷ answers (accept ws now key n).0 ops) e
    ∙ ap (λ l. (accept vs now key n).1 ∷ l)
        (Alike-answers now (accept ws now key n).0 (accept vs now key n).0 ops (o.1) b)
Alike-answers from ws vs ((now, cleans) ∷ ops) o a =
    Alike-answers now (cleanup now ws) (cleanup now vs) ops (o.1)
      (cleanups-Alike now ws vs (Alike-later from now ws vs (o.0) a))

-- Nobody notices a cleanup: any sequences and cleanups after it, at times that do not go back, get the
-- same answers, all of them, as without it.
pub answers-cleanup :
    (ws : WatermarkStore) (cleaned : ℕ) (ops : List (ℕ × Op))
    → InOrder cleaned ops
    → answers (cleanup cleaned ws) ops ≡ answers ws ops
answers-cleanup ws cleaned ops o =
    Alike-answers cleaned (cleanup cleaned ws) ws ops o (cleanup-Alike cleaned ws)
