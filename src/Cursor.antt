-- ===== src/Cursor.antt =====
-- pkg/cursor/cursor.go: the signed tokens that continue a list. A token is its bytes; the JSON codec, the
-- base64 codec and the HMAC under the codec's secret are libraries, and parameters here. The codec is
-- not nil.
pub mod Tokens
pub mod Examples
use cordis.Common.{
  ℕ, ◌≡◌, ◌↔◌, refl, ap, Bool, true, false, not, ◌&&◌, ◌||◌, ◌==◌, nat_eq, nat_beq, nat_beq_iff,
  Comparable, Option, none, some, List, [], ◌∷◌, ◌++◌, arith, length, take, ltb, if◌then◌else◌,
  Bool-cases, inl, inr,
}

abbrev pub Bytes : Type 0
Bytes = List ℕ

abbrev pub bytes_beq : Bytes → Bytes → Bool
bytes_beq [] [] = true
bytes_beq [] (b ∷ bs) = false
bytes_beq (a ∷ s) [] = false
bytes_beq (a ∷ s) (b ∷ t) = nat_beq a b && bytes_beq s t

pub bytes_beq_iff : (s t : Bytes) → (bytes_beq s t ≡ true) ↔ (s ≡ t)
bytes_beq_iff [] [] = (λ h. refl, λ h. refl)
bytes_beq_iff [] (b ∷ bs) = (λ h. cc, λ h. cc)
bytes_beq_iff (a ∷ s) [] = (λ h. cc, λ h. cc)
bytes_beq_iff (a ∷ s) (b ∷ t) = ground (arith, bytes_beq_iff s t)

instance abbrev pub bytes_eq : Comparable Bytes
bytes_eq = record { same = bytes_beq; same_iff = bytes_beq_iff }

-- 46 is '.'.
abbrev pub has_dot : Bytes → Bool
has_dot [] = false
has_dot (b ∷ bs) = b == 46 || has_dot bs

abbrev pub is_blank : Bytes → Bool
is_blank [] = true
is_blank (b ∷ bs) = false

abbrev pub cons_first : ℕ → List Bytes → List Bytes
cons_first b [] = (b ∷ []) ∷ []
cons_first b (part ∷ parts) = (b ∷ part) ∷ parts

-- `strings.Split(token, ".")`
unfoldable pub split_dots : Bytes → List Bytes
split_dots [] = [] ∷ []
split_dots (b ∷ bs) =
    let parts = split_dots bs in if b == 46 then [] ∷ parts else cons_first b parts

abbrev pub three_parts : List Bytes → Option (Bytes × Bytes × Bytes)
three_parts (p ∷ kind ∷ h ∷ []) =
    if is_blank p || is_blank kind || is_blank h then none else some (p, kind, h)
three_parts _ = none

unfoldable pub split : Bytes → Option (Bytes × Bytes × Bytes)
unfolding split_dots
split token = three_parts (split_dots token)

abbrev pub is_kind : Bytes → Bool
is_kind kind = not (is_blank kind || has_dot kind)

-- `no_cursor` is ok = false without an error; the two others are the errors of Decode.
pub data Decoded (A : Type 0) : Type 0 where
  payload : A → Decoded A
  no_cursor invalid_kind invalid_cursor : Decoded A

pub record Libraries (A : Type 0) : Type 0 where
  pub marshal : A → Option Bytes
  pub unmarshal : Bytes → Option A
  pub encode64 : Bytes → Bytes
  pub decode64 : Bytes → Option Bytes
  pub hmac : Bytes → Bytes

module _ {A : Type 0} (l : Libraries A) where
  unfoldable pub mac : Bytes → Bytes → Bytes
  mac p kind = l.encode64 (l.hmac (p ++ 46 ∷ kind))

  -- None is an error: an invalid kind, or a payload that has no JSON.
  unfoldable pub encode : Bytes → A → Option Bytes
  unfolding mac
  encode kind x =
      if is_kind kind
      then elim (l.marshal x) [
        | none ↦ none
        | some raw ↦ let p = l.encode64 raw in some (p ++ 46 ∷ (kind ++ 46 ∷ mac p kind))
      ]
      else none

  abbrev pub read_payload : Bytes → Decoded A
  read_payload p = elim (l.decode64 p) [
    | none ↦ invalid_cursor
    | some raw ↦ elim (l.unmarshal raw) [ none ↦ invalid_cursor | some x ↦ payload x ]
  ]

  unfoldable pub read_signed : Bytes → Option (Bytes × Bytes × Bytes) → Decoded A
  unfolding mac
  read_signed kind none = invalid_cursor
  read_signed kind (some (p, k, h)) =
      if k == kind then if h == mac p k then read_payload p else invalid_cursor else invalid_cursor

  unfoldable pub decode : Bytes → Bytes → Decoded A
  unfolding read_signed split
  decode kind token =
      if is_blank token
      then no_cursor
      else if is_kind kind
      then read_signed kind (split token)
      else invalid_kind
