-- ===== src/Cursor/Tokens.antt =====
-- A token of cursor.go gives back its payload, to its own kind only.
use cordis.Common.{
  ◌≡◌, ◌≢◌, refl, sym, ap, subst, ◌∙◌, true, false, ◌==◌, nat_eq, none, some, inl, inr, [], ◌∷◌,
  ◌++◌, arith, Bool-cases, Option-cases,
}
use cordis.Cursor.{
  Bytes, bytes_eq, bytes_beq_iff, has_dot, is_blank, cons_first, split_dots, three_parts, split,
  is_kind, Decoded, payload, invalid_cursor, Libraries, mac, encode, read_payload, read_signed,
  decode,
}

-- What the codecs document: base64url has no '.', and decodes what it encoded; JSON is never empty, and
-- unmarshals what it marshalled; a digest is not empty.
pub record Laws {A : Type 0} (l : Libraries A) : Type 0 where
  pub no_dot : (x : Bytes) → has_dot (l.encode64 x) ≡ false
  pub same_blank : (x : Bytes) → is_blank (l.encode64 x) ≡ is_blank x
  pub decodes : (x : Bytes) → l.decode64 (l.encode64 x) ≡ some x
  pub not_blank : (x : A) (raw : Bytes) → l.marshal x ≡ some raw → is_blank raw ≡ false
  pub unmarshals : (x : A) (raw : Bytes) → l.marshal x ≡ some raw → l.unmarshal raw ≡ some x
  pub digest : (x : Bytes) → is_blank (l.hmac x) ≡ false

split_dots-whole : (p : Bytes) → has_dot p ≡ false → split_dots p ≡ p ∷ []
unfolding split_dots
split_dots-whole [] h = refl
split_dots-whole (b ∷ bs) h = elim (Bool-cases (b == 46)) [
  | inl e ↦ ground (arith, e, h)
  | inr e ↦ rw e (ap (cons_first b) (split_dots-whole bs (sym (rw e refl) ∙ h)))
]

split_dots-first : (p t : Bytes) → has_dot p ≡ false → split_dots (p ++ 46 ∷ t) ≡ p ∷ split_dots t
unfolding split_dots
split_dots-first [] t h = refl
split_dots-first (b ∷ bs) t h = elim (Bool-cases (b == 46)) [
  | inl e ↦ ground (arith, e, h)
  | inr e ↦ rw e (ap (cons_first b) (split_dots-first bs t (sym (rw e refl) ∙ h)))
]

split_token :
    (p k h : Bytes)
    → has_dot p ≡ false
    → has_dot k ≡ false
    → has_dot h ≡ false
    → is_blank p ≡ false
    → is_blank k ≡ false
    → is_blank h ≡ false
    → split (p ++ 46 ∷ (k ++ 46 ∷ h)) ≡ some (p, k, h)
unfolding split
split_token p k h dp dk dh bp bk bh =
    let e : split_dots (p ++ 46 ∷ (k ++ 46 ∷ h)) ≡ p ∷ k ∷ h ∷ [] =
      split_dots-first p (k ++ 46 ∷ h) dp
      ∙ ap (λ l. p ∷ l) (split_dots-first k h dk ∙ ap (λ l. k ∷ l) (split_dots-whole h dh)) in
    ap three_parts e ∙ rw bp (rw bk (rw bh refl))

token_is_not_blank : (p t : Bytes) → is_blank (p ++ 46 ∷ t) ≡ false
token_is_not_blank [] t = refl
token_is_not_blank (b ∷ bs) t = refl

module _ {A : Type 0} (l : Libraries A) (laws : Laws l) (kind : Bytes) (x : A) where
  -- The token of a payload.
  abbrev token_of : Bytes → Bytes
  unfolding mac
  token_of raw = l.encode64 raw ++ 46 ∷ (kind ++ 46 ∷ mac l (l.encode64 raw) kind)

  split-token_of :
      (raw : Bytes)
      → l.marshal x ≡ some raw
      → is_kind kind ≡ true
      → split (token_of raw) ≡ some (l.encode64 raw, kind, mac l (l.encode64 raw) kind)
  unfolding mac
  split-token_of raw m k =
      split_token (l.encode64 raw) kind (mac l (l.encode64 raw) kind) (laws.no_dot raw)
        (ground (arith, k)) (laws.no_dot _) (laws.same_blank raw ∙ laws.not_blank x raw m)
        (ground (arith, k)) (laws.same_blank _ ∙ laws.digest _)

  encode-cases :
      (token : Bytes)
      → encode l kind x ≡ some token
      → (is_kind kind ≡ true) × ((raw : Bytes) × (l.marshal x ≡ some raw) × (token_of raw ≡ token))
  unfolding encode
  encode-cases token h = elim (Bool-cases (is_kind kind)) [
    | inr k ↦ let no : none ≡ some token = sym (rw (k, encode) refl) ∙ h in cc
    | inl k ↦ elim (Option-cases (l.marshal x)) [
      | inl m ↦ let no : none ≡ some token = sym (rw (k, encode) (rw m refl)) ∙ h in cc
      | inr (raw, m) ↦
          let same : some (token_of raw) ≡ some token = sym (rw (k, encode) (rw m refl)) ∙ h in
          (k, (raw, m, cc))
    ]
  ]

  read_own :
      (raw : Bytes)
      → l.marshal x ≡ some raw
      → read_signed l kind (some (l.encode64 raw, kind, mac l (l.encode64 raw) kind)) ≡ payload x
  unfolding read_signed
  read_own raw m =
      let h = mac l (l.encode64 raw) kind in
      rw ((bytes_beq_iff kind kind).1 refl) (
        rw ((bytes_beq_iff h h).1 refl)
          (rw (laws.decodes raw, read_payload) (rw (laws.unmarshals x raw m) refl)))

  read_other :
      (other p h : Bytes) → kind ≢ other → read_signed l other (some (p, kind, h)) ≡ invalid_cursor
  unfolding read_signed
  read_other other p h n = elim (Bool-cases (kind == other)) [
    | inl e ↦ absurd (n ((bytes_beq_iff kind other).0 e))
    | inr e ↦ rw e refl
  ]

  decode_by :
      (reader raw : Bytes) (d : Decoded A)
      → is_kind reader ≡ true
      → read_signed l reader (split (token_of raw)) ≡ d
      → decode l reader (token_of raw) ≡ d
  unfolding decode
  decode_by reader raw d k e =
      rw (token_is_not_blank (l.encode64 raw) (kind ++ 46 ∷ mac l (l.encode64 raw) kind)) (rw k e)

  -- Where the JSON, base64 and HMAC libraries keep what they document: if a payload is encoded for a kind,
  -- then decoding the token for the same kind gives the payload back, and decoding it for another kind
  -- that is valid is refused.
  pub decode-encode :
      (token other : Bytes)
      → encode l kind x ≡ some token
      → is_kind other ≡ true
      → kind ≢ other
      → (decode l kind token ≡ payload x) × (decode l other token ≡ invalid_cursor)
  decode-encode token other h o n =
      let (k, (raw, m, e)) = encode-cases token h in
      let parts = split-token_of raw m k in
      subst (λ t. (decode l kind t ≡ payload x) × (decode l other t ≡ invalid_cursor)) e
        (
          decode_by kind raw (payload x) k (ap (read_signed l kind) parts ∙ read_own raw m),
          decode_by other raw invalid_cursor o
              (ap (read_signed l other) parts ∙ read_other other _ _ n),
        )
