-- ===== src/Cursor/Examples.antt =====
-- Tokens of cursor.go for numbers, over small codecs that keep the laws of the libraries.
use cordis.Common.{
  ℕ, ◌+◌, ◌-◌, ◌≡◌, refl, ap, ◌∙◌, false, nat_eq, Option, none, some, [], ◌∷◌, map, arith,
}
use cordis.Cursor.{Bytes, has_dot, is_blank, payload, invalid_cursor, Libraries, encode, decode}
use cordis.Cursor.Tokens.{Laws, decode-encode}

-- Every byte is moved past '.'.
abbrev shifted : Bytes → Bytes
shifted bs = map (λ b. b + 100) bs

abbrev shifted_back : Bytes → Bytes
shifted_back bs = map (λ b. b - 100) bs

abbrev one_number : Bytes → Option ℕ
one_number (n ∷ []) = some n
one_number _ = none

abbrev numbers : Libraries ℕ
numbers = record {
  marshal = λ n. some (n ∷ []);
  unmarshal = one_number;
  encode64 = shifted;
  decode64 = λ bs. some (shifted_back bs);
  hmac = λ bs. 7 ∷ bs;
}

shifted_no_dot : (bs : Bytes) → has_dot (shifted bs) ≡ false
shifted_no_dot [] = refl
shifted_no_dot (b ∷ bs) = ground (arith, shifted_no_dot bs)

shifted_blank : (bs : Bytes) → is_blank (shifted bs) ≡ is_blank bs
shifted_blank [] = refl
shifted_blank (b ∷ bs) = refl

shifted-shifted_back : (bs : Bytes) → shifted_back (shifted bs) ≡ bs
shifted-shifted_back [] = refl
shifted-shifted_back (b ∷ bs) =
    let e : (b + 100) - 100 ≡ b = omega arith in
    ap (λ c. c ∷ shifted_back (shifted bs)) e ∙ ap (λ l. b ∷ l) (shifted-shifted_back bs)

numbers-Laws : Laws numbers
numbers-Laws = record {
  no_dot = shifted_no_dot;
  same_blank = shifted_blank;
  decodes = λ bs. ap (λ l. some l) (shifted-shifted_back bs);
  not_blank = λ n raw e. ground (arith, e);
  unmarshals = λ n raw e. ground (arith, e);
  digest = λ bs. refl;
}

-- The kinds "g" and "b".
decode-encode_example :
    (decode numbers (103 ∷ []) (105 ∷ 46 ∷ 103 ∷ 46 ∷ 107 ∷ 205 ∷ 146 ∷ 203 ∷ []) ≡ payload 5)
    × (decode numbers (98 ∷ []) (105 ∷ 46 ∷ 103 ∷ 46 ∷ 107 ∷ 205 ∷ 146 ∷ 203 ∷ []) ≡ invalid_cursor)
unfolding encode
decode-encode_example =
    decode-encode numbers numbers-Laws (103 ∷ []) 5
      (105 ∷ 46 ∷ 103 ∷ 46 ∷ 107 ∷ 205 ∷ 146 ∷ 203 ∷ []) (98 ∷ []) refl refl
      (λ e. ground (arith, e))
