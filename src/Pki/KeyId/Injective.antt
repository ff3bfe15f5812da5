-- ===== src/Pki/KeyId/Injective.antt =====
-- The text of a key identifier determines the identifier, so comparing texts, as every phase
-- handler does, compares keys.
use Prim.Native.Char.{Char, code}
use private_pki_operator.Common.{
  ℕ, ◌+◌, ◌/◌, ◌%◌, ◌<◌, ◌≡◌, ◌↔◌, refl, ap, String, [], ◌∷◌, arith, All, ltb, if◌then◌else◌,
  holds_below, holds_below-at, num_eq, num_eq_iff, true,
}
use private_pki_operator.Pki.Codec.{Bytes}
use private_pki_operator.Pki.KeyId.{hex_digit, join_hex, format_key_id}

-- Every item is a byte.
abbrev pub IsBytes : Bytes → Type 0
IsBytes = All (λ b. b < 256)

hex_code : ℕ → ℕ
hex_code d = if ltb d 10 then 48 + d else 55 + d

hex_table : holds_below (λ d. num_eq (code (hex_digit d)) (hex_code d)) 16 ≡ true
unfolding holds_below hex_digit hex_code
hex_table = refl

code-hex_digit : (d : ℕ) → d < 16 → code (hex_digit d) ≡ hex_code d
code-hex_digit d h = (num_eq_iff _ _).0 (holds_below-at _ 16 d h hex_table)

hex_digit_inj : (d e : ℕ) → d < 16 → e < 16 → hex_digit d ≡ hex_digit e → d ≡ e
unfolding hex_code
hex_digit_inj d e h k p = ground (arith, code-hex_digit d h, code-hex_digit e k, ap code p)

byte_inj :
    (b c : ℕ)
    → b < 256
    → c < 256
    → hex_digit (b / 16) ≡ hex_digit (c / 16)
    → hex_digit (b % 16) ≡ hex_digit (c % 16)
    → b ≡ c
byte_inj b c h k p q = omega (
  arith,
  hex_digit_inj (b / 16) (c / 16) (omega arith) (omega arith) p,
  hex_digit_inj (b % 16) (c % 16) (omega arith) (omega arith) q,
)

head_of : String → Char
head_of String.[] = "0"
head_of (String.◌∷◌ c s) = c

tail_of : String → String
tail_of String.[] = ""
tail_of (String.◌∷◌ c s) = s

join_hex_head :
    (b c : ℕ) (s t : String)
    → b < 256
    → c < 256
    → String.◌∷◌ (hex_digit (b / 16)) (String.◌∷◌ (hex_digit (b % 16)) s)
      ≡ String.◌∷◌ (hex_digit (c / 16)) (String.◌∷◌ (hex_digit (c % 16)) t)
    → (b ≡ c) × (s ≡ t)
unfolding head_of tail_of
join_hex_head b c s t h k p = (
  byte_inj b c h k (ap head_of p) (ap (λ u. head_of (tail_of u)) p),
  ap (λ u. tail_of (tail_of u)) p,
)

join_hex_inj :
    (b c : ℕ) (bs cs : Bytes)
    → b < 256
    → c < 256
    → IsBytes bs
    → IsBytes cs
    → join_hex b bs ≡ join_hex c cs
    → b ∷ bs ≡ c ∷ cs
unfolding join_hex tail_of
join_hex_inj b c [] [] h k hs ks p = let (e, _) = join_hex_head b c _ _ h k p in cc e
join_hex_inj b c [] (y ∷ cs) h k hs ks p = let (_, e) = join_hex_head b c _ _ h k p in cc e
join_hex_inj b c (x ∷ bs) [] h k hs ks p = let (_, e) = join_hex_head b c _ _ h k p in cc e
join_hex_inj b c (x ∷ bs) (y ∷ cs) h k hs ks p =
    let (e, f) = join_hex_head b c _ _ h k p in
    cc (e, join_hex_inj x y bs cs hs.0 ks.0 hs.1 ks.1 (ap tail_of f))

format_inj :
    (xs ys : Bytes) → IsBytes xs → IsBytes ys → format_key_id xs ≡ format_key_id ys → xs ≡ ys
unfolding format_key_id
format_inj [] [] h k p = refl
format_inj [] (y ∷ []) h k p = cc p
format_inj [] (y ∷ z ∷ ys) h k p = cc p
format_inj (x ∷ []) [] h k p = cc p
format_inj (x ∷ z ∷ xs) [] h k p = cc p
format_inj (x ∷ xs) (y ∷ ys) h k p = join_hex_inj x y xs ys h.0 k.0 h.1 k.1 p

-- Two key identifiers have one text exactly when they are the same bytes.
pub format_key_id_inj :
    (xs ys : Bytes) → IsBytes xs → IsBytes ys → (format_key_id xs ≡ format_key_id ys) ↔ (xs ≡ ys)
format_key_id_inj xs ys h k = (format_inj xs ys h k, λ p. ap format_key_id p)
