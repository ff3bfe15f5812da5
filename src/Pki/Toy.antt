-- ===== src/Pki/Toy.antt =====
-- A concrete codec, on which the theorems about an arbitrary one are tried. It keeps the documented
-- laws of `encoding/pem`; its encoding is a simple one: each byte after a 1, a 0 at the end of a
-- field, and an end of line at the end of a block.
use private_pki_operator.Common.{
  ℕ, zero, suc, ◌<◌, ◌≡◌, refl, true, Option, none, some, [], ◌∷◌, ◌++◌, length, arith,
  append_assoc, subst, Option-cases, inl, inr,
}
use private_pki_operator.Pki.Codec.{Bytes, Block, X509, Codec, IsLawful, ends_line}

unfoldable pub encode_field : Bytes → Bytes
encode_field [] = 0 ∷ []
encode_field (x ∷ xs) = 1 ∷ x ∷ encode_field xs

abbrev push : ℕ → Option (Bytes × Bytes) → Option (Bytes × Bytes)
push x none = none
push x (some (xs, rest)) = some (x ∷ xs, rest)

unfoldable pub decode_field : Bytes → Option (Bytes × Bytes)
decode_field [] = none
decode_field (zero ∷ rest) = some ([], rest)
decode_field (suc zero ∷ []) = none
decode_field (suc zero ∷ x ∷ rest) = push x (decode_field rest)
decode_field (suc (suc n) ∷ rest) = none

-- The end of a block.
abbrev end_block : Bytes → Bytes → Bytes → Option (Block × Bytes)
end_block header bytes [] = none
end_block header bytes (x ∷ rest) = some (record { header = header; bytes = bytes }, rest)

abbrev decode_body : Bytes → Option (Bytes × Bytes) → Option (Block × Bytes)
decode_body header none = none
decode_body header (some (bytes, rest)) = end_block header bytes rest

abbrev decode_rest : Option (Bytes × Bytes) → Option (Block × Bytes)
decode_rest none = none
decode_rest (some (header, rest)) = decode_body header (decode_field rest)

abbrev pub encode_block : Block → Bytes
encode_block b = encode_field b.header ++ (encode_field b.bytes ++ 10 ∷ [])

-- The certificate's two key identifiers are its first two bytes.
abbrev parse : Bytes → Option X509
parse [] = none
parse (s ∷ []) = none
parse (s ∷ a ∷ more) = some (record { subject_key_id = s ∷ []; authority_key_id = a ∷ [] })

abbrev pub toy_codec : Codec
toy_codec = record {
  decode = λ d. decode_rest (decode_field d);
  encode_to_memory = encode_block;
  parse_certificate = parse;
}

decode_field-encode_field : (xs d : Bytes) → decode_field (encode_field xs ++ d) ≡ some (xs, d)
unfolding decode_field encode_field
decode_field-encode_field [] d = refl
decode_field-encode_field (x ∷ xs) d = rw (decode_field-encode_field xs d) refl

decode_field_shrinks :
    (d xs rest : Bytes) → decode_field d ≡ some (xs, rest) → length rest < length d
unfolding decode_field
decode_field_shrinks [] xs rest e = absurd cc
decode_field_shrinks (zero ∷ d) xs rest e = ground (arith, e)
decode_field_shrinks (suc zero ∷ []) xs rest e = absurd cc
decode_field_shrinks (suc zero ∷ x ∷ d) xs rest e = elim (Option-cases (decode_field d)) [
  | inl stop ↦ absurd (ground (arith, stop, e))
  | inr ((ys, r), found) ↦
      let shorter = decode_field_shrinks d ys r found in ground (arith, found, e, shorter)
]
decode_field_shrinks (suc (suc n) ∷ d) xs rest e = absurd cc

toy_decode-encode : (b : Block) (d : Bytes) → toy_codec.decode (encode_block b ++ d) ≡ some (b, d)
toy_decode-encode b d = rw (
  append_assoc (encode_field b.header) (encode_field b.bytes ++ 10 ∷ []) d,
  decode_field-encode_field b.header ((encode_field b.bytes ++ 10 ∷ []) ++ d),
  append_assoc (encode_field b.bytes) (10 ∷ []) d,
  decode_field-encode_field b.bytes (10 ∷ d),
)

body_shrinks :
    (header d : Bytes) (b : Block) (rest : Bytes)
    → decode_body header (decode_field d) ≡ some (b, rest)
    → length rest < length d
body_shrinks header d b rest e = elim (Option-cases (decode_field d)) [
  | inl stop ↦ absurd (ground (arith, stop, e))
  | inr ((bytes, []), found) ↦ absurd (ground (arith, found, e))
  | inr ((bytes, x ∷ r), found) ↦
      let shorter = decode_field_shrinks d bytes (x ∷ r) found in ground (arith, found, e, shorter)
]

toy_decode_shrinks :
    (d : Bytes) (b : Block) (rest : Bytes)
    → toy_codec.decode d ≡ some (b, rest)
    → length rest < length d
toy_decode_shrinks d b rest e = elim (Option-cases (decode_field d)) [
  | inl stop ↦ absurd (ground (arith, stop, e))
  | inr ((header, r), found) ↦
      let shorter = decode_field_shrinks d header r found in
      let after = body_shrinks header r b rest (rw found at e) in omega arith
]

ends_line-last : (xs : Bytes) → ends_line (xs ++ 10 ∷ []) ≡ true
ends_line-last [] = refl
ends_line-last (x ∷ []) = refl
ends_line-last (x ∷ y ∷ xs) = ends_line-last (y ∷ xs)

toy_ends_line : (b : Block) → ends_line (encode_block b) ≡ true
toy_ends_line b =
    subst (λ d. ends_line d ≡ true)
      (append_assoc (encode_field b.header) (encode_field b.bytes) (10 ∷ []))
      (ends_line-last (encode_field b.header ++ encode_field b.bytes))

toy_nil : toy_codec.decode [] ≡ none
unfolding decode_field
toy_nil = refl

pub toy_codec-IsLawful : IsLawful toy_codec
toy_codec-IsLawful = record {
  decode_shrinks = toy_decode_shrinks;
  decode-nil = toy_nil;
  decode-encode = toy_decode-encode;
  encode_ends_line = toy_ends_line;
}
