-- ===== src/Pki/Pem.antt =====
-- ci/private-pki-operator/internal/pki/pem.go: adding a certificate to a PEM bundle and pruning one.
-- The loops call `pem.Decode` on what the last call left. They run on fuel: each round leaves a
-- shorter text, so one more than the length is enough (Pki/Pem/Blocks.antt).
pub mod Blocks
pub mod Refine
pub mod Anchors
pub mod Undo
pub mod Tests
use private_pki_operator.Common.{
  ℕ, zero, suc, ◌+◌, Bool, true, false, not, ◌&&◌, ◌||◌, Option, none, some, List, [], ◌∷◌, ◌++◌,
  String, ◌==◌, length, if◌then◌else◌, num_eq, leb,
}
use private_pki_operator.Action.{Result, ok, err, errorf, text, num}
use private_pki_operator.Pki.Codec.{Bytes, Block, X509, Codec, ends_line}
use private_pki_operator.Pki.KeyId.{format_key_id}

-- `bytes.Equal`.
unfoldable pub bytes_equal : Bytes → Bytes → Bool
bytes_equal [] [] = true
bytes_equal [] (y ∷ ys) = false
bytes_equal (x ∷ xs) [] = false
bytes_equal (x ∷ xs) (y ∷ ys) = num_eq x y && bytes_equal xs ys

-- The loop of `AppendPEM`: does a block of `rest` have the contents `new_bytes`?
-- `none` means that the fuel ran out.
unfoldable pub contains_block : Codec → ℕ → Bytes → Bytes → Option Bool
contains_block c zero rest new_bytes = none
contains_block c (suc fuel) rest new_bytes = elim (c.decode rest) [
  | none ↦ some false
  | some (b, rest') ↦ elim (bytes_equal b.bytes new_bytes) [
    | true ↦ some true
    | false ↦ contains_block c fuel rest' new_bytes
  ]
]

-- The tail of `AppendPEM`: close the last line, then append.
unfoldable pub append_line : Bytes → Bytes → Bytes
append_line existing new_cert =
    (if ends_line existing then existing else existing ++ 10 ∷ []) ++ new_cert

-- `AppendPEM`.
unfoldable pub append_pem : Codec → Bytes → Bytes → Bytes
unfolding contains_block append_line
append_pem c existing new_cert = elim (c.decode new_cert) [
  | none ↦ append_line existing new_cert
  | some (new_block, _) ↦ elim (contains_block c (suc (length existing)) existing new_block.bytes) [
    | some true ↦ existing
    | _ ↦ append_line existing new_cert
  ]
]

-- The runes of `unicode.IsSpace`, by the bytes of their UTF-8.
unfoldable is_space : ℕ → Bool
is_space b = num_eq b 9 || num_eq b 10 || num_eq b 11 || num_eq b 12 || num_eq b 13 || num_eq b 32

-- U+0085 and U+00A0.
unfoldable is_space2 : ℕ → ℕ → Bool
is_space2 a b = num_eq a 194 && (num_eq b 133 || num_eq b 160)

-- U+1680, U+2000 to U+200A, U+2028, U+2029, U+202F, U+205F and U+3000.
unfoldable is_space3 : ℕ → ℕ → ℕ → Bool
is_space3 a b x =
    (num_eq a 225 && num_eq b 154 && num_eq x 128)
    || (num_eq a 226
        && num_eq b 128
        && ((leb 128 x && leb x 138) || num_eq x 168 || num_eq x 169 || num_eq x 175))
    || (num_eq a 226 && num_eq b 129 && num_eq x 159)
    || (num_eq a 227 && num_eq b 128 && num_eq x 128)

-- Are the bytes, after those of a rune that has begun, white space?
unfoldable is_blank_after : List ℕ → Bytes → Bool
is_blank_after [] [] = true
is_blank_after (a ∷ begun) [] = false
is_blank_after [] (b ∷ rest) = is_blank_after (if is_space b then [] else b ∷ []) rest
is_blank_after (a ∷ []) (b ∷ rest) = is_blank_after (if is_space2 a b then [] else a ∷ b ∷ []) rest
is_blank_after (a ∷ b ∷ begun) (x ∷ rest) = is_space3 a b x && is_blank_after [] rest

-- `len(bytes.TrimSpace(rest)) == 0`.
unfoldable pub is_blank : Bytes → Bool
unfolding is_blank_after is_space is_space2 is_space3
is_blank rest = is_blank_after [] rest

-- Does the certificate of a block have the key identifier that is to go?
-- A block that is no certificate never does.
unfoldable pub is_target : Codec → String → Block → Bool
is_target c target b = elim (c.parse_certificate b.bytes) [
  | none ↦ false
  | some cert ↦ format_key_id cert.subject_key_id == target
]

-- The loop of `RemovePEMBySKID`: the pruned text, and what is left after the last block.
-- `none` means that the fuel ran out.
unfoldable pub prune : Codec → String → ℕ → Bool → Bytes → Option (Bytes × Bytes)
unfolding is_target
prune c target zero removed rest = none
prune c target (suc fuel) removed rest = elim (c.decode rest) [
  | none ↦ some ([], rest)
  | some (b, rest') ↦ elim (not removed && is_target c target b) [
    | true ↦ prune c target fuel true rest'
    | false ↦ elim (prune c target fuel removed rest') [
      | none ↦ none
      | some (result, left) ↦ some (c.encode_to_memory b ++ result, left)
    ]
  ]
]

-- `RemovePEMBySKID`.
unfoldable pub remove_pem_by_skid : Codec → Bytes → String → Result Bytes
unfolding prune is_blank
remove_pem_by_skid c pem_data target =
    elim (prune c target (suc (length pem_data)) false pem_data) [
      | none ↦ err (errorf (text "out of fuel" ∷ []))
      | some (result, rest) ↦
          if is_blank rest
          then ok result
          else err (
              errorf
                (text "trailing non-PEM data in input (" ∷ num (length rest) ∷ text " bytes)" ∷ []))
    ]
