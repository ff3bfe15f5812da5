-- ===== src/Pki/Codec.antt =====
-- What internal/pki uses of `encoding/pem` and `crypto/x509`.
use private_pki_operator.Common.{
  ℕ, ◌<◌, ◌≡◌, Bool, true, Option, none, some, List, [], ◌∷◌, ◌++◌, length, num_eq,
}

-- A `[]byte`.
abbrev pub Bytes : Type 0
Bytes = List ℕ

-- `*pem.Block`, by its contents; `bytes` is `block.Bytes`, `header` stands for the rest.
pub record Block : Type 0 where
  pub header : Bytes
  pub bytes : Bytes

-- `*x509.Certificate`, by the fields that the program reads.
pub record X509 : Type 0 where
  pub subject_key_id : Bytes
  pub authority_key_id : Bytes

pub record Codec : Type 0 where
  -- `pem.Decode(data)`: the first block with what follows it, or nil.
  pub decode : Bytes → Option (Block × Bytes)
  -- `pem.EncodeToMemory(block)`.
  pub encode_to_memory : Block → Bytes
  -- `x509.ParseCertificate(der)`; `none` is an error.
  pub parse_certificate : Bytes → Option X509

-- `encode_to_memory` of each block in turn.
abbrev pub bundle : Codec → List Block → Bytes
bundle c [] = []
bundle c (b ∷ bs) = c.encode_to_memory b ++ bundle c bs

-- The last byte of a text ends a line, or the text is empty.
abbrev pub ends_line : Bytes → Bool
ends_line [] = true
ends_line (x ∷ []) = num_eq x 10
ends_line (x ∷ y ∷ ys) = ends_line (y ∷ ys)

-- What the documentation of `encoding/pem` promises.
pub record IsLawful (c : Codec) : Type 0 where
  -- What follows a block is shorter than the text that the block was found in.
  pub decode_shrinks :
      (d : Bytes) (b : Block) (rest : Bytes) → c.decode d ≡ some (b, rest) → length rest < length d
  -- A text with no byte has no block.
  pub decode-nil : c.decode [] ≡ none
  -- An encoded block is read back, whatever text follows it.
  pub decode-encode : (b : Block) (d : Bytes) → c.decode (c.encode_to_memory b ++ d) ≡ some (b, d)
  -- An encoded block ends a line.
  pub encode_ends_line : (b : Block) → ends_line (c.encode_to_memory b) ≡ true
