-- ===== src/Pki/Pem/Blocks.antt =====
-- The blocks of a PEM text, as the program's loops see them: the reference for pem.go's two loops.
use private_pki_operator.Common.{
  ℕ, zero, suc, ◌<◌, ◌≡◌, refl, sym, ◌≤◌, Bool, true, false, Option, none, some, List, [], ◌∷◌,
  ◌++◌, String, length, any, if◌then◌else◌, arith, Option-cases, append_assoc, inl, inr,
}
use private_pki_operator.Pki.Codec.{Bytes, Block, Codec, IsLawful, bundle, ends_line}
use private_pki_operator.Pki.Pem.{bytes_equal, contains_block, is_target, prune}

-- The blocks of a text in their order, and the text after the last one.
abbrev pub blocks : Codec → ℕ → Bytes → Option (List Block × Bytes)
blocks c zero d = none
blocks c (suc fuel) d = elim (c.decode d) [
  | none ↦ some ([], d)
  | some (b, rest) ↦ elim (blocks c fuel rest) [
    | none ↦ none
    | some (bs, left) ↦ some (b ∷ bs, left)
  ]
]

-- A list of blocks without the first one whose certificate has the key identifier.
abbrev pub drop_first : Codec → String → List Block → List Block
drop_first c target [] = []
drop_first c target (b ∷ bs) =
    let rest = b ∷ drop_first c target bs in if is_target c target b then bs else rest

-- Does a block of the list have these contents?
abbrev pub has_bytes : Bytes → List Block → Bool
has_bytes n bs = any (λ b. bytes_equal b.bytes n) bs

module _ (c : Codec) where
  -- More rounds than bytes are enough to see every block.
  pub blocks_total :
      IsLawful c
      → (fuel : ℕ) (d : Bytes) → length d < fuel
      → (bs : List Block) × (left : Bytes) × (blocks c fuel d ≡ some (bs, left))
  blocks_total law zero d h = absurd (omega arith)
  blocks_total law (suc fuel) d h = elim (Option-cases (c.decode d)) [
    | inl stop ↦ ([], d, ground arith)
    | inr ((b, rest), found) ↦
        let shorter = law.decode_shrinks d b rest found in
        let (bs, left, e) = blocks_total law fuel rest (omega arith) in
        (b ∷ bs, left, ground (arith, found, e))
  ]

  pub contains_block-blocks :
      (n : Bytes) (fuel : ℕ) (d : Bytes) (bs : List Block) (left : Bytes)
      → blocks c fuel d ≡ some (bs, left)
      → contains_block c fuel d n ≡ some (has_bytes n bs)
  unfolding contains_block
  contains_block-blocks n zero d bs left h = cc
  contains_block-blocks n (suc fuel) d bs left h = elim (Option-cases (c.decode d)) [
    | inl stop ↦ ground arith
    | inr ((b, rest), found) ↦ elim (Option-cases (blocks c fuel rest)) [
      | inl out ↦ ground arith
      | inr ((bs', left'), e) ↦ ground (arith, contains_block-blocks n fuel rest bs' left' e)
    ]
  ]

  -- Once a block was dropped the rest of the text is only written again.
  prune_rest-blocks :
      (target : String) (fuel : ℕ) (d : Bytes) (bs : List Block) (left : Bytes)
      → blocks c fuel d ≡ some (bs, left)
      → prune c target fuel true d ≡ some (bundle c bs, left)
  unfolding prune
  prune_rest-blocks target zero d bs left h = cc
  prune_rest-blocks target (suc fuel) d bs left h = elim (Option-cases (c.decode d)) [
    | inl stop ↦ ground arith
    | inr ((b, rest), found) ↦ elim (Option-cases (blocks c fuel rest)) [
      | inl out ↦ ground arith
      | inr ((bs', left'), e) ↦ ground (arith, prune_rest-blocks target fuel rest bs' left' e)
    ]
  ]

  pub prune-blocks :
      (target : String) (fuel : ℕ) (d : Bytes) (bs : List Block) (left : Bytes)
      → blocks c fuel d ≡ some (bs, left)
      → prune c target fuel false d ≡ some (bundle c (drop_first c target bs), left)
  unfolding prune
  prune-blocks target zero d bs left h = cc
  prune-blocks target (suc fuel) d bs left h = elim (Option-cases (c.decode d)) [
    | inl stop ↦ ground arith
    | inr ((b, rest), found) ↦ elim (Option-cases (blocks c fuel rest)) [
      | inl out ↦ ground arith
      | inr ((bs', left'), e) ↦ ground (
        arith,
        prune-blocks target fuel rest bs' left' e,
        prune_rest-blocks target fuel rest bs' left' e,
      )
    ]
  ]

  -- A text that is a bundle has just its blocks.
  pub blocks-bundle :
      IsLawful c
      → (bs : List Block) (fuel : ℕ) → length bs < fuel
      → blocks c fuel (bundle c bs) ≡ some (bs, [])
  blocks-bundle law bs zero h = absurd (omega arith)
  blocks-bundle law [] (suc fuel) h = ground (arith, law.decode-nil)
  blocks-bundle law (b ∷ bs) (suc fuel) h =
      ground (arith, law.decode-encode b (bundle c bs), blocks-bundle law bs fuel (omega arith))

  pub bundle-append : (xs ys : List Block) → bundle c (xs ++ ys) ≡ bundle c xs ++ bundle c ys
  bundle-append [] ys = refl
  bundle-append (x ∷ xs) ys =
      rw (bundle-append xs ys)
        (sym (append_assoc (c.encode_to_memory x) (bundle c xs) (bundle c ys)))

  -- A bundle has no fewer bytes than blocks.
  pub length-bundle : IsLawful c → (bs : List Block) → length bs ≤ length (bundle c bs)
  length-bundle law [] = omega arith
  length-bundle law (b ∷ bs) =
      let shorter =
        law.decode_shrinks (bundle c (b ∷ bs)) b (bundle c bs)
          (law.decode-encode b (bundle c bs)) in
      omega (arith, shorter, length-bundle law bs)

pub ends_line-append :
    (xs ys : Bytes) → ends_line xs ≡ true → ends_line ys ≡ true → ends_line (xs ++ ys) ≡ true
ends_line-append [] ys h k = k
ends_line-append (x ∷ []) [] h k = h
ends_line-append (x ∷ []) (y ∷ ys) h k = k
ends_line-append (x ∷ x' ∷ xs) ys h k = ends_line-append (x' ∷ xs) ys h k

pub bundle_ends_line : (c : Codec) → IsLawful c → (bs : List Block) → ends_line (bundle c bs) ≡ true
bundle_ends_line c law [] = refl
bundle_ends_line c law (b ∷ bs) =
    ends_line-append (c.encode_to_memory b) (bundle c bs) (law.encode_ends_line b)
      (bundle_ends_line c law bs)
