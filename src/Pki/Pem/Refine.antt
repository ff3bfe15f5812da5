-- ===== src/Pki/Pem/Refine.antt =====
-- pem.go against lists of blocks: what `AppendPEM` and `RemovePEMBySKID` do to a trust bundle.
use private_pki_operator.Common.{
  suc, ◌≡◌, refl, false, true, some, List, [], ◌∷◌, ◌++◌, String, length, if◌then◌else◌, arith,
  num_eq, num_eq_iff, append-nil, &&-true,
}
use private_pki_operator.Action.{ok, err, errorf, text, num}
use private_pki_operator.Pki.Codec.{Bytes, Block, Codec, IsLawful, bundle}
use private_pki_operator.Pki.Pem.{
  bytes_equal, is_target, append_line, append_pem, is_blank, remove_pem_by_skid,
}
use private_pki_operator.Pki.Pem.Blocks.{
  blocks, blocks_total, blocks-bundle, drop_first, has_bytes, contains_block-blocks, prune-blocks,
  bundle-append, length-bundle, bundle_ends_line,
}

-- The trust set with one more certificate, unless it is there.
abbrev pub add_block : Block → List Block → List Block
add_block b bs = if has_bytes b.bytes bs then bs else bs ++ b ∷ []

bytes_equal_refl : (xs : Bytes) → bytes_equal xs xs ≡ true
unfolding bytes_equal
bytes_equal_refl [] = refl
bytes_equal_refl (x ∷ xs) = ground (arith, bytes_equal_refl xs)

bytes_equal→≡ : (xs ys : Bytes) → bytes_equal xs ys ≡ true → xs ≡ ys
unfolding bytes_equal
bytes_equal→≡ [] [] h = refl
bytes_equal→≡ [] (y ∷ ys) h = cc
bytes_equal→≡ (x ∷ xs) [] h = cc
bytes_equal→≡ (x ∷ xs) (y ∷ ys) h =
    let (same, rest) = &&-true (num_eq x y) (bytes_equal xs ys) h in
    cc ((num_eq_iff x y).0 same, bytes_equal→≡ xs ys rest)

module _ (c : Codec) (law : IsLawful c) where
  bundle_blocks :
      (bs : List Block) → blocks c (suc (length (bundle c bs))) (bundle c bs) ≡ some (bs, [])
  bundle_blocks bs =
      blocks-bundle c law bs (suc (length (bundle c bs))) (omega (arith, length-bundle c law bs))

  append_line-bundle :
      (bs : List Block) (b : Block)
      → append_line (bundle c bs) (c.encode_to_memory b) ≡ bundle c (bs ++ b ∷ [])
  unfolding append_line
  append_line-bundle bs b =
      rw (bundle_ends_line c law bs, bundle-append c bs (b ∷ []), append-nil (c.encode_to_memory b))

  decode_one : (b : Block) → c.decode (c.encode_to_memory b) ≡ some (b, [])
  decode_one b = rw append-nil at (law.decode-encode b [])

  -- On a bundle `AppendPEM` adds the new certificate to the trust set.
  pub append_pem-bundle :
      (bs : List Block) (b : Block)
      → append_pem c (bundle c bs) (c.encode_to_memory b) ≡ bundle c (add_block b bs)
  unfolding append_pem
  append_pem-bundle bs b = ground (
    arith,
    decode_one b,
    contains_block-blocks c b.bytes (suc (length (bundle c bs))) (bundle c bs) bs []
        (bundle_blocks bs),
    append_line-bundle bs b,
  )

  -- What `RemovePEMBySKID` does to any text at all.
  pub remove_pem_by_skid-blocks :
      (d : Bytes) (target : String)
      → (bs : List Block) × (left : Bytes) × (blocks c (suc (length d)) d ≡ some (bs, left))
        × (remove_pem_by_skid c d target ≡ (
            if is_blank left
            then ok (bundle c (drop_first c target bs))
            else err (
                errorf (
                  text "trailing non-PEM data in input ("
                  ∷ num (length left)
                  ∷ text " bytes)"
                  ∷ []))))
  unfolding remove_pem_by_skid
  remove_pem_by_skid-blocks d target =
      let (bs, left, e) = blocks_total c law (suc (length d)) d (omega arith) in
      (bs, left, e, ground (arith, prune-blocks c target (suc (length d)) d bs left e))

  -- On a bundle `RemovePEMBySKID` succeeds, and gives the bundle without the first certificate that
  -- has the key identifier.
  pub remove_pem_by_skid-bundle :
      (bs : List Block) (target : String)
      → remove_pem_by_skid c (bundle c bs) target ≡ ok (bundle c (drop_first c target bs))
  unfolding remove_pem_by_skid
  remove_pem_by_skid-bundle bs target = ground (
    arith,
    prune-blocks c target (suc (length (bundle c bs))) (bundle c bs) bs [] (bundle_blocks bs),
  )

  -- Pruning commutes with adding a certificate that is not the one to go.
  pub bytes_target :
      (target : String) (x b : Block)
      → bytes_equal x.bytes b.bytes ≡ true
      → is_target c target x ≡ is_target c target b
  unfolding is_target
  bytes_target target x b h = rw (bytes_equal→≡ x.bytes b.bytes h)

  pub has_bytes-drop_first :
      (target : String) (b : Block) (bs : List Block)
      → is_target c target b ≡ false
      → has_bytes b.bytes (drop_first c target bs) ≡ has_bytes b.bytes bs
  has_bytes-drop_first target b [] h = refl
  has_bytes-drop_first target b (x ∷ bs) h = ground (
    arith,
    has_bytes-drop_first target b bs h,
    λ (e : bytes_equal x.bytes b.bytes ≡ true). bytes_target target x b e,
  )

  drop_first-append :
      (target : String) (b : Block) (bs : List Block)
      → is_target c target b ≡ false
      → drop_first c target (bs ++ b ∷ []) ≡ drop_first c target bs ++ b ∷ []
  drop_first-append target b [] h = ground arith
  drop_first-append target b (x ∷ bs) h = ground (arith, drop_first-append target b bs h)

  drop_first-add_block :
      (target : String) (b : Block) (bs : List Block)
      → is_target c target b ≡ false
      → drop_first c target (add_block b bs) ≡ add_block b (drop_first c target bs)
  drop_first-add_block target b bs h =
      ground (arith, has_bytes-drop_first target b bs h, drop_first-append target b bs h)

  has_bytes-append : (b : Block) (bs : List Block) → has_bytes b.bytes (bs ++ b ∷ []) ≡ true
  has_bytes-append b [] = ground (arith, bytes_equal_refl b.bytes)
  has_bytes-append b (x ∷ bs) = ground (arith, has_bytes-append b bs)

  -- Adding a certificate twice is adding it once.
  pub append_pem_idem :
      (bs : List Block) (b : Block)
      → append_pem c (append_pem c (bundle c bs) (c.encode_to_memory b)) (c.encode_to_memory b)
        ≡ append_pem c (bundle c bs) (c.encode_to_memory b)
  append_pem_idem bs b =
      rw (append_pem-bundle bs b, append_pem-bundle (add_block b bs) b)
        (ground (arith, has_bytes-append b bs))

  -- Closing the dual-trust window keeps the new root: removing another certificate from a bundle
  -- after the new one was added gives what adding it to the pruned bundle gives.
  pub remove_pem_by_skid-append_pem :
      (bs : List Block) (b : Block) (target : String)
      → is_target c target b ≡ false
      → remove_pem_by_skid c (append_pem c (bundle c bs) (c.encode_to_memory b)) target
        ≡ ok (append_pem c (bundle c (drop_first c target bs)) (c.encode_to_memory b))
  remove_pem_by_skid-append_pem bs b target h = rw (
    append_pem-bundle bs b,
    append_pem-bundle (drop_first c target bs) b,
    remove_pem_by_skid-bundle (add_block b bs) target,
    drop_first-add_block target b bs h,
  )
