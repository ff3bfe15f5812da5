-- ===== src/Pki/Pem/Undo.antt =====
-- pem.go: RemovePEMBySKID after AppendPEM.
use private_pki_operator.Common.{◌≡◌, refl, false, true, List, [], ◌∷◌, ◌++◌, String, All, arith}
use private_pki_operator.Action.{ok}
use private_pki_operator.Pki.Codec.{Block, Codec, IsLawful, bundle}
use private_pki_operator.Pki.Pem.{bytes_equal, is_target, append_pem, remove_pem_by_skid}
use private_pki_operator.Pki.Pem.Blocks.{drop_first, has_bytes}
use private_pki_operator.Pki.Pem.Refine.{
  bytes_target, add_block, append_pem-bundle, remove_pem_by_skid-bundle,
}

module _ (c : Codec) (law : IsLawful c) (target : String) (b : Block)
    (has_key : is_target c target b ≡ true) where
  abbrev Others : List Block → Type 0
  Others bs = All (λ x. is_target c target x ≡ false) bs

  has_bytes-Others : (bs : List Block) → Others bs → has_bytes b.bytes bs ≡ false
  has_bytes-Others [] h = refl
  has_bytes-Others (x ∷ bs) (h, hs) = ground (
    arith,
    has_bytes-Others bs hs,
    has_key,
    h,
    λ (e : bytes_equal x.bytes b.bytes ≡ true). bytes_target c law target x b e,
  )

  drop_first-Others : (bs : List Block) → Others bs → drop_first c target (bs ++ b ∷ []) ≡ bs
  drop_first-Others [] h = ground (arith, has_key)
  drop_first-Others (x ∷ bs) (h, hs) = ground (arith, h, drop_first-Others bs hs)

  drop_first-add_block : (bs : List Block) → Others bs → drop_first c target (add_block b bs) ≡ bs
  drop_first-add_block bs h = ground (arith, has_bytes-Others bs h, drop_first-Others bs h)

  -- If no certificate of a bundle has the key identifier, then adding one that has it and pruning
  -- the identifier gives the bundle back.
  pub remove_pem_by_skid-undoes_append_pem :
      (bs : List Block)
      → Others bs
      → remove_pem_by_skid c (append_pem c (bundle c bs) (c.encode_to_memory b)) target
        ≡ ok (bundle c bs)
  remove_pem_by_skid-undoes_append_pem bs h = rw (
    append_pem-bundle c law bs b,
    remove_pem_by_skid-bundle c law (add_block b bs) target,
    drop_first-add_block bs h,
  )
