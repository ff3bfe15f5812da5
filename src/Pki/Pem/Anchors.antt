-- ===== src/Pki/Pem/Anchors.antt =====
-- pem.go on texts that begin with a bundle and go on in any way: which certificates `AppendPEM` and
-- `RemovePEMBySKID` leave in them.
use private_pki_operator.Common.{
  ℕ, zero, suc, ◌≡◌, refl, sym, ap, subst, Bool, false, true, some, List, [], ◌∷◌, ◌++◌, String,
  length, arith, append_assoc, if◌then◌else◌, append-nil, ◌∙◌, Option-cases, inl, inr,
}
use private_pki_operator.Action.{Error, ok, err}
use private_pki_operator.Pki.Codec.{Bytes, Block, Codec, IsLawful, bundle, ends_line}
use private_pki_operator.Pki.Pem.{
  is_target, append_line, append_pem, contains_block, is_blank, remove_pem_by_skid,
}
use private_pki_operator.Pki.Pem.Blocks.{blocks, drop_first, has_bytes}
use private_pki_operator.Pki.Pem.Refine.{remove_pem_by_skid-blocks, has_bytes-drop_first}

ok_if : (b : Bool) (x y : Bytes) (e : Error) → (if b then ok x else err e) ≡ ok y → y ≡ x
ok_if true x y e h = cc
ok_if false x y e h = absurd cc

-- The certificate `der` is one of the blocks that the text begins with.
pub record IsAnchor (c : Codec) (der d : Bytes) : Type 0 where
  pub first : List Block
  pub others : Bytes
  pub text_is : d ≡ bundle c first ++ others
  pub is_there : has_bytes der first ≡ true

module _ (c : Codec) (der : Bytes) where
  IsAnchor-append : (d more : Bytes) → IsAnchor c der d → IsAnchor c der (d ++ more)
  IsAnchor-append d more a = record {
    first = a.first;
    others = a.others ++ more;
    text_is = rw (a.text_is, append_assoc (bundle c a.first) a.others more);
    is_there = a.is_there;
  }

  IsAnchor-append_line : (d new : Bytes) → IsAnchor c der d → IsAnchor c der (append_line d new)
  unfolding append_line
  IsAnchor-append_line d new a =
      elim (ends_line d) as (λ b. IsAnchor c der ((if b then d else d ++ 10 ∷ []) ++ new)) [
        | true ↦ IsAnchor-append d new a
        | false ↦ IsAnchor-append (d ++ 10 ∷ []) new (IsAnchor-append d (10 ∷ []) a)
      ]

  -- `AppendPEM` takes no certificate out.
  pub append_pem-IsAnchor : (d new : Bytes) → IsAnchor c der d → IsAnchor c der (append_pem c d new)
  unfolding append_pem
  append_pem-IsAnchor d new a =
      let line = IsAnchor-append_line d new a in
      elim (Option-cases (c.decode new)) [
        | inl no_block ↦ rw (append_pem, no_block) line
        | inr ((b, rest), found) ↦
            elim (Option-cases (contains_block c (suc (length d)) d b.bytes)) [
              | inl out ↦ rw (append_pem, found, out) line
              | inr (true, there) ↦ rw (append_pem, found, there) a
              | inr (false, missing) ↦ rw (append_pem, found, missing) line
            ]
      ]

module _ (c : Codec) (law : IsLawful c) where
  blocks_after :
      (fuel : ℕ) (d : Bytes) (b : Block) (rest : Bytes) (found : List Block) (left : Bytes)
      → c.decode d ≡ some (b, rest)
      → blocks c (suc fuel) d ≡ some (found, left)
      → (found' : List Block) × (found ≡ b ∷ found') × (blocks c fuel rest ≡ some (found', left))
  blocks_after fuel d b rest found left here e = elim (Option-cases (blocks c fuel rest)) [
    | inl stop ↦ absurd (ground (arith, here, stop, e))
    | inr ((found', left'), more) ↦
        (found', ground (arith, here, more, e), ground (arith, here, more, e))
  ]

  -- The scan of a text that begins with a bundle begins with the bundle's blocks.
  blocks-prefix :
      (fuel : ℕ) (bs : List Block) (tail : Bytes) (found : List Block) (left : Bytes)
      → blocks c fuel (bundle c bs ++ tail) ≡ some (found, left)
      → (more : List Block) × (found ≡ bs ++ more)
  blocks-prefix fuel [] tail found left e = (found, refl)
  blocks-prefix zero (b ∷ bs) tail found left e = absurd cc
  blocks-prefix (suc fuel) (b ∷ bs) tail found left e =
      let (found', rest, e') =
        blocks_after fuel (bundle c (b ∷ bs) ++ tail) b (bundle c bs ++ tail) found left
          (subst (λ x. c.decode x ≡ some (b, bundle c bs ++ tail))
            (sym (append_assoc (c.encode_to_memory b) (bundle c bs) tail))
            (law.decode-encode b (bundle c bs ++ tail)))
          e in
      let (more, split) = blocks-prefix fuel bs tail found' left e' in (more, rw (rest, split))

  has_bytes-prefix :
      (der : Bytes) (bs more : List Block)
      → has_bytes der bs ≡ true
      → has_bytes der (bs ++ more) ≡ true
  has_bytes-prefix der [] more h = absurd cc
  has_bytes-prefix der (b ∷ bs) more h = ground (arith, has_bytes-prefix der bs more)

  -- `RemovePEMBySKID` takes out no certificate whose key identifier is another one.
  pub remove_pem_by_skid-IsAnchor :
      (der d trimmed : Bytes) (target : String)
      → IsAnchor c der d
      → is_target c target (record { header = []; bytes = der }) ≡ false
      → remove_pem_by_skid c d target ≡ ok trimmed
      → IsAnchor c der trimmed
  remove_pem_by_skid-IsAnchor der d trimmed target a spared e =
      let (found, left, seen, result) = remove_pem_by_skid-blocks c law d target in
      let (more, split) =
        blocks-prefix (suc (length d)) a.first a.others found left
          (ap (λ x. blocks c (suc (length d)) x) (sym a.text_is) ∙ seen) in
      record {
        first = drop_first c target found;
        others = [];
        text_is = ok_if (is_blank left) _ trimmed _ (sym result ∙ e) ∙ sym (append-nil _);
        is_there =
            has_bytes-drop_first c law target (record { header = []; bytes = der }) found spared
            ∙ rw split (has_bytes-prefix der a.first more a.is_there);
      }
