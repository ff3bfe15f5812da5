-- ===== src/Pki/Pem/Tests.antt =====
-- The theorems about pem.go at a trust bundle of two roots, with the concrete codec.
use private_pki_operator.Common.{◌≡◌, refl, false, true, [], ◌∷◌, ◌++◌}
use private_pki_operator.Action.{ok}
use private_pki_operator.Pki.Codec.{Bytes, Block, bundle}
use private_pki_operator.Pki.Toy.{toy_codec, toy_codec-IsLawful, encode_field}
use private_pki_operator.Pki.KeyId.{format_key_id}
use private_pki_operator.Pki.Pem.{
  append_pem, remove_pem_by_skid, is_target, bytes_equal, is_blank, is_blank_after, is_space,
  is_space2, is_space3,
}
use private_pki_operator.Pki.Pem.Blocks.{drop_first}
use private_pki_operator.Pki.Pem.Refine.{
  add_block, append_pem-bundle, remove_pem_by_skid-bundle, remove_pem_by_skid-append_pem,
}
use private_pki_operator.Pki.Pem.Undo.{remove_pem_by_skid-undoes_append_pem}
use private_pki_operator.Pki.Pem.Anchors.{
  IsAnchor, append_pem-IsAnchor, remove_pem_by_skid-IsAnchor,
}

-- The certificates with the key identifiers 01 and 02.
abbrev old_root : Block
old_root = record { header = []; bytes = 1 ∷ 1 ∷ [] }

abbrev new_root : Block
new_root = record { header = []; bytes = 2 ∷ 2 ∷ [] }

abbrev both_roots : Bytes
both_roots = bundle toy_codec (old_root ∷ new_root ∷ [])

append_pem-bundle_example :
    append_pem toy_codec (bundle toy_codec (old_root ∷ [])) (toy_codec.encode_to_memory new_root)
    ≡ bundle toy_codec (add_block new_root (old_root ∷ []))
append_pem-bundle_example = append_pem-bundle toy_codec toy_codec-IsLawful (old_root ∷ []) new_root

remove_pem_by_skid-bundle_example :
    remove_pem_by_skid toy_codec both_roots "01"
    ≡ ok (bundle toy_codec (drop_first toy_codec "01" (old_root ∷ new_root ∷ [])))
remove_pem_by_skid-bundle_example =
    remove_pem_by_skid-bundle toy_codec toy_codec-IsLawful (old_root ∷ new_root ∷ []) "01"

new_is_no_target : is_target toy_codec "01" new_root ≡ false
unfolding is_target format_key_id
new_is_no_target = refl

old_is_target : is_target toy_codec "01" old_root ≡ true
unfolding is_target format_key_id
old_is_target = refl

remove_pem_by_skid-append_pem_example :
    remove_pem_by_skid toy_codec
      (append_pem toy_codec
        (bundle toy_codec (old_root ∷ []))
        (toy_codec.encode_to_memory new_root))
      "01"
    ≡ ok (
        append_pem toy_codec
          (bundle toy_codec (drop_first toy_codec "01" (old_root ∷ [])))
          (toy_codec.encode_to_memory new_root))
remove_pem_by_skid-append_pem_example =
    remove_pem_by_skid-append_pem toy_codec toy_codec-IsLawful (old_root ∷ []) new_root "01"
      new_is_no_target

remove_pem_by_skid-undoes_append_pem_example :
    remove_pem_by_skid toy_codec
      (append_pem toy_codec
        (bundle toy_codec (new_root ∷ []))
        (toy_codec.encode_to_memory old_root))
      "01"
    ≡ ok (bundle toy_codec (new_root ∷ []))
remove_pem_by_skid-undoes_append_pem_example =
    remove_pem_by_skid-undoes_append_pem toy_codec toy_codec-IsLawful "01" old_root old_is_target
      (new_root ∷ []) (new_is_no_target, tt)

-- The new root in a text that does not end with a block.
abbrev loose_text : Bytes
loose_text = both_roots ++ 65 ∷ 66 ∷ []

new-IsAnchor : IsAnchor toy_codec (2 ∷ 2 ∷ []) loose_text
unfolding encode_field bytes_equal
new-IsAnchor = record {
  first = old_root ∷ new_root ∷ [];
  others = 65 ∷ 66 ∷ [];
  text_is = refl;
  is_there = refl;
}

append_pem-IsAnchor_example :
    IsAnchor toy_codec (2 ∷ 2 ∷ []) (append_pem toy_codec loose_text (67 ∷ []))
append_pem-IsAnchor_example =
    append_pem-IsAnchor toy_codec (2 ∷ 2 ∷ []) loose_text (67 ∷ []) new-IsAnchor

new_is_bundled : IsAnchor toy_codec (2 ∷ 2 ∷ []) both_roots
unfolding encode_field bytes_equal
new_is_bundled = record {
  first = old_root ∷ new_root ∷ [];
  others = [];
  text_is = refl;
  is_there = refl;
}

remove_pem_by_skid-IsAnchor_example :
    IsAnchor toy_codec
      (2 ∷ 2 ∷ [])
      (bundle toy_codec (drop_first toy_codec "01" (old_root ∷ new_root ∷ [])))
remove_pem_by_skid-IsAnchor_example =
    remove_pem_by_skid-IsAnchor toy_codec toy_codec-IsLawful (2 ∷ 2 ∷ []) both_roots
      (bundle toy_codec (drop_first toy_codec "01" (old_root ∷ new_root ∷ []))) "01" new_is_bundled
      new_is_no_target
      (remove_pem_by_skid-bundle toy_codec toy_codec-IsLawful (old_root ∷ new_root ∷ []) "01")

-- The old root is gone there.
trimmed_text : drop_first toy_codec "01" (old_root ∷ new_root ∷ []) ≡ new_root ∷ []
unfolding is_target format_key_id
trimmed_text = refl

-- A line end, U+00A0 and U+3000 are white space; half of U+00A0 is not.
spaces_are_blank : is_blank (10 ∷ 194 ∷ 160 ∷ 227 ∷ 128 ∷ 128 ∷ []) ≡ true
unfolding is_blank is_blank_after is_space is_space2 is_space3
spaces_are_blank = refl

half_is_not_blank : is_blank (32 ∷ 194 ∷ []) ≡ false
unfolding is_blank is_blank_after is_space is_space2 is_space3
half_is_not_blank = refl
