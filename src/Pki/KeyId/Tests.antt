-- ===== src/Pki/KeyId/Tests.antt =====
-- formatKeyID at two key identifiers.
use private_pki_operator.Common.{◌≡◌, ◌↔◌, [], ◌∷◌, arith}
use private_pki_operator.Pki.Codec.{Bytes}
use private_pki_operator.Pki.KeyId.{format_key_id}
use private_pki_operator.Pki.KeyId.Injective.{format_key_id_inj}

format_key_id_inj_example :
    (format_key_id (1 ∷ 254 ∷ []) ≡ format_key_id (1 ∷ 239 ∷ []))
    ↔ (◌≡◌ {A = Bytes} (1 ∷ 254 ∷ []) (1 ∷ 239 ∷ []))
format_key_id_inj_example =
    format_key_id_inj (1 ∷ 254 ∷ []) (1 ∷ 239 ∷ []) (omega arith, (omega arith, tt))
      (omega arith, (omega arith, tt))
