-- ===== src/Pki/KeyId.antt =====
-- ci/private-pki-operator/internal/pki/x509.go: key identifiers as upper-case hexadecimal text.
pub mod Injective
pub mod Tests
use Prim.Native.Char.{Char}
use private_pki_operator.Common.{
  String, ℕ, ◌/◌, ◌%◌, [], ◌∷◌, none, some, if◌then◌else◌, num_eq, ◌≡◌, refl,
}
use private_pki_operator.Action.{Result, ok, err, panic, errorf, text}
use private_pki_operator.Pki.Codec.{Bytes, Codec, X509}

-- One digit of the `%X` of `fmt`.
pub hex_digit : ℕ → Char
hex_digit d =
    if num_eq d 0
    then "0"
    else if num_eq d 1
    then "1"
    else if num_eq d 2
    then "2"
    else if num_eq d 3
    then "3"
    else if num_eq d 4
    then "4"
    else if num_eq d 5
    then "5"
    else if num_eq d 6
    then "6"
    else if num_eq d 7
    then "7"
    else if num_eq d 8
    then "8"
    else if num_eq d 9
    then "9"
    else if num_eq d 10
    then "A"
    else if num_eq d 11
    then "B"
    else if num_eq d 12
    then "C"
    else if num_eq d 13
    then "D"
    else if num_eq d 14
    then "E"
    else "F"

-- `strings.Join(parts, ":")` with `parts[i] = fmt.Sprintf("%02X", b)`.
pub join_hex : ℕ → Bytes → String
unfolding hex_digit
join_hex b [] = String.◌∷◌ (hex_digit (b / 16)) (String.◌∷◌ (hex_digit (b % 16)) String.[])
join_hex b (b' ∷ bs) =
    String.◌∷◌ (hex_digit (b / 16))
      (String.◌∷◌ (hex_digit (b % 16)) (String.◌∷◌ ":" (join_hex b' bs)))

-- `formatKeyID`.
unfoldable pub format_key_id : Bytes → String
unfolding join_hex
format_key_id [] = ""
format_key_id (b ∷ bs) = join_hex b bs

-- `parseCert`.
unfoldable pub parse_cert : Codec → Bytes → Result X509
parse_cert c cert_pem = elim (c.decode cert_pem) [
  | none ↦ err (errorf (text "failed to decode PEM block" ∷ []))
  | some (block, rest) ↦ elim (c.parse_certificate block.bytes) [
    | none ↦ err (errorf (text "parsing certificate" ∷ []))
    | some cert ↦ ok cert
  ]
]

skid_of : X509 → Result String
unfolding format_key_id
skid_of cert = elim cert.subject_key_id [
  | [] ↦ err (errorf (text "certificate has no SubjectKeyId" ∷ []))
  | x ∷ xs ↦ ok (format_key_id (x ∷ xs))
]

abbrev bind_result : {A B : Type 0} → Result A → (A → Result B) → Result B
bind_result (ok a) f = f a
bind_result (err e) f = err e
bind_result (panic m) f = panic m

-- `SKIDFromPEM`.
unfoldable pub skid_from_pem : Codec → Bytes → Result String
unfolding parse_cert skid_of
skid_from_pem c cert_pem = bind_result (parse_cert c cert_pem) skid_of

-- `AKIDFromPEM`.
unfoldable pub akid_from_pem : Codec → Bytes → Result String
unfolding parse_cert format_key_id
akid_from_pem c cert_pem =
    bind_result (parse_cert c cert_pem) (λ cert. ok (format_key_id cert.authority_key_id))

format_example : format_key_id (1 ∷ 254 ∷ 16 ∷ []) ≡ "01:FE:10"
unfolding format_key_id
format_example = refl
