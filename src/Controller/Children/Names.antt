-- ===== src/Controller/Children/Names.antt =====
-- intermediateChildName: the name fits into what Kubernetes allows for a label.
use Prim.Native.Nat.{Ordering, compare as compare_ℕ}
use Prim.Native.Char.{Char, len_utf8}
use Prim.Native.String.{len, slice, fits, ◌∷◌ as cons_char, [] as no_text}
use Prim.Native.String.len as clause_len
use Prim.Native.String.slice as clause_slice
use text.Mathlib.TextPositions.{len-append}
use private_pki_operator.Common.{ℕ, ◌+◌, ◌-◌, ◌≤◌, String, ◌≡◌, refl, sym, subst, arith}
use private_pki_operator.Controller.EnsureIntermediates.{
  cut_parent, intermediate_child_name, max_pkir_name_len, ◌⧺◌,
}

len-cons : (c : Char) (s : String) → len (cons_char c s) ≡ len_utf8 c + len s
len-cons c s = clause_len.cons c s

len_none : len no_text ≡ 0
len_none = clause_len.nil

fits-length :
    (o : Ordering) (c : Char) (s : String) (b : ℕ)
    → compare_ℕ (len_utf8 c) b ≡ o
    → len s ≤ (b - len_utf8 c)
    → len (fits o c s) ≤ b
fits-length Ordering.lt c s b e h = ground (arith, len-cons c s, e)
fits-length Ordering.eq c s b e h = ground (arith, len-cons c s, e)
fits-length Ordering.gt c s b e h = ground (arith, len_none)

slice-length : (s : String) (b : ℕ) → len (slice s 0 b) ≤ b
slice-length no_text b =
    subst (λ t. len t ≤ b) (sym (clause_slice.nil 0 b)) (ground (arith, len_none))
slice-length (cons_char c s) b =
    subst (λ t. len t ≤ b) (sym (clause_slice.cons-zero c s b))
      (fits-length (compare_ℕ (len_utf8 c) b) c (slice s 0 (b - len_utf8 c)) b refl
        (slice-length s (b - len_utf8 c)))

cut_parent-length : (parent : String) → len (cut_parent parent) ≤ 54
unfolding cut_parent
cut_parent-length parent = ground (arith, slice-length parent 54)

-- Whatever the parent's name and the hash, the child's name has at most 63 bytes.
pub intermediate_child_name-length :
    (sha256_hex : String → String) (parent cert_namespace cert_name : String)
    → len (intermediate_child_name sha256_hex parent cert_namespace cert_name) ≤ max_pkir_name_len
unfolding intermediate_child_name
intermediate_child_name-length sha256_hex parent cert_namespace cert_name =
    let hash = slice (sha256_hex (cert_namespace ⧺ "/" ⧺ cert_name)) 0 8 in
    omega (
      arith,
      cut_parent-length parent,
      slice-length (sha256_hex (cert_namespace ⧺ "/" ⧺ cert_name)) 8,
      len-append "-" hash,
      len-append (cut_parent parent) ("-" ⧺ hash),
    )
