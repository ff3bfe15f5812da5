-- ===== src/Controller/Children.antt =====
-- pkirotation_ensure_intermediates.go: which children are made, under which names.
pub mod Names
use Prim.Native.Nat.{Ordering, compare as compare_ℕ}
use Prim.Native.Char.{Char, len_utf8}
use Prim.Native.String.{len, slice, ◌∷◌ as cons_char, [] as no_text}
use private_pki_operator.Common.{
  ℕ, ◌+◌, ◌-◌, ◌≤◌, String, Bool, true, false, ◌||◌, ◌≡◌, refl, sym, ap, ◌∙◌, List, [], ◌∷◌, ◌++◌,
  ◌==◌, eq_iff, arith, any, Bool-cases, insert, if◌then◌else◌,
}
use private_pki_operator.Api.{PkiRotation, OwnerReference}
use private_pki_operator.Cluster.{Certificate}
use private_pki_operator.Controller.EnsureIntermediates.{
  same_certificate, dedup_from, adopt_child, refers_to, pkirotation_kind, owner_pkir_label,
  cut_parent, intermediate_child_name, ◌⧺◌,
}

abbrev key : Certificate → String
key a = a.namespace ⧺ "/" ⧺ a.name

-- Is there a certificate of this key?
abbrev pub is_in : Certificate → List Certificate → Bool
is_in a certs = any (same_certificate a) certs

-- No two certificates have one namespace and name.
abbrev pub AreDistinct : List Certificate → Type 0
AreDistinct [] = Unit
AreDistinct (ca ∷ cas) = (is_in ca cas ≡ false) × AreDistinct cas

is_in-same :
    (a b : Certificate) (certs : List Certificate)
    → same_certificate a b ≡ true
    → is_in a certs ≡ is_in b certs
unfolding same_certificate
is_in-same a b certs e =
    ap (λ k. any (λ (x : Certificate). k == key x) certs) ((eq_iff (key a) (key b)).0 e)

-- What was seen is left out.
dedup_from_avoids :
    (cas seen : List Certificate) (a : Certificate)
    → is_in a seen ≡ true
    → is_in a (dedup_from seen cas) ≡ false
unfolding dedup_from
dedup_from_avoids [] seen a h = refl
dedup_from_avoids (ca ∷ cas) seen a h =
    ground (
      arith,
      dedup_from_avoids cas seen a,
      dedup_from_avoids cas (ca ∷ seen) a,
      is_in-same a ca seen,
    )

dedup_from_keeps :
    (cas seen : List Certificate) (a : Certificate)
    → is_in a seen ≡ false
    → is_in a (dedup_from seen cas) ≡ is_in a cas
unfolding dedup_from
dedup_from_keeps [] seen a h = refl
dedup_from_keeps (ca ∷ cas) seen a h =
    ground
      (arith, dedup_from_keeps cas seen a, dedup_from_keeps cas (ca ∷ seen) a, is_in-same a ca seen)

is_in_head : (ca : Certificate) (seen : List Certificate) → is_in ca (ca ∷ seen) ≡ true
unfolding same_certificate
is_in_head ca seen = ground (arith, eq_iff (key ca) (key ca))

distinct_if :
    (b : Bool) (ca : Certificate) (cas cas' : List Certificate)
    → AreDistinct cas
    → AreDistinct (ca ∷ cas')
    → AreDistinct (if b then cas else ca ∷ cas')
distinct_if true ca cas cas' h h' = h
distinct_if false ca cas cas' h h' = h'

dedup_from-AreDistinct : (cas seen : List Certificate) → AreDistinct (dedup_from seen cas)
unfolding dedup_from
dedup_from-AreDistinct [] seen = tt
dedup_from-AreDistinct (ca ∷ cas) seen =
    distinct_if (is_in ca seen) ca (dedup_from seen cas) (dedup_from (ca ∷ seen) cas)
      (dedup_from-AreDistinct cas seen)
      (
        dedup_from_avoids cas (ca ∷ seen) ca (is_in_head ca seen),
        dedup_from-AreDistinct cas (ca ∷ seen),
      )

-- Of the certificates that were found, one of each namespace and name is left, and none is lost.
pub dedup_from-once :
    (cas : List Certificate)
    → AreDistinct (dedup_from [] cas)
      × ((a : Certificate) → is_in a (dedup_from [] cas) ≡ is_in a cas)
dedup_from-once cas = (dedup_from-AreDistinct cas [], λ a. dedup_from_keeps cas [] a refl)

insert_idem :
    {V : Type 0} (k : String) (v : V) (m : List (String × V))
    → insert k v (insert k v m) ≡ insert k v m
insert_idem k v [] = ground (arith, eq_iff k k)
insert_idem k v ((j, w) ∷ m) = ground (arith, eq_iff j k, insert_idem k v m)

module _ (root : PkiRotation) where
  -- The owners with the root added, unless it is one.
  abbrev with_owner : List OwnerReference → List OwnerReference
  with_owner refs =
      if any (refers_to root.name) refs
      then refs
      else refs ++ record { kind = pkirotation_kind; name = root.name; uid = root.uid } ∷ []

  any_append :
      (p : OwnerReference → Bool) (refs : List OwnerReference) (ref : OwnerReference)
      → p ref ≡ true
      → any p (refs ++ ref ∷ []) ≡ true
  any_append p [] ref h = ground (arith, h)
  any_append p (r ∷ refs) ref h = ground (arith, any_append p refs ref h)

  refers_itself :
      refers_to root.name (record { kind = pkirotation_kind; name = root.name; uid = root.uid })
      ≡ true
  unfolding refers_to
  refers_itself = ground (arith, eq_iff root.name root.name)

  with_owner-any : (refs : List OwnerReference) → any (refers_to root.name) (with_owner refs) ≡ true
  with_owner-any refs = ground (arith, any_append (refers_to root.name) refs _ refers_itself)

  with_owner_idem : (refs : List OwnerReference) → with_owner (with_owner refs) ≡ with_owner refs
  with_owner_idem refs = rw (with_owner-any refs) refl

  -- Reconciling a child that was adopted already changes nothing of it: no owner and no label is
  -- added twice.
  pub adopt_child_idem :
      (cert : Certificate) (child : PkiRotation)
      → adopt_child root cert (adopt_child root cert child) ≡ adopt_child root cert child
  unfolding adopt_child
  adopt_child_idem cert child = λ i. record (adopt_child root cert child) {
    labels = insert_idem owner_pkir_label root.name child.labels i;
    owner_references = with_owner_idem child.owner_references i;
  }
