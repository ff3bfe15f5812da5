-- ===== src/Controller/Watches/Exact.antt =====
-- The mappers wake just the rotations that an object concerns.
use private_pki_operator.Common.{
  ◌≡◌, refl, ap, ◌∙◌, String, Bool, false, ◌&&◌, Option, none, some, List, [], ◌∷◌, map, ◌==◌,
  if◌then◌else◌, keep, any, has_name, arith, Bool-cases, inl, inr, ◌≢◌,
}
use private_pki_operator.Action.{Result, ok, err, panic, pure, handle}
use private_pki_operator.Action.Runs.{run_bind}
use private_pki_operator.Api.{PkiRotation, is_intermediate_ca, CertificateRef}
use private_pki_operator.Cluster.{Client, Certificate}
use private_pki_operator.Controller.Watches.{
  WatchedObject, declares_root, waits, name_of, or_else, holds, pki_rotations_matching,
  certificate_to_pki_rotations,
}

-- Is a rotation of this name among those that pass a test?
abbrev pub names_one : String → (PkiRotation → Bool) → List PkiRotation → Bool
names_one n p pkirs = any (λ (x : PkiRotation). x.name == n && p x) pkirs

has_name-keep :
    (n : String) (p : PkiRotation → Bool) (pkirs : List PkiRotation)
    → has_name n (map name_of (keep p pkirs)) ≡ names_one n p pkirs
has_name-keep n p [] = refl
has_name-keep n p (x ∷ pkirs) = ground (arith, has_name-keep n p pkirs)

-- A list that fails has nothing.
abbrev pub listed : Result (List PkiRotation) → List PkiRotation
listed (ok pkirs) = pkirs
listed _ = []

-- A list that may fail, but does not panic.
abbrev pub Answers : Result (List PkiRotation) → Type 0
Answers r = (t : String) → r ≢ panic t

module _ {W : Type 0} (c : Client W) where
  matching :
      (p : PkiRotation → Bool) (w w' : W) (r : Result (List PkiRotation))
      → c.list_pki_rotations none w ≡ (r, w')
      → Answers r
      → pki_rotations_matching c p w ≡ (ok (map name_of (keep p (listed r))), w')
  unfolding pki_rotations_matching handle pure
  matching p w w' (ok pkirs) e answers = rw e refl
  matching p w w' (err x) e answers = rw e refl
  matching p w w' (panic t) e answers = absurd (answers t refl)

  -- The requests of an event of a certificate, by the two lists of rotations that it may read.
  abbrev woken : WatchedObject → List PkiRotation → List PkiRotation → List String
  woken obj first second =
      if any (declares_root obj.name obj.namespace) first
      then map name_of (keep (declares_root obj.name obj.namespace) first)
      else map name_of (keep (λ pkir. waits pkir.status.phase) second)

  or_else_runs :
      (p : PkiRotation → Bool) (q : PkiRotation → Bool) (w1 w2 : W) (first : List PkiRotation)
      (second : Result (List PkiRotation))
      → c.list_pki_rotations none w1 ≡ (second, w2)
      → Answers second
      → (or_else (map name_of (keep p first)) (pki_rotations_matching c q) w1).0
        ≡ ok (
            if any p first
            then map name_of (keep p first)
            else map name_of (keep q (listed second)))
  unfolding pure
  or_else_runs p q w1 w2 [] second e answers = ap (λ x. x.0) (matching q w1 w2 second e answers)
  or_else_runs p q w1 w2 (x ∷ first) second e answers = elim (Bool-cases (p x)) [
    | inl here ↦ rw here refl
    | inr not_here ↦ rw not_here (or_else_runs p q w1 w2 first second e answers)
  ]

  -- If its two lists of the rotations do not panic, an event of a certificate wakes the rotations
  -- that declare it as their root, if the first list has one, and otherwise those of the second
  -- list that wait for re-issued certificates; no others. A list that fails counts as an empty one.
  pub certificate_to_pki_rotations-exact :
      (obj : WatchedObject) (w w1 w2 : W) (first second : Result (List PkiRotation)) (n : String)
      → c.list_pki_rotations none w ≡ (first, w1)
      → c.list_pki_rotations none w1 ≡ (second, w2)
      → Answers first
      → Answers second
      → (names : List String) × ((certificate_to_pki_rotations c obj w).0 ≡ ok names)
        × (has_name n names ≡ (
            if any (declares_root obj.name obj.namespace) (listed first)
            then names_one n (declares_root obj.name obj.namespace) (listed first)
            else names_one n (λ pkir. waits pkir.status.phase) (listed second)))
  unfolding certificate_to_pki_rotations
  certificate_to_pki_rotations-exact obj w w1 w2 first second n e f answers answers2 =
      let declares = declares_root obj.name obj.namespace in
      let waiting = λ (pkir : PkiRotation). waits pkir.status.phase in
      (
        woken obj (listed first) (listed second),
        ap (λ x. x.0)
              (run_bind (pki_rotations_matching c declares) _ w w1
                (map name_of (keep declares (listed first)))
                (matching declares w w1 first e answers))
            ∙ or_else_runs declares waiting w1 w2 (listed first) second f answers2,
        ground (
          arith,
          has_name-keep n declares (listed first),
          has_name-keep n waiting (listed second),
        ),
      )

-- Reads of certificates that leave the outside as it is, and what they find.
pub record Quiet {W : Type 0} (c : Client W) (w : W) (found : String → String → Result Certificate)
    : Type 0 where
  pub reads : (ns n : String) → c.get_certificate ns n w ≡ (found ns n, w)
  pub no_panic : (ns n : String) (t : String) → found ns n ≢ panic t

-- Is the Secret the one of the intermediate's certificate?
abbrev pub is_found : WatchedObject → Result Certificate → Bool
is_found secret (ok cert) = holds secret cert
is_found secret _ = false

abbrev pub ref_is_found :
    (String → String → Result Certificate) → WatchedObject → Option CertificateRef → Bool
ref_is_found found secret none = false
ref_is_found found secret (some ref) =
    is_found secret (found ref.certificate_namespace ref.certificate_name)

abbrev pub is_concerned :
    (String → String → Result Certificate) → WatchedObject → PkiRotation → Bool
is_concerned found secret pkir =
    is_intermediate_ca pkir.spec.role && ref_is_found found secret pkir.spec.intermediate_ca_ref
