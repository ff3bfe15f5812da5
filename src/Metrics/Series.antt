-- ===== src/Metrics/Series.antt =====
-- metrics.go: which series of the phase gauge recordPhase and forgetPhase touch.
use private_pki_operator.Common.{
  ℕ, String, Bool, true, false, ◌≡◌, refl, ◌&&◌, ◌||◌, Option, none, some, List, [], ◌∷◌, ◌==◌,
  eq_iff, arith, if◌then◌else◌, has_name, not,
}
use private_pki_operator.Api.{PkiRotation, role_string}
use private_pki_operator.Metrics.{
  Metrics, all_phases, phase_label, record_phases, record_phase, forget_phases, forget_phase,
  set_series,
}

module _ (name role : String) (n r p : String) where
  record_phases-phase :
      (active : String) (phases : List String) (m : Metrics)
      → (record_phases name role active phases m).phase n r p ≡ (
          if n == name && r == role && has_name p phases
          then some (if p == active then 1 else 0)
          else m.phase n r p)
  unfolding record_phases
  record_phases-phase active [] m = ground arith
  record_phases-phase active (q ∷ phases) m = ground (
    arith,
    record_phases-phase active phases
        (record m { phase = set_series name role q (some (if q == active then 1 else 0)) m.phase }),
    eq_iff p q,
    eq_iff q p,
    eq_iff q active,
    eq_iff p active,
  )

  forget_phases-phase :
      (phases : List String) (m : Metrics)
      → (forget_phases name role phases m).phase n r p
        ≡ (if n == name && r == role && has_name p phases then none else m.phase n r p)
  unfolding forget_phases
  forget_phases-phase [] m = ground arith
  forget_phases-phase (q ∷ phases) m = ground (
    arith,
    forget_phases-phase phases (record m { phase = set_series name role q none m.phase }),
    eq_iff p q,
    eq_iff q p,
  )

-- After recordPhase the series of the rotation's current phase reads 1, its series of every other
-- phase of the enumeration reads 0, and no other series has changed.
pub record_phase-phase :
    (pkir : PkiRotation) (m : Metrics) (n r p : String)
    → (record_phase pkir m).phase n r p ≡ (
        if n == pkir.name && r == role_string pkir.spec.role && has_name p all_phases
        then some (if p == phase_label pkir.status.phase then 1 else 0)
        else m.phase n r p)
unfolding record_phase
record_phase-phase pkir m n r p =
    record_phases-phase pkir.name (role_string pkir.spec.role) n r p (phase_label pkir.status.phase)
      all_phases m

eq_sym : (x y : String) → (x == y) ≡ (y == x)
eq_sym x y = ground (arith, eq_iff x y, eq_iff y x)

-- Three deletions, one after the other, as one.
three_times :
    (a b1 b2 b3 h : Bool) (x : Option ℕ)
    → (if a && b3 && h
        then none
        else if a && b2 && h
        then none
        else if a && b1 && h
        then none
        else x)
      ≡ (if a && (b1 || (b2 || (b3 || false))) && h then none else x)
three_times true b1 b2 b3 true x = ground arith
three_times true b1 b2 b3 false x = ground arith
three_times false b1 b2 b3 h x = ground arith

forgotten :
    (name : String) (m : Metrics) (n r p : String)
    → (forget_phases name "" all_phases (
          forget_phases name "IntermediateCA" all_phases
            (forget_phases name "RootCA" all_phases m))).phase
        n r p
      ≡ (if n == name && has_name r ("RootCA" ∷ "IntermediateCA" ∷ "" ∷ []) && has_name p all_phases
          then none
          else m.phase n r p)
forgotten name m n r p =
    rw
      (
        forget_phases-phase name "" n r p all_phases (
            forget_phases name "IntermediateCA" all_phases
              (forget_phases name "RootCA" all_phases m)),
        forget_phases-phase name "IntermediateCA" n r p all_phases
            (forget_phases name "RootCA" all_phases m),
        forget_phases-phase name "RootCA" n r p all_phases m,
        eq_sym "RootCA" r,
        eq_sym "IntermediateCA" r,
        eq_sym "" r,
      )
      (three_times (n == name) (r == "RootCA") (r == "IntermediateCA") (r == "")
        (has_name p all_phases) (m.phase n r p))

forgets :
    (b : Bool) (m m' : Metrics) (a : Bool) (n r p : String)
    → m'.phase n r p ≡ (if a then none else m.phase n r p)
    → (if b then m else m').phase n r p ≡ (if not b && a then none else m.phase n r p)
forgets true m m' a n r p h = refl
forgets false m m' a n r p h = h

-- forgetPhase deletes every phase series of the name, whatever the role, and no other series. An
-- empty name deletes nothing.
pub forget_phase-phase :
    (name : String) (m : Metrics) (n r p : String)
    → (forget_phase name m).phase n r p ≡ (
        if not (name == "")
          && (n == name
              && has_name r ("RootCA" ∷ "IntermediateCA" ∷ "" ∷ [])
              && has_name p all_phases)
        then none
        else m.phase n r p)
unfolding forget_phase
forget_phase-phase name m n r p = forgets (name == "") m _ _ n r p (forgotten name m n r p)
