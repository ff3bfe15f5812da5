-- ===== src/Controller/StaleSweep/Untouched.antt =====
-- sweepStaleDirectChildren: which children are left alone.
use private_pki_operator.Common.{
  ℕ, ◌+◌, String, Bool, true, false, not, ◌||◌, ◌≡◌, ◌≢◌, ◌⊎◌, ◌↔◌, inl, inr, refl, sym, ap, ◌∙◌,
  subst, List, [], ◌∷◌, ◌==◌, eq_iff, arith, if◌then◌else◌,
}
use private_pki_operator.Action.{Error, ok, err, Action, pure, handle}
use private_pki_operator.Action.Runs.{
  pure_ok, bind_ok, handle_ok, run_bind, run_handle, run_handle_err,
}
use private_pki_operator.Cluster.{Client, Certificate}
use private_pki_operator.Controller.State.{State}
use private_pki_operator.Controller.Certificates.{
  certificate_akid, is_certificate_resource_ready, is_certificate_issuing_true,
}
use private_pki_operator.Controller.StaleSweep.{reissue_stale, sweep_child, sweep_children}

-- One child that is no stale one: it is on its way already, its key cannot be read, or it was signed
-- by the CA's key, or says nothing of its signer's key. Only its Secret was read.
pub data Untouched {W : Type 0} (c : Client W) (ca_skid : String) (child : Certificate)
    : State W → State W → Type 0 where
  under_way :
      {s : State W}
      → (is_certificate_resource_ready child ≡ false) ⊎ (is_certificate_issuing_true child ≡ true)
      → Untouched c ca_skid child s s
  unreadable :
      {s s' : State W}
      → is_certificate_resource_ready child ≡ true
      → is_certificate_issuing_true child ≡ false
      → (e : Error) → certificate_akid c child s ≡ (err e, s')
      → Untouched c ca_skid child s s'
  own_key :
      {s s' : State W}
      → is_certificate_resource_ready child ≡ true
      → is_certificate_issuing_true child ≡ false
      → (akid : String) → certificate_akid c child s ≡ (ok akid, s')
      → (akid ≡ "") ⊎ (akid ≡ ca_skid)
      → Untouched c ca_skid child s s'

pub data AllUntouched {W : Type 0} (c : Client W) (ca_skid : String)
    : List Certificate → State W → State W → Type 0 where
  no_children : {s : State W} → AllUntouched c ca_skid [] s s
  next_child :
      {child : Certificate} {children : List Certificate} {s s1 s' : State W}
      → Untouched c ca_skid child s s1
      → AllUntouched c ca_skid children s1 s'
      → AllUntouched c ca_skid (child ∷ children) s s'

busy_cases :
    (ready issuing : Bool)
    → (((ready ≡ false) ⊎ (issuing ≡ true)) × ((not ready || issuing) ≡ true))
      ⊎ (((ready ≡ true) × (issuing ≡ false)) × ((not ready || issuing) ≡ false))
busy_cases true true = inl (inr refl, refl)
busy_cases true false = inr ((refl, refl), refl)
busy_cases false issuing = inl (inl refl, refl)

own_cases :
    (akid ca_skid : String)
    → (((akid ≡ "") ⊎ (akid ≡ ca_skid)) × ((akid == "" || akid == ca_skid) ≡ true))
      ⊎ ((akid == "" || akid == ca_skid) ≡ false)
own_cases akid ca_skid = ground (arith, eq_iff akid "", eq_iff akid ca_skid)

busy_test :
    {ready issuing : Bool} → (ready ≡ false) ⊎ (issuing ≡ true) → (not ready || issuing) ≡ true
busy_test h = ground (arith, h)

free_test : {ready issuing : Bool} → ready ≡ true → issuing ≡ false → (not ready || issuing) ≡ false
free_test h h' = ground (arith, h, h')

own_test :
    {ca_skid : String} (akid : String)
    → (akid ≡ "") ⊎ (akid ≡ ca_skid)
    → (akid == "" || akid == ca_skid) ≡ true
own_test {ca_skid} akid h = ground (arith, eq_iff akid "", eq_iff akid ca_skid, h)

module _ {W : Type 0} (c : Client W) (ca_skid : String) where
  reissue_stale_counts :
      (child : Certificate) (akid : String) (s s' : State W)
      → reissue_stale c ca_skid child akid s ≢ (ok 0, s')
  unfolding reissue_stale
  reissue_stale_counts child akid s s' e =
      let (_, s1, _, next) = bind_ok _ _ s 0 s' e in
      let (_, s2, _, done) = bind_ok _ _ s1 0 s' next in
      let (one, _) = pure_ok 1 0 s2 s' done in omega (arith, one)

  module _ (child : Certificate) where
    -- What follows on a read key, of a child that is not on its way.
    abbrev judge : String → Action (State W) ℕ
    judge akid =
        if akid == "" || akid == ca_skid then pure 0 else reissue_stale c ca_skid child akid

    abbrev branch : Bool → Action (State W) ℕ
    branch b = if b then pure 0 else handle (certificate_akid c child) judge (λ _. pure 0)

    judged :
        (akid : String) (s s' : State W)
        → judge akid s ≡ (ok 0, s')
        → ((akid ≡ "") ⊎ (akid ≡ ca_skid)) × (s ≡ s')
    judged akid s s' e = elim (own_cases akid ca_skid) [
      | inl (own, test) ↦ (
        own,
        (pure_ok 0 0 s s' (
            sym (ap (λ b. (if b then pure 0 else reissue_stale c ca_skid child akid) s) test)
            ∙ e)).1,
      )
      | inr test ↦ absurd (
          reissue_stale_counts child akid s s'
            (sym (ap (λ b. (if b then pure 0 else reissue_stale c ca_skid child akid) s) test) ∙ e))
    ]

    checked :
        (s s' : State W)
        → is_certificate_resource_ready child ≡ true
        → is_certificate_issuing_true child ≡ false
        → handle (certificate_akid c child) judge (λ _. pure 0) s ≡ (ok 0, s')
        → Untouched c ca_skid child s s'
    checked s s' ready idle e =
        elim (handle_ok (certificate_akid c child) judge (λ _. pure 0) s 0 s' e) [
          | inl (akid, s1, read, next) ↦
              let (own, same) = judged akid s1 s' next in
              subst (Untouched c ca_skid child s) same (own_key ready idle akid read own)
          | inr (error, s1, read, next) ↦
              subst (Untouched c ca_skid child s) (pure_ok 0 0 s1 s' next).1
                (unreadable ready idle error read)
        ]

    sweep_child-Untouched :
        (s s' : State W)
        → sweep_child c ca_skid child s ≡ (ok 0, s')
        → Untouched c ca_skid child s s'
    unfolding sweep_child
    sweep_child-Untouched s s' e =
        elim (busy_cases (is_certificate_resource_ready child)
          (is_certificate_issuing_true child)) [
            | inl (busy, test) ↦
                subst (Untouched c ca_skid child s)
                  (pure_ok 0 0 s s' (sym (ap (λ b. branch b s) test) ∙ e)).1 (under_way busy)
            | inr ((ready, idle), test) ↦
                checked s s' ready idle (sym (ap (λ b. branch b s) test) ∙ e)
          ]

    Untouched-sweep_child :
        (s s' : State W)
        → Untouched c ca_skid child s s'
        → sweep_child c ca_skid child s ≡ (ok 0, s')
    unfolding sweep_child pure
    Untouched-sweep_child s s' (under_way busy) = ap (λ b. branch b s) (busy_test busy)
    Untouched-sweep_child s s' (unreadable ready idle e read) =
        ap (λ b. branch b s) (free_test ready idle)
        ∙ run_handle_err (certificate_akid c child) judge (λ _. pure 0) s s' e read
    Untouched-sweep_child s s' (own_key ready idle akid read own) =
        ap (λ b. branch b s) (free_test ready idle)
        ∙ run_handle (certificate_akid c child) judge (λ _. pure 0) s s' akid read
        ∙ ap (λ b. (if b then pure 0 else reissue_stale c ca_skid child akid) s')
            (own_test akid own)

  sweep_children-AllUntouched :
      (children : List Certificate) (s s' : State W)
      → sweep_children c ca_skid children s ≡ (ok 0, s')
      → AllUntouched c ca_skid children s s'
  unfolding sweep_children
  sweep_children-AllUntouched [] s s' e =
      subst (AllUntouched c ca_skid [] s) (pure_ok 0 0 s s' e).1 no_children
  sweep_children-AllUntouched (child ∷ children) s s' e =
      let (n, s1, first, next) = bind_ok (sweep_child c ca_skid child) _ s 0 s' e in
      let (m, s2, rest, done) = bind_ok (sweep_children c ca_skid children) _ s1 0 s' next in
      let (none_left, same) = pure_ok (n + m) 0 s2 s' done in
      subst (AllUntouched c ca_skid (child ∷ children) s) same (
        next_child
          (sweep_child-Untouched child s s1
            (first ∙ ap (λ k. (ok k, s1)) (omega (arith, none_left))))
          (sweep_children-AllUntouched children s1 s2
            (rest ∙ ap (λ k. (ok k, s2)) (omega (arith, none_left)))))

  AllUntouched-sweep_children :
      (children : List Certificate) (s s' : State W)
      → AllUntouched c ca_skid children s s'
      → sweep_children c ca_skid children s ≡ (ok 0, s')
  unfolding sweep_children pure
  AllUntouched-sweep_children [] s s' no_children = refl
  AllUntouched-sweep_children (child ∷ children) s s' (next_child {s1 = s1} u us) =
      run_bind (sweep_child c ca_skid child) _ s s1 0 (Untouched-sweep_child child s s1 u)
      ∙ run_bind (sweep_children c ca_skid children) _ s1 s' 0
          (AllUntouched-sweep_children children s1 s' us)

  -- The sweep counts no child exactly when each one is on its way already, cannot be read, or was
  -- signed by the CA's own key as far as it says; then nothing but the Secrets was read.
  pub sweep_children-untouched :
      (children : List Certificate) (s s' : State W)
      → (sweep_children c ca_skid children s ≡ (ok 0, s')) ↔ AllUntouched c ca_skid children s s'
  sweep_children-untouched children s s' =
      (sweep_children-AllUntouched children s s', AllUntouched-sweep_children children s s')
