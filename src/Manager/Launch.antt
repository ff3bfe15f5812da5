-- ===== src/Manager/Launch.antt =====
-- cmd/main.go: what has been done before the manager starts, however the process ends.
use private_pki_operator.Common.{ℕ, ◌≡◌, ◌⊎◌, inl, inr, refl, sym, ◌∙◌, subst}
use private_pki_operator.Action.{Error, Result, ok, err, panic, Action, handle, pure, crash}
use private_pki_operator.Manager.{
  OperatorFlags, ManagerOptions, default_flags, tls_options, manager_options, Parsed, parsed, exits,
  Platform, or_exit, must, run_manager, run_parsed, main,
}
use private_pki_operator.Manager.Servers.{IsGuarded, manager_options-IsGuarded}

-- What everything before the start leaves as it is, as that no server listens.
pub record Keeps {P : Type 0} (p : Platform P) (I : P → Type 0) : Type 0 where
  pub by_parse : (s : P) → I s → I (p.parse_flags default_flags s).1
  pub by_new : (o : ManagerOptions) (s : P) → I s → I (p.new_manager o s).1
  pub by_controller : (s : P) → I s → I (p.set_up_controller s).1
  pub by_collector : (s : P) → I s → I (p.register_fleet_collector s).1
  pub by_healthz : (s : P) → I s → I (p.add_healthz_check s).1
  pub by_readyz : (s : P) → I s → I (p.add_readyz_check s).1

-- The manager was started: each step before was made, in the state that the one before left, and
-- succeeded; its options are guarded; and the process ends as the manager does.
pub record Launched {P : Type 0} (p : Platform P) (s : P) : Type 0 where
  pub flags : OperatorFlags
  pub s1 : P
  pub flags_parsed : p.parse_flags default_flags s ≡ (parsed flags, s1)
  pub options : ManagerOptions
  pub guarded : IsGuarded flags options
  pub s2 : P
  pub made : p.new_manager options s1 ≡ (ok tt, s2)
  pub s3 : P
  pub controller_set_up : p.set_up_controller s2 ≡ (ok tt, s3)
  pub s4 : P
  pub collector_registered : p.register_fleet_collector s3 ≡ (ok tt, s4)
  pub s5 : P
  pub healthz_added : p.add_healthz_check s4 ≡ (ok tt, s5)
  pub s6 : P
  pub readyz_added : p.add_readyz_check s5 ≡ (ok tt, s6)
  pub started : main p s ≡ or_exit p.start_manager (pure 0) s6

module _ {P : Type 0} (I : P → Type 0) (G : Type 0) where
  -- One step and what follows it. It fails, and what held still does; or what follows begins in the
  -- state that it left.
  after_step :
      (m : Action P Unit) (next : Action P ℕ) (failed : Error → Action P ℕ) (s s' : P)
      (r : Result (Unit {0}))
      → m s ≡ (r, s')
      → I s'
      → ((e : Error) (x : P) → (failed e x).1 ≡ x)
      → (m s ≡ (ok tt, s') → handle m (λ _. next) failed s ≡ next s' → I (next s').1 ⊎ G)
      → I (handle m (λ _. next) failed s).1 ⊎ G
  unfolding handle
  after_step m next failed s s' (ok tt) e i same k = rw e (k e (rw e refl))
  after_step m next failed s s' (err x) e i same k = rw e (inl (subst I (sym (same x s')) i))
  after_step m next failed s s' (panic t) e i same k = rw e (inl i)

  after_or_exit :
      (m : Action P Unit) (next : Action P ℕ) (s : P)
      → I (m s).1
      → (m s ≡ (ok tt, (m s).1) → or_exit m next s ≡ next (m s).1 → I (next (m s).1).1 ⊎ G)
      → I (or_exit m next s).1 ⊎ G
  unfolding or_exit pure
  after_or_exit m next s i k = after_step m next _ s (m s).1 (m s).0 refl i (λ e x. refl) k

  after_must :
      (m : Action P Unit) (next : Action P ℕ) (s : P)
      → I (m s).1
      → (m s ≡ (ok tt, (m s).1) → must m next s ≡ next (m s).1 → I (next (m s).1).1 ⊎ G)
      → I (must m next s).1 ⊎ G
  unfolding must crash
  after_must m next s i k = after_step m next _ s (m s).1 (m s).0 refl i (λ e x. refl) k

module _ {P : Type 0} (p : Platform P) (I : P → Type 0) (keeps : Keeps p I) where
  launch :
      (s s1 : P) (flags : OperatorFlags)
      → p.parse_flags default_flags s ≡ (parsed flags, s1)
      → main p s ≡ run_manager p flags s1
      → I s1
      → I (run_manager p flags s1).1 ⊎ Launched p s
  unfolding run_manager
  launch s s1 flags read run i1 =
      let options = manager_options flags (tls_options flags) in
      let s2 = (p.new_manager options s1).1 in
      let s3 = (p.set_up_controller s2).1 in
      let s4 = (p.register_fleet_collector s3).1 in
      let s5 = (p.add_healthz_check s4).1 in
      let s6 = (p.add_readyz_check s5).1 in
      let i2 = keeps.by_new options s1 i1 in
      let i3 = keeps.by_controller s2 i2 in
      let i4 = keeps.by_collector s3 i3 in
      let i5 = keeps.by_healthz s4 i4 in
      let G = Launched p s in
      after_or_exit I G _ _ s1 i2 (λ made run1. after_or_exit I G _ _ s2 i3 (λ set_up run2.
        after_must I G _ _ s3 i4 (λ registered run3. after_or_exit I G _ _ s4 i5 (λ healthz run4.
          after_or_exit I G _ _ s5 (keeps.by_readyz s5 i5) (λ readyz run5. inr (record {
            flags = flags;
            s1 = s1;
            flags_parsed = read;
            options = options;
            guarded = manager_options-IsGuarded flags;
            s2 = s2;
            made = made;
            s3 = s3;
            controller_set_up = set_up;
            s4 = s4;
            collector_registered = registered;
            s5 = s5;
            healthz_added = healthz;
            s6 = s6;
            readyz_added = readyz;
            started = run ∙ run1 ∙ run2 ∙ run3 ∙ run4 ∙ run5;
          }))))))

  after_flags :
      (s s1 : P) (r : Parsed)
      → p.parse_flags default_flags s ≡ (r, s1)
      → main p s ≡ run_parsed p r s1
      → I s1
      → I (run_parsed p r s1).1 ⊎ Launched p s
  unfolding pure
  after_flags s s1 (parsed flags) read run i = launch s s1 flags read run i
  after_flags s s1 (exits code) read run i = inl i

  -- Whatever the calls before the start of the manager leave as it is, as that no server listens, is
  -- so when the process ends, with whatever exit code or a panic, unless the manager was started.
  -- Then each call before, of which the registration of the fleet collector and the two checks are
  -- the last, was made in the state that the one before left, and succeeded; metrics are served by
  -- TLS and behind the filter exactly when the flag says so; both servers offer HTTP/1.1 alone unless
  -- HTTP/2 was enabled; their files and addresses are the ones of the flags; and the process ends as
  -- the manager does.
  pub main-Launched : (s : P) → I s → I (main p s).1 ⊎ Launched p s
  unfolding main
  main-Launched s i =
      let (r, s1) = p.parse_flags default_flags s in
      after_flags s s1 r refl refl (keeps.by_parse s i)
