-- ===== src/Manager/Tests.antt =====
-- A process whose steps are numbered, and which listens once its manager is started.
use private_pki_operator.Common.{ℕ, ◌+◌, false, true, ◌≡◌, ◌⊎◌, refl, Bool}
use private_pki_operator.Action.{ok, handle, pure}
use private_pki_operator.Manager.{Platform, parsed, main, run_manager, or_exit, must}
use private_pki_operator.Manager.Launch.{Keeps, Launched, main-Launched}

abbrev counting : Platform (ℕ × Bool)
counting = record {
  parse_flags = λ f (n, b).
      (parsed (record f { metrics_addr = ":8080"; secure_metrics = false }), (n + 1, b));
  new_manager = λ o (n, b). (ok tt, (n + 1, b));
  set_up_controller = λ (n, b). (ok tt, (n + 1, b));
  register_fleet_collector = λ (n, b). (ok tt, (n + 1, b));
  add_healthz_check = λ (n, b). (ok tt, (n + 1, b));
  add_readyz_check = λ (n, b). (ok tt, (n + 1, b));
  start_manager = λ (n, b). (ok tt, (n + 1, true));
}

abbrev IsQuiet : ℕ × Bool → Type 0
IsQuiet (n, listens) = listens ≡ false

counting-Keeps : Keeps counting IsQuiet
counting-Keeps = record {
  by_parse = λ s h. h;
  by_new = λ o s h. h;
  by_controller = λ s h. h;
  by_collector = λ s h. h;
  by_healthz = λ s h. h;
  by_readyz = λ s h. h;
}

-- The whole start.
runs : main counting (0, false) ≡ (ok 0, (7, true))
unfolding main run_manager or_exit must handle pure
runs = refl

main-Launched_example : IsQuiet (main counting (0, false)).1 ⊎ Launched counting (0, false)
main-Launched_example = main-Launched counting IsQuiet counting-Keeps (0, false) refl
