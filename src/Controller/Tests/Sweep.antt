-- ===== src/Controller/Tests/Sweep.antt =====
-- The theorem about the sweep, on the children of the root in memory.
use private_pki_operator.Common.{true, ◌≡◌, ◌↔◌, refl, List, [], ◌∷◌}
use private_pki_operator.Action.{ok, pure, fail, lift, gets, within, modify, handle, ◌>>=◌}
use private_pki_operator.Api.{idle}
use private_pki_operator.Cluster.{Certificate}
use private_pki_operator.Cluster.Memory.{memory}
use private_pki_operator.Pki.KeyId.{parse_cert, format_key_id, akid_from_pem}
use private_pki_operator.Pki.Toy.{encode_field, decode_field}
use private_pki_operator.Controller.State.{call, get_pkir, get_reader, record_event}
use private_pki_operator.Controller.Certificates.{
  certificate_akid, tls_crt, condition_is_true, trigger_reissuance,
}
use private_pki_operator.Controller.StaleSweep.{sweep_child, sweep_children, reissue_stale}
use private_pki_operator.Controller.StaleSweep.Untouched.{AllUntouched, sweep_children-untouched}
use private_pki_operator.Controller.Example.{certificate, start}

abbrev children : List Certificate
children = certificate "intermediate" "root-issuer" true 6 ∷ []

sweep_children-untouched_example :
    (sweep_children memory "02" children (start idle) ≡ (ok 0, start idle))
    ↔ AllUntouched memory "02" children (start idle) (start idle)
sweep_children-untouched_example =
    sweep_children-untouched memory "02" children (start idle) (start idle)

-- The intermediate is signed by 02, and so it is stale for any other key.
own_key_left : (sweep_children memory "02" children (start idle)).0 ≡ ok 0
unfolding sweep_children sweep_child certificate_akid tls_crt condition_is_true akid_from_pem
    parse_cert format_key_id encode_field decode_field get_reader call lift pure handle ◌>>=◌ fail
own_key_left = refl

other_key_triggered : (sweep_children memory "05" children (start idle)).0 ≡ ok 1
unfolding sweep_children sweep_child reissue_stale trigger_reissuance certificate_akid tls_crt
    condition_is_true akid_from_pem parse_cert format_key_id encode_field decode_field get_reader
    get_pkir record_event call lift gets within modify pure handle ◌>>=◌ fail
other_key_triggered = refl
