-- ===== src/Controller/Tests/Discovery.antt =====
-- The theorems about the search below an issuer, on clusters whose lists are fixed.
use private_pki_operator.Common.{
  ap, ℕ, false, String, Bool, true, ◌<◌, arith, ◌≡◌, ◌≢◌, ◌⊎◌, inl, inr, refl, sym, subst, some,
  List, [], ◌∷◌, ◌==◌, ◌&&◌, if◌then◌else◌, Any,
}
use private_pki_operator.Action.{Result, ok, panic}
use private_pki_operator.Api.{verifying_chain}
use private_pki_operator.Cluster.{Client, Certificate, Issuer}
use private_pki_operator.Cluster.Memory.{World, memory, in_namespace}
use private_pki_operator.Controller.Certificates.{list_cluster_issuers}
use private_pki_operator.Controller.Discovery.{
  IssuerAnchor, Downstream, anchor_scope, is_child_of, is_next_cluster_issuer, is_next_issuer,
  discover_downstream,
}
use private_pki_operator.Controller.Discovery.Levels.{Snapshot, Gives, IsSteady}
use private_pki_operator.Controller.Discovery.Depth.{IsRanked, discover_downstream-returns}
use private_pki_operator.Controller.Discovery.Cycle.{
  LeadsBack, IsCyclic, discover_downstream-overflows,
}
use private_pki_operator.Controller.Example.{certificate, world, start}

-- The cluster in memory, with these lists.
abbrev fixed : List Certificate → List Issuer → List Issuer → Client World
fixed certs cluster_issuers issuers = record memory {
  list_certificates = λ scope w. (ok certs, w);
  list_cluster_issuers = λ w. (ok cluster_issuers, w);
  list_issuers = λ w. (ok issuers, w);
}

abbrev straight : Client World
straight =
    fixed
      (certificate "intermediate" "root-issuer" true 6
        ∷ certificate "leaf" "intermediate-issuer" false 7
        ∷ [])
      (record { namespace = ""; name = "root-issuer"; ca = some "root" }
        ∷ record { namespace = ""; name = "intermediate-issuer"; ca = some "intermediate" }
        ∷ [])
      []

abbrev height : IssuerAnchor → ℕ
height a = if "root-issuer" == a.name then 1 else 0

root_above : (a : IssuerAnchor) (b : Bool) → ("root-issuer" == a.name) && b ≡ true → height a ≡ 1
root_above a b e = ground (arith, e)

straight-IsRanked : IsRanked straight height
unfolding is_child_of is_next_cluster_issuer
straight-IsRanked a w = (
  λ child ca. record {
    cluster_issuers = λ w'. (
      λ e. absurd cc,
      (λ e. subst (λ n. (0 < n)) (sym (root_above a _ child)) (omega arith), tt),
    );
    issuers = λ w'. tt;
  },
  (λ child ca. absurd cc, tt),
)

abbrev root_issuer : IssuerAnchor
root_issuer = record { name = "root-issuer"; kind = "ClusterIssuer"; namespace = "" }

discover_downstream-returns_example :
    (discover_downstream straight root_issuer (start verifying_chain)).0 ≢ panic "stack overflow"
discover_downstream-returns_example =
    discover_downstream-returns straight height straight-IsRanked root_issuer
      (start verifying_chain) "stack overflow" (omega arith)

-- The cluster in memory as it is, before anybody writes.
abbrev pub AsItIs : World → Type 0
AsItIs w = w ≡ world verifying_chain

abbrev pub snapshot : Snapshot
snapshot = record {
  certificates = λ scope. in_namespace scope (world verifying_chain).certificates;
  cluster_issuers = (world verifying_chain).cluster_issuers;
  issuers = [];
}

given_there :
    {A : Type 0} (m : World → Result A × World) (a : A)
    → m (world verifying_chain) ≡ (ok a, world verifying_chain)
    → Gives AsItIs m a
given_there m a run w e =
    subst (λ w. AsItIs (m w).1 × ((x : _) → (m w).0 ≡ ok x → x ≡ a)) (sym e)
      (ap (λ r. r.1) run, λ x r. cc (run, r))

pub memory-IsSteady : IsSteady memory AsItIs snapshot
memory-IsSteady = record {
  certificates = λ scope. given_there _ _ refl;
  cluster_issuers = given_there _ _ refl;
  issuers = given_there _ _ refl;
}

abbrev found : Downstream
found = record {
  cas = certificate "intermediate" "root-issuer" true 6 ∷ [];
  leaves = certificate "leaf" "intermediate-issuer" false 7 ∷ [];
}

-- Two CA certificates, each of which has the Secret's name of the other's issuer.
abbrev crossing : String → String → String → Certificate
crossing namespace issuer secret = record (certificate "ca" issuer true 6) {
  namespace = namespace;
  secret_name = secret;
  issuer_ref = record { name = issuer; kind = "Issuer" };
}

abbrev crossed : Client World
crossed = fixed (crossing "a" "x" "t" ∷ crossing "b" "y" "s" ∷ []) [] (
    record { namespace = "a"; name = "x"; ca = some "s" }
    ∷ record { namespace = "b"; name = "y"; ca = some "t" }
    ∷ [])

abbrev x_issuer : IssuerAnchor
x_issuer = record { name = "x"; kind = "Issuer"; namespace = "a" }

abbrev y_issuer : IssuerAnchor
y_issuer = record { name = "y"; kind = "Issuer"; namespace = "b" }

abbrev Crossed : IssuerAnchor → Type 0
Crossed a = (a ≡ x_issuer) ⊎ (a ≡ y_issuer)

abbrev LeadsOn : IssuerAnchor → Type 0
LeadsOn a = Any (LeadsBack crossed Crossed a) (crossing "a" "x" "t" ∷ crossing "b" "y" "s" ∷ [])

leads_on : (a : IssuerAnchor) → Crossed a → LeadsOn a
unfolding is_child_of is_next_issuer anchor_scope
leads_on a (inl e) = subst LeadsOn (sym e) (inl (refl, refl, inr (λ w. inr (inl (refl, inr refl)))))
leads_on a (inr e) = subst LeadsOn (sym e) (inr (inl (refl, refl, inr (λ w. inl (refl, inl refl)))))

crossed-IsCyclic : IsCyclic crossed Crossed
crossed-IsCyclic = record {
  certificates = λ a w. leads_on a;
  cluster_issuers = λ w. tt;
  issuers = λ w. tt;
}

discover_downstream-overflows_example :
    (discover_downstream crossed x_issuer (start verifying_chain)).0 ≡ panic "stack overflow"
discover_downstream-overflows_example =
    discover_downstream-overflows crossed Crossed crossed-IsCyclic x_issuer (start verifying_chain)
      (inl refl)
