-- ===== src/Controller/Discovery/Levels.antt =====
-- discoverDownstreamBFS on a cluster that does not change while it is searched: its levels, as
-- functions of the lists.
use private_pki_operator.Common.{
  ℕ, zero, suc, ◌≡◌, refl, sym, ap, subst, Bool, true, false, Option, none, some, List, [], ◌∷◌,
  ◌++◌, map, foldl, if◌then◌else◌, keep, String,
}
use private_pki_operator.Action.{pure, Result, ok, err, panic, Action, crash, ◌>>=◌}
use private_pki_operator.Action.Triple.{
  Outcome, Ensures, Triple-pure, Triple-within, Triple-bind, Triple-weaken, Triple-from,
}
use private_pki_operator.Cluster.{Client, Certificate, Issuer}
use private_pki_operator.Controller.State.{State, call}
use private_pki_operator.Controller.Certificates.{list_cluster_issuers}
use private_pki_operator.Controller.Discovery.{
  IssuerAnchor, Downstream, cluster_anchor, issuer_anchor, anchor_scope, is_child_of,
  is_next_cluster_issuer, is_next_issuer, find_issuers_for_ca_cert, Level, nothing_found,
  collect_child, collect_children, collect_level, discover_downstream_bfs,
}

-- What the cluster has.
pub record Snapshot : Type 0 where
  pub certificates : Option String → List Certificate
  pub cluster_issuers : List Issuer
  pub issuers : List Issuer

-- The call stays within the states `At`, and what it gives there, when it succeeds, is the value.
abbrev pub Gives : {W A : Type 0} → (W → Type 0) → (W → Result A × W) → A → Type 0
Gives {W} {A} At m a = (w : W) → At w → At (m w).1 × ((x : A) → (m w).0 ≡ ok x → x ≡ a)

-- While the cluster is in one of the states `At`, which reading it does not leave, the client lists
-- what the snapshot has, or fails.
pub record IsSteady {W : Type 0} (c : Client W) (At : W → Type 0) (snap : Snapshot) : Type 0 where
  pub certificates :
      (scope : Option String) → Gives At (c.list_certificates scope) (snap.certificates scope)
  pub cluster_issuers : Gives At c.list_cluster_issuers snap.cluster_issuers
  pub issuers : Gives At c.list_issuers snap.issuers

module _ (snap : Snapshot) where
  -- The issuers that a CA certificate backs, less the one that signed it.
  abbrev pub backed : Certificate → List IssuerAnchor
  backed ca =
      map cluster_anchor (keep (is_next_cluster_issuer ca) snap.cluster_issuers)
      ++ map issuer_anchor (keep (is_next_issuer ca) snap.issuers)

  -- The certificates that an issuer signed.
  abbrev pub children : IssuerAnchor → List Certificate
  children a = keep (is_child_of a) (snap.certificates (anchor_scope a))

  abbrev pub add_child : Level → Certificate → Level
  add_child l cert =
      if cert.is_ca
      then record {
        found = record l.found { cas = l.found.cas ++ cert ∷ [] };
        next_anchors = l.next_anchors ++ backed cert;
      }
      else record l { found = record l.found { leaves = l.found.leaves ++ cert ∷ [] } }

  abbrev pub add_children : Level → List Certificate → Level
  add_children = foldl add_child

  abbrev pub add_anchor : Level → IssuerAnchor → Level
  add_anchor l a = add_children l (children a)

  abbrev pub add_level : Level → List IssuerAnchor → Level
  add_level = foldl add_anchor

  abbrev pub with_below : Level → Option Downstream → Option Downstream
  with_below l none = none
  with_below l (some below) =
      some (record { cas = l.found.cas ++ below.cas; leaves = l.found.leaves ++ below.leaves })

  abbrev pub first_level : Level
  first_level = record { found = nothing_found; next_anchors = [] }

  -- The search; none if it is deeper than the stack.
  abbrev pub levels : ℕ → List IssuerAnchor → Option Downstream
  levels zero anchors = none
  levels (suc depth) [] = some nothing_found
  levels (suc depth) (a ∷ anchors) =
      with_below (add_level first_level (a ∷ anchors))
        (levels depth (add_level first_level (a ∷ anchors)).next_anchors)

-- From the states `At`, whatever the call returns is the value, and the state is one of them.
abbrev pub Returns : {W A : Type 0} → (W → Type 0) → Action (State W) A → A → Type 0
Returns At m a = Ensures (λ s. At s.world) m (λ x s. (x ≡ a) × At s.world)

module _ {W : Type 0} (At : W → Type 0) where
  Returns-bind :
      {A B : Type 0} (m : Action (State W) A) (f : A → Action (State W) B) (a : A) (b : B)
      → Returns At m a
      → Returns At (f a) b
      → Returns At (m >>= f) b
  Returns-bind m f a b km kf = Triple-bind m f km (λ x. record {
    at = λ s (e, h).
        subst (λ y. Outcome (λ z t. (z ≡ b) × At t.world) (λ _. Unit) (f y s).0 (f y s).1) (sym e)
          (kf.at s h);
  })

  Returns-if :
      {A : Type 0} (b : Bool) (m n : Action (State W) A) (x y : A)
      → Returns At m x
      → Returns At n y
      → Returns At (if b then m else n) (if b then x else y)
  Returns-if true m n x y km kn = km
  Returns-if false m n x y km kn = kn

  Returns-pure : {A : Type 0} (a : A) → Returns At (pure a) a
  Returns-pure a = Triple-pure a (λ s h. (refl, h))

  given :
      {A : Type 0} (r : Result A) (a : A) (s : State W)
      → At s.world
      → ((x : A) → r ≡ ok x → x ≡ a)
      → Outcome (λ x t. (x ≡ a) × At t.world) (λ _. Unit) r s
  given (ok x) a s h g = (g x refl, h)
  given (err e) a s h g = tt
  given (panic t) a s h g = tt

  Returns-call : {A : Type 0} (m : W → Result A × W) (a : A) → Gives At m a → Returns At (call m) a
  unfolding call
  Returns-call m a g = record {
    at = λ s h.
        let (stays, same) = g s.world h in
        given (m s.world).0 a (record s { world = (m s.world).1 }) stays same;
  }

module _ {W : Type 0} (c : Client W) (At : W → Type 0) (snap : Snapshot)
    (steady : IsSteady c At snap) where
  pub Returns-find :
      (ca : Certificate) → Returns At (find_issuers_for_ca_cert c ca) (backed snap ca)
  unfolding find_issuers_for_ca_cert list_cluster_issuers
  Returns-find ca =
      Returns-bind At _ _ snap.cluster_issuers _
        (Triple-within _ _ (Returns-call At _ _ steady.cluster_issuers))
        (Returns-bind At _ _ snap.issuers _ (Triple-within _ _ (Returns-call At _ _ steady.issuers))
          (Returns-pure At _))

  Returns-child :
      (l : Level) (cert : Certificate) → Returns At (collect_child c l cert) (add_child snap l cert)
  unfolding collect_child
  Returns-child l cert =
      Returns-if At cert.is_ca _ _ _ _
        (Returns-bind At _ _ (backed snap cert) _ (Triple-within _ _ (Returns-find cert))
          (Returns-pure At _))
        (Returns-pure At _)

  Returns-children :
      (certs : List Certificate) (l : Level)
      → Returns At (collect_children c l certs) (add_children snap l certs)
  unfolding collect_children
  Returns-children [] l = Returns-pure At l
  Returns-children (cert ∷ certs) l =
      Returns-bind At _ _ (add_child snap l cert) _ (Returns-child l cert)
        (Returns-children certs (add_child snap l cert))

  Returns-level :
      (anchors : List IssuerAnchor) (l : Level)
      → Returns At (collect_level c l anchors) (add_level snap l anchors)
  unfolding collect_level
  Returns-level [] l = Returns-pure At l
  Returns-level (a ∷ anchors) l =
      Returns-bind At _ _ (snap.certificates (anchor_scope a)) _
        (Triple-within _ _ (Returns-call At _ _ (steady.certificates (anchor_scope a))))
        (Returns-bind At _ _ (add_children snap l (children snap a)) _
          (Returns-children (children snap a) l)
          (Returns-level anchors (add_children snap l (children snap a))))

  -- What the search returns is what the levels have.
  pub Ensures-levels :
      (depth : ℕ) (anchors : List IssuerAnchor)
      → Ensures
          (λ s. At s.world)
          (discover_downstream_bfs c depth anchors)
          (λ found _. levels snap depth anchors ≡ some found)
  unfolding discover_downstream_bfs crash
  Ensures-levels zero anchors = record { at = λ s h. tt }
  Ensures-levels (suc depth) [] = Triple-pure _ (λ s h. refl)
  Ensures-levels (suc depth) (a ∷ anchors) =
      Triple-bind _ _ (Returns-level (a ∷ anchors) (first_level snap)) (λ l.
        Triple-from (λ s0 (e, h0).
          Triple-bind _ _
            (Triple-weaken _ (λ s same. subst (λ (t : State W). At t.world) (sym same) h0)
              (Ensures-levels depth l.next_anchors) (λ x s h. h) (λ s h. h))
            (λ below. Triple-pure _ (λ s h.
              subst
                (λ m.
                  with_below snap m (levels snap depth m.next_anchors)
                  ≡ some (record {
                    cas = l.found.cas ++ below.cas;
                    leaves = l.found.leaves ++ below.leaves;
                  }))
                e (ap (with_below snap l) h)))))
