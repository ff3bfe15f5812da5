-- ===== src/Controller/Discovery/Depth.antt =====
-- discoverDownstreamBFS on issuers that no chain of certificates leads back to, and the depth of the
-- stack.
use private_pki_operator.Common.{
  ℕ, zero, suc, subst, ◌+◌, ◌-◌, ◌<◌, ◌≤◌, ◌≡◌, ◌≢◌, sym, String, true, List, [], ◌∷◌, map, keep,
  All, All-append, All-map, All-kept, All-weaken, arith,
}
use private_pki_operator.Action.{Result, panic}
use private_pki_operator.Action.Total.{
  Fine, Fine-weaken, Total, Total-pure, Total-within, Total-if, Total-bind, not_panic,
}
use private_pki_operator.Cluster.{Client, Certificate}
use private_pki_operator.Controller.State.{State, call}
use private_pki_operator.Controller.Certificates.{list_cluster_issuers}
use private_pki_operator.Controller.Discovery.{
  IssuerAnchor, cluster_anchor, issuer_anchor, anchor_scope, is_child_of, is_next_cluster_issuer,
  is_next_issuer, find_issuers_for_ca_cert, Level, nothing_found, collect_child, collect_children,
  collect_level, discover_downstream_bfs, discover_downstream,
}

module _ {W : Type 0} (c : Client W) (rank : IssuerAnchor → ℕ) where
  -- Whenever they are listed, the issuers that the CA certificate backs have a rank below `n`.
  pub record Lowers (ca : Certificate) (n : ℕ) : Type 0 where
    pub cluster_issuers :
        (w : W)
        → Fine Unit
            (All (λ i. is_next_cluster_issuer ca i ≡ true → rank (cluster_anchor i) < n))
            (c.list_cluster_issuers w).0
    pub issuers :
        (w : W)
        → Fine Unit
            (All (λ i. is_next_issuer ca i ≡ true → rank (issuer_anchor i) < n))
            (c.list_issuers w).0

  -- The client answers, and a CA certificate below an issuer backs only issuers of a lower rank.
  abbrev pub IsRanked : Type 0
  IsRanked =
      (a : IssuerAnchor) (w : W)
      → Fine Unit
          (All (λ cert. is_child_of a cert ≡ true → cert.is_ca ≡ true → Lowers cert (rank a)))
          (c.list_certificates (anchor_scope a) w).0

pub Total-call :
    {W A : Type 0} {E : Type 0} {P : A → Type 0} (m : W → Result A × W)
    → ((w : W) → Fine E P (m w).0)
    → Total E (call m) P
unfolding call
Total-call m k = record { at = λ s. k s.world }

module _ {W : Type 0} (c : Client W) (rank : IssuerAnchor → ℕ) (ranked : IsRanked c rank) where
  abbrev Below : ℕ → List IssuerAnchor → Type 0
  Below n anchors = All (λ a. rank a < n) anchors

  Total-find_issuers :
      (ca : Certificate) (n : ℕ)
      → Lowers c rank ca n
      → Total Unit (find_issuers_for_ca_cert c ca) (Below n)
  unfolding find_issuers_for_ca_cert list_cluster_issuers
  Total-find_issuers ca n low =
      Total-bind _ _ (Total-within _ _ (Total-call _ low.cluster_issuers)) (λ cluster_issuers h.
        Total-bind _ _ (Total-within _ _ (Total-call _ low.issuers)) (λ issuers h'. Total-pure _ (
          All-append _ (map cluster_anchor (keep (is_next_cluster_issuer ca) cluster_issuers))
            (map issuer_anchor (keep (is_next_issuer ca) issuers))
            (All-map _ cluster_anchor _ (All-kept _ (is_next_cluster_issuer ca) cluster_issuers h))
            (All-map _ issuer_anchor _ (All-kept _ (is_next_issuer ca) issuers h')))))

  abbrev NextBelow : ℕ → Level → Type 0
  NextBelow n l = Below n l.next_anchors

  Total-collect_child :
      (n : ℕ) (l : Level) (cert : Certificate)
      → NextBelow n l
      → (cert.is_ca ≡ true → Lowers c rank cert n)
      → Total Unit (collect_child c l cert) (NextBelow n)
  unfolding collect_child
  Total-collect_child n l cert h low =
      Total-if cert.is_ca _ _
        (λ e.
          Total-bind _ _ (Total-within _ _ (Total-find_issuers cert n (low e)))
            (λ children h'. Total-pure _ (All-append _ l.next_anchors children h h')))
        (λ e. Total-pure _ h)

  Lowers-mono : (cert : Certificate) (m n : ℕ) → m ≤ n → Lowers c rank cert m → Lowers c rank cert n
  Lowers-mono cert m n le low = record {
    cluster_issuers = λ w.
        Fine-weaken _ _ _ (All-weaken _ _ (λ i h next. omega (arith, h next)))
          (c.list_cluster_issuers w).0 (low.cluster_issuers w);
    issuers = λ w.
        Fine-weaken _ _ _ (All-weaken _ _ (λ i h next. omega (arith, h next))) (c.list_issuers w).0
          (low.issuers w);
  }

  Total-collect_children :
      (n : ℕ) (certs : List Certificate) (l : Level)
      → NextBelow n l
      → All (λ cert. cert.is_ca ≡ true → Lowers c rank cert n) certs
      → Total Unit (collect_children c l certs) (NextBelow n)
  unfolding collect_children
  Total-collect_children n [] l h low = Total-pure l h
  Total-collect_children n (cert ∷ certs) l h (low, lows) =
      Total-bind _ _ (Total-collect_child n l cert h low)
        (λ l' h'. Total-collect_children n certs l' h' lows)

  Total-collect_level :
      (n : ℕ) (anchors : List IssuerAnchor) (l : Level)
      → NextBelow n l
      → Below (suc n) anchors
      → Total Unit (collect_level c l anchors) (NextBelow n)
  unfolding collect_level
  Total-collect_level n [] l h below = Total-pure l h
  Total-collect_level n (a ∷ anchors) l h (low, lows) =
      Total-bind _ _ (Total-within _ _ (Total-call _ (ranked a))) (λ certs k.
        Total-bind _ _
          (Total-collect_children n (keep (is_child_of a) certs) l h (
            All-weaken _ _ (λ cert lowers ca. Lowers-mono cert (rank a) n (omega arith) (lowers ca))
              (keep (is_child_of a) certs) (All-kept _ (is_child_of a) certs k)))
          (λ l' h'. Total-collect_level n anchors l' h' lows))

  Total-discover :
      (depth : ℕ) (anchors : List IssuerAnchor)
      → Below depth anchors
      → Total Unit (discover_downstream_bfs c (suc depth) anchors) (λ _. Unit)
  unfolding discover_downstream_bfs
  Total-discover depth [] h = Total-pure nothing_found tt
  Total-discover zero (a ∷ anchors) (h, hs) = absurd (omega arith)
  Total-discover (suc depth) (a ∷ anchors) h =
      Total-bind _ _ (Total-collect_level depth (a ∷ anchors) _ tt h) (λ l below.
        Total-bind _ _ (Total-discover depth l.next_anchors below) (λ found _. Total-pure _ tt))

  -- If no list of the client panics, and each CA certificate below an issuer backs only issuers of a
  -- lower rank, then the search below an issuer does not panic: it returns or reports an error of the
  -- client, as a stack at least two deeper than the rank of that issuer is not exhausted.
  pub discover_downstream-returns :
      (anchor : IssuerAnchor) (s : State W) (t : String)
      → rank anchor + 1 < c.stack_depth
      → (discover_downstream c anchor s).0 ≢ panic t
  unfolding discover_downstream
  discover_downstream-returns anchor s t h =
      let e : c.stack_depth ≡ suc (c.stack_depth - 1) = omega arith in
      subst (λ d. (discover_downstream_bfs c d (anchor ∷ []) s).0 ≢ panic t) (sym e)
        (not_panic (Total-discover (c.stack_depth - 1) (anchor ∷ []) (omega arith)) s t)
