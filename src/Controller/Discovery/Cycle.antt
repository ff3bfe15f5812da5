-- ===== src/Controller/Discovery/Cycle.antt =====
-- discoverDownstreamBFS, which has no set of visited issuers, where the chain of certificates comes
-- back to an issuer.
use private_pki_operator.Common.{
  ℕ, zero, suc, true, ◌≡◌, ◌⊎◌, inl, inr, refl, List, [], ◌∷◌, ◌++◌, map, keep, Any, Any-kept,
  Any-map, Any-append_left, Any-append_right,
}
use private_pki_operator.Action.{panic, crash}
use private_pki_operator.Action.Total.{
  Fine, Total, Total-pure, Total-weaken, Total-within, Total-if, Total-bind, Crashes, Crashes-after,
  Crashes-bind,
}
use private_pki_operator.Cluster.{Client, Certificate, Issuer}
use private_pki_operator.Controller.State.{State}
use private_pki_operator.Controller.Certificates.{list_cluster_issuers}
use private_pki_operator.Controller.Discovery.{
  IssuerAnchor, cluster_anchor, issuer_anchor, anchor_scope, is_child_of, is_next_cluster_issuer,
  is_next_issuer, find_issuers_for_ca_cert, Level, collect_child, collect_children, collect_level,
  discover_downstream_bfs, discover_downstream,
}
use private_pki_operator.Controller.Discovery.Depth.{Total-call}

module _ {W : Type 0} (c : Client W) (I : IssuerAnchor → Type 0) where
  -- Whenever they are listed, the CA certificate backs an issuer of `I`.
  abbrev pub Feeds : Certificate → Type 0
  Feeds ca =
      ((w : W)
        → Fine ⊥ (Any (λ i. (is_next_cluster_issuer ca i ≡ true) × I (cluster_anchor i)))
            (c.list_cluster_issuers w).0)
      ⊎ ((w : W)
          → Fine ⊥ (Any (λ i. (is_next_issuer ca i ≡ true) × I (issuer_anchor i)))
              (c.list_issuers w).0)

  -- The certificate is a CA below the issuer, and backs an issuer of `I`.
  abbrev pub LeadsBack : IssuerAnchor → Certificate → Type 0
  LeadsBack a cert = (is_child_of a cert ≡ true) × (cert.is_ca ≡ true) × Feeds cert

  -- The calls succeed, and below each issuer of `I` there is a CA that backs an issuer of `I`.
  pub record IsCyclic : Type 0 where
    pub certificates :
        (a : IssuerAnchor) (w : W)
        → Fine ⊥ (λ certs. I a → Any (LeadsBack a) certs) (c.list_certificates (anchor_scope a) w).0
    pub cluster_issuers : (w : W) → Fine ⊥ (λ _. Unit) (c.list_cluster_issuers w).0
    pub issuers : (w : W) → Fine ⊥ (λ _. Unit) (c.list_issuers w).0

module _ {W : Type 0} (c : Client W) (I : IssuerAnchor → Type 0) (cyclic : IsCyclic c I) where
  found_of :
      (ca : Certificate) (P : List Issuer → Type 0) (R : List Issuer → Type 0)
      → ((w : W) → Fine ⊥ P (c.list_cluster_issuers w).0)
      → ((w : W) → Fine ⊥ R (c.list_issuers w).0)
      → ((cs is : List Issuer)
          → P cs
          → R is
          → Any I (
              map cluster_anchor (keep (is_next_cluster_issuer ca) cs)
              ++ map issuer_anchor (keep (is_next_issuer ca) is)))
      → Total ⊥ (find_issuers_for_ca_cert c ca) (Any I)
  unfolding find_issuers_for_ca_cert list_cluster_issuers
  found_of ca P R cl is k = Total-bind _ _ (Total-within _ _ (Total-call _ cl)) (λ cs h.
      Total-bind _ _ (Total-within _ _ (Total-call _ is)) (λ is h'. Total-pure _ (k cs is h h')))

  found-Feeds : (ca : Certificate) → Feeds c I ca → Total ⊥ (find_issuers_for_ca_cert c ca) (Any I)
  found-Feeds ca (inl h) =
      found_of ca _ (λ _. Unit) h cyclic.issuers
        (λ cs is any _.
          Any-append_left I _ (map issuer_anchor (keep (is_next_issuer ca) is))
            (Any-map I cluster_anchor _ (Any-kept _ (is_next_cluster_issuer ca) cs any)))
  found-Feeds ca (inr h) =
      found_of ca (λ _. Unit) _ cyclic.cluster_issuers h
        (λ cs is _ any.
          Any-append_right I (map cluster_anchor (keep (is_next_cluster_issuer ca) cs)) _
            (Any-map I issuer_anchor _ (Any-kept _ (is_next_issuer ca) is any)))

  found_any : (ca : Certificate) → Total ⊥ (find_issuers_for_ca_cert c ca) (λ _. Unit)
  unfolding find_issuers_for_ca_cert list_cluster_issuers
  found_any ca = Total-bind _ _ (Total-within _ _ (Total-call _ cyclic.cluster_issuers)) (λ cs _.
      Total-bind _ _ (Total-within _ _ (Total-call _ cyclic.issuers)) (λ is _. Total-pure _ tt))

  -- The next level has an issuer of `I`.
  abbrev GoesOn : Level → Type 0
  GoesOn l = Any I l.next_anchors

  -- A certificate keeps what there is.
  child_keeps :
      (Q : Level → Type 0) (l : Level) (cert : Certificate)
      → ((l' : Level) → (GoesOn l → GoesOn l') → Q l')
      → Total ⊥ (collect_child c l cert) Q
  unfolding collect_child
  child_keeps Q l cert k =
      Total-if cert.is_ca _ _
        (λ e.
          Total-bind _ _ (Total-within _ _ (found_any cert))
            (λ children _. Total-pure _ (k _ (Any-append_left I l.next_anchors children))))
        (λ e. Total-pure _ (k _ (λ h. h)))

  child_adds :
      (a : IssuerAnchor) (l : Level) (cert : Certificate)
      → LeadsBack c I a cert
      → Total ⊥ (collect_child c l cert) GoesOn
  unfolding collect_child
  child_adds a l cert (child, ca, feeds) =
      Total-if cert.is_ca _ _
        (λ e.
          Total-bind _ _ (Total-within _ _ (found-Feeds cert feeds))
            (λ children h. Total-pure _ (Any-append_right I l.next_anchors children h)))
        (λ e. absurd cc)

  children_keep :
      (certs : List Certificate) (l : Level)
      → Total ⊥ (collect_children c l certs) (λ l'. GoesOn l → GoesOn l')
  unfolding collect_children
  children_keep [] l = Total-pure l (λ h. h)
  children_keep (cert ∷ certs) l =
      Total-bind _ _ (child_keeps (λ l'. GoesOn l → GoesOn l') l cert (λ l' k. k))
        (λ l' k. Total-weaken _ (children_keep certs l') (λ l'' k' h. k' (k h)))

  children_add :
      (a : IssuerAnchor) (certs : List Certificate) (l : Level)
      → Any (LeadsBack c I a) certs
      → Total ⊥ (collect_children c l certs) GoesOn
  unfolding collect_children
  children_add a [] l h = absurd h
  children_add a (cert ∷ certs) l (inl h) =
      Total-bind _ _ (child_adds a l cert h)
        (λ l' here. Total-weaken _ (children_keep certs l') (λ l'' k. k here))
  children_add a (cert ∷ certs) l (inr h) =
      Total-bind _ _ (child_keeps (λ _. Unit) l cert (λ _ _. tt))
        (λ l' _. children_add a certs l' h)

  known :
      (a : IssuerAnchor) (certs : List Certificate)
      → Any (LeadsBack c I a) certs
      → Any (λ cert. (is_child_of a cert ≡ true) × LeadsBack c I a cert) certs
  known a [] h = h
  known a (cert ∷ certs) (inl h) = inl (h.0, h)
  known a (cert ∷ certs) (inr h) = inr (known a certs h)

  level_keeps :
      (anchors : List IssuerAnchor) (l : Level)
      → Total ⊥ (collect_level c l anchors) (λ l'. GoesOn l → GoesOn l')
  unfolding collect_level
  level_keeps [] l = Total-pure l (λ h. h)
  level_keeps (a ∷ anchors) l =
      Total-bind _ _ (Total-within _ _ (Total-call _ (cyclic.certificates a))) (λ certs _.
        Total-bind _ _ (children_keep (keep (is_child_of a) certs) l)
          (λ l' k. Total-weaken _ (level_keeps anchors l') (λ l'' k' h. k' (k h))))

  level_adds :
      (anchors : List IssuerAnchor) (l : Level)
      → Any I anchors
      → Total ⊥ (collect_level c l anchors) GoesOn
  unfolding collect_level
  level_adds [] l h = absurd h
  level_adds (a ∷ anchors) l (inl h) =
      Total-bind _ _ (Total-within _ _ (Total-call _ (cyclic.certificates a))) (λ certs leads.
        Total-bind _ _
          (children_add a (keep (is_child_of a) certs) l
            (Any-kept _ (is_child_of a) certs (known a certs (leads h))))
          (λ l' here. Total-weaken _ (level_keeps anchors l') (λ l'' k. k here)))
  level_adds (a ∷ anchors) l (inr h) =
      Total-bind _ _ (Total-within _ _ (Total-call _ (cyclic.certificates a))) (λ certs _.
        Total-bind _ _ (children_keep (keep (is_child_of a) certs) l)
          (λ l' _. level_adds anchors l' h))

  bfs-Crashes :
      (depth : ℕ) (anchors : List IssuerAnchor)
      → Any I anchors
      → Crashes (discover_downstream_bfs c depth anchors) "stack overflow"
  unfolding discover_downstream_bfs crash
  bfs-Crashes zero anchors h s = refl
  bfs-Crashes (suc depth) [] h s = absurd h
  bfs-Crashes (suc depth) (a ∷ anchors) h s =
      Crashes-after _ _ _ (level_adds (a ∷ anchors) _ h)
        (λ l more. Crashes-bind _ _ _ (bfs-Crashes depth l.next_anchors more)) s

  -- The search below an issuer whose chain comes back overflows the stack, however deep it is.
  pub discover_downstream-overflows :
      (anchor : IssuerAnchor) (s : State W)
      → I anchor
      → (discover_downstream c anchor s).0 ≡ panic "stack overflow"
  unfolding discover_downstream
  discover_downstream-overflows anchor s h = bfs-Crashes c.stack_depth (anchor ∷ []) (inl h) s
