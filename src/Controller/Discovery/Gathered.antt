-- ===== src/Controller/Discovery/Gathered.antt =====
-- What the levels of the search gather: the certificates found, and the issuers of the next level.
use private_pki_operator.Common.{
  ◌≡◌, refl, ◌⊎◌, inl, inr, ◌↔◌, Bool, true, false, List, [], ◌∷◌, ◌++◌, if◌then◌else◌, Any,
  Any-append, Any-append_left, Any-append_right, Any-snoc, foldl-Any,
}
use private_pki_operator.Cluster.{Certificate}
use private_pki_operator.Controller.Discovery.{IssuerAnchor, Downstream, Level, nothing_found}
use private_pki_operator.Controller.Discovery.Levels.{
  Snapshot, backed, children, add_child, add_children, add_anchor, add_level,
}

-- The certificates found that are CAs, or the others.
abbrev pub part : Bool → Downstream → List Certificate
part true d = d.cas
part false d = d.leaves

unchanged : {X Y : Type 0} → (Y → ⊥) → X ↔ (X ⊎ Y)
unchanged absent = (λ x. inl x, elim [ inl x ↦ x | inr y ↦ absurd (absent y) ])

added_if :
    {A : Type 0} (P : A → Type 0) (k : Bool) (xs : List A) (x : A)
    → Any P (xs ++ x ∷ []) ↔ (Any P xs ⊎ ((k ≡ k) × P x))
added_if P k xs x =
    let (there, back) = Any-snoc P xs x in
    (
      λ h. elim (there h) [ inl here ↦ inl here | inr last ↦ inr (refl, last) ],
      elim [ inl here ↦ back (inl here) | inr (_, last) ↦ back (inr last) ],
    )

grown :
    (P : Certificate → Type 0) (k b : Bool) (l : Level) (cert : Certificate)
    (next : List IssuerAnchor)
    → Any P (
        part b
          (if k
            then record {
              found = record l.found { cas = l.found.cas ++ cert ∷ [] };
              next_anchors = next;
            }
            else record l {
              found = record l.found { leaves = l.found.leaves ++ cert ∷ [] };
            }).found)
      ↔ (Any P (part b l.found) ⊎ ((k ≡ b) × P cert))
grown P true true l cert next = added_if P true l.found.cas cert
grown P true false l cert next = unchanged (λ h. cc)
grown P false true l cert next = unchanged (λ h. cc)
grown P false false l cert next = added_if P false l.found.leaves cert

pub part-append :
    (b : Bool) (d below : Downstream)
    → part b (record { cas = d.cas ++ below.cas; leaves = d.leaves ++ below.leaves })
      ≡ part b d ++ part b below
part-append true d below = refl
part-append false d below = refl

pub part-nothing : (b : Bool) → part b nothing_found ≡ []
part-nothing true = refl
part-nothing false = refl

module _ (snap : Snapshot) where
  module _ (b : Bool) (P : Certificate → Type 0) where
    abbrev pub Part : Level → Type 0
    Part l = Any P (part b l.found)

    abbrev pub Fits : Certificate → Type 0
    Fits x = (x.is_ca ≡ b) × P x

    Part-children :
        (certs : List Certificate) (l : Level)
        → Part (add_children snap l certs) ↔ (Part l ⊎ Any Fits certs)
    Part-children certs l =
        foldl-Any (add_child snap) Part Fits
          (λ l cert. grown P cert.is_ca b l cert (l.next_anchors ++ backed snap cert)) certs l

    pub Part-level :
        (anchors : List IssuerAnchor) (l : Level)
        → Part (add_level snap l anchors) ↔ (Part l ⊎ Any (λ a. Any Fits (children snap a)) anchors)
    Part-level anchors l =
        foldl-Any (add_anchor snap) Part (λ a. Any Fits (children snap a))
          (λ l a. Part-children (children snap a) l) anchors l

  module _ (Q : IssuerAnchor → Type 0) where
    abbrev pub Next : Level → Type 0
    Next l = Any Q l.next_anchors

    abbrev pub Leads : Certificate → Type 0
    Leads ca = (ca.is_ca ≡ true) × Any Q (backed snap ca)

    Next-grown :
        (k : Bool) (l : Level) (cert : Certificate) (found : Downstream)
        → Next (
            if k
            then record { found = found; next_anchors = l.next_anchors ++ backed snap cert }
            else record l { found = record l.found { leaves = l.found.leaves ++ cert ∷ [] } })
          ↔ (Next l ⊎ ((k ≡ true) × Any Q (backed snap cert)))
    Next-grown true l cert found = (
      λ h. elim (Any-append Q l.next_anchors (backed snap cert) h) [
        | inl old ↦ inl old
        | inr new ↦ inr (refl, new)
      ],
      elim [
        | inl old ↦ Any-append_left Q l.next_anchors (backed snap cert) old
        | inr (_, new) ↦ Any-append_right Q l.next_anchors (backed snap cert) new
      ],
    )
    Next-grown false l cert found = unchanged (λ h. cc)

    pub Next-level :
        (anchors : List IssuerAnchor) (l : Level)
        → Next (add_level snap l anchors)
          ↔ (Next l ⊎ Any (λ a. Any Leads (children snap a)) anchors)
    Next-level anchors l =
        foldl-Any (add_anchor snap) Next (λ a. Any Leads (children snap a))
          (λ l a.
            foldl-Any (add_child snap) Next Leads (λ l cert. Next-grown cert.is_ca l cert _)
              (children snap a) l)
          anchors l
