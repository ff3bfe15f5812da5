-- ===== src/Controller/VerifyChain/Baseline.antt =====
-- The time that verifyLeafChain compares a leaf with, without the map that the code makes.
use private_pki_operator.Common.{
  ℕ, String, Bool-cases, ◌==◌, eq_iff, ◌≡◌, ◌⊎◌, inl, inr, refl, sym, ap, ◌∙◌, none, some, List, [],
  ◌∷◌, ◌++◌, All, if◌then◌else◌,
}
use private_pki_operator.Cluster.{Certificate}
use private_pki_operator.Controller.VerifyChain.{parent_not_before}

-- The intermediate is in another namespace, or was never issued.
abbrev pub IsUndated : String → Certificate → Type 0
IsUndated namespace t = t.namespace ≡ namespace → t.not_before ≡ none

-- The last of the intermediates that is in the namespace and was issued, was issued at the time.
pub record LastIssued (tier2 : List Certificate) (namespace : String) (at : ℕ) : Type 0 where
  pub earlier : List Certificate
  pub last : Certificate
  pub later : List Certificate
  pub listed : tier2 ≡ earlier ++ last ∷ later
  pub is_there : last.namespace ≡ namespace
  pub issued : last.not_before ≡ some at
  pub is_last : All (IsUndated namespace) later

-- The issue time of the last intermediate of the namespace that has one, or the base if none has.
abbrev pub IsBaseline : ℕ → List Certificate → String → ℕ → Type 0
IsBaseline base tier2 namespace at =
    (All (IsUndated namespace) tier2 × (at ≡ base)) ⊎ LastIssued tier2 namespace at

-- The baseline after one more intermediate.
abbrev moved : ℕ → Certificate → String → ℕ
moved base t namespace = elim t.not_before [
  | none ↦ base
  | some n ↦ if t.namespace == namespace then n else base
]

parent_not_before-cons :
    (base : ℕ) (t : Certificate) (ts : List Certificate) (namespace : String)
    → parent_not_before base (t ∷ ts) namespace
      ≡ parent_not_before (moved base t namespace) ts namespace
unfolding parent_not_before
parent_not_before-cons base t ts namespace =
    elim t.not_before
      as (λ o.
        elim o [
          | none ↦ parent_not_before base ts namespace
          | some n ↦ parent_not_before (if t.namespace == namespace then n else base) ts namespace
        ]
        ≡ parent_not_before
            (elim o [ none ↦ base | some n ↦ if t.namespace == namespace then n else base ]) ts
            namespace) [ none ↦ refl | some n ↦ refl ]

moved-issued :
    (base n : ℕ) (t : Certificate) (namespace : String)
    → t.namespace ≡ namespace
    → t.not_before ≡ some n
    → moved base t namespace ≡ n
moved-issued base n t namespace here issued =
    rw (issued, (eq_iff t.namespace namespace).1 here) refl

-- An intermediate that is passed over, or one that sets the baseline.
moved-cases :
    (base : ℕ) (t : Certificate) (namespace : String)
    → (IsUndated namespace t × (moved base t namespace ≡ base))
      ⊎ ((t.namespace ≡ namespace) × (t.not_before ≡ some (moved base t namespace)))
moved-cases base t namespace = elim (Bool-cases (t.namespace == namespace)) [
  | inl here ↦
      elim t.not_before
        as (λ o.
          ((t.namespace ≡ namespace → o ≡ none)
            × (elim o [ none ↦ base | some n ↦ if t.namespace == namespace then n else base ]
                ≡ base))
          ⊎ ((t.namespace ≡ namespace)
              × (o
                  ≡ some (elim o [
                    | none ↦ base
                    | some n ↦ if t.namespace == namespace then n else base
                  ])))) [
                    | none ↦ inl (λ _. refl, refl)
                    | some n ↦ inr ((eq_iff t.namespace namespace).0 here, rw here refl)
                  ]
  | inr away ↦ inl (
    λ here. absurd (cc (away, (eq_iff t.namespace namespace).1 here)),
    elim t.not_before
        as (λ o.
          elim o [ none ↦ base | some n ↦ if t.namespace == namespace then n else base ] ≡ base) [
            | none ↦ refl
            | some n ↦ rw away refl
          ],
  )
]

moved-undated :
    (base : ℕ) (t : Certificate) (namespace : String)
    → IsUndated namespace t
    → moved base t namespace ≡ base
moved-undated base t namespace h = elim (moved-cases base t namespace) [
  | inl (_, same) ↦ same
  | inr (here, issued) ↦ absurd (cc (h here, issued))
]

parent_not_before-undated :
    (base : ℕ) (ts : List Certificate) (namespace : String)
    → All (IsUndated namespace) ts
    → parent_not_before base ts namespace ≡ base
unfolding parent_not_before
parent_not_before-undated base [] namespace h = refl
parent_not_before-undated base (t ∷ ts) namespace (h, hs) =
    parent_not_before-cons base t ts namespace
    ∙ parent_not_before-undated (moved base t namespace) ts namespace hs
    ∙ moved-undated base t namespace h

parent_not_before-last :
    (base at : ℕ) (earlier : List Certificate) (last : Certificate) (later : List Certificate)
    (namespace : String)
    → last.namespace ≡ namespace
    → last.not_before ≡ some at
    → All (IsUndated namespace) later
    → parent_not_before base (earlier ++ last ∷ later) namespace ≡ at
parent_not_before-last base at [] last later namespace here issued h =
    parent_not_before-cons base last later namespace
    ∙ parent_not_before-undated (moved base last namespace) later namespace h
    ∙ moved-issued base at last namespace here issued
parent_not_before-last base at (t ∷ ts) last later namespace here issued h =
    parent_not_before-cons base t (ts ++ last ∷ later) namespace
    ∙ parent_not_before-last (moved base t namespace) at ts last later namespace here issued h

-- What the code looks up is a baseline, and there is no other.
pub parent_not_before-IsBaseline :
    (base : ℕ) (ts : List Certificate) (namespace : String)
    → IsBaseline base ts namespace (parent_not_before base ts namespace)
unfolding parent_not_before
parent_not_before-IsBaseline base [] namespace = inl (tt, refl)
parent_not_before-IsBaseline base (t ∷ ts) namespace =
    let next = moved base t namespace in
    let step = parent_not_before-cons base t ts namespace in
    elim (parent_not_before-IsBaseline next ts namespace) [
      | inr l ↦ inr (record {
        earlier = t ∷ l.earlier;
        last = l.last;
        later = l.later;
        listed = ap (λ xs. t ∷ xs) l.listed;
        is_there = l.is_there;
        issued = l.issued ∙ ap some (sym step);
        is_last = l.is_last;
      })
      | inl (undated, same) ↦ elim (moved-cases base t namespace) [
        | inl (first, kept) ↦ inl ((first, undated), step ∙ same ∙ kept)
        | inr (here, issued) ↦ inr (record {
          earlier = [];
          last = t;
          later = ts;
          listed = refl;
          is_there = here;
          issued = issued ∙ ap some (sym (step ∙ same));
          is_last = undated;
        })
      ]
    ]

pub IsBaseline-unique :
    (base at : ℕ) (ts : List Certificate) (namespace : String)
    → IsBaseline base ts namespace at
    → parent_not_before base ts namespace ≡ at
IsBaseline-unique base at ts namespace (inl (undated, same)) =
    parent_not_before-undated base ts namespace undated ∙ sym same
IsBaseline-unique base at ts namespace (inr l) =
    ap (λ xs. parent_not_before base xs namespace) l.listed
    ∙ parent_not_before-last base at l.earlier l.last l.later namespace l.is_there l.issued
        l.is_last
