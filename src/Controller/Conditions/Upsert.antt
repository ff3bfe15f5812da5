-- ===== src/Controller/Conditions/Upsert.antt =====
-- setCondition: what the list of conditions has afterwards.
use private_pki_operator.Common.{
  ℕ, true, false, ◌≡◌, refl, ap, eq_iff, ◌+◌, sym, ◌∙◌, Bool-cases, inl, inr, ◌&&◌, num_eq, Option,
  some, List, [], ◌∷◌, arith, if◌then◌else◌, find?,
}
use private_pki_operator.Api.{
  ConditionType, Condition, dual_trust_active_condition, intermediate_reissued, chain_verified,
  other_condition,
}
use private_pki_operator.Controller.Conditions.{same_type, upsert_condition}

-- How many conditions of the type the list has.
abbrev pub count : ConditionType → List Condition → ℕ
count t [] = 0
count t (c ∷ cs) = let rest = count t cs in if same_type c.type t then 1 + rest else rest

-- A reader of the conditions, `meta.FindStatusCondition`.
abbrev pub find_condition : ConditionType → List Condition → Option Condition
find_condition t cs = find? (λ (c : Condition). same_type c.type t) cs

same_type_refl : (a : ConditionType) → same_type a a ≡ true
same_type_refl dual_trust_active_condition = refl
same_type_refl intermediate_reissued = refl
same_type_refl chain_verified = refl
same_type_refl (other_condition s) = (eq_iff s s).1 refl

same_type→≡ : (a b : ConditionType) → same_type a b ≡ true → a ≡ b
same_type→≡ dual_trust_active_condition dual_trust_active_condition h = refl
same_type→≡ dual_trust_active_condition intermediate_reissued h = absurd cc
same_type→≡ dual_trust_active_condition chain_verified h = absurd cc
same_type→≡ dual_trust_active_condition (other_condition t) h = absurd cc
same_type→≡ intermediate_reissued dual_trust_active_condition h = absurd cc
same_type→≡ intermediate_reissued intermediate_reissued h = refl
same_type→≡ intermediate_reissued chain_verified h = absurd cc
same_type→≡ intermediate_reissued (other_condition t) h = absurd cc
same_type→≡ chain_verified dual_trust_active_condition h = absurd cc
same_type→≡ chain_verified intermediate_reissued h = absurd cc
same_type→≡ chain_verified chain_verified h = refl
same_type→≡ chain_verified (other_condition t) h = absurd cc
same_type→≡ (other_condition s) dual_trust_active_condition h = absurd cc
same_type→≡ (other_condition s) intermediate_reissued h = absurd cc
same_type→≡ (other_condition s) chain_verified h = absurd cc
same_type→≡ (other_condition s) (other_condition t) h = ap other_condition ((eq_iff s t).0 h)

same_type-apart :
    (a b t : ConditionType) → same_type a b ≡ false → same_type a t ≡ true → same_type b t ≡ false
same_type-apart a b t h k = elim (Bool-cases (same_type b t)) [
  | inr apart ↦ apart
  | inl same ↦ absurd (
      let e = sym (ap (λ x. same_type a x) (same_type→≡ b t same ∙ sym (same_type→≡ a t k))) in
      cc (e, same_type_refl a, h))
]

upsert_condition-find :
    (n : Condition) (cs : List Condition) (t : ConditionType)
    → find_condition t (upsert_condition n cs)
      ≡ (if same_type n.type t then some n else find_condition t cs)
unfolding upsert_condition
upsert_condition-find n [] t = refl
upsert_condition-find n (c ∷ cs) t = elim (Bool-cases (same_type c.type n.type)) [
  | inl same ↦
      rw same
        (let e = ap (λ x. same_type x t) (same_type→≡ c.type n.type same) in ground (arith, e))
  | inr differ ↦ rw differ (
      let apart = same_type-apart c.type n.type t differ in
      ground (arith, apart, upsert_condition-find n cs t))
]

upsert_condition-count :
    (n : Condition) (cs : List Condition) (t : ConditionType)
    → count t (upsert_condition n cs)
      ≡ (if same_type n.type t && num_eq (count t cs) 0 then 1 else count t cs)
unfolding upsert_condition
upsert_condition-count n [] t = ground arith
upsert_condition-count n (c ∷ cs) t = elim (Bool-cases (same_type c.type n.type)) [
  | inl same ↦
      rw same
        (let e = ap (λ x. same_type x t) (same_type→≡ c.type n.type same) in ground (arith, e))
  | inr differ ↦ rw differ (
      let apart = same_type-apart c.type n.type t differ in
      ground (arith, apart, upsert_condition-count n cs t))
]

-- A condition of the type that was set is read back as it was set, and one of another type as it
-- was before. The number of conditions of every type is left, but for the type that was set, of
-- which there is one if there was none.
pub upsert_condition_lem :
    (n : Condition) (cs : List Condition) (t : ConditionType)
    → (find_condition t (upsert_condition n cs)
        ≡ (if same_type n.type t then some n else find_condition t cs))
      × (count t (upsert_condition n cs)
          ≡ (if same_type n.type t && num_eq (count t cs) 0 then 1 else count t cs))
upsert_condition_lem n cs t = (upsert_condition-find n cs t, upsert_condition-count n cs t)
