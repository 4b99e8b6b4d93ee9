-- ===== src/Workload/Options.antt =====
-- The arguments of proj02/src/workload_params.c, taken one after the other.
use cs.Prelude.{
  ℕ, suc, ◌+◌, ◌≡◌, ◌≢◌, ◌⊎◌, inl, inr, refl, sym, subst, ◌∙◌, true, false, List, [], ◌∷◌, length,
  if_true, if_false, Bool-cases, arith, Outcome, ok, exit, ◌>>=◌, Ends, Ends->>=,
}
use cs.Prelude.Int.{ℤ}
use cs.WordCount.Text.{Word, same, same_iff}
use cs.Arguments.{atoi}
use cs.Arguments.Parsed.{atoi-Ends}
use cs.Workload.{
  DistributionMethod, fixed_dist, uniform_dist, exponential_dist, WorkloadCommonParams,
  WorkloadCommandlineParams, distribution_name, parse_distribution_method, next_int,
  next_distribution, parse_common_arguments, parse_commandline_arguments,
}

differs :
    (str : Word) (method : DistributionMethod)
    → same str (distribution_name method) ≡ false
    → str ≢ distribution_name method
differs str method h e =
    let no : true ≡ false = sym ((same_iff str (distribution_name method)).1 e) ∙ h in cc

-- The name of a distribution method is read as that method, and any other word ends the program with
-- status 1.
pub parse_distribution_method_lem :
    (str : Word)
    → ((method : DistributionMethod) × (str ≡ distribution_name method)
        × (parse_distribution_method str ≡ ok method))
      ⊎ (((method : DistributionMethod) → str ≢ distribution_name method)
          × (parse_distribution_method str ≡ exit 1))
unfolding parse_distribution_method
parse_distribution_method_lem str = elim (Bool-cases (same str (distribution_name fixed_dist))) [
  | inl fixed ↦ inl (fixed_dist, (same_iff _ _).0 fixed, if_true _ _ _ _ fixed refl)
  | inr not_fixed ↦ elim (Bool-cases (same str (distribution_name uniform_dist))) [
    | inl uniform ↦ inl (
      uniform_dist,
      (same_iff _ _).0 uniform,
      if_false _ _ _ _ not_fixed (if_true _ _ _ _ uniform refl),
    )
    | inr not_uniform ↦ elim (Bool-cases (same str (distribution_name exponential_dist))) [
      | inl exponential ↦ inl (
        exponential_dist,
        (same_iff _ _).0 exponential,
        if_false _ _ _ _ not_fixed
            (if_false _ _ _ _ not_uniform (if_true _ _ _ _ exponential refl)),
      )
      | inr not_exponential ↦ inr (
        λ method. elim method as (λ m. str ≢ distribution_name m) [
          | fixed_dist ↦ differs str fixed_dist not_fixed
          | uniform_dist ↦ differs str uniform_dist not_uniform
          | exponential_dist ↦ differs str exponential_dist not_exponential
        ],
        if_false _ _ _ _ not_fixed
            (if_false _ _ _ _ not_uniform (if_false _ _ _ _ not_exponential refl)),
      )
    ]
  ]
]

-- An argument is taken.
abbrev pub Takes {ℓ} : {A : Type ℓ} → ℕ → ℕ → A × List Word → Type 0
Takes k n (a, rest) = length rest + k ≡ n

Ends-next_int : (args : List Word) → Ends (Takes 1 (length args)) (next_int args)
unfolding next_int
Ends-next_int [] = tt
Ends-next_int (arg ∷ args) =
    Ends->>= (λ n. Unit {0}) (Takes 1 (suc (length args))) (atoi arg) _ (atoi-Ends arg)
      (λ n u. omega arith)

parse_distribution_method-Ends : (str : Word) → Ends (λ m. Unit {0}) (parse_distribution_method str)
parse_distribution_method-Ends str = elim (parse_distribution_method_lem str) [
  | inl (method, _, run) ↦ subst (Ends (λ m. Unit {0})) (sym run) tt
  | inr (_, run) ↦ subst (Ends (λ m. Unit {0})) (sym run) tt
]

Ends-next_distribution : (args : List Word) → Ends (Takes 1 (length args)) (next_distribution args)
unfolding next_distribution
Ends-next_distribution [] = tt
Ends-next_distribution (arg ∷ args) =
    Ends->>= (λ m. Unit {0}) (Takes 1 (suc (length args))) (parse_distribution_method arg) _
      (parse_distribution_method-Ends arg) (λ m u. omega arith)

module _ {B : Type 0} (Q : B → Type 0) (args : List Word) where
  int_then :
      (f : ℤ × List Word → Outcome B)
      → ((n : ℤ) (rest : List Word) → length rest + 1 ≡ length args → Ends Q (f (n, rest)))
      → Ends Q (next_int args >>= f)
  int_then f h =
      Ends->>= (Takes 1 (length args)) Q (next_int args) f (Ends-next_int args)
        (λ (n, rest) e. h n rest e)

  distribution_then :
      (f : DistributionMethod × List Word → Outcome B)
      → ((m : DistributionMethod) (rest : List Word)
          → length rest + 1 ≡ length args
          → Ends Q (f (m, rest)))
      → Ends Q (next_distribution args >>= f)
  distribution_then f h =
      Ends->>= (Takes 1 (length args)) Q (next_distribution args) f (Ends-next_distribution args)
        (λ (m, rest) e. h m rest e)

pub parse_common_arguments-Ends :
    (args : List Word) → Ends (Takes 3 (length args)) (parse_common_arguments args)
unfolding parse_common_arguments
parse_common_arguments-Ends args =
    let Q = Takes 3 (length args) in
    int_then Q args _ (λ n1 args1 e1.
      int_then Q args1 _ (λ n2 args2 e2. int_then Q args2 _ (λ n3 rest e3. omega arith)))

pub parse_commandline_arguments-Ends :
    (args : List Word)
    → Ends (λ r. length r.2 + 13 ≡ length args) (parse_commandline_arguments args)
unfolding parse_commandline_arguments
parse_commandline_arguments-Ends args =
    let Q : WorkloadCommandlineParams × WorkloadCommonParams × List Word → Type 0 =
      λ r. length r.2 + 13 ≡ length args in
    int_then Q args _ (λ n1 args1 e1. int_then Q args1 _ (λ n2 args2 e2.
      distribution_then Q args2 _ (λ n3 args3 e3. int_then Q args3 _ (λ n4 args4 e4.
        int_then Q args4 _ (λ n5 args5 e5. int_then Q args5 _ (λ n6 args6 e6.
          distribution_then Q args6 _ (λ n7 args7 e7. int_then Q args7 _ (λ n8 args8 e8.
            int_then Q args8 _ (λ n9 args9 e9. int_then Q args9 _ (λ n10 args10 e10.
              Ends->>= (Takes 3 (length args10)) Q (parse_common_arguments args10) _
                (parse_common_arguments-Ends args10) (λ (common, rest) e. omega arith)))))))))))
