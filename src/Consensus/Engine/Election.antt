-- ===== src/Consensus/Engine/Election.antt =====
-- `elect_validators` of crates/vtt-consensus/src/engine.rs and the ranking of all candidates.
use vtt.Prelude.{
  ℕ, zero, suc, ◌+◌, ◌≤◌, ◌≡◌, refl, List, [], ◌∷◌, ◌++◌, Bool, true, false, arith, if◌then◌else◌,
  Bool-cases, inl, inr, length, take, ap, subst, min, ◌∙◌, sym,
}
use vtt.Prelude.Sets.{count}
use vtt.Prelude.Map.{Map}
use vtt.State.Account.{AccountState}
use vtt.State.Db.{StateDb}
use vtt.Consensus.Validators.{ConsensusParams, ValidatorInfo}
use vtt.Consensus.Engine.{
  candidate, candidates, ranks_before, insert_ranked, sort_ranked, elect_validators,
}

-- A list in which no validator ranks before an earlier one.
abbrev pub IsRanked : List ValidatorInfo → Type 0
IsRanked [] = Unit
IsRanked (v ∷ []) = Unit
IsRanked (v ∷ w ∷ ws) = (ranks_before v w ≡ true) × IsRanked (w ∷ ws)

-- The other list has the same validators, each as often.
abbrev pub IsReordered : List ValidatorInfo → List ValidatorInfo → Type 0
IsReordered vs ws = (p : ValidatorInfo → Bool) → count p vs ≡ count p ws

ranks_total : (v w : ValidatorInfo) → ranks_before v w ≡ false → ranks_before w v ≡ true
unfolding ranks_before
ranks_total v w h = ground arith

insert_ranked-IsRanked :
    (v : ValidatorInfo) (ws : List ValidatorInfo) → IsRanked ws → IsRanked (insert_ranked v ws)
unfolding insert_ranked
insert_ranked-IsRanked v [] h = tt
insert_ranked-IsRanked v (w ∷ []) h = elim (Bool-cases (ranks_before v w)) [
  | inl first ↦ rw first (first, tt)
  | inr second ↦ rw second (ranks_total v w second, tt)
]
insert_ranked-IsRanked v (w ∷ x ∷ xs) h =
    let rest = insert_ranked-IsRanked v (x ∷ xs) h.1 in
    elim (Bool-cases (ranks_before v w)) [
      | inl first ↦ rw first (first, h)
      | inr after ↦ elim (Bool-cases (ranks_before v x)) [
        | inl second ↦ rw (after, second) (ranks_total v w after, rw second at rest)
        | inr later ↦ rw (after, later) (h.0, rw later at rest)
      ]
    ]

sort_ranked-IsRanked : (vs : List ValidatorInfo) → IsRanked (sort_ranked vs)
unfolding sort_ranked
sort_ranked-IsRanked [] = tt
sort_ranked-IsRanked (v ∷ vs) = insert_ranked-IsRanked v (sort_ranked vs) (sort_ranked-IsRanked vs)

count-insert_ranked :
    (p : ValidatorInfo → Bool) (v : ValidatorInfo) (ws : List ValidatorInfo)
    → count p (insert_ranked v ws) ≡ (if p v then 1 else 0) + count p ws
unfolding count insert_ranked
count-insert_ranked p v [] = refl
count-insert_ranked p v (w ∷ ws) = ground (arith, count-insert_ranked p v ws)

sort_ranked-IsReordered : (vs : List ValidatorInfo) → IsReordered (sort_ranked vs) vs
unfolding sort_ranked count
sort_ranked-IsReordered [] p = refl
sort_ranked-IsReordered (v ∷ vs) p =
    count-insert_ranked p v (sort_ranked vs)
    ∙ ap (λ (n : ℕ). (if p v then 1 else 0) + n) (sort_ranked-IsReordered vs p)

abbrev drop : ℕ → List ValidatorInfo → List ValidatorInfo
drop zero vs = vs
drop (suc n) [] = []
drop (suc n) (v ∷ vs) = drop n vs

take-drop : (n : ℕ) (vs : List ValidatorInfo) → take n vs ++ drop n vs ≡ vs
take-drop zero vs = refl
take-drop (suc n) [] = refl
take-drop (suc n) (v ∷ vs) = ap (λ ws. v ∷ ws) (take-drop n vs)

-- The first `n`, with all of the list if there are no more.
length-take : (n : ℕ) (vs : List ValidatorInfo) → length (take n vs) ≡ min n (length vs)
length-take zero vs = omega arith
length-take (suc n) [] = omega arith
length-take (suc n) (v ∷ vs) = omega (arith, length-take n vs)

-- Every validator of the list stakes the minimum itself.
abbrev pub AllEligible : ConsensusParams → List ValidatorInfo → Type 0
AllEligible params [] = Unit
AllEligible params (v ∷ vs) = (params.min_self_stake ≤ v.self_stake) × AllEligible params vs

candidates-AllEligible :
    (params : ConsensusParams) (accounts : Map ℕ AccountState)
    → AllEligible params (candidates params accounts)
unfolding candidates candidate
candidates-AllEligible params [] = tt
candidates-AllEligible params ((address, account) ∷ accounts) =
    ground (arith, candidates-AllEligible params accounts)

insert_ranked-AllEligible :
    (params : ConsensusParams) (v : ValidatorInfo) (ws : List ValidatorInfo)
    → params.min_self_stake ≤ v.self_stake
    → AllEligible params ws
    → AllEligible params (insert_ranked v ws)
unfolding insert_ranked
insert_ranked-AllEligible params v [] h k = (h, tt)
insert_ranked-AllEligible params v (w ∷ ws) h k =
    ground (arith, insert_ranked-AllEligible params v ws h k.1)

sort_ranked-AllEligible :
    (params : ConsensusParams) (vs : List ValidatorInfo)
    → AllEligible params vs
    → AllEligible params (sort_ranked vs)
unfolding sort_ranked
sort_ranked-AllEligible params [] h = tt
sort_ranked-AllEligible params (v ∷ vs) h =
    insert_ranked-AllEligible params v (sort_ranked vs) h.0 (sort_ranked-AllEligible params vs h.1)

take-AllEligible :
    (params : ConsensusParams) (n : ℕ) (vs : List ValidatorInfo)
    → AllEligible params vs
    → AllEligible params (take n vs)
take-AllEligible params zero vs h = tt
take-AllEligible params (suc n) [] h = tt
take-AllEligible params (suc n) (v ∷ vs) h = (h.0, take-AllEligible params n vs h.1)

-- The elected validators are the first of a ranking of all candidates, as many as there are seats
-- and candidates for: those left out follow them in the ranking. Each of them stakes the minimum
-- itself.
pub elect_validators-IsRanked :
    (params : ConsensusParams) (state : StateDb) (epoch : ℕ)
    → let elected = (elect_validators params state epoch).validators in
      let all = candidates params state.accounts in
      (others : List ValidatorInfo) × IsRanked (elected ++ others)
      × IsReordered (elected ++ others) all
      × (length elected ≡ min params.active_validators (length (elected ++ others)))
      × AllEligible params elected
unfolding elect_validators
elect_validators-IsRanked params state epoch =
    let n = params.active_validators in
    let sorted = sort_ranked (candidates params state.accounts) in
    let whole = sym (take-drop n sorted) in
    (
      drop n sorted,
      subst IsRanked whole (sort_ranked-IsRanked (candidates params state.accounts)),
      subst (λ vs. IsReordered vs (candidates params state.accounts)) whole
          (sort_ranked-IsReordered (candidates params state.accounts)),
      subst (λ vs. length (take n sorted) ≡ min n (length vs)) whole (length-take n sorted),
      take-AllEligible params n sorted (
          sort_ranked-AllEligible params (candidates params state.accounts)
            (candidates-AllEligible params state.accounts)),
    )
