-- ===== src/Risk/Ssvc/Table.antt =====
-- The decision table of internal/risk/ssvc.go, checked leaf by leaf.
use threat_intel_arbiter.Common.{
  ℕ, ◌+◌, ◌*◌, ◌/◌, ◌%◌, ◌≤◌, ◌<◌, ◌≡◌, refl, Bool, true, false, not, ◌&&◌, ◌||◌, some, String, leb,
  eqb, if◌then◌else◌, arith, every_below, every_below_lem,
}
use threat_intel_arbiter.Risk.Ssvc.{
  outcome_at, bit, deployer_outcome, expl_index, exposure_index, mission_index,
}

-- The urgency of an outcome letter: defer, scheduled, out-of-cycle, immediate.
unfoldable pub urgency : ℕ → ℕ
urgency c = if eqb c b'I' then 3 else if eqb c b'O' then 2 else if eqb c b'S' then 1 else 0

-- No decision point of the leaf `p` is worse than that of the leaf `q`.
abbrev dominated : ℕ → ℕ → Bool
dominated p q =
    leb (p / 24) (q / 24)
    && leb (p / 8 % 3) (q / 8 % 3)
    && leb (p / 4 % 2) (q / 4 % 2)
    && leb (p % 4) (q % 4)

abbrev ordered : ℕ → ℕ → Bool
ordered p q = not (dominated p q) || leb (urgency (outcome_at p)) (urgency (outcome_at q))

monotonic_table : every_below (λ p. every_below (λ q. ordered p q) 72) 72 ≡ true
unfolding every_below urgency outcome_at
monotonic_table = refl

ordered_lem :
    (p q : ℕ)
    → p < 72
    → q < 72
    → dominated p q ≡ true
    → urgency (outcome_at p) ≤ urgency (outcome_at q)
ordered_lem p q hp hq d = ground (
  arith,
  every_below_lem (λ p. every_below (λ q. ordered p q) 72) 72 p monotonic_table hp,
  every_below_lem (λ q. ordered p q) 72 q,
)

leaf : ℕ → ℕ → ℕ → ℕ → ℕ
leaf i j b k = i * 24 + j * 8 + b * 4 + k

leaf_ordered :
    (i j b k i' j' b' k' : ℕ)
    → i' < 3
    → j' < 3
    → b' < 2
    → k' < 4
    → i ≤ i'
    → j ≤ j'
    → b ≤ b'
    → k ≤ k'
    → urgency (outcome_at (leaf i j b k)) ≤ urgency (outcome_at (leaf i' j' b' k'))
unfolding leaf
leaf_ordered i j b k i' j' b' k' hi hj hb hk i≤ j≤ b≤ k≤ =
    ordered_lem _ _ (omega arith) (omega arith) (digits_dominated)
  where
    p : ℕ
    p = leaf i j b k

    q : ℕ
    q = leaf i' j' b' k'

    first : p / 24 ≤ q / 24
    first = omega arith

    second' : p / 8 % 3 ≤ q / 8 % 3
    second' = omega arith

    third : p / 4 % 2 ≤ q / 4 % 2
    third = omega arith

    fourth : p % 4 ≤ q % 4
    fourth = omega arith

    digits_dominated : dominated p q ≡ true
    digits_dominated = ground (arith, first, second', third, fourth)

expl_index-lt : (s : String) {i : ℕ} → expl_index s ≡ some i → i < 3
unfolding expl_index
expl_index-lt s h = ground arith

exposure_index-lt : (s : String) {i : ℕ} → exposure_index s ≡ some i → i < 3
unfolding exposure_index
exposure_index-lt s h = ground arith

mission_index-lt : (s : String) {i : ℕ} → mission_index s ≡ some i → i < 4
unfolding mission_index
mission_index-lt s h = ground arith

deployer_outcome_lem :
    (e x h : String) (a : Bool) {i j k : ℕ}
    → expl_index e ≡ some i
    → exposure_index x ≡ some j
    → mission_index h ≡ some k
    → deployer_outcome e x a h ≡ outcome_at (leaf i j (bit a) k)
unfolding deployer_outcome leaf
deployer_outcome_lem e x h a p q r = rw (p, q, r)

bit-lt : (a : Bool) → bit a < 2
bit-lt true = omega arith
bit-lt false = omega arith

-- The outcome never becomes less urgent when decision points get worse: for recognised values of
-- exploitation, exposure and mission, each no better in the second case than in the first, and
-- automatable in the second if it was in the first.
pub deployer_outcome_monotonic :
    (e x h e' x' h' : String) (a a' : Bool) {i j k i' j' k' : ℕ}
    → expl_index e ≡ some i
    → exposure_index x ≡ some j
    → mission_index h ≡ some k
    → expl_index e' ≡ some i'
    → exposure_index x' ≡ some j'
    → mission_index h' ≡ some k'
    → i ≤ i'
    → j ≤ j'
    → bit a ≤ bit a'
    → k ≤ k'
    → urgency (deployer_outcome e x a h) ≤ urgency (deployer_outcome e' x' a' h')
deployer_outcome_monotonic e x h e' x' h' a a' p q r p' q' r' i≤ j≤ a≤ k≤ =
    rw (deployer_outcome_lem e x h a p q r) (
      rw (deployer_outcome_lem e' x' h' a' p' q' r') (
        leaf_ordered _ _ _ _ _ _ _ _ (expl_index-lt e' p') (exposure_index-lt x' q') (bit-lt a')
          (mission_index-lt h' r') i≤ j≤ a≤ k≤))
