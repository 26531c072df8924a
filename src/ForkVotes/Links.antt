-- ===== src/ForkVotes/Links.antt =====
-- findDAG_Loop finds exactly the names that stand twice.
use os.Base.{
  ℕ, suc, Bool, true, false, ◌&&◌, List, [], ◌∷◌, ◌≡◌, ◌≢◌, ◌↔◌, refl, arith, AllFrom,
  if◌then◌else◌, ◌==◌,
}
use os.Text.{Text, text_eq}
use os.Server.State.Find.{text_eq_iff}
use os.ForkVotes.{repeated_at, repeated_from, find_dag_loop}

-- No other place has the name.
abbrev pub StandsOnce : List Text → ℕ → Text → Type 0
StandsOnce visited i t = AllFrom (λ ii v. ii ≢ i → t ≢ v) 0 visited

here-or-there :
    (t v : Text) (i ii : ℕ)
    → (text_eq t v && (if i == ii then false else true) ≡ false) ↔ (ii ≢ i → t ≢ v)
here-or-there t v i ii = ground (arith, text_eq_iff t v)

repeated_at-false :
    (t : Text) (i ii : ℕ) (vs : List Text)
    → (repeated_at t i ii vs ≡ false) ↔ AllFrom (λ p v. p ≢ i → t ≢ v) ii vs
unfolding repeated_at
repeated_at-false t i ii [] = (λ e. tt, λ h. refl)
repeated_at-false t i ii (v ∷ vs) =
    by_flag (text_eq t v && (if i == ii then false else true)) (here-or-there t v i ii)
      (repeated_at-false t i (suc ii) vs)
  where
    by_flag :
        (z : Bool)
        → ((z ≡ false) ↔ (ii ≢ i → t ≢ v))
        → ((repeated_at t i (suc ii) vs ≡ false) ↔ AllFrom (λ p v. p ≢ i → t ≢ v) (suc ii) vs)
        → ((if z then true else repeated_at t i (suc ii) vs) ≡ false)
          ↔ ((ii ≢ i → t ≢ v) × AllFrom (λ p v. p ≢ i → t ≢ v) (suc ii) vs)
    by_flag true (f, g) (f', g') = (λ e. cc, λ h. g h.0)
    by_flag false (f, g) (f', g') = (λ e. (f refl, f' e), λ h. g' h.1)

repeated_from-false :
    (i : ℕ) (ts visited : List Text)
    → (repeated_from i ts visited ≡ false) ↔ AllFrom (StandsOnce visited) i ts
unfolding repeated_from
repeated_from-false i [] visited = (λ e. tt, λ h. refl)
repeated_from-false i (t ∷ ts) visited =
    by_flag (repeated_at t i 0 visited) (repeated_at-false t i 0 visited)
      (repeated_from-false (suc i) ts visited)
  where
    by_flag :
        (z : Bool)
        → ((z ≡ false) ↔ StandsOnce visited i t)
        → ((repeated_from (suc i) ts visited ≡ false) ↔ AllFrom (StandsOnce visited) (suc i) ts)
        → ((if z then true else repeated_from (suc i) ts visited) ≡ false)
          ↔ (StandsOnce visited i t × AllFrom (StandsOnce visited) (suc i) ts)
    by_flag true (f, g) (f', g') = (λ e. cc, λ h. g h.0)
    by_flag false (f, g) (f', g') = (λ e. (f refl, f' e), λ h. g' h.1)

-- findDAG_Loop finds no loop exactly where no name stands at two places of visited.
pub find_dag_loop_lem :
    (visited : List Text) → (find_dag_loop visited ≡ false) ↔ AllFrom (StandsOnce visited) 0 visited
unfolding find_dag_loop
find_dag_loop_lem visited = repeated_from-false 0 visited visited
