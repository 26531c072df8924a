-- ===== src/Text/Numbers.antt =====
-- atoi reads back what sprintf("%d") writes.
use os.Base.{
  ℕ, zero, suc, ◌+◌, ◌-◌, ◌*◌, ◌/◌, ◌%◌, ◌<◌, Bool, true, false, [], ◌∷◌, ◌++◌, ◌≡◌, ◌≢◌, refl, sym,
  ap, subst, ◌∙◌, arith, All, All-append, All-weaken, append-nil, ltb, ◌==◌, if◌then◌else◌,
}
use os.Text.Defs.{
  Text, is_space, skip_space, is_digit, digits_value, signed_value, atoi, decimal, show_int,
}

abbrev IsDigit : ℕ → Type 0
IsDigit c = is_digit c ≡ true

-- The number that digits stand for, behind a number that was read.
unfoldable value_from : ℕ → Text → ℕ
value_from acc [] = acc
value_from acc (c ∷ cs) = value_from (acc * 10 + (c - 48)) cs

-- A text at which the reading of digits stops.
abbrev pub Stops : Text → Type 0
Stops rest = (acc : ℕ) → digits_value acc rest ≡ acc

digits_value-append :
    (acc : ℕ) (s rest : Text)
    → All IsDigit s
    → Stops rest
    → digits_value acc (s ++ rest) ≡ value_from acc s
unfolding digits_value value_from
digits_value-append acc [] rest h e = e acc
digits_value-append acc (c ∷ cs) rest (h, hs) e =
    rw h (digits_value-append (acc * 10 + (c - 48)) cs rest hs e)

value_from-append :
    (acc : ℕ) (s : Text) (c : ℕ) → value_from acc (s ++ c ∷ []) ≡ value_from acc s * 10 + (c - 48)
unfolding value_from
value_from-append acc [] c = refl
value_from-append acc (d ∷ ds) c = value_from-append (acc * 10 + (d - 48)) ds c

-- The numbers of at most `n` digits.
unfoldable bound : ℕ → ℕ
bound zero = 1
bound (suc n) = 10 * bound n

IsDigit-of_lt : (d : ℕ) → d < 10 → IsDigit (48 + d)
IsDigit-of_lt d h = ground arith

decimal-IsDigit : (n v : ℕ) → All IsDigit (decimal n v)
unfolding decimal
decimal-IsDigit zero v = tt
decimal-IsDigit (suc n) v = by_flag (ltb v 10) refl (decimal-IsDigit n (v / 10))
  where
    by_flag :
        (z : Bool)
        → ltb v 10 ≡ z
        → All IsDigit (decimal n (v / 10))
        → All IsDigit (if z then (48 + v) ∷ [] else decimal n (v / 10) ++ (48 + v % 10) ∷ [])
    by_flag true e k = (IsDigit-of_lt v (ground arith), tt)
    by_flag false e k =
        All-append IsDigit (decimal n (v / 10)) ((48 + v % 10) ∷ []) k
          (IsDigit-of_lt (v % 10) (omega arith), tt)

decimal-value : (n v : ℕ) → v < bound n → value_from 0 (decimal n v) ≡ v
unfolding decimal bound
decimal-value zero v h = unfold value_from in omega arith
decimal-value (suc n) v h = by_flag (ltb v 10) refl (decimal-value n (v / 10) (omega arith))
  where
    by_flag :
        (z : Bool)
        → ltb v 10 ≡ z
        → value_from 0 (decimal n (v / 10)) ≡ v / 10
        → value_from 0 (if z then (48 + v) ∷ [] else decimal n (v / 10) ++ (48 + v % 10) ∷ []) ≡ v
    by_flag true e k = unfold value_from in omega arith
    by_flag false e k = value_from-append 0 (decimal n (v / 10)) (48 + v % 10) ∙ rw k (omega arith)

-- A numeral is not empty.
decimal-cons : (n v : ℕ) → (c : ℕ) × (cs : Text) × (decimal (suc n) v ≡ c ∷ cs)
unfolding decimal
decimal-cons n v = by_flag (ltb v 10) (decimal n (v / 10))
  where
    by_flag :
        (z : Bool) (front : Text)
        → (c : ℕ) × (cs : Text) × ((if z then (48 + v) ∷ [] else front ++ (48 + v % 10) ∷ [])
            ≡ c ∷ cs)
    by_flag true front = (48 + v, [], refl)
    by_flag false [] = (48 + v % 10, [], refl)
    by_flag false (c ∷ cs) = (c, cs ++ (48 + v % 10) ∷ [], refl)

signed_value-digit :
    (c : ℕ) (cs : Text)
    → is_digit c ≡ true
    → signed_value (c ∷ cs) ≡ digits_value 0 (c ∷ cs) % 4294967296
signed_value-digit c cs h = rw (no_minus c h, no_plus c h) refl
  where
    no_minus : (c : ℕ) → is_digit c ≡ true → (c == b'-') ≡ false
    no_minus c h = ground arith

    no_plus : (c : ℕ) → is_digit c ≡ true → (c == b'+') ≡ false
    no_plus c h = ground arith

skip_space-digit : (c : ℕ) (cs : Text) → is_digit c ≡ true → skip_space (c ∷ cs) ≡ c ∷ cs
unfolding skip_space
skip_space-digit c cs h = rw (no_space c h) refl
  where
    no_space : (c : ℕ) → is_digit c ≡ true → is_space c ≡ false
    no_space c h = ground arith

-- A numeral of at most ten digits.
decimal-read :
    (v : ℕ) (rest : Text)
    → v < 4294967296
    → Stops rest
    → (c : ℕ) × (cs : Text) × (decimal 10 v ++ rest ≡ c ∷ cs)
      × (is_digit c ≡ true)
      × (digits_value 0 (c ∷ cs) ≡ v)
decimal-read v rest h e =
    let (c, cs, q) = decimal-cons 9 v in
    let digits : All IsDigit (decimal 10 v) = decimal-IsDigit 10 v in
    (
      c,
      cs ++ rest,
      ap (λ t. t ++ rest) q,
      (subst (All IsDigit) q digits).0,
      ap (λ t. digits_value 0 (t ++ rest)) (sym q)
          ∙ digits_value-append 0 (decimal 10 v) rest digits e
          ∙ decimal-value 10 v (unfold bound in omega arith),
    )

atoi-decimal : (v : ℕ) (rest : Text) → v < 4294967296 → Stops rest → atoi (decimal 10 v ++ rest) ≡ v
unfolding atoi
atoi-decimal v rest h e =
    let (c, cs, q, d, r) = decimal-read v rest h e in
    ap atoi q
    ∙ ap signed_value (skip_space-digit c cs d)
    ∙ signed_value-digit c cs d
    ∙ rw r (omega arith)

atoi-minus :
    (v : ℕ) (rest : Text)
    → v < 4294967296
    → Stops rest
    → atoi (b'-' ∷ decimal 10 v ++ rest) ≡ (4294967296 - v) % 4294967296
unfolding atoi skip_space
atoi-minus v rest h e = let (c, cs, q, d, r) = decimal-read v rest h e in rw (q, r) (omega arith)

-- atoi gives back every int that sprintf("%d") has written, negative ones included, if no digit
-- stands behind it.
pub atoi-show_int :
    (v : ℕ) (rest : Text) → v < 4294967296 → Stops rest → atoi (show_int v ++ rest) ≡ v
unfolding show_int
atoi-show_int v rest h e = by_flag (ltb v 2147483648) refl
  where
    by_flag :
        (z : Bool)
        → ltb v 2147483648 ≡ z
        → atoi ((if z then decimal 10 v else b'-' ∷ decimal 10 (4294967296 - v)) ++ rest) ≡ v
    by_flag true q = atoi-decimal v rest h e
    by_flag false q = atoi-minus (4294967296 - v) rest (ground arith) e ∙ ground arith

-- The bytes of a numeral.
pub show_int-All :
    (P : ℕ → Type 0) (v : ℕ) → ((c : ℕ) → is_digit c ≡ true → P c) → P b'-' → All P (show_int v)
unfolding show_int
show_int-All P v k m = by_flag (ltb v 2147483648)
  where
    weaken : (s : Text) → All IsDigit s → All P s
    weaken s h = All-weaken s (λ c d. k c d) h

    by_flag : (z : Bool) → All P (if z then decimal 10 v else b'-' ∷ decimal 10 (4294967296 - v))
    by_flag true = weaken (decimal 10 v) (decimal-IsDigit 10 v)
    by_flag false = (m, weaken (decimal 10 (4294967296 - v)) (decimal-IsDigit 10 (4294967296 - v)))

pub show_int-ne-nil : (v : ℕ) → show_int v ≢ []
unfolding show_int
show_int-ne-nil v = by_flag (ltb v 2147483648) (decimal-cons 9 v)
  where
    by_flag :
        (z : Bool)
        → ((c : ℕ) × (cs : Text) × (decimal 10 v ≡ c ∷ cs))
        → (if z then decimal 10 v else b'-' ∷ decimal 10 (4294967296 - v)) ≢ []
    by_flag true (c, cs, e) q = cc
    by_flag false (c, cs, e) q = cc

-- A numeral alone.
pub atoi-numeral : (v : ℕ) → v < 4294967296 → atoi (show_int v) ≡ v
atoi-numeral v b = ap atoi (sym (append-nil (show_int v))) ∙ atoi-show_int v [] b nothing
  where
    nothing : Stops []
    nothing acc = unfold digits_value in refl
