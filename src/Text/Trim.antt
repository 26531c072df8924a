-- ===== src/Text/Trim.antt =====
-- trimwhitespace and trimlastenter: padding falls away.
use os.Base.{
  ℕ, zero, suc, Bool, true, false, [], ◌∷◌, ◌++◌, ◌≡◌, ◌≢◌, refl, ap, ◌∙◌, inl, inr, arith,
  append-nil, append_assoc, Bool-cases, replicate, if◌then◌else◌, ◌==◌,
}
use os.Text.Defs.{
  Text, is_space, skip_space, leading_space, keep_unless_last_space, trim_end, trim_end_after_first,
  trimwhitespace, trim_in_place, trimlastenter,
}

pub trim_end-replicate : (n : ℕ) → trim_end (replicate n 32) ≡ []
unfolding trim_end
trim_end-replicate zero = refl
trim_end-replicate (suc n) = rw (trim_end-replicate n) refl

trim_end-append : (s : Text) (n : ℕ) → trim_end (s ++ replicate n 32) ≡ trim_end s
unfolding trim_end
trim_end-append [] n = trim_end-replicate n
trim_end-append (c ∷ cs) n = rw (trim_end-append cs n) refl

trim_end-keep :
    (c : ℕ) (t : Text)
    → trim_end t ≡ t
    → trim_end (keep_unless_last_space c t) ≡ keep_unless_last_space c t
trim_end-keep c [] e = elim (Bool-cases (is_space c)) [
  | inl h ↦ rw h (unfold trim_end in refl)
  | inr h ↦ rw h (unfold trim_end in rw h refl)
]
trim_end-keep c (d ∷ ds) e = unfold trim_end in ap (keep_unless_last_space c) (unfold trim_end in e)

pub trim_end_idem : (s : Text) → trim_end (trim_end s) ≡ trim_end s
unfolding trim_end
trim_end_idem [] = refl
trim_end_idem (c ∷ cs) = trim_end-keep c (trim_end cs) (trim_end_idem cs)

-- Blanks in front of a byte that is none.
skip_space-leading :
    (s t : Text) (c : ℕ) → is_space c ≡ false → skip_space (leading_space s ++ c ∷ t) ≡ c ∷ t
unfolding skip_space leading_space
skip_space-leading [] t c h = rw h refl
skip_space-leading (d ∷ ds) t c h = elim (Bool-cases (is_space d)) [
  | inl e ↦ rw (e, e) (skip_space-leading ds t c h)
  | inr e ↦ rw (e, h) refl
]

skip_space-replicate : (n : ℕ) → skip_space (replicate n 32) ≡ []
unfolding skip_space
skip_space-replicate zero = refl
skip_space-replicate (suc n) = skip_space-replicate n

skip_space-blank : (s : Text) (n : ℕ) → skip_space (leading_space s ++ replicate n 32) ≡ []
unfolding skip_space leading_space
skip_space-blank [] n = skip_space-replicate n
skip_space-blank (d ∷ ds) n = elim (Bool-cases (is_space d)) [
  | inl e ↦ rw (e, e) (skip_space-blank ds n)
  | inr e ↦ rw e (skip_space-replicate n)
]

-- What the first loop stops at is no blank.
pub skip_space-cons : (s t : Text) (c : ℕ) → skip_space s ≡ c ∷ t → is_space c ≡ false
unfolding skip_space
skip_space-cons [] t c e = cc
skip_space-cons (d ∷ ds) t c e = by_flag (is_space d) refl e (skip_space-cons ds t c)
  where
    by_flag :
        (z : Bool)
        → is_space d ≡ z
        → (if z then skip_space ds else d ∷ ds) ≡ c ∷ t
        → (skip_space ds ≡ c ∷ t → is_space c ≡ false)
        → is_space c ≡ false
    by_flag true h e next = next e
    by_flag false h e next = let same : d ≡ c = cc in rw (← same) h

-- The call in place and blanks behind it do not change what trimwhitespace returns.
pub trim_in_place-append :
    (s : Text) (n : ℕ) → trimwhitespace (trim_in_place s ++ replicate n 32) ≡ trimwhitespace s
unfolding trimwhitespace trim_in_place
trim_in_place-append s n = stopped (skip_space s) refl
  where
    stopped :
        (u : Text)
        → skip_space s ≡ u
        → trim_end_after_first
            (skip_space ((leading_space s ++ trim_end_after_first u) ++ replicate n 32))
          ≡ trim_end_after_first u
    stopped [] e =
        rw (append-nil (leading_space s)) (ap trim_end_after_first (skip_space-blank s n))
    stopped (c ∷ cs) e = rw (append_assoc (leading_space s) (c ∷ trim_end cs) (replicate n 32)) (
        ap trim_end_after_first
          (skip_space-leading s (trim_end cs ++ replicate n 32) c (skip_space-cons s cs c e))
        ∙ ap (λ t. c ∷ t) (trim_end-append (trim_end cs) n ∙ trim_end_idem cs))

pub trimlastenter-append :
    (s t : Text) (c : ℕ) → trimlastenter (s ++ c ∷ t) ≡ s ++ trimlastenter (c ∷ t)
unfolding trimlastenter
trimlastenter-append [] t c = refl
trimlastenter-append (d ∷ []) t c = refl
trimlastenter-append (d ∷ e ∷ s) t c = ap (λ u. d ∷ u) (trimlastenter-append (e ∷ s) t c)

pub trimlastenter-replicate :
    (n c : ℕ) → c ≢ 10 → trimlastenter (c ∷ replicate n 32) ≡ c ∷ replicate n 32
unfolding trimlastenter
trimlastenter-replicate zero c h = rw (other c h) refl
  where
    other : (c : ℕ) → c ≢ 10 → (c == 10) ≡ false
    other c h = ground arith
trimlastenter-replicate (suc n) c h =
    ap (λ u. c ∷ u) (trimlastenter-replicate n 32 (λ e. absurd (omega (arith, e))))

keep-trimlastenter :
    (c : ℕ) (t : Text)
    → trimlastenter t ≡ t
    → trimlastenter (keep_unless_last_space c t) ≡ keep_unless_last_space c t
unfolding trimlastenter
keep-trimlastenter c [] e = ground arith
keep-trimlastenter c (d ∷ ds) e = ap (λ u. c ∷ u) e

trim_end-trimlastenter : (s : Text) → trimlastenter (trim_end s) ≡ trim_end s
unfolding trim_end
trim_end-trimlastenter [] = unfold trimlastenter in refl
trim_end-trimlastenter (c ∷ cs) = keep-trimlastenter c (trim_end cs) (trim_end-trimlastenter cs)

-- A trimmed text does not end in a newline.
pub trimwhitespace-trimlastenter : (s : Text) → trimlastenter (trimwhitespace s) ≡ trimwhitespace s
unfolding trimwhitespace
trimwhitespace-trimlastenter s = stopped (skip_space s) refl
  where
    whole :
        (c : ℕ) (t : Text)
        → is_space c ≡ false
        → trimlastenter t ≡ t
        → trimlastenter (c ∷ t) ≡ c ∷ t
    whole c [] h e = unfold trimlastenter in ground arith
    whole c (d ∷ ds) h e = unfold trimlastenter in ap (λ u. c ∷ u) e

    stopped :
        (u : Text)
        → skip_space s ≡ u
        → trimlastenter (trim_end_after_first u) ≡ trim_end_after_first u
    stopped [] e = unfold trimlastenter in refl
    stopped (c ∷ cs) e =
        whole c (trim_end cs) (skip_space-cons s cs c e) (trim_end-trimlastenter cs)
