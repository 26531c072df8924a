-- ===== src/Text/Plain.antt =====
-- Texts without blanks: trimwhitespace takes away what stands behind them.
use os.Base.{ℕ, true, false, [], ◌∷◌, ◌++◌, ◌≡◌, ◌≢◌, refl, ap, arith, All}
use os.Text.Defs.{
  Text, is_space, is_digit, contains, skip_space, keep_unless_last_space, trim_end, trimwhitespace,
  show_int,
}
use os.Text.Tokens.{IsFree}
use os.Text.Numbers.{show_int-All}

-- No byte is a blank.
abbrev pub IsPlain : Text → Type 0
IsPlain t = All (λ c. is_space c ≡ false) t

keep-plain : (c : ℕ) (t : Text) → is_space c ≡ false → keep_unless_last_space c t ≡ c ∷ t
keep-plain c [] h = rw h refl
keep-plain c (d ∷ ds) h = refl

trim_end-IsPlain : (t u : Text) → IsPlain t → trim_end u ≡ [] → trim_end (t ++ u) ≡ t
unfolding trim_end
trim_end-IsPlain [] u h e = e
trim_end-IsPlain (c ∷ cs) u (h, hs) e = rw (trim_end-IsPlain cs u hs e) (keep-plain c cs h)

pub trimwhitespace-IsPlain :
    (t u : Text) → t ≢ [] → IsPlain t → trim_end u ≡ [] → trimwhitespace (t ++ u) ≡ t
unfolding trimwhitespace skip_space
trimwhitespace-IsPlain [] u n h e = absurd (n refl)
trimwhitespace-IsPlain (c ∷ cs) u n (h, hs) e = rw h (ap (λ v. c ∷ v) (trim_end-IsPlain cs u hs e))

digit_free : (d c : ℕ) → is_digit c ≡ true → is_digit d ≡ false → contains (d ∷ []) c ≡ false
unfolding contains
digit_free d c h e = ground arith

digit_plain : (c : ℕ) → is_digit c ≡ true → is_space c ≡ false
digit_plain c h = ground arith

-- A numeral has no delimiter that is no digit and no minus sign.
pub show_int-IsFree :
    (d v : ℕ) → is_digit d ≡ false → contains (d ∷ []) b'-' ≡ false → IsFree (d ∷ []) (show_int v)
show_int-IsFree d v e m = show_int-All _ v (λ c h. digit_free d c h e) m

pub show_int-IsPlain : (v : ℕ) → IsPlain (show_int v)
show_int-IsPlain v = show_int-All _ v digit_plain refl

pub append-ne-nil : (s t : Text) → s ≢ [] → s ++ t ≢ []
append-ne-nil [] t h e = h refl
append-ne-nil (c ∷ cs) t h e = cc
