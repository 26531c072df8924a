-- ===== src/Text/InPlace.antt =====
-- trimwhitespace on a stored string: what a second call changes, which is nothing.
use os.Base.{[], ◌∷◌, ◌++◌, ◌≡◌, refl, ◌∙◌, ◌⊎◌, inl, inr, ap, sym, append-nil, Bool-cases}
use os.Text.{
  Text, is_space, skip_space, leading_space, trim_end_after_first, trimwhitespace, trim_in_place,
}
use os.Text.Trim.{skip_space-cons, trim_end_idem, trim_in_place-append}

leading_space-trimwhitespace : (s : Text) → leading_space (trimwhitespace s) ≡ []
unfolding trimwhitespace leading_space
leading_space-trimwhitespace s = stopped (skip_space s) refl
  where
    stopped : (u : Text) → skip_space s ≡ u → leading_space (trim_end_after_first u) ≡ []
    stopped [] e = refl
    stopped (c ∷ cs) e = rw (skip_space-cons s cs c e) refl

leading_space-append :
    (s t : Text) → leading_space t ≡ [] → leading_space (leading_space s ++ t) ≡ leading_space s
unfolding leading_space
leading_space-append [] t h = h
leading_space-append (d ∷ ds) t h = elim (Bool-cases (is_space d)) [
  | inl e ↦ rw (e, e) (ap (λ u. d ∷ u) (leading_space-append ds t h))
  | inr e ↦ rw e h
]

pub leading_space-trim_in_place : (s : Text) → leading_space (trim_in_place s) ≡ leading_space s
unfolding trim_in_place
leading_space-trim_in_place s =
    leading_space-append s (trimwhitespace s) (leading_space-trimwhitespace s)

pub trimwhitespace-trim_in_place : (s : Text) → trimwhitespace (trim_in_place s) ≡ trimwhitespace s
trimwhitespace-trim_in_place s =
    ap trimwhitespace (sym (append-nil (trim_in_place s))) ∙ trim_in_place-append s 0

trimwhitespace_idem : (s : Text) → trimwhitespace (trimwhitespace s) ≡ trimwhitespace s
unfolding trimwhitespace skip_space
trimwhitespace_idem s = stopped (skip_space s) refl
  where
    stopped :
        (u : Text)
        → skip_space s ≡ u
        → trim_end_after_first (skip_space (trim_end_after_first u)) ≡ trim_end_after_first u
    stopped [] e = refl
    stopped (c ∷ cs) e = rw (skip_space-cons s cs c e) (ap (λ t. c ∷ t) (trim_end_idem cs))

pub trim_in_place-no_blank : (s : Text) → leading_space s ≡ [] → trim_in_place s ≡ trimwhitespace s
unfolding trim_in_place
trim_in_place-no_blank s h = rw h refl

-- A trimmed text stays as it is.
pub trim_in_place-trimwhitespace : (s : Text) → trim_in_place (trimwhitespace s) ≡ trimwhitespace s
trim_in_place-trimwhitespace s =
    trim_in_place-no_blank (trimwhitespace s) (leading_space-trimwhitespace s)
    ∙ trimwhitespace_idem s

pub trim_in_place_idem : (s : Text) → trim_in_place (trim_in_place s) ≡ trim_in_place s
trim_in_place_idem s =
    unfold trim_in_place in
    rw (leading_space-trim_in_place s)
      (ap (λ t. leading_space s ++ t) (trimwhitespace-trim_in_place s))

-- A string before and after any number of calls of trimwhitespace on it.
abbrev pub Trims : Text → Text → Type 0
Trims s t = (t ≡ s) ⊎ (t ≡ trim_in_place s)

pub Trims-trans : (s t u : Text) → Trims s t → Trims t u → Trims s u
Trims-trans s t u (inl a) (inl b) = inl (b ∙ a)
Trims-trans s t u (inl a) (inr b) = inr (b ∙ ap trim_in_place a)
Trims-trans s t u (inr a) (inl b) = inr (b ∙ a)
Trims-trans s t u (inr a) (inr b) = inr (b ∙ ap trim_in_place a ∙ trim_in_place_idem s)

pub Trims-trimwhitespace : (s t : Text) → Trims (trimwhitespace s) t → t ≡ trimwhitespace s
Trims-trimwhitespace s t (inl e) = e
Trims-trimwhitespace s t (inr e) = e ∙ trim_in_place-trimwhitespace s

-- What a later call sees of it.
pub Trims-leading_space : (s t : Text) → Trims s t → leading_space t ≡ leading_space s
Trims-leading_space s t (inl e) = ap leading_space e
Trims-leading_space s t (inr e) = ap leading_space e ∙ leading_space-trim_in_place s

pub Trims-trimmed : (s t : Text) → Trims s t → trimwhitespace t ≡ trimwhitespace s
Trims-trimmed s t (inl e) = ap trimwhitespace e
Trims-trimmed s t (inr e) = ap trimwhitespace e ∙ trimwhitespace-trim_in_place s
