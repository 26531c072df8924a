-- ===== src/VoteCounter/Decrypt/Exact.antt =====
-- What decryptString leaves in the line.
use os.Base.{
  ℕ, zero, suc, ◌+◌, ◌%◌, ◌<◌, ◌≤◌, Bool, true, false, List, [], ◌∷◌, ◌++◌, length, take, map, ◌==◌,
  if◌then◌else◌, ◌≡◌, ◌≢◌, refl, ap, ◌∙◌, inl, inr, All, arith, append-nil, append_assoc, ◌||◌,
  Bool-cases, length-append,
}
use os.Text.{Text}
use os.VoteCounter.Decrypt.{c_string, put, put_end, strcat_byte, decrypt_from, decrypt_string}

abbrev pub is_last : ℕ → Bool
is_last c = (c == b'y') || ((c == b'z') || ((c == b'Y') || (c == b'Z')))

-- The letter two places on, around the end of the alphabet.
abbrev pub decrypted : ℕ → ℕ
decrypted c =
    if c == b'y'
    then b'a'
    else if c == b'z'
    then b'b'
    else if c == b'Y'
    then b'A'
    else if c == b'Z'
    then b'B'
    else c + 2

-- The bytes other than y, z, Y and Z.
unfoldable pub others : Text → Text
others [] = []
others (c ∷ cs) = if is_last c then others cs else c ∷ others cs

abbrev pub nil_or {ℓ} : {A : Type ℓ} → Text → A → A → A
nil_or [] a b = a
nil_or (c ∷ cs) a b = b

-- The letters y, z, Y and Z behind the last other byte.
unfoldable pub last_run : Text → Text
last_run [] = []
last_run (c ∷ cs) =
    if is_last c then nil_or (others cs) (c ∷ last_run cs) (last_run cs) else last_run cs

-- A byte of a line of text.
abbrev pub IsPlain : ℕ → Type 0
IsPlain c = (0 < c) × (c < 254) × (c ≢ 10)

positive : (v : ℕ) → 0 < v → (v == 0) ≡ false
positive v p = ground arith

c_string-put_end :
    (fin : List ℕ) (n v : ℕ)
    → n ≤ length (c_string fin)
    → 0 < v
    → c_string (put_end fin n v) ≡ take n (c_string fin) ++ v ∷ []
unfolding c_string put
c_string-put_end [] zero v h p = rw (positive v p) refl
c_string-put_end [] (suc n) v h p = elim h [ ]
c_string-put_end (b ∷ []) zero v h p = rw (positive v p) refl
c_string-put_end (b ∷ d ∷ bs) zero v h p = rw (positive v p) refl
c_string-put_end (b ∷ bs) (suc n) v h p = elim (Bool-cases (b == 0)) [
  | inl e ↦ absurd (out_of_range (b == 0) e h)
  | inr e ↦ rw e (ap (λ t. b ∷ t) (c_string-put_end bs n v (in_range (b == 0) e h) p))
]
  where
    out_of_range : (z : Bool) → z ≡ true → suc n ≤ length (if z then [] else b ∷ c_string bs) → ⊥
    out_of_range true e h = elim h [ ]
    out_of_range false e h = cc

    in_range :
        (z : Bool)
        → z ≡ false
        → suc n ≤ length (if z then [] else b ∷ c_string bs)
        → n ≤ length (c_string bs)
    in_range true e h = cc
    in_range false e h = omega arith

decrypted-pos : (c : ℕ) → 0 < decrypted c
decrypted-pos c = ground arith

decrypt_from-step :
    (fin : List ℕ) (position c : ℕ) (cs : Text)
    → IsPlain c
    → decrypt_from fin position (c ∷ cs) ≡ (
        if is_last c
        then decrypt_from (strcat_byte fin (decrypted c)) position cs
        else decrypt_from (put_end fin position (decrypted c)) (suc position) cs)
unfolding decrypt_from
decrypt_from-step fin position c cs (p, q, r) = rw (no_newline c r) (elim (Bool-cases (c == b'y')) [
  | inl y ↦ rw y refl
  | inr not_y ↦ rw not_y (elim (Bool-cases (c == b'z')) [
    | inl z ↦ rw z refl
    | inr not_z ↦ rw not_z (elim (Bool-cases (c == b'Y')) [
      | inl uy ↦ rw uy refl
      | inr not_uy ↦ rw not_uy (elim (Bool-cases (c == b'Z')) [
        | inl uz ↦ rw uz refl
        | inr not_uz ↦ rw not_uz (rw (small c q) refl)
      ])
    ])
  ])
])
  where
    no_newline : (c : ℕ) → c ≢ 10 → (c == 10) ≡ false
    no_newline c r = ground arith

    small : (c : ℕ) → c < 254 → (c + 2) % 256 ≡ c + 2
    small c q = omega arith

take-all : (s : Text) (n : ℕ) → n ≡ length s → take n s ≡ s
take-all [] zero e = refl
take-all [] (suc n) e = refl
take-all (c ∷ cs) zero e = absurd (omega (arith, e))
take-all (c ∷ cs) (suc n) e = ap (λ t. c ∷ t) (take-all cs n (omega arith))

take-front : (s t : Text) → take (length s) (s ++ t) ≡ s
take-front [] t = refl
take-front (c ∷ cs) t = ap (λ u. c ∷ u) (take-front cs t)

-- The buffer holds `front`, to which `position` belongs, and the letters appended since then.
decrypt_from-c_string :
    (fin : List ℕ) (position : ℕ) (front kept cs : Text)
    → position ≡ length front
    → All IsPlain cs
    → c_string fin ≡ front ++ kept
    → c_string (decrypt_from fin position cs)
      ≡ (front ++ map decrypted (others cs))
        ++ (nil_or (others cs) kept [] ++ map decrypted (last_run cs))
unfolding others last_run
decrypt_from-c_string fin position front kept [] l h e =
    unfold decrypt_from in rw (append-nil front, append-nil kept) e
decrypt_from-c_string fin position front kept (c ∷ cs) l (h, hs) e =
    rw (decrypt_from-step fin position c cs h) (elim (Bool-cases (is_last c)) [
      | inl last ↦ rw last (
          decrypt_from-c_string (strcat_byte fin (decrypted c)) position front
            (kept ++ decrypted c ∷ []) cs l hs appended
          ∙ joined (others cs))
      | inr other ↦ rw other (
          decrypt_from-c_string (put_end fin position (decrypted c)) (suc position)
            (front ++ decrypted c ∷ []) [] cs
            (omega (arith, l, length-append front (decrypted c ∷ []))) hs placed
          ∙ moved (others cs))
    ])
  where
    placed : c_string (put_end fin position (decrypted c)) ≡ (front ++ decrypted c ∷ []) ++ []
    placed =
        c_string-put_end fin position (decrypted c)
          (rw e (omega (arith, l, length-append front kept))) (decrypted-pos c)
        ∙ rw (e, l, take-front front kept, append-nil (front ++ decrypted c ∷ [])) refl

    moved :
        (os_ : Text)
        → ((front ++ decrypted c ∷ []) ++ map decrypted os_)
            ++ (nil_or os_ [] [] ++ map decrypted (last_run cs))
          ≡ (front ++ decrypted c ∷ map decrypted os_) ++ map decrypted (last_run cs)
    moved [] = rw (append_assoc front (decrypted c ∷ []) []) refl
    moved (o ∷ os_) = rw (append_assoc front (decrypted c ∷ []) (map decrypted (o ∷ os_))) refl

    appended : c_string (strcat_byte fin (decrypted c)) ≡ front ++ (kept ++ decrypted c ∷ [])
    appended =
        c_string-put_end fin (length (c_string fin)) (decrypted c) (omega arith) (decrypted-pos c)
        ∙ rw (take-all (c_string fin) (length (c_string fin)) refl, e)
            (append_assoc front kept (decrypted c ∷ []))

    joined :
        (os_ : Text)
        → (front ++ map decrypted os_)
            ++ (nil_or os_ (kept ++ decrypted c ∷ []) [] ++ map decrypted (last_run cs))
          ≡ (front ++ map decrypted os_)
            ++ (nil_or os_ kept [] ++ map decrypted (nil_or os_ (c ∷ last_run cs) (last_run cs)))
    joined [] = rw (append_assoc kept (decrypted c ∷ []) (map decrypted (last_run cs))) refl
    joined (o ∷ os_) = refl

-- decryptString leaves the decrypted bytes of a line without a newline, except that a y, z, Y
-- or Z with another letter behind it is lost: the other letters come first, and behind them those
-- of the four that follow the last of them.
pub decrypt_string_lem :
    (str : Text)
    → All IsPlain str
    → decrypt_string str ≡ map decrypted (others str) ++ map decrypted (last_run str)
unfolding decrypt_string c_string
decrypt_string_lem str h = decrypt_from-c_string [] 0 [] [] str refl h refl ∙ no_kept (others str)
  where
    no_kept :
        (os_ : Text)
        → map decrypted (others str) ++ (nil_or os_ [] [] ++ map decrypted (last_run str))
          ≡ map decrypted (others str) ++ map decrypted (last_run str)
    no_kept [] = refl
    no_kept (o ∷ os_) = refl
