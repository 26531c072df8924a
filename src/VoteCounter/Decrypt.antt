-- ===== src/VoteCounter/Decrypt.antt =====
-- decryptString and the loop of readInput.
pub mod Exact
use os.Base.{ℕ, zero, suc, ◌+◌, ◌%◌, Bool, List, [], ◌∷◌, ◌++◌, length, map, ◌==◌, if◌then◌else◌}
use os.Text.{Text}

-- The bytes of a buffer up to the first 0.
unfoldable pub c_string : List ℕ → Text
c_string [] = []
c_string (b ∷ bs) = let rest = c_string bs in if b == 0 then [] else b ∷ rest

-- buffer[i] = v
unfoldable pub put : List ℕ → ℕ → ℕ → List ℕ
put [] zero v = v ∷ []
put [] (suc i) v = 0 ∷ put [] i v
put (b ∷ bs) zero v = v ∷ bs
put (b ∷ bs) (suc i) v = b ∷ put bs i v

-- buffer[i] = v with a 0 behind it; strcat of one byte does this at the string's end.
abbrev pub put_end : List ℕ → ℕ → ℕ → List ℕ
put_end fin i v = put (put fin i v) (suc i) 0

abbrev pub strcat_byte : List ℕ → ℕ → List ℕ
strcat_byte fin v = put_end fin (length (c_string fin)) v

-- The loop, which ends at a newline. The letters y, z, Y and Z are appended, any other byte
-- goes to `position`.
unfoldable pub decrypt_from : List ℕ → ℕ → Text → List ℕ
decrypt_from fin position [] = fin
decrypt_from fin position (c ∷ cs) =
    let after_a = decrypt_from (strcat_byte fin b'a') position cs in
    let after_b = decrypt_from (strcat_byte fin b'b') position cs in
    let after_ua = decrypt_from (strcat_byte fin b'A') position cs in
    let after_ub = decrypt_from (strcat_byte fin b'B') position cs in
    let after_put = decrypt_from (put_end fin position ((c + 2) % 256)) (suc position) cs in
    if c == 10
    then fin
    else if c == b'y'
    then after_a
    else if c == b'z'
    then after_b
    else if c == b'Y'
    then after_ua
    else if c == b'Z'
    then after_ub
    else after_put

unfoldable pub decrypt_string : Text → Text
decrypt_string str = c_string (decrypt_from [] 0 str)

-- The output file of a leaf: each line of the input decrypted, with a newline.
unfoldable pub read_input : List Text → List Text
read_input lines = map (λ buffer. decrypt_string buffer ++ 10 ∷ []) lines
