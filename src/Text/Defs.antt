-- ===== src/Text/Defs.antt =====
-- The text routines. A string is the list of its bytes up to the terminating 0.
use Prim.Native.Char.{code}
use Prim.Native.String.{String}
use os.Base.{
  ℕ, zero, suc, ◌+◌, ◌-◌, ◌*◌, ◌/◌, ◌%◌, Bool, true, false, ◌&&◌, ◌||◌, Option, none, some, List,
  [], ◌∷◌, ◌++◌, ltb, leb, ◌==◌, if◌then◌else◌,
}

abbrev pub Text : Type 0
Text = List ℕ

-- The bytes of a literal; all of them are ASCII.
abbrev pub codes : String → Text
codes String.[] = []
codes (String.◌∷◌ c s) = code c ∷ codes s

-- strcmp(a, b) == 0
unfoldable pub text_eq : Text → Text → Bool
text_eq [] [] = true
text_eq (a ∷ s) (b ∷ t) = (a == b) && text_eq s t
text_eq [] (b ∷ t) = false
text_eq (a ∷ s) [] = false

-- isspace in the C locale: blank, and tab to carriage return
abbrev pub is_space : ℕ → Bool
is_space c = (c == 32) || (leb 9 c && leb c 13)

-- The first loop of trimwhitespace: what `str` points to after it.
unfoldable pub skip_space : Text → Text
skip_space [] = []
skip_space (c ∷ cs) = if is_space c then skip_space cs else c ∷ cs

-- The blanks that the first loop steps over.
unfoldable pub leading_space : Text → Text
leading_space [] = []
leading_space (c ∷ cs) = if is_space c then c ∷ leading_space cs else []

abbrev pub keep_unless_last_space : ℕ → Text → Text
keep_unless_last_space c [] = if is_space c then [] else c ∷ []
keep_unless_last_space c (d ∷ ds) = c ∷ d ∷ ds

-- The second loop and the write of the new end: trailing blanks fall away.
unfoldable pub trim_end : Text → Text
trim_end [] = []
trim_end (c ∷ cs) = keep_unless_last_space c (trim_end cs)

-- `end > str`: the byte that `str` points to stays.
abbrev pub trim_end_after_first : Text → Text
trim_end_after_first [] = []
trim_end_after_first (c ∷ cs) = c ∷ trim_end cs

-- The string at the returned pointer.
unfoldable pub trimwhitespace : Text → Text
trimwhitespace str = trim_end_after_first (skip_space str)

-- The string at the argument's pointer after the call, whose result the caller drops: the leading
-- blanks are still there.
unfoldable pub trim_in_place : Text → Text
trim_in_place str = leading_space str ++ trimwhitespace str

-- One newline at the end falls away.
unfoldable pub trimlastenter : Text → Text
trimlastenter [] = []
trimlastenter (c ∷ []) = if c == 10 then [] else c ∷ []
trimlastenter (c ∷ d ∷ ds) = c ∷ trimlastenter (d ∷ ds)

unfoldable pub contains : Text → ℕ → Bool
contains [] c = false
contains (d ∷ ds) c = (d == c) || contains ds c

-- s + strspn(s, delimiters)
unfoldable pub skip_delimiters : Text → Text → Text
skip_delimiters delimiters [] = []
skip_delimiters delimiters (c ∷ cs) =
    if contains delimiters c then skip_delimiters delimiters cs else c ∷ cs

-- A token goes on the list if it has a byte.
abbrev pub add_token : Text → List Text → List Text
add_token [] ts = ts
add_token (c ∷ cs) ts = (c ∷ cs) ∷ ts

-- All that strtok returns until NULL; `token` holds the bytes of the token that is being read.
unfoldable pub strtok_all : Text → Text → Text → List Text
strtok_all delimiters token [] = add_token token []
strtok_all delimiters token (c ∷ cs) = elim (contains delimiters c) [
  | true ↦ add_token token (strtok_all delimiters [] cs)
  | false ↦ strtok_all delimiters (token ++ c ∷ []) cs
]

-- `none` is the result -1, which a null string gives. The argument array is the list of the tokens,
-- and what stands behind its last token is NULL. malloc is taken to succeed.
unfoldable pub makeargv : Option Text → Text → Option (List Text)
makeargv none delimiters = none
makeargv (some s) delimiters = some (strtok_all delimiters [] (skip_delimiters delimiters s))

-- argvp[i]
abbrev pub arg : List Text → ℕ → Option Text
arg [] i = none
arg (t ∷ ts) zero = some t
arg (t ∷ ts) (suc i) = arg ts i

abbrev pub is_digit : ℕ → Bool
is_digit c = leb 48 c && leb c 57

unfoldable pub digits_value : ℕ → Text → ℕ
digits_value acc [] = acc
digits_value acc (c ∷ cs) =
    let rest = digits_value (acc * 10 + (c - 48)) cs in if is_digit c then rest else acc

abbrev pub signed_value : Text → ℕ
signed_value [] = 0
signed_value (c ∷ cs) =
    if c == b'-'
    then (4294967296 - digits_value 0 cs % 4294967296) % 4294967296
    else if c == b'+'
    then digits_value 0 cs % 4294967296
    else digits_value 0 (c ∷ cs) % 4294967296

-- The value of a numeral as an `int`.
unfoldable pub atoi : Text → ℕ
atoi s = signed_value (skip_space s)

-- The decimal numeral of a number of at most `n` digits.
unfoldable pub decimal : ℕ → ℕ → Text
decimal zero v = []
decimal (suc n) v =
    let front = decimal n (v / 10) in
    if ltb v 10 then (48 + v) ∷ [] else front ++ (48 + v % 10) ∷ []

-- sprintf("%d") of an `int`, which has ten digits at most
unfoldable pub show_int : ℕ → Text
show_int v = if ltb v 2147483648 then decimal 10 v else b'-' ∷ decimal 10 (4294967296 - v)
