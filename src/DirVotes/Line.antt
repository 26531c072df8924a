-- ===== src/DirVotes/Line.antt =====
-- The line of counts, read back by Aggregate_Votes.
use os.Base.{
  ℕ, ◌<◌, false, some, List, [], ◌∷◌, ◌++◌, ◌≡◌, ◌≢◌, refl, sym, ap, subst, ◌∙◌, All, All-append,
  All-weaken, append_assoc, append-nil, done,
}
use os.Text.{Text, codes, is_space, contains, digits_value, makeargv, show_int}
use os.Text.Tokens.{IsFree}
use os.Text.Numbers.{Stops, atoi-show_int, show_int-ne-nil}
use os.Text.Plain.{show_int-IsFree, append-ne-nil}
use os.Text.Fields.{join, IsField, makeargv-join}
use os.Server.State.{Counter}
use os.DirVotes.{
  name_and_count, rest_of_line, print_results, add_named, named_count, read_parts, read_parsed,
  read_line_of, read_result,
}

-- A byte of a candidate's name: no blank, comma or colon.
abbrev pub IsNameByte : ℕ → Type 0
IsNameByte c =
    (is_space c ≡ false) × (contains (codes ",") c ≡ false) × (contains (codes ":") c ≡ false)

abbrev pub IsName : Text → Type 0
IsName t = (t ≢ []) × All IsNameByte t

-- A node whose count is an int, with a name that a line can hold.
abbrev pub AreEntries : List Counter → Type 0
AreEntries ks = All (λ k. IsName k.name × (k.count < 4294967296)) ks

-- The parts of the line between commas; the newline stays at the last one.
abbrev fields : List Counter → List Text
fields [] = []
fields (k ∷ []) = (name_and_count k ++ 10 ∷ []) ∷ []
fields (k ∷ l ∷ ls) = name_and_count k ∷ fields (l ∷ ls)

line-join :
    (k : Counter) (ks : List Counter)
    → name_and_count k ++ (rest_of_line ks ++ 10 ∷ []) ≡ join b',' (fields (k ∷ ks))
unfolding rest_of_line
line-join k [] = refl
line-join k (l ∷ ls) =
    rw (append_assoc (name_and_count l) (rest_of_line ls) (10 ∷ []))
      (ap (λ t. name_and_count k ++ b',' ∷ t) (line-join l ls) ∙ joined ls)
  where
    joined :
        (ms : List Counter)
        → name_and_count k ++ b',' ∷ join b',' (fields (l ∷ ms))
          ≡ join b',' (name_and_count k ∷ fields (l ∷ ms))
    joined [] = refl
    joined (m ∷ ms) = refl

-- A name and a count, with what stands behind the count.
pair_with : Counter → Text → Text
pair_with k tail = k.name ++ b':' ∷ (show_int k.count ++ tail)

newline-Stops : Stops (10 ∷ [])
unfolding digits_value
newline-Stops acc = refl

pub nil-Stops : Stops []
unfolding digits_value
nil-Stops acc = refl

pub name_and_count-IsField :
    (k : Counter) (tail : Text)
    → IsName k.name
    → IsFree (codes ",") tail
    → IsField b',' (name_and_count k ++ tail)
name_and_count-IsField k tail (n, h) f = (
  All-append _ (name_and_count k) tail
      (All-append _ k.name (b':' ∷ show_int k.count) (All-weaken k.name (λ c q. q.1) h)
        (unfold contains in refl, show_int-IsFree b',' k.count refl (unfold contains in refl)))
      f,
  append-ne-nil (name_and_count k) tail (append-ne-nil k.name (b':' ∷ show_int k.count) n),
)

fields-IsField : (ks : List Counter) → AreEntries ks → All (IsField b',') (fields ks)
fields-IsField [] h = tt
fields-IsField (k ∷ []) (h, hs) =
    (name_and_count-IsField k (10 ∷ []) h.0 (unfold contains in (refl, tt)), tt)
fields-IsField (k ∷ l ∷ ls) (h, hs) = (
  subst (IsField b',') (append-nil (name_and_count k)) (name_and_count-IsField k [] h.0 tt),
  fields-IsField (l ∷ ls) hs,
)

pub makeargv-name_and_count :
    (k : Counter) (tail : Text)
    → IsName k.name
    → IsFree (codes ":") tail
    → makeargv (some (name_and_count k ++ tail)) (codes ":")
      ≡ some (k.name ∷ (show_int k.count ++ tail) ∷ [])
makeargv-name_and_count k tail (n, h) f = rw (append_assoc k.name (b':' ∷ show_int k.count) tail) (
    makeargv-join b':' (k.name ∷ (show_int k.count ++ tail) ∷ []) (
      (All-weaken k.name (λ c q. q.2) h, n),
      (
        (
          All-append _ (show_int k.count) tail
              (show_int-IsFree b':' k.count refl (unfold contains in refl)) f,
          append-ne-nil (show_int k.count) tail (show_int-ne-nil k.count),
        ),
        tt,
      ),
    ))

named_count-read :
    (k : Counter) (tail : Text)
    → IsName k.name
    → k.count < 4294967296
    → IsFree (codes ":") tail
    → Stops tail
    → named_count (makeargv (some (name_and_count k ++ tail)) (codes ":")) ≡ done (k.name, k.count)
named_count-read k tail n b f e =
    ap named_count (makeargv-name_and_count k tail n f)
    ∙ ap (λ v. done (k.name, v)) (atoi-show_int k.count tail b e)

-- The same for a part at whose end nothing stands.
pub makeargv-part :
    (k : Counter)
    → IsName k.name
    → makeargv (some (name_and_count k)) (codes ":") ≡ some (k.name ∷ (show_int k.count ++ []) ∷ [])
makeargv-part k n =
    ap (λ t. makeargv (some t) (codes ":")) (sym (append-nil (name_and_count k)))
    ∙ makeargv-name_and_count k [] n tt

-- What a chain adds to another one.
unfoldable pub add_all : List Counter → List Counter → List Counter
add_all [] acc = acc
add_all (k ∷ ks) acc = add_all ks (add_named k.name k.count acc)

read_parts-fields :
    (ks acc : List Counter) → AreEntries ks → read_parts (fields ks) acc ≡ done (add_all ks acc)
unfolding read_parts add_all
read_parts-fields [] acc h = refl
read_parts-fields (k ∷ []) acc ((n, b), hs) =
    rw (named_count-read k (10 ∷ []) n b (unfold contains in (refl, tt)) newline-Stops) refl
read_parts-fields (k ∷ l ∷ ls) acc ((n, b), hs) =
    rw
      (ap named_count (makeargv-part k n)
        ∙ ap (λ v. done (k.name, v)) (atoi-show_int k.count [] b nil-Stops))
      (read_parts-fields (l ∷ ls) (add_named k.name k.count acc) hs)

-- A line of counts, written by either program, is read as the chain that it was written from:
-- every count is added under its name.
pub read_result-line :
    (k : Counter) (ks acc : List Counter)
    → AreEntries (k ∷ ks)
    → read_result (some (print_results (k ∷ ks))) acc ≡ done (add_all (k ∷ ks) acc)
unfolding print_results
read_result-line k ks acc h =
    not_empty (name_and_count k ++ (rest_of_line ks ++ 10 ∷ [])) (
      append-ne-nil (name_and_count k) (rest_of_line ks ++ 10 ∷ [])
        (append-ne-nil k.name (b':' ∷ show_int k.count) h.0.0.0))
    ∙ ap (λ t. read_parsed (makeargv (some t) (codes ",")) acc) (line-join k ks)
    ∙ ap (λ o. read_parsed o acc) (makeargv-join b',' (fields (k ∷ ks)) (fields-IsField (k ∷ ks) h))
    ∙ read_parts-fields (k ∷ ks) acc h
  where
    not_empty :
        (t : Text) → t ≢ [] → read_line_of t acc ≡ read_parsed (makeargv (some t) (codes ",")) acc
    not_empty [] n = absurd (n refl)
    not_empty (c ∷ cs) n = unfold read_line_of in refl
