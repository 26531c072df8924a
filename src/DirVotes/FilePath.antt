-- ===== src/DirVotes/FilePath.antt =====
-- getFilePath, and the files that the winner's line goes to.
use os.Base.{
  false, some, List, [], ◌∷◌, ◌++◌, if◌then◌else◌, Run, done, ◌>>=◌, use_ptr, ◌≡◌, ◌≢◌, refl, ap,
  All, Bool-cases, inl, inr,
}
use os.Text.{Text, codes, text_eq, makeargv}
use os.Text.Fields.{join, IsField, makeargv-join}
use os.Server.State.Find.{text_eq_iff}
use os.DirVotes.Links.{last_of, tokens_or_none}

-- The file of a directory: its name, with .txt, in it. The path / has no part, and a pointer in
-- front of the array is read.
unfoldable pub get_file_path : Text → Run Text
get_file_path path = do
  name ← use_ptr (last_of (tokens_or_none (makeargv (some path) (codes "/"))))
  done (path ++ b'/' ∷ (name ++ codes ".txt"))

-- run_aggr's result
abbrev pub output_path : Text → Text
output_path path = path ++ codes "/Who_Won.txt"

-- The end of main in Vote_Counter.c.
unfoldable pub winner_paths : Text → Run (List Text)
winner_paths paths = do
  paths_new ← get_file_path paths
  let path = output_path paths
  done (path ∷ (if text_eq paths_new path then [] else paths_new ∷ []))

last_of-append : (parts : List Text) (name : Text) → last_of (parts ++ name ∷ []) ≡ some name
last_of-append [] name = refl
last_of-append (p ∷ []) name = refl
last_of-append (p ∷ q ∷ ps) name = last_of-append (q ∷ ps) name

-- A path that begins with a part.
abbrev pub path_of : List Text → Text → Text
path_of parts name = join b'/' (parts ++ name ∷ [])

pub get_file_path_lem :
    (parts : List Text) (name : Text)
    → All (IsField b'/') (parts ++ name ∷ [])
    → get_file_path (path_of parts name)
      ≡ done (path_of parts name ++ b'/' ∷ (name ++ codes ".txt"))
unfolding get_file_path
get_file_path_lem parts name h =
    rw (makeargv-join b'/' (parts ++ name ∷ []) h, last_of-append parts name) refl

append_inj : (s t u : Text) → s ++ t ≡ s ++ u → t ≡ u
append_inj [] t u e = e
append_inj (c ∷ cs) t u e = append_inj cs t u (cc)

text_eq-false : (s t : Text) → s ≢ t → text_eq s t ≡ false
text_eq-false s t h = elim (Bool-cases (text_eq s t)) [
  | inl e ↦ absurd (h ((text_eq_iff s t).0 e))
  | inr e ↦ e
]

-- The winner's line goes to Who_Won.txt in the directory, and to the directory's own file too if
-- that is another one.
pub winner_paths_lem :
    (parts : List Text) (name : Text)
    → All (IsField b'/') (parts ++ name ∷ [])
    → name ++ codes ".txt" ≢ codes "Who_Won.txt"
    → winner_paths (path_of parts name)
      ≡ done (
          output_path (path_of parts name)
          ∷ (path_of parts name ++ b'/' ∷ (name ++ codes ".txt"))
          ∷ [])
unfolding winner_paths
winner_paths_lem parts name h ne = rw (get_file_path_lem parts name h, differ) refl
  where
    own : Text
    own = path_of parts name ++ b'/' ∷ (name ++ codes ".txt")

    other_file : own ≢ output_path (path_of parts name)
    other_file e = ne (ap tail (append_inj (path_of parts name) _ _ e))
      where
        tail : Text → Text
        tail [] = []
        tail (c ∷ cs) = cs

    differ : text_eq own (output_path (path_of parts name)) ≡ false
    differ = text_eq-false own (output_path (path_of parts name)) other_file
