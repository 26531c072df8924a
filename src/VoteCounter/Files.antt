-- ===== src/VoteCounter/Files.antt =====
-- The counts in the output files: aggregate and findwinner. A file is the list of its lines, each
-- with its newline. A call of aggregate keeps rwMutex from its read to its last write, so it is one
-- step for the other threads.
pub mod Merge
pub mod Climb
pub mod Winner
use os.Base.{
  ℕ, zero, suc, Bool, true, false, Option, none, some, List, [], ◌∷◌, ◌++◌, length, map, ◌==◌,
  if◌then◌else◌, Run, done, fault, exit, loops, ◌>>=◌, use_ptr,
}
use os.Base.Word.{add_int, lt_int}
use os.Text.{Text, codes, text_eq, makeargv, arg, atoi, show_int, trimlastenter}
use os.VoteCounter.Paths.{DirNode, get_path, getparentname}

pub record Candidate : Type 0 where
  pub name : Text
  pub count : ℕ

-- A file by its path.
pub record OutFile : Type 0 where
  pub path : Text
  pub lines : List Text

unfoldable pub open_file : Text → List OutFile → Option (List Text)
open_file path [] = none
open_file path (f ∷ fs) = if text_eq f.path path then some f.lines else open_file path fs

unfoldable pub write_file : Text → List Text → List OutFile → List OutFile
write_file path lines [] = record { path = path; lines = lines } ∷ []
write_file path lines (f ∷ fs) =
    let rest = write_file path lines fs in
    if text_eq f.path path then record f { lines = lines } ∷ fs else f ∷ rest

-- A vote of one letter: every counter of that name, or a new one.
unfoldable pub has_candidate : Text → List Candidate → Bool
has_candidate name [] = false
has_candidate name (k ∷ ks) = if text_eq k.name name then true else has_candidate name ks

abbrev pub count_if_named : Text → Candidate → Candidate
count_if_named name k = if text_eq k.name name then record k { count = add_int k.count 1 } else k

abbrev pub count_letter : Text → List Candidate → List Candidate
count_letter name ks =
    if has_candidate name ks
    then map (count_if_named name) ks
    else ks ++ record { name = name; count = 1 } ∷ []

-- Only a line of two bytes is a vote.
unfoldable pub count_lines : List Text → List Candidate → List Candidate
count_lines [] ks = ks
count_lines (l ∷ ls) ks =
    if length l == 2 then count_lines ls (count_letter (trimlastenter l) ks) else count_lines ls ks

-- sprintf("%s:%d\n")
abbrev pub count_line : Candidate → Text
count_line k = k.name ++ b':' ∷ show_int k.count ++ 10 ∷ []

unfoldable pub increment_of : Text → List Candidate → ℕ
increment_of name [] = 0
increment_of name (k ∷ ks) = if text_eq k.name name then k.count else increment_of name ks

-- A line of the parent's file, with the votes of the candidate added.
abbrev pub updated_tokens : List Candidate → Option (List Text) → Run Candidate
updated_tokens ks none = fault
updated_tokens ks (some argvp) = do
  name ← use_ptr (arg argvp 0)
  count ← use_ptr (arg argvp 1)
  done (record { name = name; count = add_int (atoi count) (increment_of name ks) })

unfoldable pub updated : List Candidate → List Text → Run (List Candidate)
updated ks [] = done []
updated ks (l ∷ ls) = do
  k ← updated_tokens ks (makeargv (some (trimlastenter l)) (codes ":"))
  rest ← updated ks ls
  done (k ∷ rest)

-- The lines of the parent's file: those of the counters if there is none, else its own updated.
abbrev pub merged_lines : List Candidate → Option (List Text) → Run (List Text)
merged_lines ks none = done (map count_line ks)
merged_lines ks (some lines) = do out ← updated ks lines; done (map count_line out)

abbrev pub opened : Option (List Text) → Run (List Text)
opened none = exit
opened (some lines) = done lines

-- The files and the counters after one level, and the parent's name. getPath's result is not checked
-- at the parent: without a path both calls of fopen fail, and fclose gets a null pointer.
abbrev pub aggregate_level :
    List DirNode → Text → List Candidate → List OutFile → Run (Text × List Candidate × List OutFile)
aggregate_level ds readfilepath ks fs = do
  lines ← opened (open_file readfilepath fs)
  parentname ← getparentname readfilepath
  let ks' = count_lines lines ks
  writefilepath ← use_ptr (get_path parentname ds)
  out ← merged_lines ks' (open_file writefilepath fs)
  done (parentname, ks', write_file writefilepath out fs)

abbrev pub aggregate_next :
    (Text → List Candidate → List OutFile → Run (List OutFile))
    → List DirNode
    → List Candidate
    → List OutFile
    → Option Text
    → Run (List OutFile)
aggregate_next next ds ks fs none = done fs
aggregate_next next ds ks fs (some readfilepath) = do
  (parentname, ks', fs') ← aggregate_level ds readfilepath ks fs
  next parentname ks' fs'

-- The recursion goes up to the root, whose name ends it. `fuel` bounds the number of levels.
unfoldable pub aggregate_up :
    ℕ → Text → List DirNode → Text → List Candidate → List OutFile → Run (List OutFile)
aggregate_up zero root ds filename ks fs = loops
aggregate_up (suc fuel) root ds filename ks fs = elim (text_eq filename root) [
  | true ↦ done fs
  | false ↦
      aggregate_next (λ parent ks' fs'. aggregate_up fuel root ds parent ks' fs') ds ks fs
        (get_path filename ds)
]

-- The loop of findwinner over the lines of the root's file.
abbrev pub better : Candidate → Text → ℕ → Candidate
better best name count =
    if lt_int best.count count then record { name = name; count = count } else best

abbrev pub winner_tokens : Candidate → Option (List Text) → Run Candidate
winner_tokens best none = fault
winner_tokens best (some argvp) = do
  count ← use_ptr (arg argvp 1)
  name ← use_ptr (arg argvp 0)
  done (better best name (atoi count))

unfoldable pub winner_of : Candidate → List Text → Run Candidate
winner_of best [] = done best
winner_of best (l ∷ ls) = do
  best' ← winner_tokens best (makeargv (some (trimlastenter l)) (codes ":"))
  winner_of best' ls

-- The winner's line goes to the end of the root's file.
abbrev pub winner_file : Text → List OutFile → Option (List Text) → Run (List OutFile)
winner_file path fs none = exit
winner_file path fs (some lines) = do
  best ← winner_of (record { name = []; count = 0 }) lines
  done (write_file path (lines ++ (codes "WINNER:" ++ best.name ++ 10 ∷ []) ∷ []) fs)

unfoldable pub findwinner : DirNode → List OutFile → Run (List OutFile)
findwinner root fs =
    let path = root.path ++ b'/' ∷ root.name ++ codes ".txt" in
    winner_file path fs (open_file path fs)
