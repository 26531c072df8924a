-- ===== src/DirVotes.antt =====
-- The programs of CSCI4061_asn2, which count the votes in a tree of directories: Leaf_Counter.c for
-- a directory without sub-directories, Aggregate_Votes.c for the others, and Vote_Counter.c at the
-- top. Each writes the counts of its directory into a file, as one line `name:count,name:count`.
-- The result files of earlier runs are taken to be gone, the line to fit the file's buffer, and the
-- directories to have no symbolic links, which Links is about. A struct node is the record Counter.
pub mod Ballots
pub mod FilePath
pub mod Chain
pub mod Front
pub mod Line
pub mod Links
pub mod Sums
pub mod Winner
use os.Base.{
  ℕ, zero, suc, ◌+◌, Bool, true, false, Option, none, some, List, [], ◌∷◌, ◌++◌, map, if◌then◌else◌,
  Run, done, fault, exit, loops, ◌>>=◌, use_ptr, ◌==◌,
}
use os.Base.Word.{add_int, lt_int}
use os.Text.{Text, codes, text_eq, trimwhitespace, makeargv, arg, atoi, show_int}
use os.Server.State.{Counter}

-- A directory: its votes.txt, if it has one, and its entries in the order of readdir.
mutual
  pub data Directory : Type 0 where
    directory : Option (List Text) → Entries → Directory

  -- `.`, `..` and plain files are left out; symbolic links are in Links.
  pub data Entries : Type 0 where
    no_entry : Entries
    sub_dir : Directory → Entries → Entries

abbrev pub has_sub_dir : Entries → Bool
has_sub_dir no_entry = false
has_sub_dir (sub_dir d es) = true

-- canidate_counter: the chain begins with the node ROOT_NODE, which is compared like the others.
unfoldable pub canidate_counter : Text → List Counter → List Counter
canidate_counter vote [] = record { name = vote; count = 1 } ∷ []
canidate_counter vote (k ∷ ks) =
    let rest = canidate_counter vote ks in
    if text_eq vote k.name then record k { count = add_int k.count 1 } ∷ ks else k ∷ rest

-- The lines of votes.txt; the test for a blank line compares the size of a pointer, so it always
-- holds.
unfoldable pub count_ballots : List Text → List Counter → List Counter
count_ballots [] ks = ks
count_ballots (buf ∷ more) ks = count_ballots more (canidate_counter (trimwhitespace buf) ks)

abbrev pub name_and_count : Counter → Text
name_and_count k = k.name ++ b':' ∷ show_int k.count

-- The loop over the nodes behind the first one.
unfoldable pub rest_of_line : List Counter → Text
rest_of_line [] = []
rest_of_line (k ∷ ks) = b',' ∷ (name_and_count k ++ rest_of_line ks)

-- The line of print_results, for the nodes behind ROOT_NODE.
unfoldable pub print_results : List Counter → Text
print_results [] = 10 ∷ []
print_results (k ∷ ks) = name_and_count k ++ (rest_of_line ks ++ 10 ∷ [])

abbrev pub behind_root : List Counter → List Counter
behind_root [] = []
behind_root (root ∷ ks) = ks

abbrev pub root_node : Counter
root_node = record { name = codes "ROOT_NODE"; count = 1 }

-- aggr's search behind ROOT_NODE.
unfoldable pub add_named : Text → ℕ → List Counter → List Counter
add_named name votes [] = record { name = name; count = votes } ∷ []
add_named name votes (k ∷ ks) =
    let rest = add_named name votes ks in
    if text_eq k.name name then record k { count = add_int k.count votes } ∷ ks else k ∷ rest

-- A part of a line that is not a name and a count makes the program exit.
abbrev pub named_count : Option (List Text) → Run (Text × ℕ)
named_count (some (name ∷ count ∷ [])) = done (name, atoi count)
named_count _ = exit

unfoldable pub read_parts : List Text → List Counter → Run (List Counter)
read_parts [] ks = done ks
read_parts (t ∷ ts) ks = do
  (name, votes) ← named_count (makeargv (some t) (codes ":"))
  read_parts ts (add_named name votes ks)

-- The first line of a file, if it has one.
abbrev pub read_parsed : Option (List Text) → List Counter → Run (List Counter)
read_parsed none ks = done ks
read_parsed (some parts) ks = read_parts parts ks

unfoldable pub read_line_of : Text → List Counter → Run (List Counter)
read_line_of [] ks = done ks
read_line_of (c ∷ cs) ks = read_parsed (makeargv (some (c ∷ cs)) (codes ",")) ks

-- A child's result file; `none` if it has not written one.
abbrev pub read_result : Option Text → List Counter → Run (List Counter)
read_result none ks = exit
read_result (some text) ks = read_line_of text ks

-- The end of aggr: without a candidate the name of the first node is read through a null pointer.
abbrev pub write_counts : List Counter → Run Text
write_counts [] = fault
write_counts (k ∷ ks) = done (name_and_count k ++ (rest_of_line ks ++ 10 ∷ []))

-- What another process finds in the file. Aggregate_Votes has made the file before it can exit or
-- fault, and what it has not closed is not in it.
abbrev pub file_of : Run Text → Option Text
file_of (done text) = some text
file_of fault = some []
file_of exit = some []
file_of loops = some []

-- /usr/bin/sort brings the lines of votes.txt into an order before they are counted.
module _ (sort : List Text → List Text) where
  -- Leaf_Counter exits where there is no votes.txt.
  abbrev pub leaf_file : Option (List Text) → Option Text
  leaf_file none = none
  leaf_file (some votes) =
      some (print_results (behind_root (count_ballots (sort votes) (root_node ∷ []))))

  -- The program that the exec picks.
  abbrev pub choose_file : Bool → Option (List Text) → Run (List Counter) → Option Text
  choose_file true votes counted = file_of (counted >>= write_counts)
  choose_file false votes counted = leaf_file votes

  unfoldable mutual
    pub result_file : Directory → Option Text
    result_file (directory votes es) = choose_file (has_sub_dir es) votes (aggr es [])

    -- The loop over the entries; each sub-directory is counted by a process of its own, which the
    -- parent waits for.
    pub aggr : Entries → List Counter → Run (List Counter)
    aggr no_entry ks = done ks
    aggr (sub_dir d es) ks = do ks' ← read_result (result_file d) ks; aggr es ks'

-- Vote_Counter.c: `winner` and `max`.
abbrev pub take_front : Text × ℕ → Text → ℕ → Text × ℕ
take_front best name count = if lt_int best.1 count then (name, count) else best

abbrev pub parse_top_tokens : Text × ℕ → Option (List Text) → Run (Text × ℕ)
parse_top_tokens best none = fault
parse_top_tokens best (some argvp) = do
  count ← use_ptr (arg argvp 1)
  name ← use_ptr (arg argvp 0)
  done (take_front best name (atoi count))

unfoldable pub find_winner : List Text → Text × ℕ → Run (Text × ℕ)
find_winner [] best = done best
find_winner (t ∷ ts) best = do
  best' ← parse_top_tokens best (makeargv (some t) (codes ":"))
  find_winner ts best'

abbrev pub find_winner_parsed : Option (List Text) → Text × ℕ → Run (Text × ℕ)
find_winner_parsed none best = fault
find_winner_parsed (some argvp) best = find_winner argvp best

unfoldable pub starts_with : Text → Text → Bool
starts_with [] t = true
starts_with (c ∷ cs) [] = false
starts_with (c ∷ cs) (d ∷ ds) = if c == d then starts_with cs ds else false

-- strstr(line, needle) != NULL
unfoldable pub strstr : Text → Text → Bool
strstr needle [] = starts_with needle []
strstr needle (c ∷ cs) = if starts_with needle (c ∷ cs) then true else strstr needle cs

abbrev pub cycle_mark : Text
cycle_mark = codes "There is a cycle"

abbrev pub parse_line_if : Bool → Text → Text × ℕ → Run (Text × ℕ)
parse_line_if true line best = done best
parse_line_if false line best = find_winner_parsed (makeargv (some line) (codes ",")) best

unfoldable pub parse_line : Text → Text × ℕ → Run (Text × ℕ)
parse_line line best = parse_line_if (strstr cycle_mark line) line best

unfoldable pub read_file : List Text → Text × ℕ → Run (Text × ℕ)
read_file [] best = done best
read_file (buf ∷ more) best = do best' ← parse_line (trimwhitespace buf) best; read_file more best'

abbrev pub counted_lines : Option Text → Run (List Text)
counted_lines none = exit
counted_lines (some []) = done []
counted_lines (some (c ∷ cs)) = done ((c ∷ cs) ∷ [])

-- main: the winner's line, behind the line of counts.
unfoldable pub vote_counter : (List Text → List Text) → Directory → Run Text
vote_counter sort d = do
  lines ← counted_lines (result_file sort d)
  best ← read_file lines ([], 0)
  done (codes "Winner:" ++ best.0 ++ 10 ∷ [])
