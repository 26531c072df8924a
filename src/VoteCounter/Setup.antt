-- ===== src/VoteCounter/Setup.antt =====
-- main up to the call of decryptAll: the checks of the arguments, removeDIR, initLog and createDAG.
-- The file system is a parameter: a file by its lines, whether a directory can be opened, and the
-- directory of that name with what is in it.
pub mod Fresh
use os.Base.{
  ℕ, Bool, true, false, ◌||◌, Option, none, some, List, [], ◌∷◌, ◌++◌, length, ltb, if◌then◌else◌,
  Run, done, fault, exit, ◌>>=◌,
}
use os.Text.{Text, codes, arg, atoi}
use os.VoteCounter.Paths.{DirNode, trimlastslash, create_dirs_of, made_paths}
use os.VoteCounter.Clean.{Folder, folder, last_entry, remove_dir}

-- The global variables; the output directory as it is between mkdir and initLog; and the paths that
-- are made below it after that, in order: log.txt, which is empty then, and createDAG's directories.
pub record Setup : Type 0 where
  pub input_dir : Text
  pub output_dir : Text
  pub num_threads : ℕ
  pub publicroot : List DirNode
  pub output : Folder
  pub made : List Text

abbrev pub threads_of : Option Text → ℕ
threads_of none = 4
threads_of (some t) = atoi t

-- The file that initLog opens for writing.
abbrev pub log_name : Text → Text
log_name output_dir = output_dir ++ codes "/log.txt"

-- checkFileAccess and checkFileHasData
abbrev pub check_file : Option (List Text) → Run (List Text)
check_file none = exit
check_file (some []) = exit
check_file (some (l ∷ ls)) = done (l ∷ ls)

-- mkdir makes an empty directory, or fails where one is left, which main goes on with.
abbrev pub make_output : Option Folder → Folder
make_output none = folder last_entry
make_output (some d) = d

abbrev pub clear_output : (Text → Bool) → (Text → Bool) → Text → Option Folder → Option Folder
clear_output unlinks rmdirs path none = none
clear_output unlinks rmdirs path (some d) = remove_dir unlinks rmdirs path d

-- checkDirAccess of the input directory
abbrev pub check_input : Bool → List Text → Run (List Text)
check_input there lines = if there then done lines else exit

module _ (lines_of : Text → Option (List Text)) (is_dir : Text → Bool)
    (folder_at : Text → Option Folder) (unlinks rmdirs : Text → Bool) where
  abbrev pub make_setup : Text → Text → ℕ → List Text → Run (Option Setup)
  make_setup input_dir output_dir num_threads dag = do
    let made = make_output (clear_output unlinks rmdirs output_dir (folder_at output_dir))
    publicroot ← create_dirs_of output_dir dag
    done (
        some (record {
          input_dir = input_dir;
          output_dir = output_dir;
          num_threads = num_threads;
          publicroot = publicroot;
          output = made;
          made = log_name output_dir ∷ made_paths publicroot;
        }))

  abbrev pub setup_for : Option Text → Option Text → Option Text → ℕ → Run (Option Setup)
  setup_for (some filename) (some input) (some output) num_threads = do
    let input_dir = trimlastslash input ++ b'/' ∷ []
    contents ← check_file (lines_of filename)
    dag ← check_input (is_dir input_dir) contents
    make_setup input_dir (trimlastslash output) num_threads dag
  setup_for _ _ _ num_threads = fault

  -- argv from the program's name on; `none` is the return of -1.
  unfoldable pub main_setup : List Text → Run (Option Setup)
  main_setup argv =
      if ltb (length argv) 4 || ltb 5 (length argv)
      then done none
      else setup_for (arg argv 1) (arg argv 2) (arg argv 3) (threads_of (arg argv 4))
