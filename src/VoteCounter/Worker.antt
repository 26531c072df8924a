-- ===== src/VoteCounter/Worker.antt =====
-- readInput, writeToLog and runThread: what one thread does with the file that it has taken from the
-- queue. The file's place in the input directory is a parameter; a thread's id is a text.
pub mod Counts
use os.Base.{ℕ, Option, none, some, List, [], ◌∷◌, ◌++◌, Run, done, ◌>>=◌}
use os.Text.{Text, codes}
use os.VoteCounter.Decrypt.{read_input}
use os.VoteCounter.Paths.{DirNode, get_path}
use os.VoteCounter.Files.{OutFile, write_file, aggregate_up}

-- The output files and what writeToLog has written.
pub record Output : Type 0 where
  pub files : List OutFile
  pub log : List Text

abbrev pub write_to_log : Text → Output → Output
write_to_log entry o = record o { log = o.log ++ entry ∷ [] }

-- The line of the log, with start or end.
abbrev pub log_entry : Text → Text → Text → Text
log_entry file tids word = file ++ b':' ∷ (tids ++ b':' ∷ (word ++ 10 ∷ []))

-- The output file is made, or emptied, before the input file is known to be there. Without a path
-- it cannot be opened.
abbrev pub copy_input : Option Text → Option (List Text) → List OutFile → List OutFile
copy_input none lines fs = fs
copy_input (some out_s) none fs = write_file out_s [] fs
copy_input (some out_s) (some lines) fs = write_file out_s (read_input lines) fs

module _ (input : Text → Option (List Text)) (ds : List DirNode) (root tids : Text) where
  -- `fuel` bounds the levels that aggregate goes up.
  unfoldable pub run_thread_of : ℕ → Text → Output → Run Output
  run_thread_of fuel file o = do
    let started = write_to_log (log_entry file tids (codes "start")) o
    let copied = copy_input (get_path file ds) (input file) started.files
    files ← aggregate_up fuel root ds file [] copied
    done (write_to_log (log_entry file tids (codes "end")) (record started { files = files }))
