-- ===== src/Samples/CountRuns.antt =====
-- The theorems on the counts in the vote counter's files, and on a request of Add_Region, at sample
-- inputs.
use os.Base.{
  Option, ◌≢◌, ℕ, true, false, some, List, [], ◌∷◌, ◌++◌, map, ◌≡◌, refl, arith, All, Returns,
}
use os.Text.{Text, codes, text_eq, contains, trimwhitespace}
use os.Text.Fields.{IsField}
use os.VoteCounter.Paths.{DirNode, find_path, get_path, getparentname}
use os.VoteCounter.Files.{Candidate, OutFile, open_file, count_line, findwinner}
use os.VoteCounter.Files.Climb.{Level, Ancestors, Counted}
use os.VoteCounter.Decrypt.{read_input}
use os.VoteCounter.Worker.{Output, log_entry, run_thread_of}
use os.VoteCounter.Worker.Counts.{run_thread_lem}
use os.VoteCounter.Files.Winner.{IsWinner, file_of, findwinner_lem}
use os.Client.{Client, add_region_request}
use os.Client.NewRegion.{Added, add_region_request_lem}
use os.Server.State.{find_node}
use os.Server.State.Find.{text_eq_iff}
use os.Server.Dispatch.{dispatch}
use os.VoteCounter.Clean.{Folder, folder, file_entry, folder_entry, last_entry}
use os.Samples.{text_program, dag_lines}
use os.Samples.Regions.{running, server}

differ : (s t : Text) → text_eq s t ≡ false → s ≢ t
differ s t h e = let q : text_eq s t ≡ true = (text_eq_iff s t).1 e in cc

abbrev who_won : DirNode
who_won = record { name = codes "W"; path = codes "o/W" }

abbrev county : DirNode
county = record { name = codes "C"; path = codes "o/W/C" }

abbrev tree : List DirNode
tree = who_won ∷ county ∷ []

abbrev counters : List Candidate
counters = record { name = codes "A"; count = 1 } ∷ record { name = codes "B"; count = 4 } ∷ []

abbrev ballots : List Text
ballots = codes "A\n" ∷ codes "B\n" ∷ codes "A\n" ∷ []

abbrev files : List OutFile
files =
    record { path = codes "o/W/C/C.txt"; lines = ballots }
    ∷ record { path = codes "o/W/W.txt"; lines = map count_line counters }
    ∷ []

abbrev above : Level
above = record { path = codes "o/W/W.txt"; old = some counters }

county-Ancestors : Ancestors tree (codes "W") (codes "C") (above ∷ [])
unfolding text_program get_path find_path getparentname
county-Ancestors =
    Ancestors.up {path = codes "o/W/C/C.txt"} {parent = codes "W"} above
      (differ (codes "C") (codes "W") refl) refl refl refl (Ancestors.top (codes "W") refl)

IsField-letter : (c : ℕ) → contains (codes ":") c ≡ false → IsField b':' (c ∷ [])
IsField-letter c e = ((e, tt), λ q. cc)

abbrev encrypted : List Text
encrypted = codes "?\n" ∷ codes "@\n" ∷ codes "?\n" ∷ []

abbrev input_dir : Text → Option (List Text)
input_dir file = some encrypted

abbrev outputs : Output
outputs = record { files = files; log = [] }

run_thread_lem_example :
    Returns
      (λ o'.
        (open_file (codes "o/W/C/C.txt") o'.files ≡ some (read_input encrypted))
        × All
            (λ v.
              (out : List Candidate) × (open_file v.path o'.files ≡ some (map count_line out))
              × Counted (read_input encrypted) v.old out)
            (above ∷ [])
        × (open_file (codes "log.txt") o'.files ≡ open_file (codes "log.txt") files)
        × (o'.log
            ≡ log_entry (codes "C") (codes "7") (codes "start")
              ∷ log_entry (codes "C") (codes "7") (codes "end")
              ∷ []))
      (run_thread_of input_dir tree (codes "W") (codes "7") 2 (codes "C") outputs)
unfolding text_program get_path find_path open_file
run_thread_lem_example =
    run_thread_lem input_dir tree (codes "W") (codes "7") (codes "C") {path = codes "o/W/C/C.txt"}
      (above ∷ []) encrypted outputs 2 (codes "log.txt") (omega arith)
      (unfold read_input in omega arith) county-Ancestors refl refl
      (
        (
          refl,
          ((IsField-letter b'A' refl, omega arith), ((IsField-letter b'B' refl, omega arith), tt)),
        ),
        tt,
      )
      (tt, tt) (differ (codes "o/W/W.txt") (codes "o/W/C/C.txt") refl, tt)
      (differ (codes "o/W/W.txt") (codes "log.txt") refl, tt)
      (differ (codes "o/W/C/C.txt") (codes "log.txt") refl)

findwinner_lem_example :
    Returns
      (λ fs'.
        ((name : Text) × IsWinner counters name
          × (open_file (file_of who_won) fs'
              ≡ some (map count_line counters ++ (codes "WINNER:" ++ name ++ 10 ∷ []) ∷ [])))
        × (open_file (codes "o/W/C/C.txt") fs' ≡ open_file (codes "o/W/C/C.txt") files))
      (findwinner who_won files)
unfolding text_program open_file
findwinner_lem_example =
    findwinner_lem who_won counters files (codes "o/W/C/C.txt") refl
      ((IsField-letter b'A' refl, omega arith), ((IsField-letter b'B' refl, omega arith), tt))
      (λ e. cc)

abbrev asking : Client
asking = record { rows = []; max_data = 4 }

add_region_request_lem_example :
    Added
      (trimwhitespace (codes "Region "))
      (trimwhitespace (codes "Bronx\n"))
      (server running)
      (find_node (trimwhitespace (codes "Region ")) (server running).nodes)
      (dispatch (add_region_request (codes "Region ") (codes "Bronx\n") asking) (server running))
unfolding text_program
add_region_request_lem_example =
    add_region_request_lem (codes "Region ") (codes "Bronx\n") asking (server running)
      (refl, (refl, (refl, (refl, (refl, (refl, (refl, tt)))))))
      (refl, (refl, (refl, (refl, (refl, (refl, tt)))))) (λ e. cc)

abbrev dag_file : Text → Option (List Text)
dag_file filename = some dag_lines

abbrev old_output : Text → Option Folder
old_output path = some (
    folder (
      file_entry (codes "log.txt")
        (folder_entry (codes "W") (folder (file_entry (codes "W.txt") last_entry)) last_entry)))

abbrev arguments : List Text
arguments = codes "votecounter" ∷ codes "DAG.txt" ∷ codes "in" ∷ codes "out/" ∷ []
