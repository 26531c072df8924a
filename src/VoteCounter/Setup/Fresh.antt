-- ===== src/VoteCounter/Setup/Fresh.antt =====
-- What main has made when decryptAll begins.
use os.Base.{◌<◌, ◌≤◌, Option, none, some, List, [], ◌∷◌, length, ◌≡◌, ◌⊎◌}
use os.Text.{Text}
use os.VoteCounter.Paths.{made_paths}
use os.VoteCounter.Paths.Tree.{IsTree}
use os.VoteCounter.Clean.{Folder, folder, last_entry}
use os.VoteCounter.Clean.Gone.{files_in}
use os.VoteCounter.Setup.{Setup, log_name}

-- The files of the old output directory, if there is one.
abbrev pub old_files : Text → Option Folder → List Text
old_files path none = []
old_files path (some d) = files_in path d

-- For a wrong number of arguments nothing has been made. Else the nodes make a tree below the output
-- directory; that was empty when initLog began, and since then log.txt and the directories of the
-- nodes, in their order, have been made in it.
abbrev pub IsSetup : List Text → Option Setup → Type 0
IsSetup argv none = (length argv < 4) ⊎ (5 < length argv)
IsSetup argv (some s) =
    IsTree s.output_dir s.publicroot
    × (s.output ≡ folder last_entry)
    × (s.made ≡ log_name s.output_dir ∷ made_paths s.publicroot)
    × (4 ≤ length argv)
    × (length argv ≤ 5)
