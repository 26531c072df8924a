-- ===== src/VoteCounter/Worker/Counts.antt =====
-- A thread decrypts its leaf's file and adds the votes in it to all the files above.
use os.Base.{
  ℕ, ◌<◌, Option, none, some, List, [], ◌∷◌, ◌++◌, length, map, ◌≡◌, ◌≢◌, ◌∙◌, All, append_assoc,
  Returns, Returns-bind,
}
use os.Base.Word.{modulus}
use os.Text.{Text, codes}
use os.VoteCounter.Decrypt.{read_input}
use os.VoteCounter.Paths.{DirNode, get_path}
use os.VoteCounter.Files.{Candidate, open_file, write_file, count_line, aggregate_up}
use os.VoteCounter.Files.Climb.{
  Level, Ancestors, Away, AreApart, Stands, Counted, open_file-write_self, open_file-write_other,
  stand_on, aggregate_up_lem,
}
use os.VoteCounter.Worker.{Output, log_entry, run_thread_of}

-- runThread for a leaf of the tree whose input file is there with fewer than 2 ^ 32 lines, where the
-- files of its ancestors are different ones, not its own, each missing or full of counters that can
-- be read back, run with no other thread in between and with fuel for each level: it returns; the
-- leaf's file holds the decrypted lines; in every ancestor's file each counter has the votes in those
-- lines added as an int, and a missing file holds exactly those votes; no other file has changed, and
-- the log has a line for the start and then one for the end.
pub run_thread_lem :
    (input : Text → Option (List Text)) (ds : List DirNode) (root tids leaf : Text) {path : Text}
    (vs : List Level) (lines : List Text) (o : Output) (fuel : ℕ) (other : Text)
    → length vs < fuel
    → length (read_input lines) < modulus
    → Ancestors ds root leaf vs
    → get_path leaf ds ≡ some path
    → input leaf ≡ some lines
    → All (Stands o.files) vs
    → AreApart vs
    → Away path vs
    → Away other vs
    → path ≢ other
    → Returns
        (λ o'.
          (open_file path o'.files ≡ some (read_input lines))
          × All
              (λ v.
                (out : List Candidate) × (open_file v.path o'.files ≡ some (map count_line out))
                × Counted (read_input lines) v.old out)
              vs
          × (open_file other o'.files ≡ open_file other o.files)
          × (o'.log
              ≡ o.log
                ++ log_entry leaf tids (codes "start") ∷ log_entry leaf tids (codes "end") ∷ []))
        (run_thread_of input ds root tids fuel leaf o)
unfolding run_thread_of
run_thread_lem input ds root tids leaf {path} vs lines o fuel other f b a g i s d away away' ne =
    let fs = write_file path (read_input lines) o.files in
    let start = log_entry leaf tids (codes "start") in
    let finish = log_entry leaf tids (codes "end") in
    let here = open_file-write_self path (read_input lines) o.files in
    rw (g, i)
      (Returns-bind _ _ (aggregate_up fuel root ds leaf [] fs) _
        (aggregate_up_lem ds root leaf vs (read_input lines) fs fuel f b a g here
          (stand_on ds root (read_input lines) o.files (record { path = path; old = none }) vs away
            s)
          d)
        (λ fs' r. (
          r.1 path away ∙ here,
          r.0,
          r.1 other away' ∙ open_file-write_other path other (read_input lines) o.files ne,
          append_assoc o.log (start ∷ []) (finish ∷ []),
        )))
