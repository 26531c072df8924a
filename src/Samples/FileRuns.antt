-- ===== src/Samples/FileRuns.antt =====
-- The theorems on the directories of votes, and on the vote counter's queue and threads, at sample
-- inputs.
use os.Base.{
  ◌⊎◌, ℕ, ◌<◌, ◌≤◌, true, false, none, some, List, [], ◌∷◌, ◌++◌, length, take, ◌≡◌, refl, arith,
  done, fault, if◌then◌else◌,
}
use os.Base.Shuffle.{Shuffle, sum_by}
use os.Text.{Text, codes, makeargv}
use os.Text.Fields.{makeargv-join}
use os.Server.State.{Counter}
use os.Samples.{text_program}
use os.DirVotes.{
  Directory, directory, no_entry, sub_dir, print_results, read_result, result_file, vote_counter,
}
use os.DirVotes.Line.{add_all, read_result-line}
use os.DirVotes.Ballots.{IsBallot, IsBox, AreBoxes, votes_in, votes_below}
use os.DirVotes.Sums.{Counts, result_file_lem}
use os.DirVotes.Winner.{vote_counter_lem}
use os.DirVotes.Links.{slashed, cycle_line, find_loop}
use os.DirVotes.Links.Report.{is_part, find_loop_lem}
use os.VoteCounter.Queue.{Item, sort_queue}
use os.VoteCounter.Queue.Sort.{IsSorted, sort_queue_lem}
use os.VoteCounter.Threads.{Pool, start, Step, Steps}
use os.VoteCounter.Threads.Safe.{named, pool_lem}
use os.VoteCounter.Threads.Stuck.{stuck, stuck_lem}

makeargv-join_example :
    makeargv (some (codes "A:1,B:2")) (codes ",") ≡ some (codes "A:1" ∷ codes "B:2" ∷ [])
unfolding text_program
makeargv-join_example =
    makeargv-join b',' (codes "A:1" ∷ codes "B:2" ∷ [])
      (((refl, (refl, (refl, tt))), λ e. cc), (((refl, (refl, (refl, tt))), λ e. cc), tt))

abbrev node_of : Text → ℕ → Counter
node_of name count = record { name = name; count = count }

read_result-line_example :
    read_result (some (print_results (node_of (codes "A") 2 ∷ node_of (codes "B") 1 ∷ []))) []
    ≡ done (add_all (node_of (codes "A") 2 ∷ node_of (codes "B") 1 ∷ []) [])
unfolding text_program
read_result-line_example =
    read_result-line (node_of (codes "A") 2) (node_of (codes "B") 1 ∷ []) [] (
      (((λ e. cc), ((refl, refl, refl), tt)), omega arith),
      ((((λ e. cc), ((refl, refl, refl), tt)), omega arith), tt),
    )

-- Two leaves in one directory.
abbrev north : Directory
north = directory (some (codes "A\n" ∷ codes "B\n" ∷ codes "A\n" ∷ [])) no_entry

abbrev south : Directory
south = directory (some (codes " B\n" ∷ codes "B\n" ∷ [])) no_entry

abbrev country : Directory
country = directory none (sub_dir north (sub_dir south no_entry))

country-IsBox : IsBox country
unfolding text_program IsBox AreBoxes
country-IsBox = (
  (
    codes "A\n" ∷ codes "B\n" ∷ codes "A\n" ∷ [],
    refl,
    (λ e. cc),
    (ballot_a, (ballot_b, (ballot_a, tt))),
  ),
  ((codes " B\n" ∷ codes "B\n" ∷ [], refl, (λ e. cc), (ballot_b, (ballot_b, tt))), tt),
)
  where
    ballot_a : IsBallot (codes "A\n")
    ballot_a = (((λ e. cc), ((refl, refl, refl), tt)), refl)

    ballot_b : IsBallot (codes "B\n")
    ballot_b = (((λ e. cc), ((refl, refl, refl), tt)), refl)

result_file_lem_example : Counts (λ c. votes_in c country) (result_file (λ ls. ls) country)
result_file_lem_example = result_file_lem (λ ls. ls) Shuffle.same country country-IsBox

few_votes : (c : Text) → votes_in c country < 2147483648
unfolding votes_in votes_below sum_by
few_votes c = ground arith

vote_counter_lem_example :
    (winner : Text) × (vote_counter (λ ls. ls) country
      ≡ done (codes "Winner:" ++ winner ++ 10 ∷ []))
    × ((c : Text) → votes_in c country ≤ votes_in winner country)
vote_counter_lem_example = vote_counter_lem (λ ls. ls) Shuffle.same country country-IsBox few_votes

find_loop_lem_example :
    find_loop
      (λ path. true)
      (codes "x" ∷ codes "Who_Won" ∷ codes "North" ∷ [])
      (codes "../Who_Won" ∷ [])
    ≡ (if is_part (codes "Who_Won") (codes "x" ∷ codes "Who_Won" ∷ codes "North" ∷ [])
        then done (
            (
              slashed (codes "x" ∷ codes "Who_Won" ∷ []) ++ codes "Who_Won.txt",
              cycle_line (codes "North") (codes "Who_Won"),
            )
            ∷ [])
        else fault)
unfolding text_program
find_loop_lem_example =
    find_loop_lem (λ path. true) (codes "x" ∷ []) (codes "North" ∷ []) (codes "x") (codes "North")
      (codes "../Who_Won") (codes "Who_Won") (refl, tt) (refl, tt) refl refl refl refl refl

abbrev files : List Item
files =
    record { name = codes "a"; priority = 2147483647 }
    ∷ record { name = codes "b_x_p_1"; priority = 1 }
    ∷ []

sort_queue_lem_example : IsSorted (sort_queue files) × Shuffle (sort_queue files) files
sort_queue_lem_example = sort_queue_lem files

abbrev names : List Text
names = codes "a" ∷ codes "b" ∷ []

-- A first thread has taken its name.
abbrev one_works : Pool
one_works = record start {
  created = 1;
  cur_threads = 1;
  working = 1;
  current_grab = 1;
  taken = codes "a" ∷ [];
}

reach_one : Steps 1 names start one_works
reach_one = Steps.then (Step.lock _ refl (omega arith)) (
    Steps.then (Step.count _ 0 refl) (
      Steps.then (Step.create_thread _ refl refl) (Steps.then (Step.grab _ 0 refl) (Steps.here _))))

pool_lem_example :
    (one_works.created ≤ length names)
    × (one_works.taken ≡ take (named one_works) names)
    × (named one_works ≤ one_works.created)
    × (one_works.overrun ≡ false)
    × ((one_works.ended < length names) ⊎ (one_works.taken ≡ names))
pool_lem_example = pool_lem 1 names reach_one

-- decryptAll waits and wakes up, again and again.
still_stuck : Steps 1 names (stuck (codes "a")) (stuck (codes "a"))
still_stuck = Steps.then (Step.wait _ refl refl) (Steps.then (Step.wake _ refl) (Steps.here _))

stuck_lem_example : Steps 1 names start (stuck (codes "a")) × ((stuck (codes "a")).created ≡ 1)
stuck_lem_example = stuck_lem (codes "a") (codes "b") [] still_stuck
