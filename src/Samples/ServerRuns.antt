-- ===== src/Samples/ServerRuns.antt =====
-- The theorems on the server at the sample regions.
use os.Base.{
  done, ℕ, true, false, some, List, [], ◌∷◌, ◌++◌, ◌≡◌, refl, length, get_elem?, Run, Ends, Returns,
}
use os.Base.Word.{add_int}
use os.Text.{Text, codes, makeargv, trimwhitespace}
use os.Server.State.{Node, find_node}
use os.Server.Invariant.{IsOrdered}
use os.Server.Polls.{Code, open_polls, close_polls}
use os.Server.Polls.Open.{OpenOutcome, open_polls_lem}
use os.Server.Polls.Close.{CloseOutcome, close_polls_lem}
use os.Server.Votes.{add_votes, remove_parsed}
use os.Server.Votes.Add.{AddOutcome, parts, add_votes_lem}
use os.Server.Votes.Remove.{RemoveOutcome, remove_parsed-Outcome}
use os.Server.Count.{aggregate, count_votes, winner_at}
use os.Server.Count.Tally.{total, tally, tallies, sum_tally}
use os.Server.Count.Reports.{
  Reports, Wins, aggregate-total, aggregate-tally, count_votes-Reports, winner_at_lem,
}
use os.Server.Dag.{create_dag}
use os.Server.Dag.Forest.{create_dag-IsOrdered, create_dag-commented}
use os.Server.Dispatch.{dispatch}
use os.Server.Dispatch.Safe.{Answers}
use os.Server.Dispatch.Answer.{dispatch-Answers}
use os.Server.Dispatch.Certain.{dispatch-Returns}
use os.Server.Thread.{run_thread, main_}
use os.Server.Thread.Serve.{Serves, requests_in, all_requests, run_thread-Serves, main_-Serves}
use os.Samples.{program, dag_lines, request}
use os.Samples.Regions.{
  region, county, idle, opened, running, over, idle-IsOrdered, running-IsOrdered, over-IsOrdered,
  server,
}

abbrev clients : List (List ℕ)
clients =
    (request (codes "OP;Who_Won  ;  ") ++ request (codes "AV;County_1;A:2,B:3"))
    ∷ request (codes "CV;Region_1;")
    ∷ []

main_-Serves_example :
    Ends (λ s. IsOrdered s.nodes × (length s.sent ≡ all_requests clients)) (main_ dag_lines clients)
main_-Serves_example = main_-Serves dag_lines clients

dispatch-Answers_example :
    Ends (Answers (server running)) (dispatch (codes "CP;Country;") (server running))
dispatch-Answers_example = dispatch-Answers (codes "CP;Country;") (server running) running-IsOrdered

run_thread-Serves_example :
    Ends
      (Serves (requests_in (request (codes "Country;"))) (server running))
      (run_thread (codes "CV;") (request (codes "Country;")) (server running))
run_thread-Serves_example =
    run_thread-Serves (codes "CV;") (request (codes "Country;")) (server running) running-IsOrdered

count_votes-Reports_example :
    Returns
      (Reports (codes "B") 0 (server running))
      (count_votes (codes "CV" ∷ codes "Country " ∷ []) (server running))
unfolding program
count_votes-Reports_example =
    count_votes-Reports (codes "B") (codes "CV" ∷ codes "Country " ∷ []) (codes "Country ")
      (server running) 0 (region (codes "Country") true false (1 ∷ 2 ∷ []) []) running-IsOrdered
      refl refl

winner_at_lem_example :
    Returns
      (λ s'.
        IsOrdered s'.nodes
        × ((n' : Node) × (reply : Text) × (get_elem? s'.nodes 0 ≡ some n')
            × (s'.sent ≡ [] ++ reply ∷ [])
            × Wins reply n'
            × (total (codes "B") n'.counters
                ≡ add_int (total (codes "B") []) (sum_tally (codes "B") over (1 ∷ 2 ∷ [])))))
      (winner_at 0 (region (codes "Country") false true (1 ∷ 2 ∷ []) []) (server over))
unfolding program
winner_at_lem_example =
    winner_at_lem (codes "B") (server over) 0 (region (codes "Country") false true (1 ∷ 2 ∷ []) [])
      over-IsOrdered refl (refl, refl)

add_votes_lem_example :
    Returns
      (AddOutcome
        (codes "B")
        (parts (makeargv (some (trimwhitespace (codes "B:4,C:1 "))) (codes ",")))
        running
        (find_node (trimwhitespace (codes "County")) running))
      (add_votes (codes "AV" ∷ codes "County" ∷ codes "B:4,C:1 " ∷ []) running)
unfolding program
add_votes_lem_example =
    add_votes_lem (codes "B") (codes "AV" ∷ codes "County" ∷ codes "B:4,C:1 " ∷ []) running
      (codes "County") (codes "B:4,C:1 ") refl refl
      ((codes "B", codes "4", [], refl), ((codes "C", codes "1", [], refl), tt))

remove_parsed-Outcome_example :
    Returns
      (RemoveOutcome
        (codes "B")
        (codes "B:4" ∷ codes "A:1" ∷ [])
        2
        (county true false)
        (server running))
      (remove_parsed 2 (county true false) (server running) (some (codes "B:4" ∷ codes "A:1" ∷ [])))
unfolding program
remove_parsed-Outcome_example =
    remove_parsed-Outcome (codes "B") (codes "B:4" ∷ codes "A:1" ∷ []) 2 (county true false)
      (server running) ((codes "B", codes "4", [], refl), ((codes "A", codes "1", [], refl), tt))
      ((refl, tt), (tt, tt))

-- The blanks fall away, and the region is found and opened.
idle-opened : open_polls (codes "Country ") idle ≡ done (Code.success, opened)
unfolding program
idle-opened = refl

open_polls_lem_example :
    Returns
      (OpenOutcome idle (find_node (trimwhitespace (codes "Country ")) idle))
      (open_polls (codes "Country ") idle)
open_polls_lem_example = open_polls_lem (codes "Country ") idle idle-IsOrdered

close_polls_lem_example :
    Returns
      (CloseOutcome running (find_node (trimwhitespace (codes "Country ")) running))
      (close_polls (codes "Country ") running)
close_polls_lem_example = close_polls_lem (codes "Country ") running running-IsOrdered

aggregate-tally_example :
    Returns
      (λ ns'.
        IsOrdered ns'
        × (tallies (codes "B") 0 ns' ≡ tallies (codes "B") 0 running)
        × ((n' : Node) × (get_elem? ns' 0 ≡ some n')
            × (total (codes "B") n'.counters ≡ tally (codes "B") running 0)))
      (aggregate 0 running)
aggregate-tally_example =
    aggregate-tally (codes "B") running 0 (region (codes "Country") true false (1 ∷ 2 ∷ []) [])
      running-IsOrdered refl refl

aggregate-total_example :
    Returns
      (λ ns'.
        IsOrdered ns'
        × ((n' : Node) × (get_elem? ns' 0 ≡ some n')
            × (total (codes "B") n'.counters
                ≡ add_int (total (codes "B") []) (sum_tally (codes "B") running (1 ∷ 2 ∷ [])))))
      (aggregate 0 running)
aggregate-total_example =
    aggregate-total (codes "B") running 0 (region (codes "Country") true false (1 ∷ 2 ∷ []) [])
      running-IsOrdered refl

create_dag-IsOrdered_example : Ends IsOrdered (create_dag dag_lines)
create_dag-IsOrdered_example = create_dag-IsOrdered dag_lines

create_dag-commented_example :
    create_dag (codes "# regions\n" ∷ codes "# and counties\n" ∷ codes "Who_Won:Region_1\n" ∷ [])
    ≡ Run.exit
create_dag-commented_example =
    create_dag-commented (codes "# regions\n") (codes "# and counties\n" ∷ [])
      (codes "Who_Won:Region_1\n") [] refl (refl, tt) refl

dispatch-Returns_example :
    Returns (Answers (server running)) (dispatch (codes "AV;County;B:4,C:1") (server running))
unfolding program
dispatch-Returns_example =
    dispatch-Returns (codes "AV;County;B:4,C:1") (server running)
      (region (codes "Country") true false (1 ∷ 2 ∷ []) []) running-IsOrdered refl
      (
        codes "County",
        codes "B:4,C:1",
        refl,
        refl,
        ((codes "B", codes "4", [], refl), ((codes "C", codes "1", [], refl), tt)),
      )
