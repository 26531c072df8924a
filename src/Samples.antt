-- ===== src/Samples.antt =====
-- Small inputs for the tests, and the list of what runs in them.
mod Regions
mod ServerRuns
mod OtherRuns
mod FileRuns
mod ForkRuns
mod TableRuns
mod BankRuns
mod AccountRuns
mod CountRuns
use os.Base.{ℕ, List, [], ◌∷◌, ◌++◌, Run, done, ◌>>=◌}
use os.Text.{
  Text, codes, text_eq, skip_space, leading_space, trim_end, trimwhitespace, trim_in_place,
  trimlastenter, contains, skip_delimiters, strtok_all, makeargv, digits_value, atoi, decimal,
  show_int,
}
use os.Server.State.{create, find_node}
use os.Server.Dag.{create_all, count_up, add_children, read_line, read_lines, create_dag}
use os.Server.Polls.{
  each_child, sweep, open_check, open_node, close_check, close_node, open_polls, close_polls,
}
use os.Server.Votes.{
  seek_add, add_entries, add_votes, find_counter, reached_count, subtract, check_entries,
  remove_entries, remove_votes,
}
use os.Server.Count.{
  add_count, absorb, absorb_all, merge_child, merge_children, aggregate_from, aggregate,
  show_counters, count_at, count_votes, all_closed, best, winner_at, return_winner,
}
use os.Server.Region.{append_region, add_region}
use os.Server.Dispatch.{
  invalid_code, dispatch_close, dispatch_open, dispatch_add, handler_of, handle, dispatch,
}
use os.Server.Thread.{run_thread, serve, main_}

unfoldable pub text_program : Unit {0}
unfolding text_eq skip_space leading_space trim_end trimwhitespace trim_in_place trimlastenter
    contains skip_delimiters strtok_all makeargv digits_value atoi decimal show_int
text_program = tt

unfoldable pub program : Unit {0}
unfolding text_program create find_node create_all count_up add_children read_line read_lines
    create_dag each_child sweep open_check open_node close_check close_node open_polls close_polls
    seek_add add_entries add_votes find_counter reached_count subtract check_entries remove_entries
    remove_votes add_count absorb absorb_all merge_child merge_children aggregate_from aggregate
    show_counters count_at count_votes all_closed best winner_at return_winner append_region
    add_region invalid_code dispatch_close dispatch_open dispatch_add handler_of handle dispatch
    run_thread serve main_
program = tt

-- The regions of a DAG file with one inner region.
abbrev pub dag_lines : List Text
dag_lines = codes "Who_Won:Region_1:Region_2\n" ∷ codes "Region_1:County_1:County_2\n" ∷ []

abbrev pub request : Text → List ℕ
request t = t ++ 0 ∷ []

answers : Run (List Text)
unfolding program
answers = do
  s ← main_ dag_lines (
      (request (codes "OP;Who_Won  ;  ")
        ++ (request (codes "AV;County_1;A:2,B:3")
            ++ (request (codes "AV;County_2;B:1,A:4\n")
                ++ (request (codes "AV;County_1;C:2,A:3")
                    ++ (request (codes "CV;Region_1;")
                        ++ (request (codes "RV;County_2;B:1,A:5")
                            ++ (request (codes "CP;Who_Won;")
                                ++ (request (codes "RW; ")
                                    ++ (request (codes "CV;Who_Won;"))))))))))
      ∷ [])
  done s.sent
