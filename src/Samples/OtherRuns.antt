-- ===== src/Samples/OtherRuns.antt =====
-- The theorems on the client and on the vote counter at sample inputs.
use os.Base.{List, Returns, true, false, some, [], ◌∷◌, ◌++◌, ◌≡◌, refl, map, arith}
use os.Text.{trim_in_place, Text, codes}
use os.Client.{leafcounter}
use os.Client.{
  Client, open_polls_request, close_polls_request, count_votes_request, return_winner_request,
}
use os.Client.{add_votes_request, remove_votes_request}
use os.Client.Rows.{IsCandidate}
use os.Client.Withdraw.{Withdrawn, remove_votes_request_lem}
use os.Client.Deliver.{Delivered, add_votes_request_lem}
use os.Server.State.{find_node}
use os.Samples.Regions.{county}
use os.Client.Requests.{requests_lem}
use os.Server.Count.{count_votes, return_winner}
use os.Server.Dispatch.{dispatch, dispatch_open, dispatch_close}
use os.Samples.{text_program}
use os.Samples.Regions.{running, server}
use os.Client.Tally.{votes_for, occurrences, leafcounter_lem}
use os.Client.Send.{write_all, Arrived, write_all_lem}
use os.VoteCounter.Decrypt.{decrypt_string}
use os.VoteCounter.Decrypt.Exact.{others, last_run, decrypted, decrypt_string_lem}

leafcounter_lem_example :
    votes_for (codes "A") (leafcounter (codes "A\n" ∷ codes "B\n" ∷ codes "A \n" ∷ []) [])
    ≡ occurrences (codes "A") (codes "A\n" ∷ codes "B\n" ∷ codes "A \n" ∷ [])
leafcounter_lem_example =
    leafcounter_lem (codes "A") (codes "A\n" ∷ codes "B\n" ∷ codes "A \n" ∷ []) (omega arith)

write_all_lem_example :
    (got : Text) × (write_all (2 ∷ 1 ∷ 1 ∷ []) (codes "RW;") ≡ some got) × Arrived (codes "RW;") got
write_all_lem_example =
    write_all_lem (2 ∷ 1 ∷ 1 ∷ []) (codes "RW;") (omega arith, (omega arith, (omega arith, tt)))
      (omega arith)

decrypt_string_lem_example :
    decrypt_string (codes "yBz")
    ≡ map decrypted (others (codes "yBz")) ++ map decrypted (last_run (codes "yBz"))
decrypt_string_lem_example = decrypt_string_lem (codes "yBz") (
  (omega arith, omega arith, omega arith),
  ((omega arith, omega arith, omega arith), ((omega arith, omega arith, omega arith), tt)),
)

abbrev voter : Client
voter = record { rows = []; max_data = 3 }

requests_lem_example :
    (dispatch (open_polls_request (codes " NY\n") voter) (server running)
      ≡ dispatch_open (codes "OP" ∷ codes " NY\n" ∷ []) (server running))
    × (dispatch (close_polls_request (codes " NY\n") voter) (server running)
        ≡ dispatch_close (codes "CP" ∷ codes " NY\n" ∷ []) (server running))
    × (dispatch (count_votes_request (codes " NY\n") voter) (server running)
        ≡ count_votes (codes "CV" ∷ codes " NY\n" ∷ []) (server running))
    × (dispatch (return_winner_request (codes " NY\n") voter) (server running)
        ≡ return_winner (server running))
unfolding text_program
requests_lem_example =
    requests_lem (codes " NY\n") voter (server running) (refl, (refl, (refl, (refl, tt))))

abbrev vote_lines : List Text
vote_lines = codes "A\n" ∷ codes "B\n" ∷ codes "A \n" ∷ []

abbrev no_votes_yet : Client
no_votes_yet = record { rows = []; max_data = 3 }

IsCandidate-a : IsCandidate (trim_in_place (codes "A\n"))
unfolding text_program
IsCandidate-a = ((λ e. cc), ((refl, refl, refl, refl), tt))

IsCandidate-b : IsCandidate (trim_in_place (codes "B\n"))
unfolding text_program
IsCandidate-b = ((λ e. cc), ((refl, refl, refl, refl), tt))

IsCandidate-a_blank : IsCandidate (trim_in_place (codes "A \n"))
unfolding text_program
IsCandidate-a_blank = ((λ e. cc), ((refl, refl, refl, refl), tt))

add_votes_request_lem_example :
    Returns
      (λ (client, sent).
        Returns
          (Delivered
            (codes "A")
            (occurrences (codes "A") vote_lines)
            (server running)
            2
            (county true false))
          (dispatch sent (server running)))
      (add_votes_request (λ file. some vote_lines) (codes "County") (codes "/f") no_votes_yet)
unfolding text_program
add_votes_request_lem_example =
    add_votes_request_lem (λ file. some vote_lines) (codes "A") (codes "County") (codes "/f")
      vote_lines 3 (server running) 2 (county true false) refl (λ e. cc) (omega arith)
      (IsCandidate-a, (IsCandidate-b, (IsCandidate-a_blank, tt)))
      (refl, (refl, (refl, (refl, (refl, (refl, tt))))))
      (unfold find_node in refl, refl, refl, refl)

remove_votes_request_lem_example :
    Returns
      (λ (client, sent).
        Returns
          (Withdrawn
            (codes "A")
            (leafcounter vote_lines [])
            (occurrences (codes "A") vote_lines)
            2
            (county true false)
            (server running))
          (dispatch sent (server running)))
      (remove_votes_request (λ file. some vote_lines) (codes "County") (codes "/f") no_votes_yet)
unfolding text_program
remove_votes_request_lem_example =
    remove_votes_request_lem (λ file. some vote_lines) (codes "A") (codes "County") (codes "/f")
      vote_lines 3 (server running) 2 (county true false) refl (λ e. cc) (omega arith)
      (IsCandidate-a, (IsCandidate-b, (IsCandidate-a_blank, tt)))
      (refl, (refl, (refl, (refl, (refl, (refl, tt))))))
      (unfold find_node in refl, refl, refl, refl)
