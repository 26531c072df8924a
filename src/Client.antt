-- ===== src/Client.antt =====
-- CSCI4061_asn4/client.c: the command files' lines turned into requests. The buffers are unbounded,
-- an uninitialised one reads as the empty string, and the console output is not modelled.
pub mod Tally
pub mod Requests
pub mod Rows
pub mod Pairs
pub mod Deliver
pub mod Voting
pub mod Withdraw
pub mod Send
pub mod NewRegion
use os.Base.{
  ℕ, zero, suc, ◌-◌, Bool, true, false, Option, none, some, List, [], ◌∷◌, ◌++◌, length, replicate,
  ltb, ◌==◌, if◌then◌else◌, Run, done, fault, ◌>>=◌, use_ptr,
}
use os.Base.Word.{add_int}
use os.Text.{Text, codes, text_eq, trimwhitespace, trim_in_place, makeargv, arg, show_int}

-- canidate_names[i] and canidate_votes[i]. Behind the rows all votes are 0.
pub record Row : Type 0 where
  pub name : Text
  pub votes : ℕ

-- `max_data` is the length of the longest request with votes so far.
pub record Client : Type 0 where
  pub rows : List Row
  pub max_data : ℕ

-- The loop of count_vote: the first row without votes or with the name.
unfoldable pub count_name : Text → List Row → List Row
count_name name [] = record { name = name; votes = 1 } ∷ []
count_name name (r ∷ rs) =
    let rest = count_name name rs in
    if r.votes == 0
    then record { name = name; votes = 1 } ∷ rs
    else if text_eq r.name name
    then record r { votes = add_int r.votes 1 } ∷ rs
    else r ∷ rest

-- The result of trimwhitespace is dropped: leading blanks stay.
abbrev pub count_vote : Text → List Row → List Row
count_vote name rs = count_name (trim_in_place name) rs

-- The lines of a file of votes.
unfoldable pub leafcounter : List Text → List Row → List Row
leafcounter [] rs = rs
leafcounter (vote ∷ more) rs = leafcounter more (count_vote vote rs)

-- `name:votes,` for each row, up to the first without votes.
unfoldable pub votes_text : List Row → Text
votes_text [] = []
votes_text (r ∷ rs) =
    let rest = votes_text rs in
    if r.votes == 0 then [] else r.name ++ b':' ∷ show_int r.votes ++ b',' ∷ rest

unfoldable pub cap_req : ℕ → Text → Text
cap_req max_data req = req ++ replicate max_data 32

unfoldable pub string_pad : Text → Text
string_pad str = str ++ replicate (15 - length str) 32

-- str[strlen(str) - 1] = 0
abbrev pub drop_last : Text → Text
drop_last [] = []
drop_last (c ∷ []) = []
drop_last (c ∷ d ∷ ds) = c ∷ drop_last (d ∷ ds)

abbrev pub longer : ℕ → ℕ → ℕ
longer a b = if ltb a b then b else a

-- memset over 4096 bytes of canidate_votes: the first 1024 counts are set back.
unfoldable pub clear_votes : ℕ → List Row → List Row
clear_votes zero rs = rs
clear_votes (suc n) [] = []
clear_votes (suc n) (r ∷ rs) = record r { votes = 0 } ∷ clear_votes n rs

-- memset over 4096 bytes of canidate_names: the first name.
abbrev pub clear_name : List Row → List Row
clear_name [] = []
clear_name (r ∷ rs) = record r { name = [] } ∷ rs

-- The request that goes out, and the table set back. Without a row the code writes in front of
-- its buffer `votes`.
abbrev pub cap_votes : Text → Client → Text → Run (Client × Text)
cap_votes code c [] = fault
cap_votes code c (v ∷ vs) =
    let full = drop_last (code ++ v ∷ vs) ++ codes "      " in
    let max_data = longer c.max_data (length full) in
    done (
      record { rows = clear_name (clear_votes 1024 c.rows); max_data = max_data },
      cap_req max_data full,
    )

unfoldable pub print_file_into_data : Text → Client → Run (Client × Text)
print_file_into_data code c = cap_votes code c (votes_text c.rows)

-- A region's name as it stands in a request.
abbrev pub padded : Text → Text
padded name = string_pad (trim_in_place name)

unfoldable pub open_polls_request : Text → Client → Text
open_polls_request name c = cap_req c.max_data (codes "OP;" ++ padded name ++ codes ";")

unfoldable pub count_votes_request : Text → Client → Text
count_votes_request name c = cap_req c.max_data (codes "CV;" ++ padded name ++ codes ";")

-- The name is not sent.
unfoldable pub return_winner_request : Text → Client → Text
return_winner_request name c = cap_req c.max_data (codes "RW;")

unfoldable pub close_polls_request : Text → Client → Text
close_polls_request name c = cap_req c.max_data (codes "CP;" ++ padded name ++ codes ";       ")

unfoldable pub add_region_request : Text → Text → Client → Text
add_region_request parent region c =
    cap_req c.max_data (codes "AR;" ++ padded parent ++ b';' ∷ trim_in_place region)

-- What the commands read: the lines of a file, by its name behind the working directory.
module _ (lines_of : Text → Option (List Text)) where
  -- A file that cannot be opened gives a null pointer, which getline reads through.
  abbrev pub counted : Text → Client → Run Client
  counted file c = do
    lines ← use_ptr (lines_of file)
    done (record c { rows = leafcounter lines c.rows })

  unfoldable pub add_votes_request : Text → Text → Client → Run (Client × Text)
  add_votes_request name file c = do
    c' ← counted file c
    print_file_into_data (codes "AV;" ++ padded name ++ codes ";") c'

  unfoldable pub remove_votes_request : Text → Text → Client → Run (Client × Text)
  remove_votes_request name file c = do
    c' ← counted file c
    print_file_into_data (codes "RV;" ++ padded name ++ codes ";") c'

  abbrev pub sent : Client → Run (Client × Text) → Run (Client × Option Text)
  sent c m = do (c', request) ← m; done (c', some request)

  -- The chain of strcmp; nothing is sent for another command.
  unfoldable pub run_command : Text → Text → Text → Client → Run (Client × Option Text)
  run_command cmd region file c =
      if text_eq (codes "Open_Polls") cmd
      then done (c, some (open_polls_request region c))
      else if text_eq (codes "Add_Votes") cmd
      then sent c (add_votes_request region file c)
      else if text_eq (codes "Count_Votes") cmd
      then done (c, some (count_votes_request region c))
      else if text_eq (codes "Close_Polls") cmd
      then done (c, some (close_polls_request region c))
      else if text_eq (codes "Return_Winner") cmd
      then done (c, some (return_winner_request region c))
      else if text_eq (codes "Remove_Votes") cmd
      then sent c (remove_votes_request region file c)
      else if text_eq (codes "Add_Region") cmd
      then done (c, some (add_region_request region file c))
      else done (c, none)

  abbrev pub or_empty : Option Text → Text
  or_empty none = []
  or_empty (some t) = t

  abbrev pub dispatch_tokens : Client → Option (List Text) → Run (Client × Option Text)
  dispatch_tokens c none = done (c, none)
  dispatch_tokens c (some argvp) = do
    cmd ← use_ptr (arg argvp 0)
    run_command (trim_in_place cmd) (or_empty (arg argvp 1)) (or_empty (arg argvp 2)) c

  unfoldable pub dispatch_line : Text → Client → Run (Client × Option Text)
  dispatch_line str c = dispatch_tokens c (makeargv (some str) (codes " "))
