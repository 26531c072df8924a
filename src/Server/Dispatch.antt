-- ===== src/Server/Dispatch.antt =====
-- Invalid_Code and dispatchCode: one request and its answer. What is printed is not modelled.
pub mod Turns
pub mod Safe
pub mod Ballots
pub mod Removal
pub mod Answer
pub mod Certain
use os.Base.{
  ℕ, zero, suc, Bool, Option, none, some, List, [], ◌∷◌, ◌++◌, ◌==◌, if◌then◌else◌, Run, done,
  fault, ◌>>=◌, use_ptr,
}
use os.Text.{Text, codes, trimwhitespace, trimlastenter, makeargv, arg}
use os.Server.State.{Node, Server, say}
use os.Server.Polls as Polls
use os.Server.Polls.{Code, open_polls, close_polls}
use os.Server.Votes as Votes
use os.Server.Votes.{AddCode, add_votes, remove_votes}
use os.Server.Count.{count_votes, return_winner}
use os.Server.Region.{add_region}

unfoldable pub invalid_code : List Text → Server → Run Server
invalid_code argvp s = do code ← use_ptr (arg argvp 0); done (say (codes "UC;" ++ code) s)

abbrev pub close_reply : Text → Code → Text
close_reply name Code.success = codes "SC;"
close_reply name Code.already = codes "PF;" ++ name ++ codes ";closed"
close_reply name Code.refused = codes "PF;" ++ name ++ codes ";unopened."
close_reply name Code.not_found = codes "NR;" ++ name

abbrev pub open_reply : Text → Code → Text
open_reply name Code.success = codes "SC;"
open_reply name Code.already = codes "PF;" ++ name ++ codes " Open"
open_reply name Code.refused = codes "RR;" ++ name
open_reply name Code.not_found = codes "NR;" ++ name

abbrev pub add_reply : Text → AddCode → Text
add_reply name AddCode.success = codes "SC;"
add_reply name AddCode.region_closed = codes "RC;" ++ name
add_reply name AddCode.parse_failed = codes "UE;" ++ name
add_reply name AddCode.no_region = codes "NR;" ++ name
add_reply name AddCode.not_leaf = codes "NL;" ++ name

unfoldable pub dispatch_close : List Text → Server → Run Server
dispatch_close argvp s = do
  name ← use_ptr (arg argvp 1)
  (f, ns) ← close_polls name s.nodes
  done (say (close_reply (trimwhitespace name) f) (record s { nodes = ns }))

unfoldable pub dispatch_open : List Text → Server → Run Server
dispatch_open argvp s = do
  name ← use_ptr (arg argvp 1)
  (f, ns) ← open_polls name s.nodes
  done (say (open_reply (trimwhitespace name) f) (record s { nodes = ns }))

unfoldable pub dispatch_add : List Text → Server → Run Server
dispatch_add argvp s = do
  (f, ns) ← add_votes argvp s.nodes
  name ← use_ptr (arg argvp 1)
  done (say (add_reply (trimwhitespace name) f) (record s { nodes = ns }))

-- str[i], with the terminating 0 behind the string
abbrev pub byte_at : Text → ℕ → ℕ
byte_at [] i = 0
byte_at (c ∷ cs) zero = c
byte_at (c ∷ cs) (suc i) = byte_at cs i

-- What the switch runs.
pub data Handler : Type 0 where
  winner remove count close open_ add region invalid : Handler

unfoldable pub handler_of : ℕ → ℕ → Handler
handler_of c d =
    if c == b'R'
    then if d == b'W' then Handler.winner else if d == b'V' then Handler.remove else Handler.invalid
    else if c == b'C'
    then if d == b'V' then Handler.count else if d == b'P' then Handler.close else Handler.invalid
    else if c == b'O'
    then if d == b'P' then Handler.open_ else Handler.invalid
    else if c == b'A'
    then if d == b'V' then Handler.add else if d == b'R' then Handler.region else Handler.invalid
    else Handler.invalid

unfoldable pub handle : Handler → List Text → Server → Run Server
handle Handler.winner argvp s = return_winner s
handle Handler.remove argvp s = remove_votes argvp s
handle Handler.count argvp s = count_votes argvp s
handle Handler.close argvp s = dispatch_close argvp s
handle Handler.open_ argvp s = dispatch_open argvp s
handle Handler.add argvp s = dispatch_add argvp s
handle Handler.region argvp s = add_region argvp s
handle Handler.invalid argvp s = invalid_code argvp s

unfoldable pub dispatch : Text → Server → Run Server
dispatch request s =
    let str = trimlastenter request in
    elim (makeargv (some str) (codes ";")) [
      | none ↦ done s
      | some argvp ↦ handle (handler_of (byte_at str 0) (byte_at str 1)) argvp s
    ]
