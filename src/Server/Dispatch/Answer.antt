-- ===== src/Server/Dispatch/Answer.antt =====
-- dispatchCode and the handlers that read or extend the regions, under the laws of a request.
use os.Base.{
  ℕ, Bool, true, false, not, ◌||◌, Option, none, some, List, ◌≡◌, refl, get_elem?, done, Ends,
  Ends-bind, Returns→Ends, ◌>>=◌, if◌then◌else◌,
}
use os.Text.{Text, codes, trimwhitespace, trimlastenter, makeargv, arg}
use os.Text.Tokens.{makeargv-ne-none}
use os.Server.State.{Node, Server, find_node, say, deref}
use os.Server.State.Find.{find_node-get}
use os.Server.Invariant.{IsOrdered}
use os.Server.Count.{
  aggregate, count_at, count_found, count_votes, is_closed, all_closed, winner_at, winner_found,
  return_winner, count_reply, winner_reply,
}
use os.Server.Count.Reports.{aggregate-Absorbs}
use os.Server.Region.{region_found, add_region}
use os.Server.Dispatch.{byte_at, handler_of, Handler, handle, dispatch, invalid_code}
use os.Server.Dispatch.Turns.{append_region_lem}
use os.Server.Dispatch.Safe.{
  Answers, say-Answers, Absorbs-Answers, use_ptr-Ends, dispatch_open-Answers,
  dispatch_close-Answers,
}
use os.Server.Dispatch.Ballots.{dispatch_add-Answers}
use os.Server.Dispatch.Removal.{remove_votes-Answers}

-- aggregate at a region, and the answer made from what it leaves there.
aggregated-Ends :
    (s : Server) (i : ℕ) (n : Node) (reply : Node → Text)
    → IsOrdered s.nodes
    → get_elem? s.nodes i ≡ some n
    → Ends (Answers s) (
        aggregate i s.nodes >>= λ ns.
        deref ns i >>= λ n'. done (say (reply n') (record s { nodes = ns })))
aggregated-Ends s i n reply h e =
    Ends-bind _ _ (aggregate i s.nodes) _
      (Returns→Ends _ (aggregate i s.nodes) (aggregate-Absorbs s.nodes i n h e))
      (λ ns (a, _). use_ptr-Ends _ (get_elem? ns i) _ (λ n'. Absorbs-Answers (reply n') s ns h a))

count_votes-Answers :
    (argvp : List Text) (s : Server) → IsOrdered s.nodes → Ends (Answers s) (count_votes argvp s)
unfolding count_votes count_at
count_votes-Answers argvp s h = use_ptr-Ends _ (arg argvp 1) _ (λ name. found name _ refl)
  where
    at_ :
        (i : ℕ) (n : Node) (b : Bool)
        → get_elem? s.nodes i ≡ some n
        → n.hasdata ≡ b
        → Ends (Answers s) (count_at i n s)
    at_ i n true e d = rw d (say-Answers _ s h)
    at_ i n false e d = rw d (
        aggregated-Ends s i n (λ n'. if n'.hasdata then count_reply n' else codes "SC;No votes.") h
          e)

    found :
        (name : Text) (o : Option (ℕ × Node))
        → find_node (trimwhitespace name) s.nodes ≡ o
        → Ends (Answers s) (count_found name o s)
    found name none f = say-Answers _ s h
    found name (some (i, n)) f = at_ i n n.hasdata ((find_node-get _ s.nodes i n f).0) refl

return_winner-Answers : (s : Server) → IsOrdered s.nodes → Ends (Answers s) (return_winner s)
unfolding return_winner winner_at
return_winner-Answers s h =
    use_ptr-Ends _ (get_elem? s.nodes 0) _ (λ first. found first.name _ refl)
  where
    at_ :
        (i : ℕ) (n : Node) (b : Bool)
        → get_elem? s.nodes i ≡ some n
        → (not (is_closed n) || not (all_closed s.nodes)) ≡ b
        → Ends (Answers s) (winner_at i n s)
    at_ i n true e d = rw d (say-Answers _ s h)
    at_ i n false e d = rw d (aggregated-Ends s i n winner_reply h e)

    found :
        (name : Text) (o : Option (ℕ × Node))
        → find_node name s.nodes ≡ o
        → Ends (Answers s) (winner_found name o s)
    found name none f = say-Answers _ s h
    found name (some (i, n)) f = at_ i n _ ((find_node-get _ s.nodes i n f).0) refl

add_region-Answers :
    (argvp : List Text) (s : Server) → IsOrdered s.nodes → Ends (Answers s) (add_region argvp s)
unfolding add_region
add_region-Answers argvp s h = use_ptr-Ends _ (arg argvp 1) _ (λ parent.
    use_ptr-Ends _ (arg argvp 2) _
      (λ child. found (trimwhitespace parent) (trimwhitespace child) _ refl))
  where
    found :
        (parent child : Text) (o : Option (ℕ × Node))
        → find_node parent s.nodes ≡ o
        → Ends (Answers s) (region_found parent child o s)
    found parent child none f = say-Answers _ s h
    found parent child (some (i, n)) f =
        let grown = append_region_lem i n child s.nodes ((find_node-get _ s.nodes i n f).0) h in
        record { ordered = grown.0; onward = grown.1; answer = _; one_answer = refl }

pub handle-Answers :
    (c : Handler) (argvp : List Text) (s : Server)
    → IsOrdered s.nodes
    → Ends (Answers s) (handle c argvp s)
unfolding handle invalid_code
handle-Answers Handler.winner argvp s h = return_winner-Answers s h
handle-Answers Handler.remove argvp s h = remove_votes-Answers argvp s h
handle-Answers Handler.count argvp s h = count_votes-Answers argvp s h
handle-Answers Handler.close argvp s h = dispatch_close-Answers argvp s h
handle-Answers Handler.open_ argvp s h = dispatch_open-Answers argvp s h
handle-Answers Handler.add argvp s h = dispatch_add-Answers argvp s h
handle-Answers Handler.region argvp s h = add_region-Answers argvp s h
handle-Answers Handler.invalid argvp s h =
    use_ptr-Ends _ (arg argvp 0) _ (λ code. say-Answers _ s h)

-- dispatchCode ends on any request to regions whose children stand behind them. If the request does
-- not fault, exactly one answer is sent, the children still stand behind their regions, each region
-- keeps its place and its name, which may lose blanks at its end, and its polls do not go back from
-- open to unopened or from closed to open.
pub dispatch-Answers :
    (request : Text) (s : Server) → IsOrdered s.nodes → Ends (Answers s) (dispatch request s)
unfolding dispatch
dispatch-Answers request s h =
    tokens (makeargv (some (trimlastenter request)) (codes ";"))
      (makeargv-ne-none (trimlastenter request) (codes ";"))
      (handler_of (byte_at (trimlastenter request) 0) (byte_at (trimlastenter request) 1))
  where
    tokens :
        (o : Option (List Text))
        → (o ≡ none → ⊥)
        → (c : Handler)
        → Ends (Answers s) (elim o [ none ↦ done s | some argvp ↦ handle c argvp s ])
    tokens none f c = absurd (f refl)
    tokens (some argvp) f c = handle-Answers c argvp s h
