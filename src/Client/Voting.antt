-- ===== src/Client/Voting.antt =====
-- A request with votes, as the server splits it.
use os.Base.{
  ℕ, suc, ◌%◌, ◌<◌, false, none, some, List, [], ◌∷◌, ◌++◌, map, ◌≡◌, ◌≢◌, refl, sym, ap, ◌∙◌,
  arith, All-append, append_assoc, replicate, done,
}
use os.Text.{Text, codes, contains, trimlastenter, trimwhitespace, add_token, makeargv, show_int}
use os.Text.Tokens.{IsFree, strtok_all-free}
use os.Text.Numbers.{atoi-numeral}
use os.Text.Plain.{trimwhitespace-IsPlain}
use os.Text.Trim.{trim_end-replicate, trimlastenter-append, trimlastenter-replicate}
use os.Text.Fields.{join, makeargv-join}
use os.Server.State.{Server}
use os.Server.Votes.Add.{requested, ArePairs}
use os.Server.Dispatch.{byte_at, handler_of, handle, dispatch}
use os.Client.{Row, padded}
use os.Client.Tally.{votes_for, AreFilled}
use os.Client.Requests.{blanks-IsFree, named-makeargv}
use os.Client.Rows.{AreCandidates, row_text}
use os.Client.Pairs.{rows-IsPlain, rows-IsFree, rows-IsField, makeargv-row, rows-ne-nil}

pub requested-rows :
    (c : Text) (m : ℕ) (rs : List Row)
    → m < 4294967296
    → AreCandidates rs
    → AreFilled m rs
    → requested c (map row_text rs) ≡ votes_for c rs % 4294967296
unfolding requested votes_for
requested-rows c m [] b h k = refl
requested-rows c m (r ∷ rs) b (h, hs) (k, ks) =
    rw (makeargv-row r h, atoi-numeral r.votes (omega arith))
      (ground (arith, requested-rows c m rs b hs ks))

pub rows-ArePairs : (rs : List Row) → AreCandidates rs → ArePairs (map row_text rs)
rows-ArePairs [] h = tt
rows-ArePairs (r ∷ rs) (h, hs) =
    ((r.name, show_int r.votes, [], makeargv-row r h), rows-ArePairs rs hs)

-- The pairs with the blanks behind them.
abbrev pub pairs_text : List Row → ℕ → Text
pairs_text rs blanks = join b',' (map row_text rs) ++ 32 ∷ replicate blanks 32

add_token-before : (t u : Text) → add_token (t ++ 32 ∷ u) [] ≡ (t ++ 32 ∷ u) ∷ []
add_token-before [] u = refl
add_token-before (c ∷ cs) u = refl

-- The request as the server splits it.
request-makeargv :
    (a b : ℕ) (name : Text) (rs : List Row) (blanks : ℕ)
    → contains (codes ";") a ≡ false
    → contains (codes ";") b ≡ false
    → IsFree (codes ";") name
    → AreCandidates rs
    → makeargv (some (a ∷ b ∷ b';' ∷ padded name ++ b';' ∷ pairs_text rs blanks)) (codes ";")
      ≡ some ((a ∷ b ∷ []) ∷ padded name ∷ pairs_text rs blanks ∷ [])
request-makeargv a b name rs blanks p q h k =
    named-makeargv a b name (pairs_text rs blanks) p q h
    ∙ ap (λ ts. some ((a ∷ b ∷ []) ∷ padded name ∷ ts))
        (strtok_all-free (codes ";") [] (pairs_text rs blanks) (
            All-append _ (join b',' (map row_text rs)) (32 ∷ replicate blanks 32) (rows-IsFree rs k)
              (blanks-IsFree (suc blanks)))
          ∙ add_token-before (join b',' (map row_text rs)) (replicate blanks 32))

-- The handler that the server runs, and the parts it gets.
pub request-dispatch :
    (a b : ℕ) (name : Text) (rs : List Row) (blanks : ℕ) (s : Server)
    → contains (codes ";") a ≡ false
    → contains (codes ";") b ≡ false
    → IsFree (codes ";") name
    → AreCandidates rs
    → dispatch (a ∷ b ∷ b';' ∷ padded name ++ b';' ∷ pairs_text rs blanks) s
      ≡ handle (handler_of a b) ((a ∷ b ∷ []) ∷ padded name ∷ pairs_text rs blanks ∷ []) s
unfolding dispatch
request-dispatch a b name rs blanks s p q h k =
    ap
      (λ str. elim (makeargv (some str) (codes ";")) [
        | none ↦ done s
        | some argvp ↦ handle (handler_of (byte_at str 0) (byte_at str 1)) argvp s
      ])
      untrimmed
    ∙ ap (λ o. elim o [ none ↦ done s | some argvp ↦ handle (handler_of a b) argvp s ])
        (request-makeargv a b name rs blanks p q h k)
  where
    ends : Text
    ends = 32 ∷ replicate blanks 32

    request : Text
    request = a ∷ b ∷ b';' ∷ padded name

    pairs : Text
    pairs = b';' ∷ join b',' (map row_text rs)

    untrimmed : trimlastenter (request ++ (pairs ++ ends)) ≡ request ++ (pairs ++ ends)
    untrimmed =
        ap trimlastenter (sym (append_assoc request pairs ends))
        ∙ trimlastenter-append (request ++ pairs) (replicate blanks 32) 32
        ∙ ap (λ t. (request ++ pairs) ++ t)
            (trimlastenter-replicate blanks 32 (λ e. absurd (omega (arith, e))))
        ∙ append_assoc request pairs ends

-- What the server reads as the pairs.
pub pairs-makeargv :
    (rs : List Row) (blanks : ℕ)
    → rs ≢ []
    → AreCandidates rs
    → makeargv (some (trimwhitespace (pairs_text rs blanks))) (codes ",") ≡ some (map row_text rs)
pairs-makeargv [] blanks n h = absurd (n refl)
pairs-makeargv (r ∷ rs) blanks n h =
    ap (λ t. makeargv (some t) (codes ","))
      (trimwhitespace-IsPlain (join b',' (map row_text (r ∷ rs))) (32 ∷ replicate blanks 32)
        (rows-ne-nil r rs h) (rows-IsPlain (r ∷ rs) h) (trim_end-replicate (suc blanks)))
    ∙ makeargv-join b',' (map row_text (r ∷ rs)) (rows-IsField (r ∷ rs) h)

-- The request, with its parts put together as the server sees it.
pub request_assoc :
    (a b : ℕ) (name pairs ends : Text)
    → (((a ∷ b ∷ b';' ∷ []) ++ padded name ++ codes ";") ++ pairs) ++ ends
      ≡ a ∷ b ∷ b';' ∷ padded name ++ b';' ∷ (pairs ++ ends)
request_assoc a b name pairs ends =
    append_assoc ((a ∷ b ∷ b';' ∷ []) ++ padded name ++ codes ";") pairs ends
    ∙ append_assoc ((a ∷ b ∷ b';' ∷ []) ++ padded name) (codes ";") (pairs ++ ends)
