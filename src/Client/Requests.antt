-- ===== src/Client/Requests.antt =====
-- What the server makes of the client's requests.
use os.Base.{
  ℕ, zero, suc, Bool, true, false, Option, none, some, List, [], ◌∷◌, ◌++◌, ◌≡◌, refl, ap, ◌∙◌, All,
  All-append, replicate, length, ◌-◌, append_assoc, done, arith, if◌then◌else◌,
}
use os.Text.{
  Text, codes, is_space, contains, skip_space, leading_space, keep_unless_last_space, trim_end,
  trim_end_after_first, trimwhitespace, trim_in_place, trimlastenter, skip_delimiters, add_token,
  strtok_all, makeargv,
}
use os.Text.Tokens.{IsFree, strtok_all-token}
use os.Text.Trim.{trim_in_place-append, trimlastenter-append, trimlastenter-replicate}
use os.Client.{
  Client, cap_req, string_pad, padded, open_polls_request, count_votes_request, close_polls_request,
  return_winner_request,
}
use os.Server.State.{Node, Server, find_node}
use os.Server.Polls.{sweep, open_polls, close_polls}
use os.Server.Count.{count_found, count_votes, return_winner}
use os.Server.Dispatch.{byte_at, handler_of, handle, dispatch, dispatch_open, dispatch_close}

skip_space-All : (P : ℕ → Type 0) (s : Text) → All P s → All P (skip_space s)
unfolding skip_space
skip_space-All P [] h = tt
skip_space-All P (c ∷ cs) (h, hs) = by_flag (is_space c) (skip_space-All P cs hs)
  where
    by_flag : (z : Bool) → All P (skip_space cs) → All P (if z then skip_space cs else c ∷ cs)
    by_flag true k = k
    by_flag false k = (h, hs)

pub leading_space-All : (P : ℕ → Type 0) (s : Text) → All P s → All P (leading_space s)
unfolding leading_space
leading_space-All P [] h = tt
leading_space-All P (c ∷ cs) (h, hs) = by_flag (is_space c) (leading_space-All P cs hs)
  where
    by_flag : (z : Bool) → All P (leading_space cs) → All P (if z then c ∷ leading_space cs else [])
    by_flag true k = (h, k)
    by_flag false k = tt

keep-All : (P : ℕ → Type 0) (c : ℕ) (t : Text) → P c → All P t → All P (keep_unless_last_space c t)
keep-All P c [] h k = by_flag (is_space c)
  where
    by_flag : (z : Bool) → All P (if z then [] else c ∷ [])
    by_flag true = tt
    by_flag false = (h, tt)
keep-All P c (d ∷ ds) h k = (h, k)

trim_end-All : (P : ℕ → Type 0) (s : Text) → All P s → All P (trim_end s)
unfolding trim_end
trim_end-All P [] h = tt
trim_end-All P (c ∷ cs) (h, hs) = keep-All P c (trim_end cs) h (trim_end-All P cs hs)

pub trimwhitespace-All : (P : ℕ → Type 0) (s : Text) → All P s → All P (trimwhitespace s)
unfolding trimwhitespace
trimwhitespace-All P s h = from_first (skip_space s) (skip_space-All P s h)
  where
    from_first : (u : Text) → All P u → All P (trim_end_after_first u)
    from_first [] k = tt
    from_first (c ∷ cs) (k, ks) = (k, trim_end-All P cs ks)

pub blanks-IsFree : (n : ℕ) → IsFree (codes ";") (replicate n 32)
unfolding contains
blanks-IsFree zero = tt
blanks-IsFree (suc n) = (refl, blanks-IsFree n)

padded-IsFree : (name : Text) → IsFree (codes ";") name → IsFree (codes ";") (padded name)
unfolding string_pad trim_in_place
padded-IsFree name h =
    All-append _ (leading_space name ++ trimwhitespace name) _
      (All-append _ (leading_space name) (trimwhitespace name) (leading_space-All _ name h)
        (trimwhitespace-All _ name h))
      (blanks-IsFree _)

-- The server trims the name of a region: it is the name that the user gave.
pub padded-trimwhitespace : (name : Text) → trimwhitespace (padded name) ≡ trimwhitespace name
unfolding string_pad
padded-trimwhitespace name = trim_in_place-append name _

-- A padded name is never empty.
padded-add_token : (name : Text) (ts : List Text) → add_token (padded name) ts ≡ padded name ∷ ts
unfolding string_pad
padded-add_token name ts = never_empty (trim_in_place name)
  where
    never_empty :
        (t : Text)
        → add_token (t ++ replicate (15 - length t) 32) ts
          ≡ (t ++ replicate (15 - length t) 32) ∷ ts
    never_empty [] = refl
    never_empty (c ∷ cs) = refl

-- A request of a code of two letters and a name, as makeargv splits it.
pub named-makeargv :
    (a b : ℕ) (name tail : Text)
    → contains (codes ";") a ≡ false
    → contains (codes ";") b ≡ false
    → IsFree (codes ";") name
    → makeargv (some (a ∷ b ∷ b';' ∷ padded name ++ b';' ∷ tail)) (codes ";")
      ≡ some ((a ∷ b ∷ []) ∷ padded name ∷ strtok_all (codes ";") [] tail)
unfolding makeargv skip_delimiters
named-makeargv a b name tail p q h = rw p (
    ap some (
      strtok_all-token (codes ";") [] (a ∷ b ∷ []) (padded name ++ b';' ∷ tail) b';' (p, (q, tt))
        (unfold contains in refl)
      ∙ ap (λ ts. (a ∷ b ∷ []) ∷ ts)
          (strtok_all-token (codes ";") [] (padded name) tail b';' (padded-IsFree name h)
              (unfold contains in refl)
            ∙ padded-add_token name _)))

-- Such a request with blanks behind it.
abbrev named : ℕ → ℕ → Text → ℕ → Text
named a b name n = a ∷ b ∷ b';' ∷ padded name ++ b';' ∷ replicate n 32

named-trimlastenter :
    (a b : ℕ) (name : Text) (n : ℕ) → trimlastenter (named a b name n) ≡ named a b name n
named-trimlastenter a b name n =
    trimlastenter-append (a ∷ b ∷ b';' ∷ padded name) (replicate n 32) b';'
    ∙ ap (λ t. a ∷ b ∷ b';' ∷ padded name ++ t)
        (trimlastenter-replicate n b';' (λ e. absurd (omega (arith, e))))

-- The handler that the server runs, and the parts it gets.
dispatch-named :
    (a b : ℕ) (name : Text) (n : ℕ) (s : Server)
    → contains (codes ";") a ≡ false
    → contains (codes ";") b ≡ false
    → IsFree (codes ";") name
    → dispatch (named a b name n) s
      ≡ handle
          (handler_of a b)
          ((a ∷ b ∷ []) ∷ padded name ∷ strtok_all (codes ";") [] (replicate n 32))
          s
unfolding dispatch
dispatch-named a b name n s p q h =
    ap
      (λ str. elim (makeargv (some str) (codes ";")) [
        | none ↦ done s
        | some argvp ↦ handle (handler_of (byte_at str 0) (byte_at str 1)) argvp s
      ])
      (named-trimlastenter a b name n)
    ∙ ap (λ o. elim o [ none ↦ done s | some argvp ↦ handle (handler_of a b) argvp s ])
        (named-makeargv a b name (replicate n 32) p q h)

open_polls-dispatch :
    (name : Text) (c : Client) (s : Server)
    → IsFree (codes ";") name
    → dispatch (open_polls_request name c) s ≡ dispatch_open (codes "OP" ∷ name ∷ []) s
unfolding open_polls_request cap_req contains handler_of handle dispatch_open open_polls sweep
open_polls-dispatch name c s h =
    rw (append_assoc (padded name) (b';' ∷ []) (replicate c.max_data 32)) (
      dispatch-named b'O' b'P' name c.max_data s refl refl h ∙ rw (padded-trimwhitespace name) refl)

close_polls-dispatch :
    (name : Text) (c : Client) (s : Server)
    → IsFree (codes ";") name
    → dispatch (close_polls_request name c) s ≡ dispatch_close (codes "CP" ∷ name ∷ []) s
unfolding close_polls_request cap_req contains handler_of handle dispatch_close close_polls sweep
close_polls-dispatch name c s h =
    rw (append_assoc (padded name) (codes ";       ") (replicate c.max_data 32)) (
      dispatch-named b'C' b'P' name (suc (suc (suc (suc (suc (suc (suc c.max_data))))))) s refl refl
        h
      ∙ rw (padded-trimwhitespace name) refl)

count_votes-dispatch :
    (name : Text) (c : Client) (s : Server)
    → IsFree (codes ";") name
    → dispatch (count_votes_request name c) s ≡ count_votes (codes "CV" ∷ name ∷ []) s
unfolding count_votes_request cap_req contains handler_of handle count_votes
count_votes-dispatch name c s h =
    rw (append_assoc (padded name) (b';' ∷ []) (replicate c.max_data 32)) (
      dispatch-named b'C' b'V' name c.max_data s refl refl h
      ∙ ap (λ t. count_found (padded name) (find_node t s.nodes) s) (padded-trimwhitespace name)
      ∙ found (find_node (trimwhitespace name) s.nodes))
  where
    found : (o : Option (ℕ × Node)) → count_found (padded name) o s ≡ count_found name o s
    found none = rw (padded-trimwhitespace name) refl
    found (some (i, n)) = refl

return_winner-dispatch :
    (name : Text) (c : Client) (s : Server)
    → dispatch (return_winner_request name c) s ≡ return_winner s
unfolding return_winner_request cap_req dispatch
return_winner-dispatch name c s =
    ap
      (λ str. elim (makeargv (some str) (codes ";")) [
        | none ↦ done s
        | some argvp ↦ handle (handler_of (byte_at str 0) (byte_at str 1)) argvp s
      ])
      (trimlastenter-append (codes "RW") (replicate c.max_data 32) b';'
        ∙ ap (λ t. codes "RW" ++ t)
            (trimlastenter-replicate c.max_data b';' (λ e. absurd (omega (arith, e)))))
    ∙ unfold makeargv in unfold handler_of in unfold handle in refl

-- What the user's command asks for is what the server runs: for a name without a semicolon, the
-- requests of Open_Polls, Close_Polls and Count_Votes, with all their padding, are handled as the
-- code with just that name, and the request of Return_Winner as Return_Winner, whatever
-- was counted before.
pub requests_lem :
    (name : Text) (c : Client) (s : Server)
    → IsFree (codes ";") name
    → (dispatch (open_polls_request name c) s ≡ dispatch_open (codes "OP" ∷ name ∷ []) s)
      × (dispatch (close_polls_request name c) s ≡ dispatch_close (codes "CP" ∷ name ∷ []) s)
      × (dispatch (count_votes_request name c) s ≡ count_votes (codes "CV" ∷ name ∷ []) s)
      × (dispatch (return_winner_request name c) s ≡ return_winner s)
requests_lem name c s h = (
  open_polls-dispatch name c s h,
  close_polls-dispatch name c s h,
  count_votes-dispatch name c s h,
  return_winner-dispatch name c s,
)
