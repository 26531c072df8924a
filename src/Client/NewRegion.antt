-- ===== src/Client/NewRegion.antt =====
-- What the server makes of the client's request of Add_Region.
use os.Base.{
  ℕ, zero, suc, Option, none, some, [], ◌∷◌, ◌++◌, ◌≡◌, ◌≢◌, refl, sym, ap, ◌∙◌, All-append,
  replicate, append-nil, append_assoc, done, arith, Run, set, length,
}
use os.Text.{
  Text, codes, contains, leading_space, trimwhitespace, trim_in_place, trimlastenter, add_token,
  makeargv,
}
use os.Text.Tokens.{IsFree, strtok_all-free}
use os.Text.Trim.{
  trim_in_place-append, trimlastenter-append, trimlastenter-replicate, trimwhitespace-trimlastenter,
}
use os.Client.{Client, cap_req, padded, add_region_request}
use os.Client.Requests.{
  leading_space-All, trimwhitespace-All, blanks-IsFree, padded-trimwhitespace, named-makeargv,
}
use os.Server.State.{Node, Server, create, find_node, say}
use os.Server.Region.{append_region, region_found, add_region}
use os.Server.Dispatch.{byte_at, handler_of, handle, dispatch}

-- The name of the region, which is not padded, with the blanks of cap_req.
abbrev ending : Text → ℕ → Text
ending region n = trim_in_place region ++ replicate n 32

trim_in_place-IsFree :
    (region : Text) → IsFree (codes ";") region → IsFree (codes ";") (trim_in_place region)
unfolding trim_in_place
trim_in_place-IsFree region h =
    All-append _ (leading_space region) (trimwhitespace region) (leading_space-All _ region h)
      (trimwhitespace-All _ region h)

-- A text that ends in another one without a newline at its end.
trimlastenter-ending : (s t : Text) → t ≢ [] → trimlastenter t ≡ t → trimlastenter (s ++ t) ≡ s ++ t
trimlastenter-ending s [] h e = absurd (h refl)
trimlastenter-ending s (c ∷ cs) h e = trimlastenter-append s cs c ∙ ap (λ t. s ++ t) e

blanks-trimlastenter :
    (s t : Text) (n : ℕ)
    → t ≢ []
    → trimlastenter t ≡ t
    → trimlastenter ((s ++ t) ++ replicate n 32) ≡ (s ++ t) ++ replicate n 32
blanks-trimlastenter s t zero h e =
    ap trimlastenter (append-nil (s ++ t))
    ∙ trimlastenter-ending s t h e
    ∙ sym (append-nil (s ++ t))
blanks-trimlastenter s t (suc n) h e =
    trimlastenter-append (s ++ t) (replicate n 32) 32
    ∙ ap (λ u. (s ++ t) ++ u) (trimlastenter-replicate n 32 (λ q. absurd (omega (arith, q))))

-- The request, with its parts put together as the server sees it.
abbrev request : Text → Text → ℕ → Text
request parent region n = codes "AR;" ++ (padded parent ++ (b';' ∷ ending region n))

request-add_region_request :
    (parent region : Text) (c : Client)
    → add_region_request parent region c ≡ request parent region c.max_data
unfolding add_region_request cap_req
request-add_region_request parent region c = simp (append_assoc)

request-trimlastenter :
    (parent region : Text) (n : ℕ)
    → trimwhitespace region ≢ []
    → trimlastenter (request parent region n) ≡ request parent region n
unfolding trim_in_place
request-trimlastenter parent region n h =
    let front = codes "AR;" ++ (padded parent ++ b';' ∷ leading_space region) in
    let e : request parent region n ≡ (front ++ trimwhitespace region) ++ replicate n 32 =
      simp (append_assoc) in
    ap trimlastenter e
    ∙ blanks-trimlastenter front (trimwhitespace region) n h (trimwhitespace-trimlastenter region)
    ∙ sym e

add_token-cons : (t : Text) → t ≢ [] → add_token t [] ≡ t ∷ []
add_token-cons [] h = absurd (h refl)
add_token-cons (c ∷ cs) h = refl

ending-ne-nil : (region : Text) (n : ℕ) → trimwhitespace region ≢ [] → ending region n ≢ []
unfolding trim_in_place
ending-ne-nil region n h = behind (leading_space region) (trimwhitespace region) h
  where
    behind : (s t : Text) → t ≢ [] → (s ++ t) ++ replicate n 32 ≢ []
    behind [] [] k e = k refl
    behind [] (c ∷ cs) k e = cc
    behind (d ∷ ds) t k e = cc

request-makeargv :
    (parent region : Text) (n : ℕ)
    → IsFree (codes ";") parent
    → IsFree (codes ";") region
    → trimwhitespace region ≢ []
    → makeargv (some (request parent region n)) (codes ";")
      ≡ some (codes "AR" ∷ padded parent ∷ ending region n ∷ [])
request-makeargv parent region n h k ne =
    named-makeargv b'A' b'R' parent (ending region n) (unfold contains in refl)
      (unfold contains in refl) h
    ∙ ap (λ ts. some (codes "AR" ∷ padded parent ∷ ts))
        (strtok_all-free (codes ";") [] (ending region n) (
            All-append _ (trim_in_place region) (replicate n 32) (trim_in_place-IsFree region k)
              (blanks-IsFree n))
          ∙ add_token-cons (ending region n) (ending-ne-nil region n ne))

add_region-dispatch :
    (parent region : Text) (n : ℕ) (s : Server)
    → IsFree (codes ";") parent
    → IsFree (codes ";") region
    → trimwhitespace region ≢ []
    → dispatch (request parent region n) s
      ≡ region_found
          (trimwhitespace parent)
          (trimwhitespace region)
          (find_node (trimwhitespace parent) s.nodes)
          s
unfolding dispatch handle add_region handler_of
add_region-dispatch parent region n s h k ne =
    ap
      (λ str. elim (makeargv (some str) (codes ";")) [
        | none ↦ done s
        | some argvp ↦ handle (handler_of (byte_at str 0) (byte_at str 1)) argvp s
      ])
      (request-trimlastenter parent region n ne)
    ∙ ap (λ o. elim o [ none ↦ done s | some argvp ↦ handle (handler_of b'A' b'R') argvp s ])
        (request-makeargv parent region n h k ne)
    ∙ rw (padded-trimwhitespace parent, trim_in_place-append region n) refl

-- What the request comes to, by whether the first name is found: no region of that name, and only
-- the answer NR; or the answer SC, and a region of the second name that stands last in the list and
-- last among the children of the one that was found.
abbrev pub Added : Text → Text → Server → Option (ℕ × Node) → Run Server → Type 0
Added parent region s none r = r ≡ done (say (codes "NR;" ++ parent) s)
Added parent region s (some (i, n)) r =
    r
    ≡ done (
        say (codes "SC;" ++ region ++ codes "\n") (record s {
          nodes =
              set s.nodes i (record n { children = n.children ++ length s.nodes ∷ [] })
              ++ create region ∷ [];
        }))

found-Added :
    (parent region : Text) (s : Server) (o : Option (ℕ × Node))
    → Added parent region s o (region_found parent region o s)
unfolding append_region
found-Added parent region s none = refl
found-Added parent region s (some (i, n)) = refl

-- The request of Add_Region for names without a semicolon, the second not blank: where the server
-- has no region of the first name it answers NR and that name and changes nothing else; else it
-- answers SC and the second name, and a new region of that name stands last in the list and last
-- among the children of the first region of the first name. Blanks around either name, and those
-- that the client adds, make no difference.
pub add_region_request_lem :
    (parent region : Text) (c : Client) (s : Server)
    → IsFree (codes ";") parent
    → IsFree (codes ";") region
    → trimwhitespace region ≢ []
    → Added
        (trimwhitespace parent)
        (trimwhitespace region)
        s
        (find_node (trimwhitespace parent) s.nodes)
        (dispatch (add_region_request parent region c) s)
add_region_request_lem parent region c s h k ne =
    let e =
      ap (λ str. dispatch str s) (request-add_region_request parent region c)
      ∙ add_region-dispatch parent region c.max_data s h k ne in
    rw e (found-Added (trimwhitespace parent) (trimwhitespace region) s _)
