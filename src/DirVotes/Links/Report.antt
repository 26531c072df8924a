-- ===== src/DirVotes/Links/Report.antt =====
-- What a single symbolic link makes find_loop write.
use os.Base.{
  ℕ, zero, suc, Bool, true, false, some, List, [], ◌∷◌, ◌++◌, length, drop, ◌≡◌, refl, sym, ap, ◌∙◌,
  All, append_assoc, append-nil, inl, inr, Bool-cases, done, fault, if◌then◌else◌, ◌||◌,
}
use os.Text.{Text, codes, text_eq, makeargv}
use os.DirVotes.Links.{
  Buffers, no_buffers, last_of, cycle_line, slashed, report_cycle, find_who_won, scan_parts,
  scan_with, first_of, scan_path, tokens_or_none, follow_link, follow_links, find_loop,
}

unfoldable pub is_part : Text → List Text → Bool
is_part p [] = false
is_part p (t ∷ ts) = text_eq p t || is_part p ts

abbrev pub IsOther : Text → Type 0
IsOther t = text_eq t (codes "Who_Won") ≡ false

find_who_won-stroutput :
    (first : Text) (upto : List Text) (t : Text) (s : Buffers)
    → (find_who_won first upto t s).stroutput ≡ s.stroutput
find_who_won-stroutput first upto t s = elim (Bool-cases (text_eq t (codes "Who_Won"))) [
  | inl same ↦ rw same refl
  | inr other ↦ rw other refl
]

report_cycle-stroutput :
    (last pointto t : Text) (s : Buffers)
    → (report_cycle last pointto t s).stroutput
      ≡ (if text_eq pointto t then some (cycle_line last pointto) else s.stroutput)
report_cycle-stroutput last pointto t s = elim (Bool-cases (text_eq pointto t)) [
  | inl same ↦ rw same refl
  | inr other ↦ rw other refl
]

report_cycle-path :
    (last pointto t : Text) (s : Buffers)
    → (report_cycle last pointto t s).writepath_symlink ≡ s.writepath_symlink
report_cycle-path last pointto t s = elim (Bool-cases (text_eq pointto t)) [
  | inl same ↦ rw same refl
  | inr other ↦ rw other refl
]

find_who_won-other :
    (first : Text) (upto : List Text) (t : Text) (s : Buffers)
    → IsOther t
    → find_who_won first upto t s ≡ s
find_who_won-other first upto t s h = rw h refl

scan_parts-stroutput :
    (first last pointto : Text) (before ts : List Text) (s : Buffers)
    → (scan_parts first last pointto before ts s).stroutput
      ≡ (if is_part pointto ts then some (cycle_line last pointto) else s.stroutput)
unfolding scan_parts is_part
scan_parts-stroutput first last pointto before [] s = refl
scan_parts-stroutput first last pointto before (t ∷ ts) s =
    scan_parts-stroutput first last pointto (before ++ t ∷ []) ts
      (find_who_won first (before ++ t ∷ []) t (report_cycle last pointto t s))
    ∙ rw
        (
          find_who_won-stroutput first (before ++ t ∷ []) t (report_cycle last pointto t s),
          report_cycle-stroutput last pointto t s,
        )
        (by_flags (text_eq pointto t) (is_part pointto ts))
  where
    by_flags :
        (here there : Bool)
        → (if there
            then some (cycle_line last pointto)
            else (if here then some (cycle_line last pointto) else s.stroutput))
          ≡ (if here || there then some (cycle_line last pointto) else s.stroutput)
    by_flags true true = refl
    by_flags true false = refl
    by_flags false there = refl

scan_parts-others :
    (first last pointto : Text) (before ts : List Text) (s : Buffers)
    → All IsOther ts
    → (scan_parts first last pointto before ts s).writepath_symlink ≡ s.writepath_symlink
unfolding scan_parts
scan_parts-others first last pointto before [] s h = refl
scan_parts-others first last pointto before (t ∷ ts) s (h, hs) =
    scan_parts-others first last pointto (before ++ t ∷ []) ts
      (find_who_won first (before ++ t ∷ []) t (report_cycle last pointto t s)) hs
    ∙ ap (λ b. b.writepath_symlink)
        (find_who_won-other first (before ++ t ∷ []) t (report_cycle last pointto t s) h)
    ∙ report_cycle-path last pointto t s

scan_parts-append :
    (first last pointto : Text) (before ts us : List Text) (s : Buffers)
    → scan_parts first last pointto before (ts ++ us) s
      ≡ scan_parts first last pointto (before ++ ts) us (scan_parts first last pointto before ts s)
unfolding scan_parts
scan_parts-append first last pointto before [] us s =
    ap (λ b. scan_parts first last pointto b us s) (sym (append-nil before))
scan_parts-append first last pointto before (t ∷ ts) us s =
    let s' = find_who_won first (before ++ t ∷ []) t (report_cycle last pointto t s) in
    scan_parts-append first last pointto (before ++ t ∷ []) ts us s'
    ∙ ap
        (λ b.
          scan_parts first last pointto b us
            (scan_parts first last pointto (before ++ t ∷ []) ts s'))
        (append_assoc before (t ∷ []) ts)

find_who_won-path :
    (first : Text) (upto : List Text) (s : Buffers)
    → text_eq first (codes "home") ≡ false
    → (find_who_won first upto (codes "Who_Won") s).writepath_symlink
      ≡ s.writepath_symlink ++ slashed upto ++ codes "Who_Won.txt"
unfolding text_eq
find_who_won-path first upto s h = rw h refl

-- The path that a scan adds, for a path with one part of that name.
scan_parts-path :
    (first last pointto : Text) (above below : List Text) (s : Buffers)
    → All IsOther above
    → All IsOther below
    → text_eq first (codes "home") ≡ false
    → (scan_parts first last pointto [] (above ++ codes "Who_Won" ∷ below) s).writepath_symlink
      ≡ s.writepath_symlink ++ slashed (above ++ codes "Who_Won" ∷ []) ++ codes "Who_Won.txt"
unfolding scan_parts
scan_parts-path first last pointto above below s a b h =
    let s1 = scan_parts first last pointto [] above s in
    let s2 = report_cycle last pointto (codes "Who_Won") s1 in
    let upto = above ++ codes "Who_Won" ∷ [] in
    ap (λ b. b.writepath_symlink)
      (scan_parts-append first last pointto [] above (codes "Who_Won" ∷ below) s)
    ∙ scan_parts-others first last pointto upto below (find_who_won first upto (codes "Who_Won") s2)
        b
    ∙ find_who_won-path first upto s2 h
    ∙ ap (λ t. t ++ slashed upto ++ codes "Who_Won.txt")
        (report_cycle-path last pointto (codes "Who_Won") s1
          ∙ scan_parts-others first last pointto [] above s a)

drop-nil : (n : ℕ) → drop {A = ℕ} n [] ≡ []
drop-nil zero = refl
drop-nil (suc n) = refl

scan_path-parts :
    (argvp : List Text) (first last pointto : Text) (s : Buffers)
    → first_of argvp ≡ some first
    → last_of argvp ≡ some last
    → scan_path argvp pointto s ≡ scan_parts first last pointto [] argvp s
scan_path-parts argvp first last pointto s f e =
    ap (λ o. scan_with o (last_of argvp) pointto argvp s) f
    ∙ ap (λ o. scan_with (some first) o pointto argvp s) e

-- A directory is given by the parts of its path. Where just one part is Who_Won, the first part is not
-- home, and Who_Won.txt can be opened at the relative path of the parts up to Who_Won, without the
-- first slash of the directory's path, a single link makes find_loop add one line to that file if the
-- last part of the link's target is a part of the directory's path, and else read a buffer that
-- nothing was written to.
pub find_loop_lem :
    (opens : Text → Bool) (above below : List Text) (first last target pointto : Text)
    → All IsOther above
    → All IsOther below
    → first_of (above ++ codes "Who_Won" ∷ below) ≡ some first
    → text_eq first (codes "home") ≡ false
    → last_of (above ++ codes "Who_Won" ∷ below) ≡ some last
    → last_of (tokens_or_none (makeargv (some target) (codes "/"))) ≡ some pointto
    → opens (slashed (above ++ codes "Who_Won" ∷ []) ++ codes "Who_Won.txt") ≡ true
    → find_loop opens (above ++ codes "Who_Won" ∷ below) (target ∷ []) ≡ (
        if is_part pointto (above ++ codes "Who_Won" ∷ below)
        then done (
            (
              slashed (above ++ codes "Who_Won" ∷ []) ++ codes "Who_Won.txt",
              cycle_line last pointto,
            )
            ∷ [])
        else fault)
unfolding find_loop follow_links follow_link
find_loop_lem opens above below first last target pointto a b f h l t o =
    let argvp = above ++ codes "Who_Won" ∷ below in
    let s0 = record no_buffers { buf_symlink = target } in
    rw
      (
        drop-nil (length target),
        append-nil target,
        t,
        scan_path-parts argvp first last pointto s0 f l,
        scan_parts-path first last pointto above below s0 a b h,
        o,
        scan_parts-stroutput first last pointto [] argvp s0,
      )
      (elim (Bool-cases (is_part pointto argvp)) [
        | inl found ↦ rw found refl
        | inr missing ↦ rw missing refl
      ])
