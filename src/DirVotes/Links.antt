-- ===== src/DirVotes/Links.antt =====
-- find_loop of Leaf_Counter.c, which aggr of Aggregate_Votes.c repeats: a symbolic link that points
-- back to a directory above is reported in Who_Won.txt.
pub mod Report
use os.Base.{
  ℕ, zero, suc, Bool, true, false, Option, none, some, List, [], ◌∷◌, ◌++◌, length, drop, ◌≡◌, refl,
  sym, ap, ◌∙◌, arith, All, append_assoc, append-nil, inl, inr, Bool-cases, Run, done, fault, exit,
  ◌>>=◌, use_ptr, if◌then◌else◌, ◌||◌,
}
use os.Text.{Text, codes, text_eq, makeargv, arg}

-- The buffers that find_loop keeps from one link to the next: buf_symlink, writepath_symlink and
-- stroutput, which has no value before the first sprintf.
pub record Buffers : Type 0 where
  pub buf_symlink : Text
  pub writepath_symlink : Text
  pub stroutput : Option Text

abbrev pub no_buffers : Buffers
no_buffers = record { buf_symlink = []; writepath_symlink = []; stroutput = none }

abbrev pub last_of : List Text → Option Text
last_of [] = none
last_of (t ∷ []) = some t
last_of (t ∷ u ∷ us) = last_of (u ∷ us)

-- readlink writes no 0 behind what it read.
abbrev pub read_link : Text → Text → Text
read_link target buf = target ++ drop (length target) buf

abbrev pub cycle_line : Text → Text → Text
cycle_line from to = codes "There is a cycle from " ++ from ++ codes " to " ++ to ++ codes ".\n"

unfoldable pub slashed : List Text → Text
slashed [] = []
slashed (t ∷ ts) = t ++ b'/' ∷ slashed ts

abbrev pub report_cycle : Text → Text → Text → Buffers → Buffers
report_cycle last pointto t s =
    if text_eq pointto t then record s { stroutput = some (cycle_line last pointto) } else s

-- The file's path, behind what the buffer holds already.
abbrev pub find_who_won : Text → List Text → Text → Buffers → Buffers
find_who_won first upto t s =
    let path = s.writepath_symlink ++ slashed upto ++ codes "Who_Won.txt" in
    if text_eq t (codes "Who_Won")
    then record s { writepath_symlink = if text_eq first (codes "home") then b'/' ∷ path else path }
    else s

-- The loop over the parts of the path, from the one behind `before`.
unfoldable pub scan_parts : Text → Text → Text → List Text → List Text → Buffers → Buffers
scan_parts first last pointto before [] s = s
scan_parts first last pointto before (t ∷ ts) s =
    scan_parts first last pointto (before ++ t ∷ []) ts
      (find_who_won first (before ++ t ∷ []) t (report_cycle last pointto t s))

abbrev pub scan_with : Option Text → Option Text → Text → List Text → Buffers → Buffers
scan_with (some first) (some last) pointto argvp s = scan_parts first last pointto [] argvp s
scan_with _ _ pointto argvp s = s

abbrev pub first_of : List Text → Option Text
first_of [] = none
first_of (t ∷ ts) = some t

abbrev pub scan_path : List Text → Text → Buffers → Buffers
scan_path argvp pointto s = scan_with (first_of argvp) (last_of argvp) pointto argvp s

abbrev pub tokens_or_none : Option (List Text) → List Text
tokens_or_none none = []
tokens_or_none (some ts) = ts

-- fopen and fwrite: the file's path and the text behind its end.
abbrev pub write_cycle : Bool → Text → Option Text → Run (Text × Text)
write_cycle false path output = exit
write_cycle true path none = fault
write_cycle true path (some line) = done (path, line)

module _ (opens : Text → Bool) where
  -- One entry of type DT_LNK.
  unfoldable pub follow_link : List Text → Text → Buffers → Run (Buffers × (Text × Text))
  follow_link argvp target s = do
    let buf = read_link target s.buf_symlink
    pointto ← use_ptr (last_of (tokens_or_none (makeargv (some buf) (codes "/"))))
    let s' = scan_path argvp pointto (record s { buf_symlink = buf })
    written ← write_cycle (opens s'.writepath_symlink) s'.writepath_symlink s'.stroutput
    done (s', written)

  unfoldable pub follow_links : List Text → List Text → Buffers → Run (List (Text × Text))
  follow_links argvp [] s = done []
  follow_links argvp (target ∷ more) s = do
    (s', written) ← follow_link argvp target s
    rest ← follow_links argvp more s'
    done (written ∷ rest)

  -- The parts of the directory's path, and the targets of its links.
  unfoldable pub find_loop : List Text → List Text → Run (List (Text × Text))
  find_loop argvp targets = follow_links argvp targets no_buffers
