-- ===== src/VoteCounter/Files/Climb.antt =====
-- aggregate from a leaf up to the root.
use os.Base.{
  ℕ, zero, suc, ◌<◌, false, Option, none, some, List, [], ◌∷◌, length, map, done, ◌≡◌, ◌≢◌, refl,
  sym, ◌∙◌, All, All-weaken, arith, Returns, Returns-weaken, subst,
}
use os.Base.Word.{modulus, add_int}
use os.Text.{Text, text_eq}
use os.Server.State.Find.{text_eq_iff}
use os.VoteCounter.Paths.{DirNode, get_path, getparentname}
use os.VoteCounter.Files.{
  Candidate, OutFile, open_file, write_file, count_lines, count_line, increment_of, aggregate_level,
  aggregate_next, aggregate_up,
}
use os.VoteCounter.Files.Merge.{
  raised, merged, shown, AreLines, merged_lines_lem, count_lines-counted, votes_for,
  increment_of-leaf,
}

pub open_file-write_self :
    (path : Text) (lines : List Text) (fs : List OutFile)
    → open_file path (write_file path lines fs) ≡ some lines
unfolding open_file write_file
open_file-write_self path lines [] = ground (arith, text_eq_iff path path)
open_file-write_self path lines (f ∷ fs) =
    ground (arith, text_eq_iff path path, open_file-write_self path lines fs)

pub open_file-write_other :
    (path other : Text) (lines : List Text) (fs : List OutFile)
    → path ≢ other
    → open_file other (write_file path lines fs) ≡ open_file other fs
unfolding open_file write_file
open_file-write_other path other lines [] h = ground (arith, text_eq_iff path other)
open_file-write_other path other lines (f ∷ fs) h = ground (
  arith,
  text_eq_iff f.path path,
  text_eq_iff f.path other,
  open_file-write_other path other lines fs,
)

-- An ancestor's file, and the counters in it if it exists.
pub record Level : Type 0 where
  pub path : Text
  pub old : Option (List Candidate)

-- The files of the ancestors of a name, from its parent up to the root.
pub data Ancestors (ds : List DirNode) (root : Text) : Text → List Level → Type 0 where
  top : (name : Text) → name ≡ root → Ancestors ds root name []
  up :
      {name path parent : Text} (v : Level) {vs : List Level}
      → name ≢ root
      → get_path name ds ≡ some path
      → getparentname path ≡ done parent
      → get_path parent ds ≡ some v.path
      → Ancestors ds root parent vs
      → Ancestors ds root name (v ∷ vs)

abbrev pub Away : Text → List Level → Type 0
Away path vs = All (λ v. v.path ≢ path) vs

abbrev pub AreApart : List Level → Type 0
AreApart [] = Unit {0}
AreApart (v ∷ vs) = Away v.path vs × AreApart vs

-- The file is there as the level says, with counters that can be read back.
abbrev pub Stands : List OutFile → Level → Type 0
Stands fs v = (open_file v.path fs ≡ shown v.old) × AreLines v.old

abbrev pub Climbed : List Candidate → List Level → List OutFile → List OutFile → Type 0
Climbed ks vs fs fs' =
    All (λ v. open_file v.path fs' ≡ some (map count_line (merged ks v.old))) vs
    × ((path : Text) → Away path vs → open_file path fs' ≡ open_file path fs)

module _ (ds : List DirNode) (root : Text) where
  not_root : (name : Text) → name ≢ root → text_eq name root ≡ false
  not_root name h = ground (arith, text_eq_iff name root)

  same_path :
      (name : Text) {p q : Text} → get_path name ds ≡ some p → get_path name ds ≡ some q → p ≡ q
  same_path name e f = cc

  aggregate_up-root :
      (fuel : ℕ) (name : Text) (ks : List Candidate) (fs : List OutFile)
      → name ≡ root
      → aggregate_up (suc fuel) root ds name ks fs ≡ done fs
  unfolding aggregate_up
  aggregate_up-root fuel name ks fs e = rw ((text_eq_iff name root).1 e, aggregate_up) refl

  aggregate_up-level :
      (fuel : ℕ) (name : Text) (ks : List Candidate) (fs : List OutFile)
      → name ≢ root
      → aggregate_up (suc fuel) root ds name ks fs
        ≡ aggregate_next (aggregate_up fuel root ds) ds ks fs (get_path name ds)
  unfolding aggregate_up
  aggregate_up-level fuel name ks fs h = rw (not_root name h, aggregate_up) refl

  pub stand_on :
      (lines : List Text) (fs : List OutFile) (v : Level) (vs : List Level)
      → Away v.path vs
      → All (Stands fs) vs
      → All (Stands (write_file v.path lines fs)) vs
  stand_on lines fs v [] h k = tt
  stand_on lines fs v (w ∷ ws) (h, hs) ((o, a), ks) = (
    (open_file-write_other v.path w.path lines fs (λ e. h (sym e)) ∙ o, a),
    stand_on lines fs v ws hs ks,
  )

  -- One level: the file below is read, the parent's is written.
  aggregate_level_lem :
      (path : Text) {parent : Text} (v : Level) (lines : List Text) (ks ks' : List Candidate)
      (fs : List OutFile)
      → open_file path fs ≡ some lines
      → count_lines lines ks ≡ ks'
      → getparentname path ≡ done parent
      → get_path parent ds ≡ some v.path
      → Stands fs v
      → aggregate_level ds path ks fs
        ≡ done (parent, ks', write_file v.path (map count_line (merged ks' v.old)) fs)
  aggregate_level_lem path v lines ks ks' fs o c p g (s, a) =
      rw (o, p, c, g, s, merged_lines_lem ks' v.old a) refl

  climb :
      (fuel : ℕ) {name path : Text} (vs : List Level) (lines : List Text) (ks ks' : List Candidate)
      (fs : List OutFile)
      → length vs < fuel
      → Ancestors ds root name vs
      → get_path name ds ≡ some path
      → open_file path fs ≡ some lines
      → count_lines lines ks ≡ ks'
      → All (Stands fs) vs
      → AreApart vs
      → Returns (Climbed ks' vs fs) (aggregate_up fuel root ds name ks fs)
  climb zero vs lines ks ks' fs b a g o c s d = absurd (omega arith)
  climb (suc fuel) [] lines ks ks' fs b (top name e) g o c s d =
      rw (aggregate_up-root fuel name ks fs e) (tt, λ path h. refl)
  climb (suc fuel) {name} {path} (v ∷ vs) lines ks ks' fs b (up {parent} w ne g' p up' rest) g o c
        (s, ss) (d, ds') =
      let fs1 = write_file v.path (map count_line (merged ks' v.old)) fs in
      let here = open_file-write_self v.path (map count_line (merged ks' v.old)) fs in
      rw
        (
          aggregate_up-level fuel name ks fs ne,
          g,
          aggregate_level_lem path v lines ks ks' fs o c
              (subst (λ q. getparentname q ≡ done parent) (same_path name g' g) p) up' s,
        )
        (Returns-weaken (Climbed ks' vs fs1) (Climbed ks' (v ∷ vs) fs) _
          (climb fuel vs (map count_line (merged ks' v.old)) ks' ks' fs1 (omega arith) rest up' here
            (count_lines-counted (merged ks' v.old) ks')
            (stand_on (map count_line (merged ks' v.old)) fs v vs d ss) ds')
          (λ fs' r. (
            (r.1 v.path d ∙ here, r.0),
            λ other away.
                r.1 other away.1
                ∙ open_file-write_other v.path other (map count_line (merged ks' v.old)) fs away.0,
          )))

-- What the counters of an ancestor's file have become: each of those that stood there has the
-- leaf's votes for it added; where there was no file, they hold the leaf's votes.
abbrev pub with_votes : List Text → Candidate → Candidate
with_votes lines k = record k { count = add_int k.count (votes_for k.name lines) }

abbrev pub Counted : List Text → Option (List Candidate) → List Candidate → Type 0
Counted lines none out = (name : Text) → increment_of name out ≡ votes_for name lines
Counted lines (some old) out = out ≡ map (with_votes lines) old

merged-Counted :
    (lines : List Text) (old : Option (List Candidate))
    → length lines < modulus
    → Counted lines old (merged (count_lines lines []) old)
merged-Counted lines none b = λ name. increment_of-leaf name lines b
merged-Counted lines (some old) b = go old
  where
    go : (ks : List Candidate) → map (raised (count_lines lines [])) ks ≡ map (with_votes lines) ks
    go [] = refl
    go (k ∷ ks) = rw (increment_of-leaf k.name lines b, go ks) refl

-- A leaf's file of fewer than 2 ^ 32 lines, whose ancestors' files are different ones, each missing
-- or full of counters that can be read back: with fuel for each level aggregate returns, in every
-- ancestor's file each counter has the leaf's votes for it added as an int, a missing file holds
-- exactly the leaf's votes, and no other file has changed.
pub aggregate_up_lem :
    (ds : List DirNode) (root leaf : Text) {path : Text} (vs : List Level) (lines : List Text)
    (fs : List OutFile) (fuel : ℕ)
    → length vs < fuel
    → length lines < modulus
    → Ancestors ds root leaf vs
    → get_path leaf ds ≡ some path
    → open_file path fs ≡ some lines
    → All (Stands fs) vs
    → AreApart vs
    → Returns
        (λ fs'.
          All
            (λ v.
              (out : List Candidate) × (open_file v.path fs' ≡ some (map count_line out))
              × Counted lines v.old out)
            vs
          × ((other : Text) → Away other vs → open_file other fs' ≡ open_file other fs))
        (aggregate_up fuel root ds leaf [] fs)
aggregate_up_lem ds root leaf vs lines fs fuel f b a g o s d =
    let ks = count_lines lines [] in
    Returns-weaken (Climbed ks vs fs) _ _ (climb ds root fuel vs lines [] ks fs f a g o refl s d)
      (λ fs' r.
        (All-weaken vs (λ v e. (merged ks v.old, e, merged-Counted lines v.old b)) r.0, r.1))
