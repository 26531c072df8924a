-- ===== src/VoteCounter/Clean/Gone.antt =====
-- A directory is gone exactly where each of its files can be unlinked.
use os.Base.{
  Bool, true, false, ◌&&◌, ◌||◌, Option, none, some, List, [], ◌∷◌, ◌++◌, if◌then◌else◌, ◌≡◌, refl,
  ◌↔◌, All, ◌∙◌, ap, sym, arith, Bool-cases, &&-eq-true, inl, inr,
}
use os.Text.{Text}
use os.VoteCounter.Clean.{
  Folder, folder, FolderEntries, last_entry, file_entry, folder_entry, is_dot, full_path, is_bare,
  close_folder, keep_file, keep_unless_gone, remove_dir, remove_entries,
}

-- The paths of the files below a directory.
mutual
  pub files_in : Text → Folder → List Text
  files_in path (folder es) = files_of path es

  pub files_of : Text → FolderEntries → List Text
  files_of path last_entry = []
  files_of path (file_entry name es) =
      (if is_dot name then [] else full_path path name ∷ []) ++ files_of path es
  files_of path (folder_entry name d es) =
      (if is_dot name then [] else files_in (full_path path name) d) ++ files_of path es

abbrev pub all_of : (Text → Bool) → List Text → Bool
all_of p [] = true
all_of p (t ∷ ts) = p t && all_of p ts

all_of-append : (p : Text → Bool) (s t : List Text) → all_of p (s ++ t) ≡ (all_of p s && all_of p t)
all_of-append p [] t = refl
all_of-append p (x ∷ xs) t = ground (arith, all_of-append p xs t)

abbrev pub is_gone : Option Folder → Bool
is_gone none = true
is_gone (some d) = false

close_folder-gone :
    (unlinks : Text → Bool) (path : Text) (es : FolderEntries)
    → is_gone (close_folder unlinks (λ t. true) path es) ≡ is_bare es
close_folder-gone unlinks path es = ground arith

keep_file-bare :
    (unlinks : Text → Bool) (path name : Text) (es : FolderEntries)
    → is_bare (keep_file unlinks (λ t. true) path name es)
      ≡ ((is_dot name || unlinks (full_path path name)) && is_bare es)
keep_file-bare unlinks path name es = elim (Bool-cases (is_dot name)) [
  | inl e ↦ rw (e, e) refl
  | inr e ↦ elim (Bool-cases (unlinks (full_path path name))) [
    | inl u ↦ rw (e, u) refl
    | inr k ↦ rw (e, k) (rw e refl)
  ]
]

keep_unless_gone-bare :
    (name : Text) (d : Folder) (below : Option Folder) (es : FolderEntries)
    → is_bare (keep_unless_gone name d below es) ≡ ((is_dot name || is_gone below) && is_bare es)
keep_unless_gone-bare name d none es = elim (Bool-cases (is_dot name)) [
  | inl e ↦ rw e (rw e refl)
  | inr e ↦ rw e refl
]
keep_unless_gone-bare name d (some b) es = elim (Bool-cases (is_dot name)) [
  | inl e ↦ rw e (rw e refl)
  | inr e ↦ rw e (rw e refl)
]

module _ (unlinks : Text → Bool) where
  file_all :
      (name path : Text) (ts : List Text)
      → all_of unlinks ((if is_dot name then [] else full_path path name ∷ []) ++ ts)
        ≡ ((is_dot name || unlinks (full_path path name)) && all_of unlinks ts)
  file_all name path ts = ground arith

  folder_all :
      (name : Text) (below ts : List Text)
      → all_of unlinks ((if is_dot name then [] else below) ++ ts)
        ≡ ((is_dot name || all_of unlinks below) && all_of unlinks ts)
  folder_all name below ts = ground (arith, all_of-append unlinks below ts)

  mutual
    unfolding files_in remove_dir

    remove_dir-gone :
        (path : Text) (d : Folder)
        → is_gone (remove_dir unlinks (λ t. true) path d) ≡ all_of unlinks (files_in path d)
    remove_dir-gone path (folder es) =
        close_folder-gone unlinks path (remove_entries unlinks (λ t. true) path es)
        ∙ remove_entries-bare path es

    remove_entries-bare :
        (path : Text) (es : FolderEntries)
        → is_bare (remove_entries unlinks (λ t. true) path es) ≡ all_of unlinks (files_of path es)
    remove_entries-bare path last_entry = refl
    remove_entries-bare path (file_entry name es) =
        keep_file-bare unlinks path name (remove_entries unlinks (λ t. true) path es)
        ∙ ap (λ b. (is_dot name || unlinks (full_path path name)) && b)
            (remove_entries-bare path es)
        ∙ sym (file_all name path (files_of path es))
    remove_entries-bare path (folder_entry name d es) =
        keep_unless_gone-bare name d (remove_dir unlinks (λ t. true) (full_path path name) d)
          (remove_entries unlinks (λ t. true) path es)
        ∙ ap (λ b. (is_dot name || b) && is_bare (remove_entries unlinks (λ t. true) path es))
            (remove_dir-gone (full_path path name) d)
        ∙ ap (λ b. (is_dot name || all_of unlinks (files_in (full_path path name) d)) && b)
            (remove_entries-bare path es)
        ∙ sym (folder_all name (files_in (full_path path name) d) (files_of path es))

gone_iff : (o : Option Folder) → (o ≡ none) ↔ (is_gone o ≡ true)
gone_iff none = (λ e. refl, λ e. refl)
gone_iff (some d) = (λ e. cc, λ e. cc)

all_of_iff : (p : Text → Bool) (ts : List Text) → (all_of p ts ≡ true) ↔ All (λ t. p t ≡ true) ts
all_of_iff p [] = (λ e. tt, λ h. refl)
all_of_iff p (t ∷ ts) = (
  λ e. let (a, b) = &&-eq-true (p t) (all_of p ts) e in (a, (all_of_iff p ts).0 b),
  λ h. rw h.0 ((all_of_iff p ts).1 h.1),
)

-- Where rmdir removes every directory that is empty, removeDIR removes a directory exactly if
-- unlink works on each file below it.
pub remove_dir_lem :
    (unlinks : Text → Bool) (path : Text) (d : Folder)
    → (remove_dir unlinks (λ t. true) path d ≡ none) ↔ All (λ t. unlinks t ≡ true) (files_in path d)
remove_dir_lem unlinks path d =
    let e = remove_dir-gone unlinks path d in
    let none_iff = gone_iff (remove_dir unlinks (λ t. true) path d) in
    let all_iff = all_of_iff unlinks (files_in path d) in
    (λ h. all_iff.0 (sym e ∙ none_iff.0 h), λ h. none_iff.1 (e ∙ all_iff.1 h))
