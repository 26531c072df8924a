-- ===== src/VoteCounter/Clean.antt =====
-- removeDIR: a directory is removed with all that is in it. Which files unlink removes and which
-- empty directories rmdir removes are parameters; there are no links, since stat follows them.
pub mod Gone
use os.Base.{Bool, true, false, ◌&&◌, ◌||◌, Option, none, some, ◌∷◌, ◌++◌, if◌then◌else◌}
use os.Text.{Text, codes, text_eq}

-- The entries in the order of readdir.
mutual
  pub data Folder : Type 0 where
    folder : FolderEntries → Folder

  pub data FolderEntries : Type 0 where
    last_entry : FolderEntries
    file_entry : (name : Text) → FolderEntries → FolderEntries
    folder_entry : (name : Text) → Folder → FolderEntries → FolderEntries

abbrev pub is_dot : Text → Bool
is_dot name = text_eq name (codes ".") || text_eq name (codes "..")

abbrev pub full_path : Text → Text → Text
full_path path name = path ++ b'/' ∷ name

-- What rmdir takes for empty.
abbrev pub is_bare : FolderEntries → Bool
is_bare last_entry = true
is_bare (file_entry name es) = is_dot name && is_bare es
is_bare (folder_entry name d es) = is_dot name && is_bare es

abbrev pub keep_folder : Text → Option Folder → FolderEntries → FolderEntries
keep_folder name none es = es
keep_folder name (some d) es = folder_entry name d es

abbrev pub keep_unless_gone : Text → Folder → Option Folder → FolderEntries → FolderEntries
keep_unless_gone name d below es = keep_folder name (if is_dot name then some d else below) es

module _ (unlinks rmdirs : Text → Bool) where
  abbrev pub close_folder : Text → FolderEntries → Option Folder
  close_folder path es = if is_bare es && rmdirs path then none else some (folder es)

  abbrev pub keep_file : Text → Text → FolderEntries → FolderEntries
  keep_file path name es =
      if is_dot name
      then file_entry name es
      else if unlinks (full_path path name)
      then es
      else file_entry name es

  -- What stays in the file system: `none` is a directory that is gone.
  unfoldable mutual
    pub remove_dir : Text → Folder → Option Folder
    remove_dir path (folder es) = close_folder path (remove_entries path es)

    pub remove_entries : Text → FolderEntries → FolderEntries
    remove_entries path last_entry = last_entry
    remove_entries path (file_entry name es) = keep_file path name (remove_entries path es)
    remove_entries path (folder_entry name d es) =
        keep_unless_gone name d (remove_dir (full_path path name) d) (remove_entries path es)
