-- ===== src/Server/Entries.antt =====
-- The entries of an uploaded directory object and the roots of task metadata: `validate_entry`,
-- `validate_directory_entries` and `validate_task_root` of src/server.rs.
pub mod Names
use mr_boxington_cache.Prelude.{
  ℕ, Bool, true, false, not, ◌&&◌, ◌||◌, List, [], ◌∷◌, Result, ok, err, ◌>>=◌, ◌>>◌, ensure,
  is_empty, any, leb, ltb, if◌then◌else◌,
}
use mr_boxington_cache.Prelude.Bytes.{Text, text, split}
use mr_boxington_cache.Prelude.Equality.{◌==◌, contains, nat_eq, list_eq}
use mr_boxington_cache.Protocol.{Digest}
use mr_boxington_cache.Auth.{is_safe_component}
use mr_boxington_cache.Server.Errors.{ApiError, unprocessable}

-- The protocol's records, as far as the service reads them.
pub record DirectoryNode : Type 0 where
  pub name : Text
  pub mode : ℕ
  pub digest : Digest

pub record FileNode : Type 0 where
  pub name : Text
  pub mode : ℕ
  pub digest : Digest
  pub executable : Bool

pub record SymlinkNode : Type 0 where
  pub name : Text
  pub mode : ℕ
  pub target : Text

pub record Directory : Type 0 where
  pub version : ℕ
  pub directories : List DirectoryNode
  pub files : List FileNode
  pub symlinks : List SymlinkNode

unfoldable pub is_bad_name : Text → Bool
is_bad_name name =
    is_empty name
    || (name == text "."
        || (name == text ".." || (contains name b'/' || (contains name b'\\' || contains name 0))))

-- The names with the new one.
unfoldable pub validate_entry : List Text → Text → ℕ → Result ApiError (List Text)
unfolding is_bad_name
validate_entry names name mode = do
  ensure (not (is_bad_name name || ltb 4095 mode)) (unprocessable (text "invalid directory entry"))
  ensure (not (contains names name)) (unprocessable (text "duplicate directory entry"))
  ok (name ∷ names)

unfoldable pub validate_directories : List Text → List DirectoryNode → Result ApiError (List Text)
unfolding validate_entry
validate_directories names [] = ok names
validate_directories names (node ∷ nodes) = do
  names' ← validate_entry names node.name node.mode
  validate_directories names' nodes

unfoldable pub validate_files : List Text → List FileNode → Result ApiError (List Text)
unfolding validate_entry
validate_files names [] = ok names
validate_files names (node ∷ nodes) = do
  names' ← validate_entry names node.name node.mode
  validate_files names' nodes

unfoldable pub validate_symlinks : List Text → List SymlinkNode → Result ApiError (List Text)
unfolding validate_entry
validate_symlinks names [] = ok names
validate_symlinks names (node ∷ nodes) = do
  names' ← validate_entry names node.name node.mode
  ensure (not (is_empty node.target || contains node.target 0))
      (unprocessable (text "invalid symlink target"))
  validate_symlinks names' nodes

unfoldable pub validate_directory_entries : Directory → Result ApiError (Unit {0})
unfolding validate_directories validate_files validate_symlinks
validate_directory_entries d = do
  names ← validate_directories [] d.directories
  names' ← validate_files names d.files
  names'' ← validate_symlinks names' d.symlinks
  ok tt

-- `root.starts_with('/')`
unfoldable pub is_absolute : Text → Bool
is_absolute [] = false
is_absolute (b ∷ bs) = b == b'/'

unfoldable pub validate_task_root : Text → Result ApiError (Unit {0})
unfolding is_absolute is_safe_component
validate_task_root root =
    if is_empty root
      || (is_absolute root
          || ((contains root b'\\' || contains root 0)
              || any (λ c. not (is_safe_component c)) (split b'/' root)))
    then err (unprocessable (text "task metadata root must be a safe relative path"))
    else ok tt
