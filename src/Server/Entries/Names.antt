-- ===== src/Server/Entries/Names.antt =====
-- What the validation of a directory object (src/server.rs) leaves.
use mr_boxington_cache.Prelude.{
  ℕ, ◌≡◌, refl, Bool, true, false, not, ◌||◌, List, [], ◌∷◌, ◌++◌, map, Result, ok, >>=-eq-ok,
  ensure, arith, ltb, is_empty,
}
use mr_boxington_cache.Prelude.Bytes.{Text, text}
use mr_boxington_cache.Prelude.Equality.{contains, nat_eq, list_eq}
use mr_boxington_cache.Server.Errors.{unprocessable}
use mr_boxington_cache.Server.Entries.{
  Directory, DirectoryNode, FileNode, SymlinkNode, is_bad_name, validate_entry,
  validate_directories, validate_files, validate_symlinks, validate_directory_entries,
}

-- Names that may stand in one directory beside the names `seen`.
pub AreEntries : List Text → List Text → Type 0
AreEntries seen [] = Unit
AreEntries seen (name ∷ names) =
    (is_bad_name name ≡ false) × (contains seen name ≡ false) × AreEntries (name ∷ seen) names

ensured : {E : Type 0} (b : Bool) (e : E) (u : Unit {0}) → ensure (not b) e ≡ ok u → b ≡ false
ensured false e u h = refl
ensured true e u h = absurd cc

ok_inj : {E A : Type 0} {a b : A} → ◌≡◌ {A = Result E A} (ok a) (ok b) → a ≡ b
ok_inj e = ground (arith, e)

entry_valid :
    (seen : List Text) (name : Text) (mode : ℕ) (seen' : List Text)
    → validate_entry seen name mode ≡ ok seen'
    → (is_bad_name name ≡ false) × (contains seen name ≡ false) × (name ∷ seen ≡ seen')
unfolding validate_entry
entry_valid seen name mode seen' e =
    let (u, h, e1) =
      >>=-eq-ok
        (ensure (not (is_bad_name name || ltb 4095 mode))
          (unprocessable (text "invalid directory entry")))
        _ e in
    let (u2, h2, e2) =
      >>=-eq-ok
        (ensure (not (contains seen name)) (unprocessable (text "duplicate directory entry"))) _
        e1 in
    (ground (arith, ensured _ _ u h), ensured _ _ u2 h2, ok_inj e2)

directories_valid :
    (seen seen' rest : List Text) (nodes : List DirectoryNode)
    → validate_directories seen nodes ≡ ok seen'
    → AreEntries seen' rest
    → AreEntries seen (map (λ n. n.name) nodes ++ rest)
unfolding validate_directories AreEntries
directories_valid seen seen' rest [] e more = rw (ok_inj e) more
directories_valid seen seen' rest (node ∷ nodes) e more =
    let (names, h, e1) = >>=-eq-ok (validate_entry seen node.name node.mode) _ e in
    let (good, fresh, is) = entry_valid seen node.name node.mode names h in
    (good, fresh, rw is (directories_valid names seen' rest nodes e1 more))

files_valid :
    (seen seen' rest : List Text) (nodes : List FileNode)
    → validate_files seen nodes ≡ ok seen'
    → AreEntries seen' rest
    → AreEntries seen (map (λ n. n.name) nodes ++ rest)
unfolding validate_files AreEntries
files_valid seen seen' rest [] e more = rw (ok_inj e) more
files_valid seen seen' rest (node ∷ nodes) e more =
    let (names, h, e1) = >>=-eq-ok (validate_entry seen node.name node.mode) _ e in
    let (good, fresh, is) = entry_valid seen node.name node.mode names h in
    (good, fresh, rw is (files_valid names seen' rest nodes e1 more))

symlinks_valid :
    (seen seen' : List Text) (nodes : List SymlinkNode)
    → validate_symlinks seen nodes ≡ ok seen'
    → AreEntries seen (map (λ n. n.name) nodes)
unfolding validate_symlinks AreEntries
symlinks_valid seen seen' [] e = tt
symlinks_valid seen seen' (node ∷ nodes) e =
    let (names, h, e1) = >>=-eq-ok (validate_entry seen node.name node.mode) _ e in
    let (u, h2, e2) =
      >>=-eq-ok
        (ensure (not (is_empty node.target || contains node.target 0))
          (unprocessable (text "invalid symlink target")))
        _ e1 in
    let (good, fresh, is) = entry_valid seen node.name node.mode names h in
    (good, fresh, rw is (symlinks_valid names seen' nodes e2))

abbrev pub entry_names : Directory → List Text
entry_names d =
    map (λ (n : DirectoryNode). n.name) d.directories
    ++ (map (λ (n : FileNode). n.name) d.files ++ map (λ (n : SymlinkNode). n.name) d.symlinks)

-- In a directory object that the service accepts, no name is empty, `.` or `..` or has a slash, a
-- backslash or a zero byte, and no two entries, of whatever kinds, have the same name.
pub validate_directory_entries-AreEntries :
    (d : Directory) → validate_directory_entries d ≡ ok tt → AreEntries [] (entry_names d)
unfolding validate_directory_entries
validate_directory_entries-AreEntries d e =
    let (names, h1, e1) = >>=-eq-ok (validate_directories [] d.directories) _ e in
    let (names', h2, e2) = >>=-eq-ok (validate_files names d.files) _ e1 in
    let (names'', h3, e3) = >>=-eq-ok (validate_symlinks names' d.symlinks) _ e2 in
    directories_valid [] names _ d.directories h1
      (files_valid names names' _ d.files h2 (symlinks_valid names' names'' d.symlinks h3))
