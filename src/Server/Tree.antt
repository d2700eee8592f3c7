-- ===== src/Server/Tree.antt =====
-- The walk over an output tree: `validate_tree` of src/server.rs. It is a depth-first search with
-- its stack written out; a directory is entered, its children are pushed above its exit.
pub mod Walks
pub mod Total
pub mod Frames
pub mod Order
use mr_boxington_cache.Prelude.{
  ℕ, zero, suc, ◌+◌, Bool, true, false, not, List, [], ◌∷◌, ◌++◌, Option, none, some, Result, ok,
  err, ok_or, leb, nat_beq, length, if◌then◌else◌,
}
use mr_boxington_cache.Prelude.Bytes.{Text, text}
use mr_boxington_cache.Prelude.Equality.{◌==◌, nat_eq, list_eq, contains, insert, remove}
use mr_boxington_cache.Protocol.{Digest, digest_eq}
use mr_boxington_cache.Server.Errors.{ApiError, internal, unprocessable}
use mr_boxington_cache.Server.Digests.{map_err, validate_digest}
use mr_boxington_cache.Server.Entries.{
  Directory, DirectoryNode, FileNode, validate_directory_entries,
}
use mr_boxington_cache.Server.Service.{AppState, Config}
use mr_boxington_cache.Server.Serde.{Serde}
use mr_boxington_cache.Server.Objects.{max_object_bytes, fetch}
use mr_boxington_cache.Server.Handler.{Handler, pure, fail, lift, require, on_metadata, ◌>>=◌, ◌>>◌}

pub data Visit : Type 0 where
  enter exit : Digest → Visit

-- The stack, its top first, and the two sets.
pub record Walk : Type 0 where
  pub pending : List Visit
  pub visiting : List Digest
  pub seen : List Digest

abbrev pub max_directories : ℕ
max_directories = 100000

-- `pending.extend(..)`: the last child ends on the top.
unfoldable pub push_all : List DirectoryNode → List Visit → List Visit
push_all [] pending = pending
push_all (node ∷ nodes) pending = push_all nodes (enter node.digest ∷ pending)

abbrev pub start : Digest → Walk
start root = record { pending = enter root ∷ []; visiting = []; seen = [] }

-- Why the walk has ended.
pub data Ended : Type 0 where
  refused : ApiError → Ended
  out_of_fuel : Ended

module _ {M B S : Type 0} (c : Config M B S) (serde : Serde) (namespace : Text) where
  -- The set of the digests of a directory's files, each of which is valid.
  unfoldable pub file_digests : List Digest → List FileNode → Result ApiError (List Digest)
  unfolding validate_digest
  file_digests files [] = ok files
  file_digests files (file ∷ rest) = elim (validate_digest c.protocol file.digest) [
    | err e ↦ err e
    | ok _ ↦ file_digests (insert files file.digest).1 rest
  ]

  -- What a directory must be: not too large, visible, held, canonical, of version 1, with entries
  -- that may stand together and files that are visible.
  unfoldable pub read_directory : Digest → Handler (AppState M B S) Directory
  unfolding fetch validate_directory_entries file_digests
  read_directory digest = do
    require (leb digest.size max_object_bytes)
        (unprocessable (text "directory object is too large"))
    bytes ← fetch c namespace digest (unprocessable (text "directory object is missing"))
    directory ← lift (
        ok_or (serde.directory_from_slice bytes)
          (unprocessable (text "directory object is invalid")))
    again ← lift (map_err internal (serde.directory_to_vec directory))
    require (again == bytes) (unprocessable (text "directory object is not canonical JSON"))
    require (nat_beq directory.version 1)
        (unprocessable (text "unsupported directory object version"))
    lift (validate_directory_entries directory)
    files ← lift (file_digests [] directory.files)
    visible ← on_metadata (c.store.visible_blobs namespace files)
    require (nat_beq (length visible) (length files)) (unprocessable (text "file blob is missing"))
    pure directory

  -- A directory that the walk has not met.
  unfoldable pub enter_new : Digest → List Visit → Walk → Handler (AppState M B S) Walk
  unfolding read_directory push_all
  enter_new digest rest w = do
    require (not (contains w.visiting digest))
        (unprocessable (text "directory graph contains a cycle"))
    require (leb (length w.seen + suc (length w.visiting)) max_directories)
        (unprocessable (text "directory graph is too large"))
    directory ← read_directory digest
    pure (record {
      pending = push_all directory.directories (exit digest ∷ rest);
      visiting = digest ∷ w.visiting;
      seen = w.seen;
    })

  -- One turn of the loop, for the visit on the top of the stack.
  unfoldable pub visit : Visit → List Visit → Walk → Handler (AppState M B S) Walk
  unfolding enter_new
  visit (exit digest) rest w = pure (record {
    pending = rest;
    visiting = remove w.visiting digest;
    seen = (insert w.seen digest).1;
  })
  visit (enter digest) rest w =
      if contains w.seen digest then pure (record w { pending = rest }) else enter_new digest rest w

  -- The loop on fuel; it answers with the directories it has seen.
  unfoldable pub walk : ℕ → Walk → AppState M B S → Result Ended (List Digest) × AppState M B S
  walk zero w s = (err out_of_fuel, s)
  walk (suc fuel) w s = elim w.pending [
    | [] ↦ (ok w.seen, s)
    | v ∷ rest ↦ elim (visit v rest w s).0 [
      | err e ↦ (err (refused e), (visit v rest w s).1)
      | ok w' ↦ walk fuel w' (visit v rest w s).1
    ]
  ]

-- `Ok(())`
unfoldable pub finished : Result Ended (List Digest) → Result Ended (Unit {0})
finished (ok seen) = ok tt
finished (err e) = err e

unfoldable pub validate_tree :
    {M B S : Type 0}
    → Config M B S
    → Serde
    → Text
    → ℕ
    → Digest
    → AppState M B S
    → Result Ended (Unit {0}) × AppState M B S
unfolding walk finished
validate_tree c serde namespace fuel root s =
    let (r, s') = walk c serde namespace fuel (start root) s in (finished r, s')
