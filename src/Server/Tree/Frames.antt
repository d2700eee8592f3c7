-- ===== src/Server/Tree/Frames.antt =====
-- What the stack of the walk over an output tree (src/server.rs) promises of the directories that
-- have been seen.
use mr_boxington_cache.Prelude.{◌≡◌, true, ◌||◌, List, [], ◌∷◌, ok, arith}
use mr_boxington_cache.Prelude.Bytes.{Text}
use mr_boxington_cache.Prelude.Equality.{eq_iff, nat_eq, list_eq, contains}
use mr_boxington_cache.Protocol.{Digest, digest_eq}
use mr_boxington_cache.Server.Entries.{Directory, DirectoryNode}
use mr_boxington_cache.Server.Service.{AppState, Config}
use mr_boxington_cache.Server.Serde.{Serde}
use mr_boxington_cache.Server.Tree.{Visit, enter, exit, push_all, read_directory}

module _ {M B S : Type 0} (c : Config M B S) (serde : Serde) (namespace : Text) where
  module _ (s : AppState M B S) where
    -- The children are among the two lists.
    abbrev pub Covered : List Digest → List Digest → List DirectoryNode → Type 0
    Covered seen above [] = Unit
    Covered seen above (node ∷ nodes) =
        ((contains seen node.digest || contains above node.digest) ≡ true)
        × Covered seen above nodes

    -- The directory that stands at a digest, with its children among the two lists.
    abbrev pub Expands : List Digest → List Digest → Digest → Type 0
    Expands seen above digest =
        (directory : Directory) × (read_directory c serde namespace digest s ≡ (ok directory, s))
        × Covered seen above directory.directories

    -- The children of each stand behind it.
    abbrev pub Ordered : List Digest → Type 0
    Ordered [] = Unit
    Ordered (digest ∷ digests) = Expands digests [] digest × Ordered digests

    -- What the stack promises: where a directory is left its children have been seen, and at the end
    -- the root has. `above` is what will have been seen since the last exit.
    unfoldable pub Frames : Digest → List Digest → List Digest → List Visit → Type 0
    Frames root seen above [] = (contains seen root || contains above root) ≡ true
    Frames root seen above (enter digest ∷ pending) = Frames root seen (digest ∷ above) pending
    Frames root seen above (exit digest ∷ pending) =
        Expands seen above digest × Frames root seen (digest ∷ []) pending

    -- The first pair of lists holds no more than the second.
    unfoldable pub Within : List Digest → List Digest → List Digest → List Digest → Type 0
    Within seen above seen' above' =
        (d : Digest)
        → (contains seen d || contains above d) ≡ true
        → (contains seen' d || contains above' d) ≡ true

    pub Within-add :
        (d : Digest) (seen above seen' above' : List Digest)
        → Within seen above seen' above'
        → Within seen (d ∷ above) seen' (d ∷ above')
    unfolding Within
    Within-add d seen above seen' above' h x e = ground (arith, h x)

    pub Within-only :
        (d : Digest) (seen above seen' above' : List Digest)
        → ((x : Digest) → contains seen x ≡ true → contains seen' x ≡ true)
        → Within seen (d ∷ []) seen' (d ∷ [])
    unfolding Within
    Within-only d seen above seen' above' h x e = ground (arith, h x)

    pub Within-more : (d : Digest) (seen above : List Digest) → Within seen above seen (d ∷ above)
    unfolding Within
    Within-more d seen above x e = ground arith

    Covered-Within :
        (seen above seen' above' : List Digest) (nodes : List DirectoryNode)
        → Within seen above seen' above'
        → Covered seen above nodes
        → Covered seen' above' nodes
    unfolding Within
    Covered-Within seen above seen' above' [] h known = tt
    Covered-Within seen above seen' above' (node ∷ nodes) h (here, there) =
        (h node.digest here, Covered-Within seen above seen' above' nodes h there)

    pub Frames-Within :
        (root : Digest) (pending : List Visit) (seen above seen' above' : List Digest)
        → ((x : Digest) → contains seen x ≡ true → contains seen' x ≡ true)
        → Within seen above seen' above'
        → Frames root seen above pending
        → Frames root seen' above' pending
    unfolding Frames Within
    Frames-Within root [] seen above seen' above' more h f = h root f
    Frames-Within root (enter d ∷ pending) seen above seen' above' more h f =
        Frames-Within root pending seen (d ∷ above) seen' (d ∷ above') more
          (Within-add d seen above seen' above' h) f
    Frames-Within root (exit d ∷ pending) seen above seen' above' more h ((dir, read, known), f) = (
      (dir, read, Covered-Within seen above seen' above' dir.directories h known),
      Frames-Within root pending seen (d ∷ []) seen' (d ∷ []) more
          (Within-only d seen above seen' above' more) f,
    )

    -- The digests of the children above what there was.
    unfoldable pub children : List DirectoryNode → List Digest → List Digest
    children [] above = above
    children (node ∷ nodes) above = node.digest ∷ children nodes above

    pub Frames-push_all :
        (root : Digest) (nodes : List DirectoryNode) (pending : List Visit)
        (seen above : List Digest)
        → Frames root seen (children nodes above) pending
        → Frames root seen above (push_all nodes pending)
    unfolding Frames push_all children
    Frames-push_all root [] pending seen above f = f
    Frames-push_all root (node ∷ nodes) pending seen above f =
        Frames-push_all root nodes (enter node.digest ∷ pending) seen above f

    pub Covered-children :
        (nodes : List DirectoryNode) (seen above : List Digest)
        → Covered seen (children nodes above) nodes
    unfolding children
    Covered-children [] seen above = tt
    Covered-children (node ∷ nodes) seen above = (
      ground (arith, eq_iff node.digest node.digest),
      Covered-Within seen (children nodes above) seen (node.digest ∷ children nodes above) nodes
          (Within-more node.digest seen (children nodes above)) (Covered-children nodes seen above),
    )
