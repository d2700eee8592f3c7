-- ===== src/Server/Tree/Order.antt =====
-- What a walk that went well has found (`validate_tree` of src/server.rs).
use mr_boxington_cache.Prelude.{
  ℕ, zero, suc, ◌≤◌, ◌≡◌, refl, sym, ap, ◌∙◌, true, false, ◌||◌, List, [], ◌∷◌, Result, ok, err,
  ok_or, leb, nat_beq, length, arith,
}
use mr_boxington_cache.Prelude.Bytes.{Text}
use mr_boxington_cache.Prelude.Equality.{◌==◌, eq_iff, nat_eq, list_eq, contains}
use mr_boxington_cache.Protocol.{Digest, digest_eq}
use mr_boxington_cache.Server.Errors.{internal}
use mr_boxington_cache.Server.Digests.{map_err}
use mr_boxington_cache.Server.Entries.{validate_directory_entries}
use mr_boxington_cache.Server.Service.{AppState, Config}
use mr_boxington_cache.Server.Serde.{Serde}
use mr_boxington_cache.Server.Objects.{max_object_bytes}
use mr_boxington_cache.Server.ReadOnly.{
  IsReadOnly, Keeps, Keeps-pure, Keeps-lift, Keeps-require, Keeps-bind, Keeps-on_metadata,
  Keeps-fetch,
}
use mr_boxington_cache.Server.Tree.{
  Visit, exit, Walk, max_directories, start, read_directory, file_digests, walk, Ended, finished,
  validate_tree,
}
use mr_boxington_cache.Server.Tree.Walks.{
  IsWalk, IsWalk-start, Visited, skipped, entered, left_from, leave, visit-Visited, Visited-IsWalk,
}
use mr_boxington_cache.Server.Tree.Total.{
  every-Turn, done, refusal, turn, walk-turn, walk-refused, walk-done,
}
use mr_boxington_cache.Server.Tree.Frames.{
  Ordered, Frames, Within, children, Frames-Within, Frames-push_all, Covered-children,
}

module _ {M B S : Type 0} (c : Config M B S) (serde : Serde) (namespace : Text) where
  Keeps-read_directory :
      IsReadOnly c → (digest : Digest) → Keeps (read_directory c serde namespace digest)
  unfolding read_directory
  Keeps-read_directory only digest =
      Keeps-bind (Keeps-require (leb digest.size max_object_bytes) _) λ u.
        Keeps-bind (Keeps-fetch c only namespace digest _) λ bytes.
          Keeps-bind (Keeps-lift (ok_or (serde.directory_from_slice bytes) _)) λ directory.
            Keeps-bind (Keeps-lift (map_err internal (serde.directory_to_vec directory))) λ again.
              Keeps-bind (Keeps-require (again == bytes) _) λ u.
                Keeps-bind (Keeps-require (nat_beq directory.version 1) _) λ u.
                  Keeps-bind (Keeps-lift (validate_directory_entries directory)) λ u.
                    Keeps-bind (Keeps-lift (file_digests c serde namespace [] directory.files))
                      λ files.
                        Keeps-bind
                          (Keeps-on_metadata (c.store.visible_blobs namespace files)
                            (only.visible_blobs namespace files))
                          λ visible.
                            Keeps-bind (Keeps-require (nat_beq (length visible) (length files)) _)
                              λ u. Keeps-pure directory

  -- A visit that goes well keeps the stack's promise and the order of what has been seen.
  Visited-Ordered :
      (root : Digest) (v : Visit) (rest : List Visit) (w w' : Walk) (s s' : AppState M B S)
      → IsReadOnly c
      → w.pending ≡ v ∷ rest
      → Ordered c serde namespace s w.seen
      → Frames c serde namespace s root w.seen [] (v ∷ rest)
      → Visited c serde namespace w s rest w' s' v
      → (s ≡ s')
        × Ordered c serde namespace s w'.seen
        × Frames c serde namespace s root w'.seen [] w'.pending
  unfolding Frames Within children leave
  Visited-Ordered root _ rest w w' s s' only p o f (skipped d known same same_state) = rw same (
    same_state,
    o,
    Frames-Within c serde namespace s root rest w.seen (d ∷ []) w.seen [] (λ x h. h)
        (λ x h. ground (arith, eq_iff x d)) f,
  )
  Visited-Ordered root _ rest w w' s s' only p o f (left_from d same same_state) = rw same (
    same_state,
    (f.0, o),
    Frames-Within c serde namespace s root rest w.seen (d ∷ []) (d ∷ w.seen) []
        (λ x h. ground arith) (λ x h. ground arith) f.1,
  )
  Visited-Ordered root _ rest w w' s s' only p o f
        (entered d directory unseen unvisited room h same) =
      let same_state : s ≡ s' = (Keeps-read_directory only d).kept s s' directory h in
      rw same (
        same_state,
        o,
        Frames-push_all c serde namespace s root directory.directories (exit d ∷ rest) w.seen [] (
          (
            directory,
            h ∙ ap (λ t. (ok directory, t)) (sym same_state),
            Covered-children c serde namespace s directory.directories w.seen [],
          ),
          f,
        ),
      )

  unfoldable pub Proper : AppState M B S → Digest → List Digest → Type 0
  Proper s root seen =
      (contains seen root ≡ true)
      × (length seen ≤ max_directories)
      × Ordered c serde namespace s seen

  ended :
      (w : Walk) (seen : List Digest) (s s' : AppState M B S)
      → ◌≡◌ {A = Result Ended (List Digest) × AppState M B S} (ok w.seen, s) (ok seen, s')
      → (w.seen ≡ seen) × (s ≡ s')
  ended w seen s s' e = (cc (ap (λ r. r.0) e), ap (λ r. r.1) e)

  walk-Proper :
      (root : Digest) (fuel : ℕ) (w : Walk) (seen : List Digest) (s s' : AppState M B S)
      → IsReadOnly c
      → IsWalk w
      → Ordered c serde namespace s w.seen
      → Frames c serde namespace s root w.seen [] w.pending
      → walk c serde namespace fuel w s ≡ (ok seen, s')
      → (s ≡ s') × Proper s root seen
  unfolding walk Frames Proper
  walk-Proper root zero w seen s s' only is o f e = absurd cc
  walk-Proper root (suc fuel) w seen s s' only is o f e = elim (every-Turn c serde namespace w s) [
    | done p ↦
        let (same, same_state) =
          ended w seen s s' (sym (walk-done c serde namespace fuel w s p) ∙ e) in
        let last : (contains w.seen root || false) ≡ true = rw p at f in
        (same_state, rw (sym same) (ground arith, omega (arith, is.limited), o))
    | refusal v rest x s1 p h ↦
        absurd (cc (sym (walk-refused c serde namespace fuel v rest w s s1 x p h) ∙ e))
    | turn v rest w' s1 p h ↦
        let visited = visit-Visited c serde namespace v rest w w' s s1 p is h in
        let (is', advances) = Visited-IsWalk c serde namespace v rest w w' s s1 p is visited in
        let (same, o', f') = Visited-Ordered root v rest w w' s s1 only p o (rw p at f) visited in
        let one : walk c serde namespace fuel w' s1 ≡ (ok seen, s') =
          sym (walk-turn c serde namespace fuel v rest w w' s s1 p h) ∙ e in
        walk-Proper root fuel w' seen s s' only is' o' f' (rw (sym same) at one)
  ]

finished-eq-ok :
    (r : Result Ended (List Digest)) → finished r ≡ ok tt → (seen : List Digest) × (r ≡ ok seen)
unfolding finished
finished-eq-ok (ok seen) e = (seen, refl)
finished-eq-ok (err x) e = absurd cc

-- With stores whose lookups change nothing, a tree that `validate_tree` has accepted is well
-- founded. There is a list of at most 100,000 digests that holds the root, in which each digest
-- has, as it is stored, a directory that the checks accept and whose subdirectories all stand
-- further back in the list: no directory is reached from itself, and every one that is reached
-- from the root is valid. The state is as it was.
pub validate_tree-Ordered :
    {M B S : Type 0} (c : Config M B S) (serde : Serde) (namespace : Text) (fuel : ℕ)
    (root : Digest) (s s' : AppState M B S)
    → IsReadOnly c
    → validate_tree c serde namespace fuel root s ≡ (ok tt, s')
    → (s ≡ s') × ((seen : List Digest) × Proper c serde namespace s root seen)
unfolding validate_tree Frames
validate_tree-Ordered c serde namespace fuel root s s' only e =
    let (seen, h) =
      finished-eq-ok (walk c serde namespace fuel (start root) s).0 (ap (λ r. r.0) e) in
    let (same, proper) =
      walk-Proper c serde namespace root fuel (start root) seen s _ only (IsWalk-start root) tt
        (ground (arith, eq_iff root root))
        (ap (λ r. (r, (walk c serde namespace fuel (start root) s).1)) h) in
    (same ∙ ap (λ r. r.1) e, (seen, proper))
