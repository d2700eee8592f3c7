-- ===== src/Server/Tree/Walks.antt =====
-- The stack of the walk over an output tree (src/server.rs): the directories that are being
-- visited are the exits on the stack.
use mr_boxington_cache.Prelude.{
  ℕ, suc, ◌+◌, ◌≤◌, ◌≡◌, refl, sym, ap, ◌∙◌, true, false, not, List, [], ◌∷◌, ok, length, leb,
  leb→le, arith, ◌⊎◌, Bool-cases, inl, inr,
}
use mr_boxington_cache.Prelude.Bytes.{Text, text}
use mr_boxington_cache.Prelude.Equality.{eq_iff, eq_refl, contains, insert, remove}
use mr_boxington_cache.Protocol.{Digest, digest_eq}
use mr_boxington_cache.Server.Errors.{unprocessable}
use mr_boxington_cache.Server.Entries.{Directory, DirectoryNode}
use mr_boxington_cache.Server.Service.{AppState, Config}
use mr_boxington_cache.Server.Serde.{Serde}
use mr_boxington_cache.Server.Handler.{continue-eq-ok, require-then, pure-eq-ok}
use mr_boxington_cache.Server.Tree.{
  Visit, enter, exit, Walk, max_directories, push_all, start, read_directory, enter_new, visit,
}

abbrev pub exits : List Visit → List Digest
exits [] = []
exits (enter d ∷ pending) = exits pending
exits (exit d ∷ pending) = d ∷ exits pending

-- The directories are different from each other and from those of `seen`.
abbrev pub Fresh : List Digest → List Digest → Type 0
Fresh seen [] = Unit
Fresh seen (d ∷ ds) = (contains seen d ≡ false) × (contains ds d ≡ false) × Fresh seen ds

pub record IsWalk (w : Walk) : Type 0 where
  pub open_exits : w.visiting ≡ exits w.pending
  pub fresh : Fresh w.seen w.visiting
  pub limited : length w.seen + length w.visiting ≤ max_directories

exits-push_all :
    (nodes : List DirectoryNode) (pending : List Visit)
    → exits (push_all nodes pending) ≡ exits pending
unfolding push_all
exits-push_all [] pending = refl
exits-push_all (node ∷ nodes) pending = exits-push_all nodes (enter node.digest ∷ pending)

-- What comes behind the head of the directories being visited stays fresh when the head is seen.
Fresh-seen :
    (d : Digest) (seen ds : List Digest)
    → contains ds d ≡ false
    → Fresh seen ds
    → Fresh (d ∷ seen) ds
Fresh-seen d seen [] new f = tt
Fresh-seen d seen (x ∷ ds) new f =
    (ground (arith, f.0, eq_iff d x, eq_iff x d), f.1, Fresh-seen d seen ds (ground arith) f.2)

remove-absent : (d : Digest) (ds : List Digest) → contains ds d ≡ false → remove ds d ≡ ds
remove-absent d [] new = refl
remove-absent d (x ∷ ds) new = ground (arith, remove-absent d ds, eq_iff d x)

remove-head : (d : Digest) (ds : List Digest) → contains ds d ≡ false → remove (d ∷ ds) d ≡ ds
remove-head d ds new = rw (eq_refl d) (remove-absent d ds new)

pub IsWalk-start : (root : Digest) → IsWalk (start root)
IsWalk-start root = record { open_exits = refl; fresh = tt; limited = omega arith }

-- The directories that the walk has met.
abbrev pub met : Walk → ℕ
met w = length w.seen + length w.visiting

-- The walk after a visit that went well: it has met one more, or has one visit less to make.
unfoldable pub Advances : Walk → List Visit → Walk → Type 0
Advances w rest w' = (met w' ≡ suc (met w)) ⊎ ((met w' ≡ met w) × (w'.pending ≡ rest))

exited :
    (d : Digest) (rest : List Visit) (w : Walk)
    → w.pending ≡ exit d ∷ rest
    → IsWalk w
    → (w.visiting ≡ d ∷ exits rest)
      × (contains w.seen d ≡ false)
      × (contains (exits rest) d ≡ false)
      × Fresh w.seen (exits rest)
exited d rest w e is =
    let shape : w.visiting ≡ d ∷ exits rest = is.open_exits ∙ ap exits e in
    let f = rw shape at is.fresh in (shape, f.0, f.1, f.2)

pub left :
    (d : Digest) (rest : List Visit) (w : Walk)
    → w.pending ≡ exit d ∷ rest
    → IsWalk w
    → (remove w.visiting d ≡ exits rest) × ((insert w.seen d).1 ≡ d ∷ w.seen)
left d rest w e is =
    let (shape, unseen, unvisited, f) = exited d rest w e is in
    (rw shape (remove-head d (exits rest) unvisited), rw unseen)

unfoldable pub leave : Digest → List Visit → Walk → Walk
leave d rest w = record { pending = rest; visiting = exits rest; seen = d ∷ w.seen }

IsWalk-leave :
    (d : Digest) (rest : List Visit) (w : Walk)
    → w.pending ≡ exit d ∷ rest
    → IsWalk w
    → IsWalk (leave d rest w) × Advances w rest (leave d rest w)
unfolding leave Advances
IsWalk-leave d rest w e is =
    let (shape, unseen, unvisited, f) = exited d rest w e is in
    let sizes = ap (λ (l : List Digest). length l) shape in
    (
      record {
        open_exits = refl;
        fresh = Fresh-seen d w.seen (exits rest) unvisited f;
        limited = omega (arith, is.limited, sizes);
      },
      inr (omega (arith, sizes), refl),
    )

module _ {M B S : Type 0} (c : Config M B S) (serde : Serde) (namespace : Text) where
  -- The visits that go well, one by one.
  pub data Visited (w : Walk) (s : AppState M B S) (rest : List Visit) (w' : Walk)
      (s' : AppState M B S) : Visit → Type 0 where
    skipped :
        (d : Digest)
        → contains w.seen d ≡ true
        → w' ≡ record w { pending = rest }
        → s ≡ s'
        → Visited w s rest w' s' (enter d)
    entered :
        (d : Digest) (directory : Directory)
        → contains w.seen d ≡ false
        → contains w.visiting d ≡ false
        → length w.seen + suc (length w.visiting) ≤ max_directories
        → read_directory c serde namespace d s ≡ (ok directory, s')
        → w' ≡ record {
          pending = push_all directory.directories (exit d ∷ rest);
          visiting = d ∷ w.visiting;
          seen = w.seen;
        }
        → Visited w s rest w' s' (enter d)
    left_from : (d : Digest) → w' ≡ leave d rest w → s ≡ s' → Visited w s rest w' s' (exit d)

  enter_new-Visited :
      (d : Digest) (rest : List Visit) (w w' : Walk) (s s' : AppState M B S)
      → contains w.seen d ≡ false
      → enter_new c serde namespace d rest w s ≡ (ok w', s')
      → Visited w s rest w' s' (enter d)
  unfolding enter_new
  enter_new-Visited d rest w w' s s' unseen e =
      let (unvisited, e1) =
        require-then (not (contains w.visiting d))
          (unprocessable (text "directory graph contains a cycle")) _ s e in
      let (room, e2) =
        require-then (leb (length w.seen + suc (length w.visiting)) max_directories)
          (unprocessable (text "directory graph is too large")) _ s e1 in
      let (directory, s1, h, e3) = continue-eq-ok _ (read_directory c serde namespace d s) e2 in
      let (same, same_state) = pure-eq-ok e3 in
      entered d directory unseen (ground arith) (leb→le _ _ room) (h ∙ rw same_state) (sym same)

  pub visit-Visited :
      (v : Visit) (rest : List Visit) (w w' : Walk) (s s' : AppState M B S)
      → w.pending ≡ v ∷ rest
      → IsWalk w
      → visit c serde namespace v rest w s ≡ (ok w', s')
      → Visited w s rest w' s' v
  unfolding visit leave
  visit-Visited (exit d) rest w w' s s' p is e =
      let (gone, added) = left d rest w p is in
      let (same, same_state) = pure-eq-ok e in left_from d (sym same ∙ rw (gone, added)) same_state
  visit-Visited (enter d) rest w w' s s' p is e = elim (Bool-cases (contains w.seen d)) [
    | inl known ↦
        let (same, same_state) = pure-eq-ok (rw known at e) in skipped d known (sym same) same_state
    | inr new ↦ enter_new-Visited d rest w w' s s' new (rw new at e)
  ]

  pub Visited-IsWalk :
      (v : Visit) (rest : List Visit) (w w' : Walk) (s s' : AppState M B S)
      → w.pending ≡ v ∷ rest
      → IsWalk w
      → Visited w s rest w' s' v
      → IsWalk w' × Advances w rest w'
  unfolding Advances
  Visited-IsWalk _ rest w w' s s' p is (skipped d known same same_state) = rw same (
    record { open_exits = is.open_exits ∙ ap exits p; fresh = is.fresh; limited = is.limited },
    inr (refl, refl),
  )
  Visited-IsWalk _ rest w w' s s' p is (left_from d same same_state) =
      rw same (IsWalk-leave d rest w p is)
  Visited-IsWalk _ rest w w' s s' p is (entered d directory unseen unvisited room h same) =
      rw same (
        record {
          open_exits =
              ap (λ l. d ∷ l) (is.open_exits ∙ ap exits p)
              ∙ sym (exits-push_all directory.directories (exit d ∷ rest));
          fresh = (unseen, unvisited, is.fresh);
          limited = room;
        },
        inl (omega arith),
      )
