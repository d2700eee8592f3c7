-- ===== src/Server/Tree/Total.antt =====
-- The loop of `validate_tree` (src/server.rs) ends: each turn meets a directory, or makes the stack
-- shorter, and at most `max_directories` directories are met.
use mr_boxington_cache.Prelude.{
  ℕ, zero, suc, ◌+◌, ◌≤◌, ◌≡◌, refl, sym, ap, subst, ◌∙◌, List, [], ◌∷◌, Result, ok, err, length,
  arith, inl, inr, Result-cases,
}
use mr_boxington_cache.Prelude.Bytes.{Text}
use mr_boxington_cache.Protocol.{Digest}
use mr_boxington_cache.Server.Errors.{ApiError}
use mr_boxington_cache.Server.Service.{AppState, Config}
use mr_boxington_cache.Server.Serde.{Serde}
use mr_boxington_cache.Server.Tree.{
  Visit, Walk, max_directories, start, visit, Ended, out_of_fuel, refused, walk, finished,
  validate_tree,
}
use mr_boxington_cache.Server.Tree.Walks.{
  IsWalk, IsWalk-start, met, Advances, visit-Visited, Visited-IsWalk,
}

-- Neither a verdict on the fuel nor an accident: the walk has answered.
abbrev pub Answered : {A : Type 0} → Result Ended A → Type 0
Answered (ok a) = Unit
Answered (err (refused e)) = Unit
Answered (err out_of_fuel) = ⊥

finished-Answered : (r : Result Ended (List Digest)) → Answered r → Answered (finished r)
unfolding finished
finished-Answered (ok seen) h = tt
finished-Answered (err (refused e)) h = tt
finished-Answered (err out_of_fuel) h = h

module _ {M B S : Type 0} (c : Config M B S) (serde : Serde) (namespace : Text) where
  abbrev pub Answers : ℕ → Walk → AppState M B S → Type 0
  Answers fuel w s = Answered (walk c serde namespace fuel w s).0

  pub walk-turn :
      (fuel : ℕ) (v : Visit) (rest : List Visit) (w w' : Walk) (s s' : AppState M B S)
      → w.pending ≡ v ∷ rest
      → visit c serde namespace v rest w s ≡ (ok w', s')
      → walk c serde namespace (suc fuel) w s ≡ walk c serde namespace fuel w' s'
  unfolding walk
  walk-turn fuel v rest w w' s s' p e = rw (walk, p, ap (λ r. r.0) e, ap (λ r. r.1) e)

  pub walk-refused :
      (fuel : ℕ) (v : Visit) (rest : List Visit) (w : Walk) (s s' : AppState M B S) (x : ApiError)
      → w.pending ≡ v ∷ rest
      → visit c serde namespace v rest w s ≡ (err x, s')
      → walk c serde namespace (suc fuel) w s ≡ (err (refused x), s')
  unfolding walk
  walk-refused fuel v rest w s s' x p e = rw (walk, p, ap (λ r. r.0) e, ap (λ r. r.1) e)

  pub walk-done :
      (fuel : ℕ) (w : Walk) (s : AppState M B S)
      → w.pending ≡ []
      → walk c serde namespace (suc fuel) w s ≡ (ok w.seen, s)
  unfolding walk
  walk-done fuel w s p = rw (walk, p)

  -- What the top of the stack can do.
  pub data Turn (w : Walk) (s : AppState M B S) : Type 0 where
    done : w.pending ≡ [] → Turn w s
    refusal :
        (v : Visit) (rest : List Visit) (x : ApiError) (s' : AppState M B S)
        → w.pending ≡ v ∷ rest
        → visit c serde namespace v rest w s ≡ (err x, s')
        → Turn w s
    turn :
        (v : Visit) (rest : List Visit) (w' : Walk) (s' : AppState M B S)
        → w.pending ≡ v ∷ rest
        → visit c serde namespace v rest w s ≡ (ok w', s')
        → Turn w s

  visit-Turn :
      (v : Visit) (rest : List Visit) (w : Walk) (s : AppState M B S)
      → w.pending ≡ v ∷ rest
      → Turn w s
  visit-Turn v rest w s p = elim (Result-cases (visit c serde namespace v rest w s).0) [
    | inl (w', e) ↦ turn v rest w' _ p (ap (λ r. (r, (visit c serde namespace v rest w s).1)) e)
    | inr (x, e) ↦ refusal v rest x _ p (ap (λ r. (r, (visit c serde namespace v rest w s).1)) e)
  ]

  pending-Turn :
      (pending : List Visit) (w : Walk) (s : AppState M B S) → w.pending ≡ pending → Turn w s
  pending-Turn [] w s p = done p
  pending-Turn (v ∷ rest) w s p = visit-Turn v rest w s p

  pub every-Turn : (w : Walk) (s : AppState M B S) → Turn w s
  every-Turn w s = pending-Turn w.pending w s refl

  -- More fuel changes nothing once there is enough.
  pub walk-more :
      (fuel more : ℕ) (w : Walk) (s : AppState M B S)
      → Answers fuel w s
      → walk c serde namespace (fuel + more) w s ≡ walk c serde namespace fuel w s
  unfolding walk
  walk-more zero more w s h = absurd h
  walk-more (suc fuel) more w s h =
      let step : suc fuel + more ≡ suc (fuel + more) = omega arith in
      rw step (elim (every-Turn w s) [
        | done p ↦ walk-done (fuel + more) w s p ∙ sym (walk-done fuel w s p)
        | refusal v rest x s' p e ↦
            walk-refused (fuel + more) v rest w s s' x p e
            ∙ sym (walk-refused fuel v rest w s s' x p e)
        | turn v rest w' s' p e ↦
            let one = walk-turn fuel v rest w w' s s' p e in
            walk-turn (fuel + more) v rest w w' s s' p e
            ∙ walk-more fuel more w' s' (subst (λ r. Answered r.0) one h)
            ∙ sym one
      ])

  abbrev pub Enough : Walk → AppState M B S → Type 0
  Enough w s = (fuel : ℕ) × Answers fuel w s

  -- A walk has fuel when every walk that it advances to has.
  turn-Enough :
      (w : Walk) (s : AppState M B S)
      → IsWalk w
      → ((v : Visit) (rest : List Visit) (w' : Walk) (s' : AppState M B S)
          → w.pending ≡ v ∷ rest
          → IsWalk w'
          → Advances w rest w'
          → Enough w' s')
      → Enough w s
  turn-Enough w s is next = elim (every-Turn w s) [
    | done p ↦ (1, subst (λ r. Answered r.0) (sym (walk-done 0 w s p)) tt)
    | refusal v rest x s' p e ↦
        (1, subst (λ r. Answered r.0) (sym (walk-refused 0 v rest w s s' x p e)) tt)
    | turn v rest w' s' p e ↦
        let (is', advances) =
          Visited-IsWalk c serde namespace v rest w w' s s' p is
            (visit-Visited c serde namespace v rest w w' s s' p is e) in
        let (fuel, h) = next v rest w' s' p is' advances in
        (suc fuel, subst (λ r. Answered r.0) (sym (walk-turn fuel v rest w w' s s' p e)) h)
  ]

  -- With at most `n` directories to meet and `k` visits on the stack.
  enough :
      (n k : ℕ) (w : Walk) (s : AppState M B S)
      → IsWalk w
      → max_directories ≤ met w + n
      → length w.pending ≤ k
      → Enough w s
  unfolding Advances
  enough n zero w s is room short = turn-Enough w s is λ v rest w' s' p is' advances.
      absurd (omega (arith, short, ap (λ (l : List Visit). length l) p))
  enough zero (suc k) w s is room short = turn-Enough w s is λ v rest w' s' p is' advances.
      elim advances [
        | inl more ↦ absurd (omega (arith, room, more, is'.limited))
        | inr (same, popped) ↦ enough zero k w' s' is' (omega (arith, room, same)) (
            omega (
              arith,
              short,
              ap (λ (l : List Visit). length l) p,
              ap (λ (l : List Visit). length l) popped,
            ))
      ]
  enough (suc n) (suc k) w s is room short = turn-Enough w s is λ v rest w' s' p is' advances.
      elim advances [
        | inl more ↦
            enough n (length w'.pending) w' s' is' (omega (arith, room, more)) (omega arith)
        | inr (same, popped) ↦ enough (suc n) k w' s' is' (omega (arith, room, same)) (
            omega (
              arith,
              short,
              ap (λ (l : List Visit). length l) p,
              ap (λ (l : List Visit). length l) popped,
            ))
      ]

-- `validate_tree` ends on every object store, whatever the directories refer to: some amount of
-- fuel leads to an answer that is not for want of fuel, and any more leads to the same answer and
-- the same state.
pub validate_tree-total :
    {M B S : Type 0} (c : Config M B S) (serde : Serde) (namespace : Text) (root : Digest)
    (s : AppState M B S)
    → (fuel : ℕ) × Answered (validate_tree c serde namespace fuel root s).0
      × ((more : ℕ)
          → validate_tree c serde namespace (fuel + more) root s
            ≡ validate_tree c serde namespace fuel root s)
unfolding validate_tree
validate_tree-total c serde namespace root s =
    let (fuel, h) =
      enough c serde namespace max_directories 1 (start root) s (IsWalk-start root) (omega arith)
        (omega arith) in
    (
      fuel,
      finished-Answered (walk c serde namespace fuel (start root) s).0 h,
      λ more.
          ap (λ r. (finished r.0, r.1)) (walk-more c serde namespace fuel more (start root) s h),
    )
