-- ===== src/Metadata/Memory/Recommit.antt =====
-- What `MemoryMetadata` (src/metadata/memory.rs) answers to a commit of an action that has a result.
use mr_boxington_cache.Prelude.{
  ℕ, ◌≡◌, ◌≢◌, ◌⊎◌, sym, ap, Bool-cases, ok_inj, err_not_ok, ◌∙◌, List, some, ok, if◌then◌else◌,
  inl, inr, Result-cases,
}
use mr_boxington_cache.Prelude.Bytes.{Text}
use mr_boxington_cache.Prelude.Equality.{◌==◌, nat_eq, list_eq, eq_iff}
use mr_boxington_cache.Prelude.Maps
use mr_boxington_cache.Prelude.Maps.{lookup-insert}
use mr_boxington_cache.Protocol.{Digest, digest_eq, key_eq}
use mr_boxington_cache.Metadata.{ActionResult, CommitOutcome}
use mr_boxington_cache.Metadata.Memory.{Json, IsJson, MemoryMetadata, commit, commit_encoded}
use mr_boxington_cache.Metadata.Memory.Laws.{Op, run, entry, entry-run, commit-entry}

commit-to_vec :
    (j : Json) (n : Text) (a : Digest) (r : ActionResult) (m : MemoryMetadata)
    (outcome : CommitOutcome)
    → (commit j n a r m).0 ≡ ok outcome
    → (bytes : List ℕ) × (j.to_vec r ≡ ok bytes)
unfolding commit
commit-to_vec j n a r m outcome e = elim (Result-cases (j.to_vec r)) [
  | inr (x, t) ↦ absurd (err_not_ok (rw (t, commit_encoded) at e))
  | inl (bytes, t) ↦ (bytes, t)
]

commit_again :
    (j : Json) (n : Text) (a : Digest) (r : ActionResult) (m : MemoryMetadata)
    (stored encoded : List ℕ)
    → Maps.lookup (n, a) m.entries ≡ some stored
    → j.to_vec r ≡ ok encoded
    → commit j n a r m ≡ (
        if stored == encoded
        then (ok CommitOutcome.already_exists, m)
        else (ok CommitOutcome.conflict, m))
unfolding commit commit_encoded
commit_again j n a r m stored encoded there t = rw (t, commit_encoded, there)

-- One result has one encoding, and two results have two.
to_vec-inj :
    (j : Json)
    → IsJson j
    → (r r' : ActionResult) (bytes : List ℕ) → j.to_vec r ≡ ok bytes
    → j.to_vec r' ≡ ok bytes
    → r' ≡ r
to_vec-inj j laws r r' bytes t t' = ok_inj (sym (laws.from-to r' bytes t') ∙ laws.from-to r bytes t)

-- A commit where a result is stored, once both are encoded.
commit-stored :
    (j : Json)
    → IsJson j
    → (n : Text) (a : Digest) (r r' : ActionResult) (m : MemoryMetadata) (bytes encoded : List ℕ)
      (outcome : CommitOutcome)
    → j.to_vec r ≡ ok bytes
    → entry m (n, a) ≡ some bytes
    → j.to_vec r' ≡ ok encoded
    → (commit j n a r' m).0 ≡ ok outcome
    → ((commit j n a r' m).1 ≡ m)
      × (((r' ≡ r) × (outcome ≡ CommitOutcome.already_exists))
          ⊎ ((r' ≢ r) × (outcome ≡ CommitOutcome.conflict)))
commit-stored j laws n a r r' m bytes encoded outcome t there t' e =
    let again = commit_again j n a r' m bytes encoded there t' in
    elim (Bool-cases (bytes == encoded)) [
      | inl same ↦
          let found : commit j n a r' m ≡ (ok CommitOutcome.already_exists, m) = again ∙ rw same in
          let equal = (eq_iff bytes encoded).0 same in
          (
            ap (λ p. p.1) found,
            inl (
              to_vec-inj j laws r r' bytes t (t' ∙ ap ok (sym equal)),
              ok_inj (sym e ∙ ap (λ p. p.0) found),
            ),
          )
      | inr differs ↦
          let found : commit j n a r' m ≡ (ok CommitOutcome.conflict, m) = again ∙ rw differs in
          (
            ap (λ p. p.1) found,
            inr (
              λ is. absurd (
                  cc (
                    differs,
                    (eq_iff bytes encoded).1 (ok_inj (sym t ∙ ap j.to_vec (sym is) ∙ t')),
                  )),
              ok_inj (sym e ∙ ap (λ p. p.0) found),
            ),
          )
    ]

-- Where an encoded result is read back as itself, and a commit of an action has created its result
-- or found it there, every later commit of that action that answers writes nothing, whatever the
-- store is asked to do in between: it answers `already_exists` where its result is the stored one,
-- and `conflict` where it is another.
pub commit-run-commit :
    (j : Json)
    → IsJson j
    → (n : Text) (a : Digest) (r r' : ActionResult) (m : MemoryMetadata)
      (outcome outcome' : CommitOutcome) (ops : List Op)
    → (commit j n a r m).0 ≡ ok outcome
    → outcome ≢ CommitOutcome.conflict
    → (commit j n a r' (run j ops (commit j n a r m).1)).0 ≡ ok outcome'
    → ((commit j n a r' (run j ops (commit j n a r m).1)).1 ≡ run j ops (commit j n a r m).1)
      × (((r' ≡ r) × (outcome' ≡ CommitOutcome.already_exists))
          ⊎ ((r' ≢ r) × (outcome' ≡ CommitOutcome.conflict)))
commit-run-commit j laws n a r r' m outcome outcome' ops e fine e' =
    let (bytes, t, stored) = commit-entry j n a r m outcome e fine in
    let kept = entry-run j ops (commit j n a r m).1 (n, a) bytes stored in
    let (encoded, t') = commit-to_vec j n a r' (run j ops (commit j n a r m).1) outcome' e' in
    commit-stored j laws n a r r' (run j ops (commit j n a r m).1) bytes encoded outcome' t kept t'
      e'
