-- ===== src/Tests/Metadata.antt =====
-- The store in memory (src/metadata/memory.rs), with a simple encoding of action results: each
-- text with its length before it.
use mr_boxington_cache.Prelude.{
  ℕ, zero, suc, ◌≡◌, ◌≢◌, ◌⊎◌, refl, sym, ap, ◌∙◌, List, [], ◌∷◌, ◌++◌, Option, none, some, Result,
  ok, err, length, take, drop, take-append, drop-append, arith,
}
use mr_boxington_cache.Prelude.Bytes.{Text, text}
use mr_boxington_cache.Prelude.Equality.{nat_eq, list_eq}
use mr_boxington_cache.Prelude.Maps
use mr_boxington_cache.Protocol.{Digest, key_eq}
use mr_boxington_cache.Server.Errors.{Fault, fault}
use mr_boxington_cache.Metadata.{ActionResult, Manifest, CommitOutcome, ManifestCommitOutcome}
use mr_boxington_cache.Metadata.Memory as Memory
use mr_boxington_cache.Metadata.Memory.{
  Json, IsJson, MemoryMetadata, empty, get, commit, get_manifest, commit_manifest,
}
use mr_boxington_cache.Metadata.Memory.Recommit.{commit-run-commit}
use mr_boxington_cache.Metadata.Memory.Laws.{
  Op, apply, forget, put_result, run, get-run-commit, commit_manifest-commit_manifest,
}

abbrev enc_digest : Digest → List ℕ → List ℕ
enc_digest d rest =
    d.size ∷ length d.algorithm ∷ (d.algorithm ++ (length d.hash ∷ (d.hash ++ rest)))

abbrev dec_hash : ℕ → Text → List ℕ → Option (Digest × List ℕ)
dec_hash size algorithm [] = none
dec_hash size algorithm (n ∷ rest) =
    some (record { algorithm = algorithm; hash = take n rest; size = size }, drop n rest)

abbrev dec_digest : List ℕ → Option (Digest × List ℕ)
dec_digest (size ∷ n ∷ rest) = dec_hash size (take n rest) (drop n rest)
dec_digest _ = none

dec_enc : (d : Digest) (rest : List ℕ) → dec_digest (enc_digest d rest) ≡ some (d, rest)
dec_enc d rest = rw (
  take-append (length d.algorithm) d.algorithm (length d.hash ∷ (d.hash ++ rest)) refl,
  drop-append (length d.algorithm) d.algorithm (length d.hash ∷ (d.hash ++ rest)) refl,
  take-append (length d.hash) d.hash rest refl,
  drop-append (length d.hash) d.hash rest refl,
)

abbrev enc_some : Option Digest → List ℕ → List ℕ
enc_some none rest = 0 ∷ rest
enc_some (some d) rest = 1 ∷ enc_digest d rest

abbrev some_of : Option (Digest × List ℕ) → Option (Option Digest × List ℕ)
some_of none = none
some_of (some (d, rest)) = some (some d, rest)

abbrev dec_some : List ℕ → Option (Option Digest × List ℕ)
dec_some [] = none
dec_some (zero ∷ rest) = some (none, rest)
dec_some (suc _ ∷ rest) = some_of (dec_digest rest)

dec_enc_some : (o : Option Digest) (rest : List ℕ) → dec_some (enc_some o rest) ≡ some (o, rest)
dec_enc_some none rest = refl
dec_enc_some (some d) rest = ap some_of (dec_enc d rest)

abbrev enc : ActionResult → List ℕ
enc r = r.version ∷ enc_digest r.action (enc_some r.metadata (enc_some r.output_root []))

abbrev bad : Result Fault ActionResult
bad = err (fault (text "invalid"))

abbrev dec_root :
    ℕ → Digest → Option Digest → Option (Option Digest × List ℕ) → Result Fault ActionResult
dec_root v d m none = bad
dec_root v d m (some (o, rest)) =
    ok (record { version = v; action = d; metadata = m; output_root = o })

abbrev dec_metadata : ℕ → Digest → Option (Option Digest × List ℕ) → Result Fault ActionResult
dec_metadata v d none = bad
dec_metadata v d (some (m, rest)) = dec_root v d m (dec_some rest)

abbrev dec_action : ℕ → Option (Digest × List ℕ) → Result Fault ActionResult
dec_action v none = bad
dec_action v (some (d, rest)) = dec_metadata v d (dec_some rest)

abbrev dec : List ℕ → Result Fault ActionResult
dec [] = bad
dec (v ∷ rest) = dec_action v (dec_digest rest)

abbrev pub json : Json
json = record { to_vec = λ r. ok (enc r); from_slice = dec }

dec-enc_result : (r : ActionResult) → dec (enc r) ≡ ok r
dec-enc_result r =
    ap (dec_action r.version) (dec_enc r.action _)
    ∙ ap (dec_metadata r.version r.action) (dec_enc_some r.metadata _)
    ∙ ap (dec_root r.version r.action r.metadata) (dec_enc_some r.output_root [])

read_back :
    (r : ActionResult) (bytes : List ℕ)
    → ◌≡◌ {A = Result Fault (List ℕ)} (ok (enc r)) (ok bytes)
    → dec bytes ≡ ok r
read_back r bytes e = ap dec (sym (ok_inj (enc r) bytes e)) ∙ dec-enc_result r
  where
    ok_inj : (a b : List ℕ) → ◌≡◌ {A = Result Fault (List ℕ)} (ok a) (ok b) → a ≡ b
    ok_inj a b h = ground (arith, h)

pub json-IsJson : IsJson json
json-IsJson = record { from-to = read_back }

abbrev digest : Digest
digest = record { algorithm = text "blake3"; hash = text "07"; size = 3 }

abbrev result : ActionResult
result = record { version = 1; action = digest; metadata = none; output_root = some digest }

abbrev other : ActionResult
other = record { version = 1; action = digest; metadata = some digest; output_root = none }

abbrev ops : List Op
ops = forget (text "n") digest ∷ put_result (text "n") digest other ∷ []

first_commit : (commit json (text "n") digest result empty).0 ≡ ok CommitOutcome.created
unfolding commit Maps.lookup
first_commit = refl

get-run-commit_example :
    (get json (text "n") digest (run json ops (commit json (text "n") digest result empty).1)).0
    ≡ ok (some result)
get-run-commit_example =
    get-run-commit json json-IsJson (text "n") digest result empty CommitOutcome.created ops
      first_commit cc

second_commit :
    (commit json
      (text "n")
      digest
      other
      (run json ops (commit json (text "n") digest result empty).1)).0
    ≡ ok CommitOutcome.conflict
unfolding commit run apply Memory.forget_blob Maps.lookup Maps.insert
second_commit = refl

created-ne : CommitOutcome.created ≢ CommitOutcome.conflict
created-ne = cc

commit-run-commit_example :
    ((commit json
        (text "n")
        digest
        other
        (run json ops (commit json (text "n") digest result empty).1)).1
      ≡ run json ops (commit json (text "n") digest result empty).1)
    × (((other ≡ result) × (CommitOutcome.conflict ≡ CommitOutcome.already_exists))
        ⊎ ((other ≢ result) × (CommitOutcome.conflict ≡ CommitOutcome.conflict)))
commit-run-commit_example =
    commit-run-commit json json-IsJson (text "n") digest result other empty CommitOutcome.created
      CommitOutcome.conflict ops first_commit created-ne second_commit

abbrev manifest : Manifest
manifest = record { version = 1; task = text "build"; predictions = [] }

first_manifest :
    (commit_manifest (text "n") digest none (text "e1") manifest empty).0
    ≡ ok ManifestCommitOutcome.created
unfolding commit_manifest Maps.lookup
first_manifest = refl

not_failed : ManifestCommitOutcome.created ≢ ManifestCommitOutcome.precondition_failed
not_failed e = cc

not_e1 : none ≢ some (text "e1")
not_e1 e = cc

commit_manifest-commit_manifest_example :
    (commit_manifest
        (text "n")
        digest
        none
        (text "e2")
        manifest
        (commit_manifest (text "n") digest none (text "e1") manifest empty).1
      ≡ (
        ok ManifestCommitOutcome.precondition_failed,
        (commit_manifest (text "n") digest none (text "e1") manifest empty).1,
      ))
    × ((get_manifest
          (text "n")
          digest
          (commit_manifest (text "n") digest none (text "e1") manifest empty).1).0
        ≡ ok (some (record { etag = text "e1"; manifest = manifest })))
commit_manifest-commit_manifest_example =
    commit_manifest-commit_manifest (text "n") digest none (text "e1") (text "e2") manifest manifest
      empty ManifestCommitOutcome.created first_manifest not_failed not_e1
