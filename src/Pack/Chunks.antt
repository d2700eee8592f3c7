-- ===== src/Pack/Chunks.antt =====
-- `push` (src/pack.rs) over a sequence of chunks: the caller's loop, which folds the events of
-- each chunk into what it builds, agrees with a reader of single bytes, so the boundaries of the
-- chunks do not matter.
use mr_boxington_cache.Prelude.{
  ℕ, zero, suc, ◌≡◌, refl, List, [], ◌∷◌, ◌++◌, length, Result, ok, err, ◌>>=◌,
}
use mr_boxington_cache.Protocol.{Protocol}
use mr_boxington_cache.Pack.{
  PackEvent, PackError, Stop, refused, out_of_fuel, PackReader, Turn, halt, fail, next, turn,
  push_loop, push,
}
use mr_boxington_cache.Pack.Bytewise.{byte}

-- All chunks of a body, one behind the other.
abbrev pub concat : List (List ℕ) → List ℕ
concat [] = []
concat (c ∷ cs) = c ++ concat cs

-- What the caller builds from events, by `on`.
module _ {S : Type 0} (on : PackEvent → S → S) where
  unfoldable pub deliver : List PackEvent → S → S
  deliver [] s = s
  deliver (e ∷ es) s = deliver es (on e s)

  deliver-append :
      (es fs : List PackEvent) (s : S) → deliver (es ++ fs) s ≡ deliver fs (deliver es s)
  unfolding deliver
  deliver-append [] fs s = refl
  deliver-append (e ∷ es) fs s = deliver-append es fs (on e s)

  module _ (p : Protocol) where
    -- `for event in reader.push(&chunk)? { .. }`
    unfoldable pub feed : PackReader → List ℕ → S → Result Stop (PackReader × S)
    feed r chunk s = push p r chunk >>= λ x. ok (x.0, deliver x.1 s)

    -- `while let Some(chunk) = stream.next().await { .. }`
    unfoldable pub feed_all : PackReader → List (List ℕ) → S → Result Stop (PackReader × S)
    feed_all r [] s = ok (r, s)
    feed_all r (c ∷ cs) s = feed r c s >>= λ x. feed_all x.0 cs x.1

    -- The reader of single bytes.
    unfoldable pub bytes : PackReader → List ℕ → S → Result Stop (PackReader × S)
    bytes r [] s = ok (r, s)
    bytes r (b ∷ bs) s = elim (byte p r b) [
      | ok (r', events) ↦ bytes r' bs (deliver events s)
      | err e ↦ err (refused e)
    ]

    -- The loop of `push`, delivering as it goes.
    unfoldable pub run : ℕ → PackReader → List ℕ → S → Result Stop (PackReader × S)
    run zero r rest s = err out_of_fuel
    run (suc fuel) r rest s = elim (turn p r rest) [
      | halt r' ↦ ok (r', s)
      | fail e ↦ err (refused e)
      | next r' rest' events ↦ run fuel r' rest' (deliver events s)
    ]

    -- `push_loop` collects what `run` delivers.
    abbrev Collects : ℕ → Type 0
    Collects fuel =
        (r : PackReader) (rest : List ℕ) (events : List PackEvent) (s : S)
        → (push_loop p fuel r rest events >>= λ x. ok (x.0, deliver x.1 s))
          ≡ run fuel r rest (deliver events s)

    Collects-turn :
        (fuel : ℕ) (r : PackReader) (rest : List ℕ) (events : List PackEvent) (s : S) (t : Turn)
        → Collects fuel
        → turn p r rest ≡ t
        → (push_loop p (suc fuel) r rest events >>= λ x. ok (x.0, deliver x.1 s))
          ≡ run (suc fuel) r rest (deliver events s)
    unfolding push_loop run
    Collects-turn fuel r rest events s (halt r') ih e = rw (e, push_loop, run)
    Collects-turn fuel r rest events s (fail x) ih e = rw (e, push_loop, run)
    Collects-turn fuel r rest events s (next r' rest' more) ih e =
        rw (e, push_loop, run, ← deliver-append events more s) (ih r' rest' (events ++ more) s)

    push_loop-run : (fuel : ℕ) → Collects fuel
    unfolding push_loop run
    push_loop-run zero r rest events s = refl
    push_loop-run (suc fuel) r rest events s =
        Collects-turn fuel r rest events s (turn p r rest) (push_loop-run fuel) refl

    pub feed-run :
        (r : PackReader) (chunk : List ℕ) (s : S)
        → feed r chunk s ≡ run (suc (length chunk)) r chunk s
    unfolding feed push deliver
    feed-run r chunk s = push_loop-run (suc (length chunk)) r chunk [] s

    -- One turn of `run`, and one byte of `bytes`.
    pub run_halt :
        (fuel : ℕ) (r r' : PackReader) (rest : List ℕ) (s : S)
        → turn p r rest ≡ halt r'
        → run (suc fuel) r rest s ≡ ok (r', s)
    unfolding run
    run_halt fuel r r' rest s e = rw (e, run)

    pub run_fail :
        (fuel : ℕ) (r : PackReader) (rest : List ℕ) (s : S) (x : PackError)
        → turn p r rest ≡ fail x
        → run (suc fuel) r rest s ≡ err (refused x)
    unfolding run
    run_fail fuel r rest s x e = rw (e, run)

    pub run_next :
        (fuel : ℕ) (r r' : PackReader) (rest rest' : List ℕ) (events : List PackEvent) (s : S)
        → turn p r rest ≡ next r' rest' events
        → run (suc fuel) r rest s ≡ run fuel r' rest' (deliver events s)
    unfolding run
    run_next fuel r r' rest rest' events s e = rw (e, run)

    pub run_same :
        (fuel : ℕ) (r r' : PackReader) (rest rest' : List ℕ) (s : S)
        → turn p r rest ≡ turn p r' rest'
        → run (suc fuel) r rest s ≡ run (suc fuel) r' rest' s
    unfolding run
    run_same fuel r r' rest rest' s e = rw (e, run)

    pub bytes_ok :
        (r r' : PackReader) (b : ℕ) (bs : List ℕ) (events : List PackEvent) (s : S)
        → byte p r b ≡ ok (r', events)
        → bytes r (b ∷ bs) s ≡ bytes r' bs (deliver events s)
    unfolding bytes
    bytes_ok r r' b bs events s e = rw (e, bytes)

    pub bytes_err :
        (r : PackReader) (b : ℕ) (bs : List ℕ) (s : S) (x : PackError)
        → byte p r b ≡ err x
        → bytes r (b ∷ bs) s ≡ err (refused x)
    unfolding bytes
    bytes_err r b bs s x e = rw (e, bytes)
