-- ===== src/Manager/Sending/Refinement.antt =====
-- A run, seen as where its chunks are: left to start, with a worker, given to the stream, or lost.
use zao_p2p.Prelude.{
  ℕ, ◌<◌, ◌≡◌, refl, sym, ◌⊎◌, inl, inr, Bool, true, Bool-cases, List, [], ◌∷◌, ◌++◌, length, ltb,
  arith,
}
use mathlib.Core.Path.{subst}
use zao_p2p.Prelude.Bytes.{Bytes}
use zao_p2p.CoreError.{Result-cases}
use zao_p2p.Transfer.{default_parallelism}
use zao_p2p.Transfer.Files.{read_chunk_from_source}
use zao_p2p.Transfer.Handle.{contains}
use zao_p2p.Manager.{World}
use zao_p2p.Manager.Sending.{
  Run, Stream, unopened, opened, closed, Phase, at_permit, Move, loop, work, pause, resume, cancel,
  writer_ended, disconnect, remove_one, spawn, with_stream, loop_at, chunk_read, work_on, move,
  run_moves,
}
use zao_p2p.Manager.Sending.Conservation.{sent, sent_append_chunk}

-- Where the chunks are.
pub record Chunks : Type 0 where
  pub left : List ℕ
  pub busy : List ℕ
  pub given : List ℕ
  pub lost : List ℕ

-- What may happen to a chunk.
pub data Step : Chunks → Chunks → Type 0 where
  -- The next one gets a worker, if fewer than `default_parallelism` have one.
  starts :
      (i : ℕ) (left busy given lost : List ℕ)
      → length busy < default_parallelism
      → Step
          (record { left = i ∷ left; busy = busy; given = given; lost = lost })
          (record { left = left; busy = i ∷ busy; given = given; lost = lost })
  -- One with a worker is given to the stream.
  gives :
      (i : ℕ) (left busy given lost : List ℕ)
      → contains i busy ≡ true
      → Step
          (record { left = left; busy = busy; given = given; lost = lost })
          (record { left = left; busy = remove_one i busy; given = given ++ (i ∷ []); lost = lost })
  -- One with a worker is lost.
  loses :
      (i : ℕ) (left busy given lost : List ℕ)
      → contains i busy ≡ true
      → Step
          (record { left = left; busy = busy; given = given; lost = lost })
          (record { left = left; busy = remove_one i busy; given = given; lost = i ∷ lost })

pub data Steps : Chunks → Chunks → Type 0 where
  done : (c : Chunks) → Steps c c
  next : (c d e : Chunks) → Step c d → Steps d e → Steps c e

module _ (w : World) where
  abbrev pub chunks_of : Run w → Chunks
  chunks_of r = record { left = r.pending; busy = r.running; given = sent r.queue; lost = r.lost }

  abbrev StepOrSame : Run w → Run w → Type 0
  StepOrSame r r' = (chunks_of r' ≡ chunks_of r) ⊎ Step (chunks_of r) (chunks_of r')

  Step-spawn :
      (r : Run w) (connected : Bool) (st : Stream) (is : List ℕ)
      → r.pending ≡ is
      → length r.running < default_parallelism
      → StepOrSame r (spawn w (record r { connected = connected; stream = st }) is)
  unfolding spawn
  Step-spawn r c st [] e few = inl refl
  Step-spawn r c st (i ∷ is) e few = inr (
      subst
        (λ l.
          Step (record { left = l; busy = r.running; given = sent r.queue; lost = r.lost })
            (record { left = is; busy = i ∷ r.running; given = sent r.queue; lost = r.lost }))
        (sym e) (starts i is r.running (sent r.queue) r.lost few))

  Step-with_stream :
      (r : Run w) (st : Stream)
      → length r.running < default_parallelism
      → StepOrSame r (with_stream w r st)
  unfolding with_stream
  Step-with_stream r unopened few = elim (Bool-cases r.connected) [
    | inl e ↦ rw (with_stream, e) (Step-spawn r true opened r.pending refl few)
    | inr e ↦ rw (with_stream, e) (inl refl)
  ]
  Step-with_stream r opened few = Step-spawn r r.connected r.stream r.pending refl few
  Step-with_stream r closed few = Step-spawn r r.connected r.stream r.pending refl few

  Step-loop_at : (r : Run w) (p : Phase) → StepOrSame r (loop_at w r p)
  unfolding loop_at with_stream
  Step-loop_at r at_permit = elim (Bool-cases (ltb (length r.running) default_parallelism)) [
    | inr e ↦ rw (loop_at, e) (inl refl)
    | inl e ↦ rw (loop_at, e) (Step-with_stream r r.stream (ground (arith, e)))
  ]
  Step-loop_at r p = inl (ground arith)

  Step-chunk_read :
      (r : Run w) (i now : ℕ) (payload : Bytes) (st : Stream)
      → contains i r.running ≡ true
      → StepOrSame r (chunk_read w r i now payload st)
  unfolding chunk_read
  Step-chunk_read r i now payload opened here = inr (
      rw (sent_append_chunk w r.transfer_id i payload r.queue)
        (gives i r.pending r.running (sent r.queue) r.lost here))
  Step-chunk_read r i now payload unopened here =
      inr (loses i r.pending r.running (sent r.queue) r.lost here)
  Step-chunk_read r i now payload closed here =
      inr (loses i r.pending r.running (sent r.queue) r.lost here)

  Step-move : (r : Run w) (mv : Move) → StepOrSame r (move w r mv)
  unfolding move
  Step-move r loop = Step-loop_at r r.phase
  Step-move r (work i now) = elim (Bool-cases (contains i r.running)) [
    | inr e ↦ rw (move, e) (inl refl)
    | inl e ↦
        rw (move, e)
          (elim (Result-cases (read_chunk_from_source r.manager.disk r.source i)) [
            | inl (payload, e') ↦ rw (work_on, e') (Step-chunk_read r i now payload r.stream e)
            | inr (er, e') ↦
                rw (work_on, e') (inr (loses i r.pending r.running (sent r.queue) r.lost e))
          ])
  ]
  Step-move r pause = inl refl
  Step-move r resume = inl refl
  Step-move r cancel = inl refl
  Step-move r writer_ended = inl refl
  Step-move r disconnect = inl refl

  -- Whatever the schedule, a run does to its chunks nothing but what the steps allow, in that order.
  pub run_moves-Steps :
      (mvs : List Move) (r : Run w) → Steps (chunks_of r) (chunks_of (run_moves w r mvs))
  unfolding run_moves
  run_moves-Steps [] r = done (chunks_of r)
  run_moves-Steps (mv ∷ mvs) r = elim (Step-move r mv) [
    | inl same ↦
        subst (λ c. Steps c (chunks_of (run_moves w (move w r mv) mvs))) same
          (run_moves-Steps mvs (move w r mv))
    | inr step ↦ next _ _ _ step (run_moves-Steps mvs (move w r mv))
  ]
