-- ===== src/Write/Queue/Drain.antt =====
-- The turns of the loop of backend/app/write/queue_loop.py in a row, and the tickets that wait.
use nsysu_crs.Common.{
  ℕ, Text, ◌≡◌, refl, ◌∙◌, List, [], ◌∷◌, ◌++◌, length, All, All-append, ◌≤◌, arith, inl, inr,
  length-append, append-nil,
}
use nsysu_crs.Write.Jobs.Steps.{Reach, untouched}
use nsysu_crs.Write.Queue.Steps.{Reach-trans}
use nsysu_crs.Write.Queue.{TicketJson, Turn, Consumer, queue_turn, write_queue_loop}
use nsysu_crs.Write.Queue.Turns.{
  HasStarted, IsWorking, from_the_end, waiting, later, later-All, turn_takes, turn_rests,
  turn_leaves,
}

module _ {Jar : Type 0} (json : TicketJson) (sweep_interval : ℕ) where
  abbrev run : List (Turn Jar) → Consumer → Consumer
  run = write_queue_loop json sweep_interval

  abbrev IsQuiet : Turn Jar → Type 0
  IsQuiet turn = (turn.pushed ≡ []) × IsWorking json turn

  turn-Reach :
      (turn : Turn Jar) (c : Consumer)
      → IsWorking json turn
      → Reach c.db (queue_turn json sweep_interval turn c).db
  turn-Reach turn c w = elim (from_the_end (waiting c.redis ++ turn.pushed)) [
    | inl e ↦ (turn_rests json sweep_interval turn c e).0
    | inr (before, raw, e) ↦ (turn_takes json sweep_interval turn c before raw w e).0
  ]

  run-Reach :
      (turns : List (Turn Jar)) (c : Consumer) → All IsQuiet turns → Reach c.db (run turns c).db
  unfolding write_queue_loop
  run-Reach [] c w = untouched
  run-Reach (turn ∷ turns) c w = Reach-trans (turn-Reach turn c w.0.1) (run-Reach turns _ w.1)

  rests :
      (turns : List (Turn Jar)) (c : Consumer)
      → All IsQuiet turns
      → waiting c.redis ≡ []
      → waiting (run turns c).redis ≡ []
  unfolding write_queue_loop
  rests [] c w e = e
  rests (turn ∷ turns) c w e =
      rests turns _ w.1 (turn_rests json sweep_interval turn c (rw (w.0.0, e) refl)).1

  -- With nothing pushed in between, enough turns leave no ticket waiting, and none of the jobs whose
  -- tickets waited waits any more: of each entry that is a ticket, with a job that the table holds.
  -- Other transactions are statements, and at least one turn is run for each entry.
  pub write_queue_loop-drains :
      (turns : List (Turn Jar)) (c : Consumer)
      → All (λ (turn : Turn Jar). (turn.pushed ≡ []) × IsWorking json turn) turns
      → length (waiting c.redis) ≤ length turns
      → (waiting (write_queue_loop json sweep_interval turns c).redis ≡ [])
        × All
            (HasStarted json c.db (write_queue_loop json sweep_interval turns c).db)
            (waiting c.redis)
  unfolding write_queue_loop
  write_queue_loop-drains [] c w n = elim (from_the_end (waiting c.redis)) [
    | inl e ↦ (e, rw e tt)
    | inr (before, raw, e) ↦ absurd (ground (arith, length-append before (raw ∷ []), e))
  ]
  write_queue_loop-drains (turn ∷ turns) c w n = elim (from_the_end (waiting c.redis)) [
    | inl e ↦ (rests (turn ∷ turns) c w e, rw e tt)
    | inr (before, raw, e) ↦
        let pushes : waiting c.redis ++ turn.pushed ≡ before ++ (raw ∷ []) =
          rw (w.0.0, e) (append-nil (before ++ (raw ∷ []))) in
        let (r, left, started) = turn_takes json sweep_interval turn c before raw w.0.1 pushes in
        let c' = queue_turn json sweep_interval turn c in
        let (empty, rest) =
          write_queue_loop-drains turns c' w.1
            (rw left (ground (arith, length-append before (raw ∷ []), e))) in
        let rest' : All (HasStarted json c'.db (run turns c').db) before = rw left at rest in
        (
          empty,
          rw e (
              All-append (HasStarted json c.db (run turns c').db) before (raw ∷ [])
                (later-All json c.db c'.db (run turns c').db before r rest')
                (
                  later json c.db c.db c'.db (run turns c').db raw untouched
                      (run-Reach turns c' w.1) started,
                  tt,
                )),
        )
  ]

  -- Where a producer pushes one ticket in each turn, the tickets that waited before are never taken.
  pub write_queue_loop-starves :
      (turns : List (Turn Jar)) (c : Consumer)
      → All (λ (turn : Turn Jar). (t : Text) × (turn.pushed ≡ t ∷ [])) turns
      → waiting (write_queue_loop json sweep_interval turns c).redis ≡ waiting c.redis
  unfolding write_queue_loop
  write_queue_loop-starves [] c h = refl
  write_queue_loop-starves (turn ∷ turns) c ((t, e), h) =
      write_queue_loop-starves turns (queue_turn json sweep_interval turn c) h
      ∙ turn_leaves json sweep_interval turn c (waiting c.redis) t (rw e refl)
