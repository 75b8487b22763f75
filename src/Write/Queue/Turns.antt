-- ===== src/Write/Queue/Turns.antt =====
-- One turn of the loop of backend/app/write/queue_loop.py: what it takes of the tickets that wait, and what it
-- leaves of them and of the tables.
use nsysu_crs.Common.{
  ok, raise, ℕ, Text, text_eq, ◌≡◌, refl, sym, ap, ◌∙◌, true, false, Option, none, some, List, [],
  ◌∷◌, ◌++◌, leb, All, ◌⊎◌, arith, Bool-cases, Option-cases, inl, inr,
}
use mathlib.Core.Option.{some-injective}
use nsysu_crs.Auth.Redis.{FakeRedis, rpush, brpop, pop_last}
use nsysu_crs.Write.Engine.{QueueTicket, Contact, execute_ticket}
use nsysu_crs.Write.Jobs.{JobStatus, is_queued, Db, read_job_status}
use nsysu_crs.Write.Jobs.Status.{may_follow, Reach-status}
use nsysu_crs.Write.Jobs.Steps.{swept, Reach, untouched, followed}
use nsysu_crs.Write.Queue.Steps.{AreSteps, Reach-trans, execute_ticket-Executed}
use nsysu_crs.Write.Queue.{
  write_queue_key, TicketJson, parse_ticket, pop_ticket, Turn, Consumer, sweep_once, take_turn,
  sweep_due, queue_turn,
}

pub pop_last-snoc : (ts : List Text) (t : Text) → pop_last (ts ++ (t ∷ [])) ≡ some (ts, t)
unfolding pop_last
pop_last-snoc [] t = refl
pop_last-snoc (u ∷ ts) t = rw (pop_last-snoc ts t) refl

abbrev rejoined : Option (List Text × Text) → List Text
rejoined none = []
rejoined (some (before, last)) = before ++ (last ∷ [])

rejoined-pop_last : (ts : List Text) → rejoined (pop_last ts) ≡ ts
unfolding pop_last
rejoined-pop_last [] = refl
rejoined-pop_last (t ∷ ts) = elim (Option-cases (pop_last ts)) [
  | inl e ↦ rw (e, pop_last) (ap (λ us. t ∷ us) (sym (ap rejoined e) ∙ rejoined-pop_last ts))
  | inr ((b, l), e) ↦
      rw (e, pop_last) (ap (λ us. t ∷ us) (sym (ap rejoined e) ∙ rejoined-pop_last ts))
]

-- A list is empty, or has a last element.
pub from_the_end :
    (ts : List Text)
    → (ts ≡ []) ⊎ ((before : List Text) × (last : Text) × (ts ≡ before ++ (last ∷ [])))
from_the_end ts = elim (Option-cases (pop_last ts)) [
  | inl e ↦ inl (sym (rejoined-pop_last ts) ∙ ap rejoined e)
  | inr ((before, last), e) ↦ inr (before, last, sym (rejoined-pop_last ts) ∙ ap rejoined e)
]

-- The tickets that wait, the first to come first.
abbrev pub waiting : FakeRedis → List Text
waiting r = r.lists write_queue_key

-- What a turn takes, when the producers have pushed.
taken :
    (ts before : List Text) (t : Text) (r : FakeRedis)
    → waiting r ++ ts ≡ before ++ (t ∷ [])
    → ((pop_ticket (rpush write_queue_key ts r)).0 ≡ some t)
      × (waiting (pop_ticket (rpush write_queue_key ts r)).1 ≡ before)
unfolding pop_ticket brpop rpush text_eq
taken ts before t r h = rw (h, brpop, pop_last-snoc before t) (refl, refl)

taken_none :
    (ts : List Text) (r : FakeRedis)
    → waiting r ++ ts ≡ []
    → ((pop_ticket (rpush write_queue_key ts r)).0 ≡ none)
      × (waiting (pop_ticket (rpush write_queue_key ts r)).1 ≡ [])
unfolding pop_ticket brpop rpush text_eq pop_last
taken_none ts r h = rw (h, brpop) (refl, h)

-- Whatever status may follow one that does not wait does not wait.
still_started :
    (s t : JobStatus) → is_queued s ≡ false → may_follow s t ≡ true → is_queued t ≡ false
still_started s t h k = ground arith

module _ (json : TicketJson) where
  -- Two databases, of which the second has the job of a ticket started, if the first has the job.
  abbrev pub HasStarted : Db → Db → Text → Type 0
  HasStarted db db' payload =
      (ticket : QueueTicket) (s : JobStatus)
      → parse_ticket json payload ≡ some ticket
      → read_job_status ticket.job_id db ≡ some s
      → (t : JobStatus) × (read_job_status ticket.job_id db' ≡ some t) × (is_queued t ≡ false)

  pub later :
      (before db db' after : Db) (payload : Text)
      → Reach before db
      → Reach db' after
      → HasStarted db db' payload
      → HasStarted before after payload
  later before db db' after payload r q h ticket s e f =
      let (t, g, m) = Reach-status ticket.job_id s r f in
      let (u, k, started) = h ticket t e g in
      let (v, l, n) = Reach-status ticket.job_id u q k in (v, l, still_started u v started n)

  pub later-All :
      (before db after : Db) (payloads : List Text)
      → Reach before db
      → All (HasStarted db after) payloads
      → All (HasStarted before after) payloads
  later-All before db after [] r h = tt
  later-All before db after (p ∷ ps) r h =
      (later before db after after p r untouched h.0, later-All before db after ps r h.1)

  module _ {Jar : Type 0} (turn : Turn Jar) where
    -- Other transactions are made of statements too.
    abbrev pub IsWorking : Type 0
    IsWorking = AreSteps turn.worker

    abbrev turned : Option Text → Db → Db
    turned raw db = (take_turn json turn raw db).1

    turned-some :
        (raw : Text) (ticket : QueueTicket) (contacts : List Contact) (db db' : Db)
        → parse_ticket json raw ≡ some ticket
        → (execute_ticket turn.worker ticket db ≡ ok (contacts, db'))
          ⊎ (execute_ticket turn.worker ticket db ≡ raise (contacts, db'))
        → turned (some raw) db ≡ db'
    unfolding take_turn
    turned-some raw ticket contacts db db' e (inl f) = rw (e, f, turned, take_turn) refl
    turned-some raw ticket contacts db db' e (inr f) = rw (e, f, turned, take_turn) refl

    turned_corrupt :
        (raw : Text) (db : Db) → parse_ticket json raw ≡ none → turned (some raw) db ≡ db
    unfolding take_turn
    turned_corrupt raw db e = rw (e, turned, take_turn) refl

    executes :
        (raw : Text) (db : Db)
        → IsWorking
        → Reach db (turned (some raw) db) × HasStarted db (turned (some raw) db) raw
    executes raw db w = elim (Option-cases (parse_ticket json raw)) [
      | inl e ↦ rw (turned_corrupt raw db e) (untouched, λ ticket s f g. cc)
      | inr (ticket, e) ↦
          let (contacts, db', f, r, started) = execute_ticket-Executed turn.worker ticket db w in
          rw (turned-some raw ticket contacts db db' e f) (
            r,
            λ other s g h.
                let (t, k, m) = Reach-status other.job_id s r h in
                let same : ticket ≡ other = some-injective ticket other (sym e ∙ g) in
                (t, k, started t (ap (λ (q : QueueTicket). read_job_status q.job_id db') same ∙ k)),
          )
    ]

module _ {Jar : Type 0} (json : TicketJson) (sweep_interval : ℕ) where
  sweeps :
      (turn : Turn Jar) (c : Consumer)
      → Reach c.db (sweep_due sweep_interval turn c).db
        × ((sweep_due sweep_interval turn c).redis ≡ c.redis)
  unfolding sweep_due sweep_once
  sweeps turn c = elim (Bool-cases (leb c.next_sweep turn.moment)) [
    | inl e ↦ rw (e, sweep_due) (followed untouched (swept turn.older_than refl), refl)
    | inr e ↦ rw (e, sweep_due) (untouched, refl)
  ]

  -- A turn that takes a ticket executes it, and then the sweep may run.
  pub turn_takes :
      (turn : Turn Jar) (c : Consumer) (before : List Text) (raw : Text)
      → IsWorking json turn
      → waiting c.redis ++ turn.pushed ≡ before ++ (raw ∷ [])
      → let c' = queue_turn json sweep_interval turn c in
        Reach c.db c'.db × (waiting c'.redis ≡ before) × HasStarted json c.db c'.db raw
  unfolding queue_turn
  turn_takes turn c before raw w h =
      let took = taken turn.pushed before raw c.redis h in
      let popped = pop_ticket (rpush write_queue_key turn.pushed c.redis) in
      let after = take_turn json turn (some raw) c.db in
      let (r, started) = executes json turn raw c.db w in
      let (q, same) =
        sweeps turn
          (record c { redis = popped.1; db = after.1; contacts = c.contacts ++ after.0 }) in
      rw (took.0, queue_turn)
        (
          Reach-trans r q,
          ap waiting same ∙ took.1,
          later json c.db c.db after.1 _ raw untouched q started,
        )

  pub turn_rests :
      (turn : Turn Jar) (c : Consumer)
      → waiting c.redis ++ turn.pushed ≡ []
      → let c' = queue_turn json sweep_interval turn c in Reach c.db c'.db × (waiting c'.redis ≡ [])
  unfolding queue_turn take_turn
  turn_rests turn c h =
      let took = taken_none turn.pushed c.redis h in
      let popped = pop_ticket (rpush write_queue_key turn.pushed c.redis) in
      let (q, same) = sweeps turn (record c { redis = popped.1; contacts = c.contacts ++ [] }) in
      rw (took.0, queue_turn) (q, ap waiting same ∙ took.1)

  pub turn_leaves :
      (turn : Turn Jar) (c : Consumer) (before : List Text) (raw : Text)
      → waiting c.redis ++ turn.pushed ≡ before ++ (raw ∷ [])
      → waiting (queue_turn json sweep_interval turn c).redis ≡ before
  unfolding queue_turn
  turn_leaves turn c before raw h =
      let popped = pop_ticket (rpush write_queue_key turn.pushed c.redis) in
      let after = take_turn json turn popped.0 c.db in
      ap waiting
        (sweeps turn
          (record c { redis = popped.1; db = after.1; contacts = c.contacts ++ after.0 })).1
      ∙ (taken turn.pushed before raw c.redis h).1
