-- ===== src/Write/Queue.antt =====
-- backend/app/write/queue.py and queue_loop.py, and `_pop_ticket` of backend/app/worker.py: the list
-- of tickets, its producers, and the loop that takes a ticket, executes it and sweeps stale jobs.
pub mod Steps
pub mod Turns
pub mod Drain
use nsysu_crs.Common.{
  ℕ, ◌+◌, Text, codes, Bool, Option, none, some, List, [], ◌∷◌, ◌++◌, leb, if◌then◌else◌, String,
  Result, ok, raise,
}
use nsysu_crs.Auth.Redis.{FakeRedis, rpush, brpop}
use nsysu_crs.Write.Engine.{QueueTicket, Contact, Worker, execute_ticket}
use nsysu_crs.Write.Jobs.{Db, cancel_stale_active_jobs}

-- WRITE_QUEUE_KEY
abbrev pub write_queue_key : Text
write_queue_key = codes "writeq:jobs"

-- The JSON of a ticket is a parameter: `none` is a payload that does not validate.
pub record TicketJson : Type 0 where
  pub dump : QueueTicket → Text
  pub validate : Text → Option QueueTicket

unfoldable pub serialize_ticket : TicketJson → QueueTicket → Text
serialize_ticket json ticket = json.dump ticket

unfoldable pub parse_ticket : TicketJson → Text → Option QueueTicket
parse_ticket json payload = json.validate payload

unfoldable pub enqueue_ticket : TicketJson → QueueTicket → FakeRedis → FakeRedis
unfolding serialize_ticket
enqueue_ticket json ticket r = rpush write_queue_key (serialize_ticket json ticket ∷ []) r

abbrev payload_of : Option (Text × Text) → Option Text
payload_of none = none
payload_of (some (key, value)) = some value

unfoldable pub pop_ticket : FakeRedis → Option Text × FakeRedis
pop_ticket r = let (popped, r') = brpop (write_queue_key ∷ []) r in (payload_of popped, r')

-- One turn of the loop: what the producers push before it, the surroundings of the engine, the time
-- that the sweep looks at, and the cutoff of the sweep.
pub record Turn (Jar : Type 0) : Type 0 where
  pub pushed : List Text
  pub worker : Worker Jar
  pub moment : ℕ
  pub older_than : ℕ

pub record Consumer : Type 0 where
  pub redis : FakeRedis
  pub db : Db
  pub next_sweep : ℕ
  pub contacts : List Contact

unfoldable pub sweep_once : ℕ → Db → ℕ × Db
sweep_once older_than db = cancel_stale_active_jobs older_than db

module _ {Jar : Type 0} where
  -- The contacts of the turn and the database behind it; an exception of the engine is logged.
  unfoldable pub take_turn : TicketJson → Turn Jar → Option Text → Db → List Contact × Db
  take_turn json turn none db = ([], db)
  take_turn json turn (some raw) db = elim (parse_ticket json raw) [
    | none ↦ ([], db)
    | some ticket ↦ elim (execute_ticket turn.worker ticket db) [
      | raise crash ↦ crash
      | ok ended ↦ ended
    ]
  ]

  unfoldable pub sweep_due : ℕ → Turn Jar → Consumer → Consumer
  sweep_due sweep_interval turn c =
      if leb c.next_sweep turn.moment
      then record c {
        db = (sweep_once turn.older_than c.db).1;
        next_sweep = turn.moment + sweep_interval;
      }
      else c

  unfoldable pub queue_turn : TicketJson → ℕ → Turn Jar → Consumer → Consumer
  queue_turn json sweep_interval turn c =
      let (raw, r) = pop_ticket (rpush write_queue_key turn.pushed c.redis) in
      let (contacts, db) = take_turn json turn raw c.db in
      sweep_due sweep_interval turn
        (record c { redis = r; db = db; contacts = c.contacts ++ contacts })

  -- The turns of `while True`, one after the other.
  unfoldable pub write_queue_loop : TicketJson → ℕ → List (Turn Jar) → Consumer → Consumer
  write_queue_loop json sweep_interval [] c = c
  write_queue_loop json sweep_interval (turn ∷ turns) c =
      write_queue_loop json sweep_interval turns (queue_turn json sweep_interval turn c)
