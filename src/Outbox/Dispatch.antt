-- ===== src/Outbox/Dispatch.antt =====
-- `OutboxDispatcher`: the tasks of a batch in the order in which they are started. `publish` is the
-- publisher: none is success, some is the code of its error.

use seven_network_manager.Base.{
  Bool, List, Option, [], is_empty, length, min, none, some, ℕ, ◌==◌, ◌||◌, ◌∷◌,
}
use seven_network_manager.Base.Int.{leb_ℤ, pos, ℤ}
use seven_network_manager.Base.Text.{Text, trim}
use seven_network_manager.Base.Result.{Result, err, fail_if, ok, ◌>>=◌, ◌>>◌}
use seven_network_manager.Outbox.Table.{Outbox, OutboxError, OutboxEvent, invalid_dispatcher}
use seven_network_manager.Outbox.Claim.{claim}
use seven_network_manager.Outbox.Marks.{mark_failed, mark_published, retry_delay_seconds}

pub record OutboxDispatcher : Type 0 where
  pub worker_id : Text
  pub max_attempts : ℤ
  pub lease : ℕ
  pub concurrency : ℕ

unfoldable pub new_dispatcher : Text → ℤ → ℕ → Result OutboxError OutboxDispatcher
new_dispatcher worker_id max_attempts concurrency = do
  fail_if (is_empty (trim worker_id) || leb_ℤ max_attempts (pos 0) || concurrency == 0)
      invalid_dispatcher
  ok (record {
    worker_id = worker_id;
    max_attempts = max_attempts;
    lease = 30;
    concurrency = min concurrency 64;
  })

-- The body of a task; a failed call leaves the store as it was.
unfoldable pub deliver :
    OutboxDispatcher
    → (OutboxEvent → Option Text)
    → ℕ
    → OutboxEvent
    → Outbox
    → Result OutboxError Outbox
deliver d publish now e s = elim (publish e) [
  | none ↦ mark_published now d.worker_id e s
  | some code ↦ do
    marked ← mark_failed now d.worker_id e code d.max_attempts (retry_delay_seconds e.attempts) s
    ok marked.1
]

abbrev pub after : Result OutboxError Outbox → Outbox → Outbox
after (ok s') s = s'
after (err e) s = s

-- Every task runs; the first error in the order of the handles is the result.
unfoldable pub deliver_all :
    OutboxDispatcher
    → (OutboxEvent → Option Text)
    → ℕ
    → List OutboxEvent
    → Outbox
    → Result OutboxError (Unit {0}) × Outbox
deliver_all d publish now [] s = (ok tt, s)
deliver_all d publish now (e ∷ es) s =
    let delivered = deliver d publish now e s in
    let rest = deliver_all d publish now es (after delivered s) in
    ((delivered >>= λ _. rest.0), rest.1)

unfoldable pub dispatch_once :
    (ℕ → Bool)
    → OutboxDispatcher
    → (OutboxEvent → Option Text)
    → ℕ
    → ℕ
    → ℤ
    → Outbox
    → Result OutboxError ℕ × Outbox
dispatch_once locked d publish claimed_at delivered_at batch_size s =
    elim (claim locked claimed_at d.worker_id batch_size d.lease s) [
      | err e ↦ (err e, s)
      | ok (events, claimed) ↦
          (let done = deliver_all d publish delivered_at events claimed in
            ((done.0 >>= λ _. ok (length events)), done.1))
    ]
