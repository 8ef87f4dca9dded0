-- ===== src/LogQueue.antt =====
-- logging/LogQueue.cpp. Each function is one critical section of `queueLock`; the waiting of
-- getNextLog, which looks again every 200 ms, is `none`. A null message is `none`.
pub mod Delivery
use aws_iot_device_client.Base.{
  Bool, true, false, not, List, [], ◌∷◌, ◌++◌, Option, none, some, is_empty,
}

pub record LogQueue (M : Type 0) : Type 0 where
  pub is_shutdown : Bool
  pub log_queue : List (Option M)

module _ {M : Type 0} where
  unfoldable pub add_log : M → LogQueue M → LogQueue M
  add_log m q = record q { log_queue = q.log_queue ++ (some m ∷ []) }

  unfoldable pub has_next_log : LogQueue M → Bool
  has_next_log q = not (is_empty q.log_queue)

  unfoldable pub next_of : List (Option M) → LogQueue M → Option (Option M × LogQueue M)
  next_of [] q = elim q.is_shutdown [ true ↦ some (none, q) | false ↦ none ]
  next_of (m ∷ rest) q = some (m, record q { log_queue = rest })

  unfoldable pub get_next_log : LogQueue M → Option (Option M × LogQueue M)
  unfolding next_of
  get_next_log q = next_of q.log_queue q

  unfoldable pub shutdown : LogQueue M → LogQueue M
  shutdown q = record q { is_shutdown = true; log_queue = none ∷ q.log_queue }
