-- ===== src/Config.antt =====
-- tellus/src/actor_config.rs: the configuration of an actor, without its deserialisation.
use tellus.Prelude.{ℕ}
use tellus.Backoff.{Backoff, Duration}

pub data MailboxCapacity : Type 0 where
  unbounded : MailboxCapacity
  bounded : ℕ → MailboxCapacity

-- `max_restarts` is a `NonZeroU32`.
pub record RestartPolicy : Type 0 where
  pub max_restarts : ℕ
  pub backoff : Backoff
  pub reset_after : Duration

pub data SupervisionStrategy : Type 0 where
  stop : SupervisionStrategy
  restart : RestartPolicy → SupervisionStrategy

pub record ActorConfig : Type 0 where
  pub mailbox_capacity : MailboxCapacity
  pub supervision_strategy : SupervisionStrategy

-- `Default`
abbrev pub default_config : ActorConfig
default_config = record { mailbox_capacity = unbounded; supervision_strategy = stop }

unfoldable pub with_mailbox_capacity : ActorConfig → MailboxCapacity → ActorConfig
with_mailbox_capacity c capacity = record c { mailbox_capacity = capacity }

unfoldable pub with_supervision_strategy : ActorConfig → SupervisionStrategy → ActorConfig
with_supervision_strategy c strategy = record c { supervision_strategy = strategy }

abbrev pub default_reset_after : Duration
default_reset_after = 30000000000

-- `Backoff::default()` expects its bounds to be ordered, so the default pair stands here as it is.
abbrev pub default_backoff : Backoff
default_backoff = record { min = 250000000; max = 4000000000 }

unfoldable pub new_policy : ℕ → RestartPolicy
new_policy max_restarts = record {
  max_restarts = max_restarts;
  backoff = default_backoff;
  reset_after = default_reset_after;
}

unfoldable pub with_backoff : RestartPolicy → Backoff → RestartPolicy
with_backoff p backoff = record p { backoff = backoff }

unfoldable pub with_reset_after : RestartPolicy → Duration → RestartPolicy
with_reset_after p reset_after = record p { reset_after = reset_after }
