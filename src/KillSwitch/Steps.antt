-- ===== src/KillSwitch/Steps.antt =====
-- Any interleaving of requests and task segments on one kill switch.
use nexus_trading.Base.{ℕ, List, [], ◌∷◌, String}
use nexus_trading.KillSwitch.State.{KillSwitch, Reply}
use nexus_trading.KillSwitch.Mfa.{Digest}
use nexus_trading.KillSwitch.Handlers.{Env, trigger, retry_flatten, acknowledge, restart_request}
use nexus_trading.KillSwitch.Flatten.{BrokerResult, advance}

pub data Request : Type 0 where
  triggers : String → String → String → Request
  retries acknowledges restarts : String → String → Request

pub data Event : Type 0 where
  requests : Env → Request → Event
  advances : ℕ → ℕ → BrokerResult → Event

module _ (digest : Digest) (secret : String) where
  unfoldable pub handle : Env → Request → KillSwitch → Reply × KillSwitch
  unfolding trigger retry_flatten acknowledge restart_request
  handle e (triggers initiator token reason) k = trigger digest secret e initiator token reason k
  handle e (retries initiator token) k = retry_flatten digest secret e initiator token k
  handle e (acknowledges operator token) k = acknowledge digest secret e operator token k
  handle e (restarts operator token) k = restart_request digest secret e operator token k

  unfoldable pub step : Event → KillSwitch → KillSwitch
  unfolding handle advance
  step (requests e q) k = (handle e q k).1
  step (advances i now r) k = advance i now r k

  unfoldable pub run : List Event → KillSwitch → KillSwitch
  unfolding step
  run [] k = k
  run (v ∷ vs) k = run vs (step v k)
