-- ===== src/Service.antt =====
-- The life cycle of a service, struct mwService of src/service.c.
use meanwhile.Base.{ℕ, Bool, true, false, ◌||◌, Option, none, some, List, [], if◌then◌else◌}
use meanwhile.Message.Dispatch.{Message}

pub data ServiceState : Type 0 where
  srv_stopped srv_stopping srv_started srv_starting srv_error srv_unknown : ServiceState

-- What a handler does: the state that it leaves, by mwService_started, mwService_error,
-- mwService_stop and mwService_stopped, and the messages that it gives to mwSession_send, for its
-- channels or itself, in this order.
abbrev pub Handler : Type 0
Handler = ServiceState → ServiceState × List Message

-- `start` and `stop` are the handlers of the service, which may be NULL.
pub record Service : Type 0 where
  pub type_ : ℕ
  pub state : ServiceState
  pub start : Option Handler
  pub stop : Option Handler

abbrev pub service_is_stopped : ServiceState → Bool
service_is_stopped srv_stopped = true
service_is_stopped _ = false

abbrev pub service_is_stopping : ServiceState → Bool
service_is_stopping srv_stopping = true
service_is_stopping _ = false

abbrev pub service_is_live : ServiceState → Bool
service_is_live srv_starting = true
service_is_live srv_started = true
service_is_live _ = false

unfoldable pub service_is_dead : ServiceState → Bool
service_is_dead s = service_is_stopping s || service_is_stopped s

-- What mwService_init does to the fields that it sets; the handlers are those of the service.
abbrev pub service_init : Service → ℕ → Service
service_init srvc type_ = record srvc { type_ = type_; state = srv_stopped }

unfoldable pub service_started : Service → Service
service_started srvc = record srvc { state = srv_started }

unfoldable pub service_stopped : Service → Service
service_stopped srvc =
    if service_is_stopped srvc.state then srvc else record srvc { state = srv_stopped }

-- if(srvc->start) srvc->start(srvc); else mwService_started(srvc);
-- with what is written.
abbrev pub run_start : Option Handler → Service → Service × List Message
run_start none srvc = (service_started srvc, [])
run_start (some f) srvc = let out = f srvc.state in (record srvc { state = out.0 }, out.1)

abbrev pub run_stop : Option Handler → Service → Service × List Message
run_stop none srvc = (service_stopped srvc, [])
run_stop (some f) srvc = let out = f srvc.state in (record srvc { state = out.0 }, out.1)

unfoldable pub service_start : Service → Service × List Message
service_start srvc =
    if service_is_stopped srvc.state
    then run_start srvc.start (record srvc { state = srv_starting })
    else (srvc, [])

unfoldable pub service_error : Service → Service × List Message
service_error srvc =
    if service_is_dead srvc.state
    then (srvc, [])
    else run_stop srvc.stop (record srvc { state = srv_error })

unfoldable pub service_stop : Service → Service × List Message
service_stop srvc =
    if service_is_dead srvc.state
    then (srvc, [])
    else run_stop srvc.stop (record srvc { state = srv_stopping })
