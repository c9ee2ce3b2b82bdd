-- ===== src/Errors/Logs/Calls/Every.antt =====
-- redfish_event/src/error_messages.cpp: all the functions that take their message from the registry.
use crow_core.Errors.Registry.{Index, registry, index_of}
use crow_core.Errors.Filled.{entry_of, message_json}
use crow_core.Messages.{
  get_log_from_registry, fill_message_args, fill_loop, find_percent, from_chars,
}
use crow_core.Errors.{get_log, log_at}
use crow_core.Errors.Logs.Resources.{chassis_power_state_on_required}
use crow_core.Common.{
  ℕ, ℤ, Bytes, List, ◌++◌, All, All-append, [], ◌∷◌, some, ◌≡◌, refl, scan_digits, digits_of,
}
use crow_core.Json.{Json}
use crow_core.Errors.Logs.Sending.{Dump}
use crow_core.Errors.Logs.Calls.{Call, IsFilled}
use crow_core.Errors.Logs.Calls.Actions.{actions_calls, actions_calls-IsFilled}
use crow_core.Errors.Logs.Calls.Properties.{properties_calls, properties_calls-IsFilled}
use crow_core.Errors.Logs.Calls.Resources.{resources_calls, resources_calls-IsFilled}
use crow_core.Errors.Logs.Calls.Services.{services_calls, services_calls-IsFilled}

-- Each function that makes a message of the registry, on any arguments.
abbrev pub every_call : Dump → Json → Bytes → Bytes → Bytes → ℤ → ℕ → List Call
every_call dump j s t u i n =
    actions_calls dump j s t u i n
    ++ (properties_calls dump j s t u i n
        ++ (resources_calls dump j s t u i n ++ services_calls dump j s t u i n))

-- The 81 functions for messages of the registry, without chassisPowerStateOnRequired, each return the message of the entry
-- they are named after, with each of their arguments in the place that the entry's text has for it: none is missing,
-- whatever the arguments are and however the library prints a value.
pub every_call-IsFilled :
    (dump : Dump) (j : Json) (s t u : Bytes) (i : ℤ) (n : ℕ)
    → All IsFilled (every_call dump j s t u i n)
every_call-IsFilled dump j s t u i n =
    let services = services_calls dump j s t u i n in
    let resources = resources_calls dump j s t u i n in
    let properties = properties_calls dump j s t u i n in
    All-append IsFilled (actions_calls dump j s t u i n) (properties ++ (resources ++ services))
      (actions_calls-IsFilled dump j s t u i n)
      (All-append IsFilled properties (resources ++ services)
        (properties_calls-IsFilled dump j s t u i n)
        (All-append IsFilled resources services (resources_calls-IsFilled dump j s t u i n)
          (services_calls-IsFilled dump j s t u i n)))

-- chassisPowerStateOnRequired takes the entry ResetRequired, whose text has two arguments, and gives it one: whatever
-- the argument is, the message that it returns is empty.
pub chassis_power_state_on_required-empty :
    (arg : Bytes)
    → chassis_power_state_on_required arg
      ≡ some (message_json (entry_of Index.reset_required) (arg ∷ []) [])
unfolding chassis_power_state_on_required get_log log_at get_log_from_registry entry_of registry
    index_of message_json fill_message_args fill_loop find_percent from_chars digits_of scan_digits
chassis_power_state_on_required-empty arg = refl
