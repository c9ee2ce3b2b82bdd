-- ===== src/Errors/Logs/Calls.antt =====
-- redfish_event/src/error_messages.cpp: the functions for the messages beside the entries of the registry. Left out are
-- chassisPowerStateOnRequired and invalidUpload, which have no entry of their own there.
mod Actions
mod Properties
mod Resources
mod Services
pub mod Every
use crow_core.Common.{Bytes, length, List, [], ◌∷◌, Option, some, All, ◌≡◌, ◌∙◌}
use crow_core.Json.{Json}
use crow_core.Messages.Templates.{expand}
use crow_core.Errors.{get_log}
use crow_core.Errors.Registry.{Index}
use crow_core.Errors.Filled.{entry_of, pieces_of, last_of, message_json, get_log-filled}

-- A function's message: the entry that is meant, the arguments for it, and what the function returns.
abbrev pub Call : Type 0
Call = Index × List Bytes × Option Json

-- The call returns its entry's message with every argument in its place.
abbrev pub IsFilled : Call → Type 0
IsFilled (name, args, returned) =
    (text : Bytes) × (expand args (pieces_of (entry_of name)) (last_of (entry_of name)) ≡ some text)
    × (returned ≡ some (message_json (entry_of name) args text))

abbrev pub Fits : Call → Type 0
Fits (name, args, returned) =
    (length args ≡ (entry_of name).1.number_of_args) × (returned ≡ get_log name args)

pub All-IsFilled : (calls : List Call) → All Fits calls → All IsFilled calls
All-IsFilled [] h = tt
All-IsFilled ((name, args, returned) ∷ calls) ((count, same), h) =
    let (printed, text, expanded, logged) = get_log-filled name args count in
    ((text, expanded, same ∙ logged), All-IsFilled calls h)
