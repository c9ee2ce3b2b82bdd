-- ===== src/Errors/Registry/FromServiceTemporarilyUnavailable.antt =====
-- include/registries/base_message_registry.hpp: the entries from ServiceTemporarilyUnavailable to UnrecognizedRequestBody.
use crow_core.Common.{List, [], ◌∷◌, codes}
use crow_core.Messages.{MessageEntry}

abbrev pub from_service_temporarily_unavailable : List MessageEntry
from_service_temporarily_unavailable =
    (
      codes "ServiceTemporarilyUnavailable",
      record {
        description = codes "Indicates the service is temporarily unavailable.";
        message = codes "The service is temporarily unavailable.  Retry in %1 seconds.";
        message_severity = codes "Critical";
        number_of_args = 1;
        param_types = codes "string" ∷ [];
        resolution = codes "Wait for the indicated retry duration and retry the operation.";
      },
    )
    ∷ (
      codes "SessionLimitExceeded",
      record {
        description =
            codes
              "Indicates that a session establishment has been requested but the operation failed due to the number of simultaneous sessions exceeding the limit of the implementation.";
        message =
            codes
              "The session establishment failed due to the number of simultaneous sessions exceeding the limit of the implementation.";
        message_severity = codes "Critical";
        number_of_args = 0;
        param_types = [];
        resolution =
            codes
              "Reduce the number of other sessions before trying to establish the session or increase the limit of simultaneous sessions, if supported.";
      },
    )
    ∷ (
      codes "SessionTerminated",
      record {
        description =
            codes
              "Indicates that the DELETE operation on the session resource resulted in the successful termination of the session.";
        message = codes "The session was successfully terminated.";
        message_severity = codes "OK";
        number_of_args = 0;
        param_types = [];
        resolution = codes "No resolution is required.";
      },
    )
    ∷ (
      codes "SourceDoesNotSupportProtocol",
      record {
        description =
            codes
              "Indicates that while attempting to access, connect to or transfer a resource, file, or image from another location that the other end of the connection did not support the protocol.";
        message =
            codes
              "The other end of the connection at '%1' does not support the specified protocol %2.";
        message_severity = codes "Critical";
        number_of_args = 2;
        param_types = codes "string" ∷ codes "string" ∷ [];
        resolution = codes "Change protocols or URIs.";
      },
    )
    ∷ (
      codes "StrictAccountTypes",
      record {
        description =
            codes
              "Indicates the request failed because a set of `AccountTypes` or `OEMAccountTypes` was not accepted while `StrictAccountTypes` is set to `true`.";
        message =
            codes
              "The request was not possible to fulfill with the account types included in property '%1' and property StrictAccountTypes set to true.";
        message_severity = codes "Warning";
        number_of_args = 1;
        param_types = codes "string" ∷ [];
        resolution =
            codes
              "Resubmit the request either with an acceptable set of AccountTypes and OEMAccountTypes or with StrictAccountTypes set to false.";
      },
    )
    ∷ (
      codes "StringValueTooLong",
      record {
        description =
            codes
              "Indicates that a string value passed to the given resource exceeded its length limit.  An example is when a shorter limit is imposed by an implementation than that allowed by the specification.";
        message = codes "The string '%1' exceeds the length limit %2.";
        message_severity = codes "Warning";
        number_of_args = 2;
        param_types = codes "string" ∷ codes "number" ∷ [];
        resolution = codes "Resubmit the request with an appropriate string length.";
      },
    )
    ∷ (
      codes "StringValueTooShort",
      record {
        description =
            codes
              "Indicates that a string value passed to the given resource was under its minimum required length.  An example is when a higher minimum length is imposed by an implementation than that allowed by the specification.";
        message = codes "The string '%1' was under the minimum required length %2.";
        message_severity = codes "Warning";
        number_of_args = 2;
        param_types = codes "string" ∷ codes "number" ∷ [];
        resolution = codes "Resubmit the request with an appropriate string length.";
      },
    )
    ∷ (
      codes "SubscriptionTerminated",
      record {
        description =
            codes
              "An event subscription has been terminated by the service.  No further events will be delivered.";
        message = codes "The event subscription has been terminated.";
        message_severity = codes "OK";
        number_of_args = 0;
        param_types = [];
        resolution = codes "No resolution is required.";
      },
    )
    ∷ (
      codes "Success",
      record {
        description =
            codes "Indicates that all conditions of a successful operation have been met.";
        message = codes "The request completed successfully.";
        message_severity = codes "OK";
        number_of_args = 0;
        param_types = [];
        resolution = codes "None";
      },
    )
    ∷ (
      codes "UndeterminedFault",
      record {
        description =
            codes
              "Indicates that a fault or error condition exists but the source of the fault cannot be determined or is unknown to the service.";
        message = codes "A undetermined fault condition has been reported by '%1'.";
        message_severity = codes "Critical";
        number_of_args = 1;
        param_types = codes "string" ∷ [];
        resolution = codes "None.";
      },
    )
    ∷ (
      codes "UnrecognizedRequestBody",
      record {
        description =
            codes
              "Indicates that the service encountered an unrecognizable request body that could not even be interpreted as malformed JSON.";
        message =
            codes "The service detected a malformed request body that it was unable to interpret.";
        message_severity = codes "Warning";
        number_of_args = 0;
        param_types = [];
        resolution = codes "Correct the request body and resubmit the request if it failed.";
      },
    )
    ∷ []
