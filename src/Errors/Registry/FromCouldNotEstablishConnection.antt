-- ===== src/Errors/Registry/FromCouldNotEstablishConnection.antt =====
-- include/registries/base_message_registry.hpp: the entries from CouldNotEstablishConnection to InsufficientPrivilege.
use crow_core.Common.{List, [], ◌∷◌, codes}
use crow_core.Messages.{MessageEntry}

abbrev pub from_could_not_establish_connection : List MessageEntry
from_could_not_establish_connection =
    (
      codes "CouldNotEstablishConnection",
      record {
        description =
            codes
              "Indicates that the attempt to access the resource, file, or image at the URI was unsuccessful because a session could not be established.";
        message = codes "The service failed to establish a connection with the URI '%1'.";
        message_severity = codes "Critical";
        number_of_args = 1;
        param_types = codes "string" ∷ [];
        resolution =
            codes
              "Ensure that the URI contains a valid and reachable node name, protocol information and other URI components.";
      },
    )
    ∷ (
      codes "CreateFailedMissingReqProperties",
      record {
        description =
            codes
              "Indicates that a create was attempted on a resource but that properties that are required for the create operation were missing from the request.";
        message =
            codes
              "The create operation failed because the required property %1 was missing from the request.";
        message_severity = codes "Critical";
        number_of_args = 1;
        param_types = codes "string" ∷ [];
        resolution =
            codes
              "Correct the body to include the required property with a valid value and resubmit the request if the operation failed.";
      },
    )
    ∷ (
      codes "CreateLimitReachedForResource",
      record {
        description =
            codes
              "Indicates that no more resources can be created on the resource as it has reached its create limit.";
        message =
            codes
              "The create operation failed because the resource has reached the limit of possible resources.";
        message_severity = codes "Critical";
        number_of_args = 0;
        param_types = [];
        resolution =
            codes
              "Either delete resources and resubmit the request if the operation failed or do not resubmit the request.";
      },
    )
    ∷ (
      codes "Created",
      record {
        description =
            codes "Indicates that all conditions of a successful create operation have been met.";
        message = codes "The resource has been created successfully.";
        message_severity = codes "OK";
        number_of_args = 0;
        param_types = [];
        resolution = codes "None.";
      },
    )
    ∷ (
      codes "EmptyJSON",
      record {
        description =
            codes
              "Indicates that the request body contained an empty JSON object when one or more properties are expected in the body.";
        message =
            codes
              "The request body submitted contained an empty JSON object and the service is unable to process it.";
        message_severity = codes "Warning";
        number_of_args = 0;
        param_types = [];
        resolution = codes "Add properties in the JSON object and resubmit the request.";
      },
    )
    ∷ (
      codes "EventBufferExceeded",
      record {
        description =
            codes
              "Indicates undelivered events may have been lost due to a lack of buffer space in the service.";
        message = codes "Undelivered events may have been lost due to exceeding the event buffer.";
        message_severity = codes "Warning";
        number_of_args = 0;
        param_types = [];
        resolution = codes "None.";
      },
    )
    ∷ (
      codes "EventSubscriptionLimitExceeded",
      record {
        description =
            codes
              "Indicates that a event subscription establishment has been requested but the operation failed due to the number of simultaneous connection exceeding the limit of the implementation.";
        message =
            codes
              "The event subscription failed due to the number of simultaneous subscriptions exceeding the limit of the implementation.";
        message_severity = codes "Critical";
        number_of_args = 0;
        param_types = [];
        resolution =
            codes
              "Reduce the number of other subscriptions before trying to establish the event subscription or increase the limit of simultaneous subscriptions, if supported.";
      },
    )
    ∷ (
      codes "GeneralError",
      record {
        description =
            codes
              "Indicates that a general error has occurred.  Use in `@Message.ExtendedInfo` is discouraged.  When used in `@Message.ExtendedInfo`, implementations are expected to include a `Resolution` property with this message and provide a service-defined resolution to indicate how to resolve the error.";
        message =
            codes
              "A general error has occurred.  See Resolution for information on how to resolve the error, or @Message.ExtendedInfo if Resolution is not provided.";
        message_severity = codes "Critical";
        number_of_args = 0;
        param_types = [];
        resolution = codes "None.";
      },
    )
    ∷ (
      codes "HeaderInvalid",
      record {
        description = codes "Indicates that a request header is invalid.";
        message = codes "Header '%1' is invalid.";
        message_severity = codes "Critical";
        number_of_args = 1;
        param_types = codes "string" ∷ [];
        resolution = codes "Resubmit the request with a valid request header.";
      },
    )
    ∷ (
      codes "HeaderMissing",
      record {
        description = codes "Indicates that a required request header is missing.";
        message = codes "Required header '%1' is missing in the request.";
        message_severity = codes "Critical";
        number_of_args = 1;
        param_types = codes "string" ∷ [];
        resolution = codes "Resubmit the request with the required request header.";
      },
    )
    ∷ (
      codes "InsufficientPrivilege",
      record {
        description =
            codes
              "Indicates that the credentials associated with the established session do not have sufficient privileges for the requested operation.";
        message =
            codes
              "There are insufficient privileges for the account or credentials associated with the current session to perform the requested operation.";
        message_severity = codes "Critical";
        number_of_args = 0;
        param_types = [];
        resolution =
            codes
              "Either abandon the operation or change the associated access rights and resubmit the request if the operation failed.";
      },
    )
    ∷ []
