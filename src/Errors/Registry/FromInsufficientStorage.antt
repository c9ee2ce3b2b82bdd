-- ===== src/Errors/Registry/FromInsufficientStorage.antt =====
-- include/registries/base_message_registry.hpp: the entries from InsufficientStorage to NetworkNameResolutionNotConfigured.
use crow_core.Common.{List, [], ◌∷◌, codes}
use crow_core.Messages.{MessageEntry}

abbrev pub from_insufficient_storage : List MessageEntry
from_insufficient_storage =
    (
      codes "InsufficientStorage",
      record {
        description =
            codes
              "Indicates that the operation could not be completed due to a lack of storage or memory avaiable to the service.";
        message = codes "Insufficent storage or memory available to complete the request.";
        message_severity = codes "Critical";
        number_of_args = 0;
        param_types = [];
        resolution =
            codes
              "Increase the free storage space available to the service and resubmit the request.";
      },
    )
    ∷ (
      codes "InternalError",
      record {
        description =
            codes
              "Indicates that the request failed for an unknown internal error but that the service is still operational.";
        message =
            codes
              "The request failed due to an internal service error.  The service is still operational.";
        message_severity = codes "Critical";
        number_of_args = 0;
        param_types = [];
        resolution =
            codes "Resubmit the request.  If the problem persists, consider resetting the service.";
      },
    )
    ∷ (
      codes "InvalidIndex",
      record {
        description = codes "The index is not valid.";
        message = codes "The index %1 is not a valid offset into the array.";
        message_severity = codes "Warning";
        number_of_args = 1;
        param_types = codes "number" ∷ [];
        resolution = codes "Verify the index value provided is within the bounds of the array.";
      },
    )
    ∷ (
      codes "InvalidJSON",
      record {
        description = codes "Indicates that the request body contains invalid JSON.";
        message =
            codes
              "The request body submitted is invalid JSON starting at line %1 and could not be parsed by the receiving service.";
        message_severity = codes "Critical";
        number_of_args = 1;
        param_types = codes "number" ∷ [];
        resolution = codes "Ensure that the request body is valid JSON and resubmit the request.";
      },
    )
    ∷ (
      codes "InvalidObject",
      record {
        description =
            codes
              "Indicates that the object in question is invalid according to the implementation.  Examples include a firmware update malformed URI.";
        message = codes "The object at '%1' is invalid.";
        message_severity = codes "Critical";
        number_of_args = 1;
        param_types = codes "string" ∷ [];
        resolution =
            codes
              "Either the object is malformed or the URI is not correct.  Correct the condition and resubmit the request if it failed.";
      },
    )
    ∷ (
      codes "InvalidURI",
      record {
        description =
            codes
              "Indicates that the operation encountered a URI that does not correspond to a valid resource.";
        message = codes "The URI %1 was not found.";
        message_severity = codes "Critical";
        number_of_args = 1;
        param_types = codes "string" ∷ [];
        resolution = codes "Provide a valid URI and resubmit the request.";
      },
    )
    ∷ (
      codes "LicenseRequired",
      record {
        description =
            codes "Indicates that a license is required to perform the requested operation.";
        message = codes "A license is required for this operation: %1.";
        message_severity = codes "Critical";
        number_of_args = 1;
        param_types = codes "string" ∷ [];
        resolution = codes "Install the requested license and resubmit the request.";
      },
    )
    ∷ (
      codes "MalformedJSON",
      record {
        description = codes "Indicates that the request body was malformed JSON.";
        message =
            codes
              "The request body submitted was malformed JSON and could not be parsed by the receiving service.";
        message_severity = codes "Critical";
        number_of_args = 0;
        param_types = [];
        resolution = codes "Ensure that the request body is valid JSON and resubmit the request.";
      },
    )
    ∷ (
      codes "MaximumErrorsExceeded",
      record {
        description =
            codes
              "Indicates that sufficient errors have occurred that the reporting service cannot return them all.";
        message = codes "Too many errors have occurred to report them all.";
        message_severity = codes "Critical";
        number_of_args = 0;
        param_types = [];
        resolution = codes "Resolve other reported errors and retry the current operation.";
      },
    )
    ∷ (
      codes "MissingOrMalformedPart",
      record {
        description =
            codes
              "Indicates that a multipart request is missing a required part or contains malformed parts.";
        message =
            codes "The multipart request contains malformed parts or is missing required parts.";
        message_severity = codes "Critical";
        number_of_args = 0;
        param_types = [];
        resolution =
            codes
              "Add any missing required parts or correct the malformed parts and resubmit the request.";
      },
    )
    ∷ (
      codes "NetworkNameResolutionNotConfigured",
      record {
        description =
            codes
              "Indicates that network-based name resolution has not been configured on the service.";
        message = codes "Network name resolution has not been configured on this service.";
        message_severity = codes "Warning";
        number_of_args = 0;
        param_types = [];
        resolution =
            codes
              "Configure the network name resolution protocol support on this service, or update any URI values to include an IP address instead of a network name and resubmit the request.";
      },
    )
    ∷ []
