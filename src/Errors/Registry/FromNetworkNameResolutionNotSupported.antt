-- ===== src/Errors/Registry/FromNetworkNameResolutionNotSupported.antt =====
-- include/registries/base_message_registry.hpp: the entries from NetworkNameResolutionNotSupported to PropertyDeprecated.
use crow_core.Common.{List, [], ◌∷◌, codes}
use crow_core.Messages.{MessageEntry}

abbrev pub from_network_name_resolution_not_supported : List MessageEntry
from_network_name_resolution_not_supported =
    (
      codes "NetworkNameResolutionNotSupported",
      record {
        description = codes "Indicates the service does not support network-based name resolution.";
        message = codes "Resolution of network-based names is not supported by this service.";
        message_severity = codes "Warning";
        number_of_args = 0;
        param_types = [];
        resolution =
            codes
              "Update any URI values to include an IP address instead of a network name and resubmit the request.";
      },
    )
    ∷ (
      codes "NoOperation",
      record {
        description =
            codes
              "Indicates that the requested operation will not perform any changes on the service.";
        message =
            codes
              "The request body submitted contain no data to act upon and no changes to the resource took place.";
        message_severity = codes "Warning";
        number_of_args = 0;
        param_types = [];
        resolution = codes "Add properties in the JSON object and resubmit the request.";
      },
    )
    ∷ (
      codes "NoValidSession",
      record {
        description =
            codes
              "Indicates that the operation failed because a valid session is required in order to access any resources.";
        message = codes "There is no valid session established with the implementation.";
        message_severity = codes "Critical";
        number_of_args = 0;
        param_types = [];
        resolution = codes "Establish a session before attempting any operations.";
      },
    )
    ∷ (
      codes "OperationFailed",
      record {
        description =
            codes
              "Indicates that one of the internal operations necessary to complete the request failed.  Examples of this are when an internal service provider is unable to complete the request, such as in aggregation or RDE.";
        message =
            codes
              "An error occurred internal to the service as part of the overall request.  Partial results may have been returned.";
        message_severity = codes "Warning";
        number_of_args = 0;
        param_types = [];
        resolution =
            codes
              "Resubmit the request.  If the problem persists, consider resetting the service or provider.";
      },
    )
    ∷ (
      codes "OperationNotAllowed",
      record {
        description =
            codes "Indicates that the HTTP method in the request is not allowed on this resource.";
        message = codes "The HTTP method is not allowed on this resource.";
        message_severity = codes "Critical";
        number_of_args = 0;
        param_types = [];
        resolution = codes "None.";
      },
    )
    ∷ (
      codes "OperationTimeout",
      record {
        description =
            codes
              "Indicates that one of the internal operations necessary to complete the request timed out.  Examples of this are when an internal service provider is unable to complete the request, such as in aggregation or RDE.";
        message =
            codes
              "A timeout internal to the service occured as part of the request.  Partial results may have been returned.";
        message_severity = codes "Warning";
        number_of_args = 0;
        param_types = [];
        resolution =
            codes
              "Resubmit the request.  If the problem persists, consider resetting the service or provider.";
      },
    )
    ∷ (
      codes "PasswordChangeRequired",
      record {
        description =
            codes
              "Indicates that the password for the account provided must be changed before accessing the service.  The password can be changed with a PATCH to the `Password` property in the manager account resource instance.  Implementations that provide a default password for an account may require a password change prior to first access to the service.";
        message =
            codes
              "The password provided for this account must be changed before access is granted.  PATCH the Password property for this account located at the target URI '%1' to complete this process.";
        message_severity = codes "Critical";
        number_of_args = 1;
        param_types = codes "string" ∷ [];
        resolution =
            codes
              "Change the password for this account using a PATCH to the Password property at the URI provided.";
      },
    )
    ∷ (
      codes "PayloadTooLarge",
      record {
        description =
            codes "Indicates that the supplied payload is too large to be accepted by the service.";
        message = codes "The supplied payload exceeds the maximum size supported by the service.";
        message_severity = codes "Critical";
        number_of_args = 0;
        param_types = [];
        resolution =
            codes "Check that the supplied payload is correct and supported by this service.";
      },
    )
    ∷ (
      codes "PreconditionFailed",
      record {
        description =
            codes
              "Indicates that the ETag supplied did not match the current ETag of the resource.";
        message =
            codes "The ETag supplied did not match the ETag required to change this resource.";
        message_severity = codes "Critical";
        number_of_args = 0;
        param_types = [];
        resolution = codes "Try the operation again using the appropriate ETag.";
      },
    )
    ∷ (
      codes "PreconditionRequired",
      record {
        description =
            codes
              "Indicates that the request did not provide the required precondition such as an `If-Match` or `If-None-Match` header, or `@odata.etag` annotations.";
        message = codes "A precondition header or annotation is required to change this resource.";
        message_severity = codes "Critical";
        number_of_args = 0;
        param_types = [];
        resolution =
            codes
              "Try the operation again using an If-Match or If-None-Match header and appropriate ETag.";
      },
    )
    ∷ (
      codes "PropertyDeprecated",
      record {
        description = codes "Indicates the property is deprecated.";
        message = codes "The deprecated property %1 was included in the request body.";
        message_severity = codes "Warning";
        number_of_args = 1;
        param_types = codes "string" ∷ [];
        resolution = codes "Refer to the schema guide for more information.";
      },
    )
    ∷ []
