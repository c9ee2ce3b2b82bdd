-- ===== src/Errors/Registry/FromQueryParameterValueError.antt =====
-- include/registries/base_message_registry.hpp: the entries from QueryParameterValueError to ResourceDeprecated.
use crow_core.Common.{List, [], ◌∷◌, codes}
use crow_core.Messages.{MessageEntry}

abbrev pub from_query_parameter_value_error : List MessageEntry
from_query_parameter_value_error =
    (
      codes "QueryParameterValueError",
      record {
        description = codes "Indicates that a query parameter was given an invalid value.";
        message = codes "The value for the parameter %1 is invalid.";
        message_severity = codes "Warning";
        number_of_args = 1;
        param_types = codes "string" ∷ [];
        resolution =
            codes
              "Correct the value for the query parameter in the request and resubmit the request if the operation failed.";
      },
    )
    ∷ (
      codes "QueryParameterValueFormatError",
      record {
        description =
            codes
              "Indicates that a query parameter was given the correct value type but the value of that parameter was not supported.  This includes the value size or length has been exceeded.";
        message =
            codes
              "The value '%1' for the parameter %2 is of a different format than the parameter can accept.";
        message_severity = codes "Warning";
        number_of_args = 2;
        param_types = codes "string" ∷ codes "string" ∷ [];
        resolution =
            codes
              "Correct the value for the query parameter in the request and resubmit the request if the operation failed.";
      },
    )
    ∷ (
      codes "QueryParameterValueTypeError",
      record {
        description =
            codes
              "Indicates that a query parameter was given the wrong value type, such as when a number is supplied for a query parameter that requires a string.";
        message =
            codes
              "The value '%1' for the query parameter %2 is of a different type than the parameter can accept.";
        message_severity = codes "Warning";
        number_of_args = 2;
        param_types = codes "string" ∷ codes "string" ∷ [];
        resolution =
            codes
              "Correct the value for the query parameter in the request and resubmit the request if the operation failed.";
      },
    )
    ∷ (
      codes "ResetRecommended",
      record {
        description =
            codes
              "Indicates that a component reset is recommended for error recovery while unaffected applications can continue running without any effects on accuracy and performance.";
        message =
            codes
              "In order to recover from errors, a component reset is recommended with the Reset action URI '%1' and ResetType '%2'.";
        message_severity = codes "Warning";
        number_of_args = 2;
        param_types = codes "string" ∷ codes "string" ∷ [];
        resolution = codes "Perform the recommended reset action on the specified component.";
      },
    )
    ∷ (
      codes "ResetRequired",
      record {
        description =
            codes
              "Indicates that a component reset is required for changes, error recovery, or operations to complete.";
        message =
            codes
              "In order to apply changes, recover from errors, or complete the operation, a component reset is required with the Reset action URI '%1' and ResetType '%2'.";
        message_severity = codes "Warning";
        number_of_args = 2;
        param_types = codes "string" ∷ codes "string" ∷ [];
        resolution = codes "Perform the required reset action on the specified component.";
      },
    )
    ∷ (
      codes "ResourceAlreadyExists",
      record {
        description =
            codes
              "Indicates that a resource change or creation was attempted but that the operation cannot proceed because the resource already exists.";
        message =
            codes
              "The requested resource of type %1 with the property %2 with the value '%3' already exists.";
        message_severity = codes "Critical";
        number_of_args = 3;
        param_types = codes "string" ∷ codes "string" ∷ codes "string" ∷ [];
        resolution =
            codes "Do not repeat the create operation as the resource has already been created.";
      },
    )
    ∷ (
      codes "ResourceAtUriInUnknownFormat",
      record {
        description =
            codes
              "Indicates that the URI was valid but the resource or image at that URI was in a format not supported by the service.";
        message = codes "The resource at '%1' is in a format not recognized by the service.";
        message_severity = codes "Critical";
        number_of_args = 1;
        param_types = codes "string" ∷ [];
        resolution =
            codes
              "Place an image or resource or file that is recognized by the service at the URI.";
      },
    )
    ∷ (
      codes "ResourceAtUriUnauthorized",
      record {
        description =
            codes
              "Indicates that the attempt to access the resource, file, or image at the URI was unauthorized.";
        message =
            codes
              "While accessing the resource at '%1', the service received an authorization error '%2'.";
        message_severity = codes "Critical";
        number_of_args = 2;
        param_types = codes "string" ∷ codes "string" ∷ [];
        resolution =
            codes
              "Ensure that the appropriate access is provided for the service in order for it to access the URI.";
      },
    )
    ∷ (
      codes "ResourceCannotBeDeleted",
      record {
        description =
            codes
              "Indicates that a delete operation was attempted on a resource that cannot be deleted.";
        message =
            codes "The delete request failed because the resource requested cannot be deleted.";
        message_severity = codes "Critical";
        number_of_args = 0;
        param_types = [];
        resolution = codes "Do not attempt to delete a non-deletable resource.";
      },
    )
    ∷ (
      codes "ResourceCreationConflict",
      record {
        description =
            codes
              "Indicates that the requested resource creation could not be completed because the service has a resource that conflicts with the request.";
        message =
            codes
              "The resource could not be created.  The service has a resource at URI '%1' that conflicts with the creation request.";
        message_severity = codes "Warning";
        number_of_args = 1;
        param_types = codes "string" ∷ [];
        resolution = codes "No resolution is required.";
      },
    )
    ∷ (
      codes "ResourceDeprecated",
      record {
        description = codes "Indicates the resource is deprecated.";
        message = codes "The operation was performed on a deprecated resource '%1'.";
        message_severity = codes "Warning";
        number_of_args = 1;
        param_types = codes "string" ∷ [];
        resolution = codes "Refer to the schema guide for more information.";
      },
    )
    ∷ []
