-- ===== src/Errors/Registry/FromPropertyValueModified.antt =====
-- include/registries/base_message_registry.hpp: the entries from PropertyValueModified to QueryParameterUnsupported.
use crow_core.Common.{List, [], ◌∷◌, codes}
use crow_core.Messages.{MessageEntry}

abbrev pub from_property_value_modified : List MessageEntry
from_property_value_modified =
    (
      codes "PropertyValueModified",
      record {
        description =
            codes
              "Indicates that a property was given the correct value type but the value of that property was modified.  Examples are truncated or rounded values.";
        message =
            codes "The property %1 was assigned the value '%2' due to modification by the service.";
        message_severity = codes "Warning";
        number_of_args = 2;
        param_types = codes "string" ∷ codes "string" ∷ [];
        resolution = codes "No resolution is required.";
      },
    )
    ∷ (
      codes "PropertyValueNotInList",
      record {
        description =
            codes
              "Indicates that a property was given the correct value type but the value of that property was not supported.  The value is not in an enumeration.";
        message =
            codes "The value '%1' for the property %2 is not in the list of acceptable values.";
        message_severity = codes "Warning";
        number_of_args = 2;
        param_types = codes "string" ∷ codes "string" ∷ [];
        resolution =
            codes
              "Choose a value from the enumeration list that the implementation can support and resubmit the request if the operation failed.";
      },
    )
    ∷ (
      codes "PropertyValueOutOfRange",
      record {
        description =
            codes
              "Indicates that a property was given the correct value type but the value of that property is outside the supported range.";
        message =
            codes
              "The value '%1' for the property %2 is not in the supported range of acceptable values.";
        message_severity = codes "Warning";
        number_of_args = 2;
        param_types = codes "string" ∷ codes "string" ∷ [];
        resolution =
            codes
              "Correct the value for the property in the request body and resubmit the request if the operation failed.";
      },
    )
    ∷ (
      codes "PropertyValueResourceConflict",
      record {
        description =
            codes
              "Indicates that the requested write of a property value could not be completed, due to the current state or configuration of another resource.";
        message =
            codes
              "The property '%1' with the requested value of '%2' could not be written because the value conflicts with the state or configuration of the resource at '%3'.";
        message_severity = codes "Warning";
        number_of_args = 3;
        param_types = codes "string" ∷ codes "string" ∷ codes "string" ∷ [];
        resolution = codes "No resolution is required.";
      },
    )
    ∷ (
      codes "PropertyValueTypeError",
      record {
        description =
            codes
              "Indicates that a property was given the wrong value type, such as when a number is supplied for a property that requires a string.";
        message =
            codes
              "The value '%1' for the property %2 is of a different type than the property can accept.";
        message_severity = codes "Warning";
        number_of_args = 2;
        param_types = codes "string" ∷ codes "string" ∷ [];
        resolution =
            codes
              "Correct the value for the property in the request body and resubmit the request if the operation failed.";
      },
    )
    ∷ (
      codes "QueryCombinationInvalid",
      record {
        description =
            codes
              "Indicates the request contains multiple query parameters, and that two or more of them cannot be used together.";
        message = codes "Two or more query parameters in the request cannot be used together.";
        message_severity = codes "Warning";
        number_of_args = 0;
        param_types = [];
        resolution =
            codes
              "Remove one or more of the query parameters and resubmit the request if the operation failed.";
      },
    )
    ∷ (
      codes "QueryNotSupported",
      record {
        description = codes "Indicates that query is not supported on the implementation.";
        message = codes "Querying is not supported by the implementation.";
        message_severity = codes "Warning";
        number_of_args = 0;
        param_types = [];
        resolution =
            codes "Remove the query parameters and resubmit the request if the operation failed.";
      },
    )
    ∷ (
      codes "QueryNotSupportedOnOperation",
      record {
        description =
            codes
              "Indicates that query is not supported with the given operation, such as when the `$expand` query is attempted with a PATCH operation.";
        message = codes "Querying is not supported with the requested operation.";
        message_severity = codes "Warning";
        number_of_args = 0;
        param_types = [];
        resolution =
            codes "Remove the query parameters and resubmit the request if the operation failed.";
      },
    )
    ∷ (
      codes "QueryNotSupportedOnResource",
      record {
        description =
            codes
              "Indicates that query is not supported on the given resource, such as when the `$skip` query is attempted on a resource that is not a collection.";
        message = codes "Querying is not supported on the requested resource.";
        message_severity = codes "Warning";
        number_of_args = 0;
        param_types = [];
        resolution =
            codes "Remove the query parameters and resubmit the request if the operation failed.";
      },
    )
    ∷ (
      codes "QueryParameterOutOfRange",
      record {
        description =
            codes
              "Indicates that a query parameter was provided that is out of range for the given resource.  This can happen with values that are too low or beyond that possible for the supplied resource, such as when a page is requested that is beyond the last page.";
        message = codes "The value '%1' for the query parameter %2 is out of range %3.";
        message_severity = codes "Warning";
        number_of_args = 3;
        param_types = codes "string" ∷ codes "string" ∷ codes "string" ∷ [];
        resolution =
            codes
              "Reduce the value for the query parameter to a value that is within range, such as a start or count value that is within bounds of the number of resources in a collection or a page that is within the range of valid pages.";
      },
    )
    ∷ (
      codes "QueryParameterUnsupported",
      record {
        description = codes "Indicates that a query parameter is not supported.";
        message = codes "Query parameter '%1' is not supported.";
        message_severity = codes "Warning";
        number_of_args = 1;
        param_types = codes "string" ∷ [];
        resolution = codes "Correct or remove the query parameter and resubmit the request.";
      },
    )
    ∷ []
