-- ===== src/Errors/Registry/FromPropertyDuplicate.antt =====
-- include/registries/base_message_registry.hpp: the entries from PropertyDuplicate to PropertyValueIncorrect.
use crow_core.Common.{List, [], ◌∷◌, codes}
use crow_core.Messages.{MessageEntry}

abbrev pub from_property_duplicate : List MessageEntry
from_property_duplicate =
    (
      codes "PropertyDuplicate",
      record {
        description = codes "Indicates that a duplicate property was included in the request body.";
        message = codes "The property %1 was duplicated in the request.";
        message_severity = codes "Warning";
        number_of_args = 1;
        param_types = codes "string" ∷ [];
        resolution =
            codes
              "Remove the duplicate property from the request body and resubmit the request if the operation failed.";
      },
    )
    ∷ (
      codes "PropertyMissing",
      record {
        description =
            codes "Indicates that a required property was not supplied as part of the request.";
        message =
            codes "The property %1 is a required property and must be included in the request.";
        message_severity = codes "Warning";
        number_of_args = 1;
        param_types = codes "string" ∷ [];
        resolution =
            codes
              "Ensure that the property is in the request body and has a valid value and resubmit the request if the operation failed.";
      },
    )
    ∷ (
      codes "PropertyNotUpdated",
      record {
        description =
            codes
              "Indicates that a property was not updated due to an internal service error, but the service is still functional.";
        message =
            codes
              "The property %1 was not updated due to an internal service error.  The service is still operational.";
        message_severity = codes "Critical";
        number_of_args = 1;
        param_types = codes "string" ∷ [];
        resolution =
            codes
              "Resubmit the request.  If the problem persists, check for additional messages and consider resetting the service.";
      },
    )
    ∷ (
      codes "PropertyNotWritable",
      record {
        description =
            codes
              "Indicates that a property was given a value in the request body, but the property is a readonly property.";
        message = codes "The property %1 is a read only property and cannot be assigned a value.";
        message_severity = codes "Warning";
        number_of_args = 1;
        param_types = codes "string" ∷ [];
        resolution =
            codes
              "Remove the property from the request body and resubmit the request if the operation failed.";
      },
    )
    ∷ (
      codes "PropertyUnknown",
      record {
        description = codes "Indicates that an unknown property was included in the request body.";
        message = codes "The property %1 is not in the list of valid properties for the resource.";
        message_severity = codes "Warning";
        number_of_args = 1;
        param_types = codes "string" ∷ [];
        resolution =
            codes
              "Remove the unknown property from the request body and resubmit the request if the operation failed.";
      },
    )
    ∷ (
      codes "PropertyValueConflict",
      record {
        description =
            codes
              "Indicates that the requested write of a property value could not be completed, because of a conflict with another property value.";
        message =
            codes
              "The property '%1' could not be written because its value would conflict with the value of the '%2' property.";
        message_severity = codes "Warning";
        number_of_args = 2;
        param_types = codes "string" ∷ codes "string" ∷ [];
        resolution = codes "No resolution is required.";
      },
    )
    ∷ (
      codes "PropertyValueDeprecated",
      record {
        description = codes "Indicates that a property was given a deprecated value.";
        message = codes "The value '%1' for the property %2 is deprecated.";
        message_severity = codes "Warning";
        number_of_args = 2;
        param_types = codes "string" ∷ codes "string" ∷ [];
        resolution = codes "Refer to the schema guide for more information.";
      },
    )
    ∷ (
      codes "PropertyValueError",
      record {
        description = codes "Indicates that a property was given an invalid value.";
        message = codes "The value provided for the property %1 is not valid.";
        message_severity = codes "Warning";
        number_of_args = 1;
        param_types = codes "string" ∷ [];
        resolution =
            codes
              "Correct the value for the property in the request body and resubmit the request if the operation failed.";
      },
    )
    ∷ (
      codes "PropertyValueExternalConflict",
      record {
        description =
            codes
              "Indicates that the requested write of a property value could not be completed, due to the current state or configuration of the resource.  This can include configuration conflicts with other resources or parameters that are not exposed by this interface.";
        message =
            codes
              "The property '%1' with the requested value of '%2' could not be written because the value is not available due to a configuration conflict.";
        message_severity = codes "Warning";
        number_of_args = 2;
        param_types = codes "string" ∷ codes "string" ∷ [];
        resolution = codes "No resolution is required.";
      },
    )
    ∷ (
      codes "PropertyValueFormatError",
      record {
        description =
            codes
              "Indicates that a property was given the correct value type but the value of that property was not supported.";
        message =
            codes
              "The value '%1' for the property %2 is of a different format than the property can accept.";
        message_severity = codes "Warning";
        number_of_args = 2;
        param_types = codes "string" ∷ codes "string" ∷ [];
        resolution =
            codes
              "Correct the value for the property in the request body and resubmit the request if the operation failed.";
      },
    )
    ∷ (
      codes "PropertyValueIncorrect",
      record {
        description =
            codes
              "Indicates that the requested write of a property value could not be completed, because of an incorrect value of the property.  Examples include values that do not match a regular expression requirement or passwords that do not match the implementation constraints.";
        message =
            codes
              "The property '%1' with the requested value of '%2' could not be written because the value does not meet the constraints of the implementation.";
        message_severity = codes "Warning";
        number_of_args = 2;
        param_types = codes "string" ∷ codes "string" ∷ [];
        resolution = codes "No resolution is required.";
      },
    )
    ∷ []
