-- ===== src/Errors/Registry/FromActionParameterValueConflict.antt =====
-- include/registries/base_message_registry.hpp: the entries from ActionParameterValueConflict to ConditionInRelatedResource.
use crow_core.Common.{List, [], ◌∷◌, codes}
use crow_core.Messages.{MessageEntry}

abbrev pub from_action_parameter_value_conflict : List MessageEntry
from_action_parameter_value_conflict =
    (
      codes "ActionParameterValueConflict",
      record {
        description =
            codes
              "Indicates that the requested parameter value could not be completed, because of a mismatch with other parameters or properties in the resource.";
        message =
            codes
              "The parameter '%1' with the requested value of '%2' does not meet the constraints of the implementation.";
        message_severity = codes "Warning";
        number_of_args = 2;
        param_types = codes "string" ∷ codes "string" ∷ [];
        resolution = codes "No resolution is required.";
      },
    )
    ∷ (
      codes "ActionParameterValueError",
      record {
        description = codes "Indicates that a parameter was given an invalid value.";
        message = codes "The value for the parameter %1 in the action %2 is invalid.";
        message_severity = codes "Warning";
        number_of_args = 2;
        param_types = codes "string" ∷ codes "string" ∷ [];
        resolution =
            codes
              "Correct the value for the parameter in the request body and resubmit the request if the operation failed.";
      },
    )
    ∷ (
      codes "ActionParameterValueFormatError",
      record {
        description =
            codes
              "Indicates that a parameter was given the correct value type but the value of that parameter was not supported.  This includes the value size or length has been exceeded.";
        message =
            codes
              "The value '%1' for the parameter %2 in the action %3 is of a different format than the parameter can accept.";
        message_severity = codes "Warning";
        number_of_args = 3;
        param_types = codes "string" ∷ codes "string" ∷ codes "string" ∷ [];
        resolution =
            codes
              "Correct the value for the parameter in the request body and resubmit the request if the operation failed.";
      },
    )
    ∷ (
      codes "ActionParameterValueNotInList",
      record {
        description =
            codes
              "Indicates that a parameter was given the correct value type but the value of that parameter was not supported.  The value is not in an enumeration.";
        message =
            codes
              "The value '%1' for the parameter %2 in the action %3 is not in the list of acceptable values.";
        message_severity = codes "Warning";
        number_of_args = 3;
        param_types = codes "string" ∷ codes "string" ∷ codes "string" ∷ [];
        resolution =
            codes
              "Choose a value from the enumeration list that the implementation can support and resubmit the request if the operation failed.";
      },
    )
    ∷ (
      codes "ActionParameterValueTypeError",
      record {
        description =
            codes
              "Indicates that a parameter was given the wrong value type, such as when a number is supplied for a parameter that requires a string.";
        message =
            codes
              "The value '%1' for the parameter %2 in the action %3 is of a different type than the parameter can accept.";
        message_severity = codes "Warning";
        number_of_args = 3;
        param_types = codes "string" ∷ codes "string" ∷ codes "string" ∷ [];
        resolution =
            codes
              "Correct the value for the parameter in the request body and resubmit the request if the operation failed.";
      },
    )
    ∷ (
      codes "ArraySizeTooLong",
      record {
        description =
            codes "Indicates that the size of the array exceeded the maximum number of elements.";
        message = codes "The array provided for property %1 exceeds the size limit %2.";
        message_severity = codes "Warning";
        number_of_args = 2;
        param_types = codes "string" ∷ codes "number" ∷ [];
        resolution = codes "Resubmit the request with an appropriate array size.";
      },
    )
    ∷ (
      codes "ArraySizeTooShort",
      record {
        description =
            codes "Indicates that the size of the array is under the minimum number of elements.";
        message = codes "The array provided for property %1 is under the minimum size limit %2.";
        message_severity = codes "Warning";
        number_of_args = 2;
        param_types = codes "string" ∷ codes "number" ∷ [];
        resolution = codes "Resubmit the request with an appropriate array size.";
      },
    )
    ∷ (
      codes "AuthenticationTokenRequired",
      record {
        description =
            codes
              "Indicates that the request could not be performed because an authentication token was not provided.";
        message =
            codes
              "The request could not be performed because an authentication token was not provided.";
        message_severity = codes "Critical";
        number_of_args = 0;
        param_types = [];
        resolution = codes "Obtain an authentication token and resubmit the request.";
      },
    )
    ∷ (
      codes "ChassisPowerStateOffRequired",
      record {
        description =
            codes "Indicates that the request requires a specified chassis to be powered off.";
        message =
            codes "The Chassis with Id '%1' requires to be powered off to perform this request.";
        message_severity = codes "Warning";
        number_of_args = 1;
        param_types = codes "string" ∷ [];
        resolution = codes "Power off the specified chassis and resubmit the request.";
      },
    )
    ∷ (
      codes "ChassisPowerStateOnRequired",
      record {
        description =
            codes "Indicates that the request requires a specified chassis to be powered on.";
        message =
            codes "The chassis with Id '%1' requires to be powered on to perform this request.";
        message_severity = codes "Warning";
        number_of_args = 1;
        param_types = codes "string" ∷ [];
        resolution = codes "Power on the specified chassis and resubmit the request.";
      },
    )
    ∷ (
      codes "ConditionInRelatedResource",
      record {
        description =
            codes
              "Indicates that one or more fault or error conditions exist in a related resource.";
        message =
            codes
              "One or more conditions exist in a related resource.  See the OriginOfCondition property.";
        message_severity = codes "Warning";
        number_of_args = 0;
        param_types = [];
        resolution =
            codes
              "Check the Conditions array in the resource shown in the OriginOfCondition property to determine the conditions that need attention.";
      },
    )
    ∷ []
