-- ===== src/Errors/Registry/FromResourceExhaustion.antt =====
-- include/registries/base_message_registry.hpp: the entries from ResourceExhaustion to ServiceShuttingDown.
use crow_core.Common.{List, [], ◌∷◌, codes}
use crow_core.Messages.{MessageEntry}

abbrev pub from_resource_exhaustion : List MessageEntry
from_resource_exhaustion =
    (
      codes "ResourceExhaustion",
      record {
        description =
            codes
              "Indicates that a resource could not satisfy the request due to some unavailability of resources.  An example is that available capacity has been allocated.";
        message =
            codes
              "The resource '%1' was unable to satisfy the request due to unavailability of resources.";
        message_severity = codes "Critical";
        number_of_args = 1;
        param_types = codes "string" ∷ [];
        resolution = codes "Ensure that the resources are available and resubmit the request.";
      },
    )
    ∷ (
      codes "ResourceInStandby",
      record {
        description =
            codes
              "Indicates that the request could not be performed because the resource is in standby.";
        message = codes "The request could not be performed because the resource is in standby.";
        message_severity = codes "Critical";
        number_of_args = 0;
        param_types = [];
        resolution =
            codes
              "Ensure that the resource is in the correct power state and resubmit the request.";
      },
    )
    ∷ (
      codes "ResourceInUse",
      record {
        description =
            codes
              "Indicates that a change was requested to a resource but the change was rejected due to the resource being in use or transition.";
        message =
            codes
              "The change to the requested resource failed because the resource is in use or in transition.";
        message_severity = codes "Warning";
        number_of_args = 0;
        param_types = [];
        resolution = codes "Remove the condition and resubmit the request if the operation failed.";
      },
    )
    ∷ (
      codes "ResourceMissingAtURI",
      record {
        description =
            codes
              "Indicates that the operation expected an image or other resource at the provided URI but none was found.  Examples of this are in requests that require URIs like firmware update.";
        message = codes "The resource at the URI '%1' was not found.";
        message_severity = codes "Critical";
        number_of_args = 1;
        param_types = codes "string" ∷ [];
        resolution =
            codes "Place a valid resource at the URI or correct the URI and resubmit the request.";
      },
    )
    ∷ (
      codes "ResourceNotFound",
      record {
        description =
            codes
              "Indicates that the operation expected a resource identifier that corresponds to an existing resource but one was not found.";
        message = codes "The requested resource of type %1 named '%2' was not found.";
        message_severity = codes "Critical";
        number_of_args = 2;
        param_types = codes "string" ∷ codes "string" ∷ [];
        resolution = codes "Provide a valid resource identifier and resubmit the request.";
      },
    )
    ∷ (
      codes "ResourceTypeIncompatible",
      record {
        description =
            codes
              "Indicates that the resource type of the operation does not match that for the operation destination.  Examples of when this can happen include during a POST to a resource collection using the wrong resource type, an update where the `@odata.type` properties do not match, or on a major version incompatibility.";
        message =
            codes
              "The @odata.type of the request body %1 is incompatible with the @odata.type of the resource, which is %2.";
        message_severity = codes "Critical";
        number_of_args = 2;
        param_types = codes "string" ∷ codes "string" ∷ [];
        resolution =
            codes "Resubmit the request with a payload compatible with the resource's schema.";
      },
    )
    ∷ (
      codes "RestrictedPrivilege",
      record {
        description =
            codes
              "Indicates that the operation was not successful because a privilege is restricted.";
        message =
            codes "The operation was not successful because the privilege '%1' is restricted.";
        message_severity = codes "Warning";
        number_of_args = 1;
        param_types = codes "string" ∷ [];
        resolution =
            codes "Remove restricted privileges from the request body and resubmit the request.";
      },
    )
    ∷ (
      codes "RestrictedRole",
      record {
        description =
            codes "Indicates that the operation was not successful because the role is restricted.";
        message = codes "The operation was not successful because the role '%1' is restricted.";
        message_severity = codes "Warning";
        number_of_args = 1;
        param_types = codes "string" ∷ [];
        resolution =
            codes
              "No resolution is required.  For standard roles, consider using the role specified in the AlternateRoleId property in the Role resource.";
      },
    )
    ∷ (
      codes "ServiceDisabled",
      record {
        description =
            codes
              "Indicates that the operation failed because the service, such as the account service, is disabled and cannot accept requests.";
        message =
            codes
              "The operation failed because the service at %1 is disabled and cannot accept requests.";
        message_severity = codes "Warning";
        number_of_args = 1;
        param_types = codes "string" ∷ [];
        resolution = codes "Enable the service and resubmit the request if the operation failed.";
      },
    )
    ∷ (
      codes "ServiceInUnknownState",
      record {
        description =
            codes
              "Indicates that the operation failed because the service is in an unknown state and cannot accept additional requests.";
        message =
            codes
              "The operation failed because the service is in an unknown state and can no longer take incoming requests.";
        message_severity = codes "Critical";
        number_of_args = 0;
        param_types = [];
        resolution = codes "Restart the service and resubmit the request if the operation failed.";
      },
    )
    ∷ (
      codes "ServiceShuttingDown",
      record {
        description =
            codes
              "Indicates that the operation failed as the service is shutting down, such as when the service reboots.";
        message =
            codes
              "The operation failed because the service is shutting down and can no longer take incoming requests.";
        message_severity = codes "Critical";
        number_of_args = 0;
        param_types = [];
        resolution =
            codes
              "When the service becomes available, resubmit the request if the operation failed.";
      },
    )
    ∷ []
