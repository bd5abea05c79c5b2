-- ===== src/Aws/Tasks/Addresses.antt =====
-- internal/adapters/aws/ecs_client.go: the host port of a container port and the private address of a task,
-- which no caller asks for yet.
use legacy_messenger_ecs_con.Base.{ℕ, String, List, [], ◌∷◌, ◌++◌, str_eq, ◌==◌, if◌then◌else◌}
use legacy_messenger_ecs_con.Base.Results.{Result, ok, err}
use legacy_messenger_ecs_con.Domain.{Error, no_host_port}
use legacy_messenger_ecs_con.Aws.Sdk.{
  Container, NetworkBinding, Attachment, KeyValuePair, to_string, to_int,
}

-- The bindings of all containers, in the order of the two loops.
unfoldable pub sdk_bindings : List Container → List NetworkBinding
sdk_bindings [] = []
sdk_bindings (container ∷ containers) = container.network_bindings ++ sdk_bindings containers

unfoldable pub first_host_port : ℕ → List NetworkBinding → Result Error ℕ
first_host_port port [] = err (no_host_port port)
first_host_port port (binding ∷ bindings) =
    if to_int binding.container_port == port
    then ok (to_int binding.host_port)
    else first_host_port port bindings

unfoldable pub extract_host_port : List Container → ℕ → Result Error ℕ
unfolding sdk_bindings first_host_port
extract_host_port containers port = first_host_port port (sdk_bindings containers)

unfoldable pub details_of : List Attachment → List KeyValuePair
details_of [] = []
details_of (attachment ∷ attachments) = attachment.details ++ details_of attachments

unfoldable pub address_in : List KeyValuePair → String
address_in [] = ""
address_in (detail ∷ details) =
    if str_eq (to_string detail.name) "privateIPv4Address"
    then to_string detail.value
    else address_in details

unfoldable pub extract_task_private_ip : List Attachment → String
unfolding details_of address_in
extract_task_private_ip attachments = address_in (details_of attachments)
