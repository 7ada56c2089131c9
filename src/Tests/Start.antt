-- ===== src/Tests/Start.antt =====
-- The start of the concrete relay.
use unicity_relay.Groups.Warm.{warm_caches as warm_groups}
use unicity_relay.Management.Warm.{warm_caches as warm_management}
use unicity_relay.Prelude.{or_else, nat_eq, string_eq}
use unicity_relay.Instance.State.{Instance}
use unicity_relay.Instance.Start.{prepare_instance}
use unicity_relay.Tests.Demo.{demo, demo_instance}

abbrev prepared : Instance
prepared = or_else demo_instance (prepare_instance demo_instance)
