-- ===== src/Tests/Policies.antt =====
-- The theorem on the policies of department roles under the interface, applied.
use rooeel_backend_api.Prelude.{List, [], ◌∷◌, some, true, false}
use rooeel_backend_api.Text.{codes}
use rooeel_backend_api.Prisma.Memory.{memory}
use rooeel_backend_api.Schema.{Flags, Role, DepartmentRolePolicy}
use rooeel_backend_api.Tokens.{Tokens}
use rooeel_backend_api.Project.WorkOrders.{Office}
use rooeel_backend_api.Project.Policies.{ArePolicies}
use rooeel_backend_api.Api.Guards.{Caller}
use rooeel_backend_api.Api.Projects.{department, set_department_role_policy, remove_department_role}
use rooeel_backend_api.Api.Projects.Policies.{Event, run, run-ArePolicies}
use rooeel_backend_api.Tests.Samples.{plain_tokens, claims_of_ann}
use rooeel_backend_api.Tests.Projects.{plain_host, plain_store}
use rooeel_backend_api.Tests.Teams.{world, no_policies}

-- Every token is an admin's.
abbrev admin_tokens : Tokens
admin_tokens = record plain_tokens {
  verify = λ now t. some (record claims_of_ann { role = Role.admin });
}

abbrev admin_calls : Caller
admin_calls = record { now = 0; bearer = some "token" }

abbrev office : Office memory
office = record { world = world; files = [] }

abbrev view_and_edit : Flags
view_and_edit = record { can_view = true; can_create = false; can_edit = true; can_delete = false }

abbrev events : List Event
events =
    record {
      answer = DepartmentRolePolicy;
      call = department (set_department_role_policy 1 (codes "task") view_and_edit);
      caller = admin_calls;
      s3 = plain_store;
    }
    ∷ record {
      answer = DepartmentRolePolicy;
      call = department (set_department_role_policy 1 (codes "user") view_and_edit);
      caller = admin_calls;
      s3 = plain_store;
    }
    ∷ record {
      answer = Unit {0};
      call = department (remove_department_role 1);
      caller = admin_calls;
      s3 = plain_store;
    }
    ∷ []

run-ArePolicies_example :
    ArePolicies memory (run memory plain_host admin_tokens events office).world.team.policies
run-ArePolicies_example = run-ArePolicies memory plain_host admin_tokens events office no_policies
