-- ===== src/Tests/OpenFlowTests.antt =====
-- Actions created one after the other.
use nox13_interserver.Common.{◌≡◌, ◌≢◌, [], ◌∷◌}
use nox13_interserver.Common.Outcome.{undefined}
use nox13_interserver.OpenFlow.Actions.{
  output, create_copy_ttl, create_set_mpls_ttl, copy_ttl_in, copy_ttl_out, dec_nw_ttl, dec_mpls_ttl,
}
use nox13_interserver.OpenFlow.Actions.Growth.{
  holding, create_copy_ttl-undefined, create_set_mpls_ttl-undefined,
}

out_not_dec_nw : copy_ttl_out ≢ dec_nw_ttl
out_not_dec_nw h = cc

out_not_dec_mpls : copy_ttl_out ≢ dec_mpls_ttl
out_not_dec_mpls h = cc

create_copy_ttl-undefined_example :
    create_copy_ttl copy_ttl_in copy_ttl_out (holding (output 1 0 ∷ [])) ≡ undefined
create_copy_ttl-undefined_example =
    create_copy_ttl-undefined copy_ttl_in copy_ttl_out (output 1 0 ∷ []) out_not_dec_nw
      out_not_dec_mpls

create_set_mpls_ttl-undefined_example :
    create_set_mpls_ttl 64 (holding (output 1 0 ∷ [])) ≡ undefined
create_set_mpls_ttl-undefined_example = create_set_mpls_ttl-undefined 64 (output 1 0 ∷ [])
