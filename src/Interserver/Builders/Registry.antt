-- ===== src/Interserver/Builders/Registry.antt =====
-- Msg_resolver::install (msg_resolver.cc, lines 28-119): the classes, under the names of their
-- functions `name`, in the order in which they are registered.
use nox13_interserver.Common.{List, [], ◌∷◌, String}
use nox13_interserver.Interserver.Resolver.{Interactor, Resolver, register_all, empty_resolver}
use nox13_interserver.Interserver.Builders.Arguments.{Libc}
use nox13_interserver.Interserver.Builders.Messages.{OflMsg}
use nox13_interserver.Interserver.Builders.Queries.{
  inter_sw_config, inter_features_request, inter_table_features, inter_desc, inter_table_stats,
  inter_port_desc, inter_group_desc, inter_group_features, inter_meter_features, inter_flow_info,
  inter_flow_agr_info, inter_port_stats, inter_queue_stats, inter_group_stats, inter_queue_config,
  inter_meter_stats, inter_meter_config,
}
use nox13_interserver.Interserver.Builders.Changes.{
  inter_sw_config_setter, inter_flow_mod, inter_group_mod, inter_port_mod, inter_meter_mod,
}

module _ (libc : Libc) where
  abbrev pub interactors : List (String × Interactor OflMsg)
  interactors =
      ("get_sw_config", inter_sw_config)
      ∷ ("set_sw_config", inter_sw_config_setter libc)
      ∷ ("features_request", inter_features_request)
      ∷ ("table_features", inter_table_features)
      ∷ ("switch_description", inter_desc)
      ∷ ("table_stats", inter_table_stats)
      ∷ ("flow_info", inter_flow_info libc)
      ∷ ("flow_mod", inter_flow_mod libc)
      ∷ ("agr_flow_info", inter_flow_agr_info libc)
      ∷ ("port_stats", inter_port_stats libc)
      ∷ ("port_desc", inter_port_desc)
      ∷ ("queue_stats", inter_queue_stats libc)
      ∷ ("group_stats", inter_group_stats libc)
      ∷ ("group_desc", inter_group_desc)
      ∷ ("group_features", inter_group_features)
      ∷ ("meter_stats", inter_meter_stats libc)
      ∷ ("meter_config", inter_meter_config libc)
      ∷ ("meter_features", inter_meter_features)
      ∷ ("queue_config", inter_queue_config libc)
      ∷ ("group_mod", inter_group_mod libc)
      ∷ ("port_mod", inter_port_mod libc)
      ∷ ("meter_mod", inter_meter_mod libc)
      ∷ []

  unfoldable pub installed_resolver : Resolver OflMsg
  unfolding register_all
  installed_resolver = register_all interactors empty_resolver
