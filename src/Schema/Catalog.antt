-- ===== src/Schema/Catalog.antt =====
-- infrastructure/database/metadata.py: the tables and the indexes that `metadata` collects.
use pentagon5_foundation.Prelude.{[], ◌∷◌, List}
use pentagon5_foundation.Schema.{Table, Index, index}
use pentagon5_foundation.Schema.Identity.{
  users, roles, permissions, user_roles, role_permissions, devices, sessions,
}
use pentagon5_foundation.Schema.Login.{
  oidc_identities, oidc_flows, login_grants, websocket_tickets, session_events,
}
use pentagon5_foundation.Schema.Personalization.{
  themes, background_assets, sound_assets, user_preferences, sound_preferences,
  notification_preferences, notification_events, dashboard_layouts,
}
use pentagon5_foundation.Schema.Workspaces.{workspaces, workspace_members}
use pentagon5_foundation.Schema.Operations.{server_connections, system_health_events}
use pentagon5_foundation.Schema.Market.{instruments, quotes, signals, market_feed_health_events}
use pentagon5_foundation.Schema.Trading.{
  trading_modes, mode_transitions, risk_configurations, risk_states,
}
use pentagon5_foundation.Schema.Orders.{
  orders, executions, positions, pnl, broker_health, manual_broker_exits, reconciliation_states,
}
use pentagon5_foundation.Schema.Audit.{audit_events}

abbrev pub tables : List Table
tables =
    users ∷ roles ∷ permissions ∷ user_roles ∷ role_permissions ∷ devices ∷ sessions
    ∷ oidc_identities ∷ oidc_flows ∷ login_grants ∷ websocket_tickets ∷ session_events ∷ themes
    ∷ background_assets ∷ sound_assets ∷ user_preferences ∷ sound_preferences
    ∷ notification_preferences ∷ notification_events ∷ dashboard_layouts ∷ workspaces
    ∷ workspace_members ∷ server_connections ∷ system_health_events ∷ instruments ∷ quotes ∷ signals
    ∷ market_feed_health_events ∷ trading_modes ∷ mode_transitions ∷ risk_configurations
    ∷ risk_states ∷ orders ∷ executions ∷ positions ∷ pnl ∷ broker_health ∷ manual_broker_exits
    ∷ reconciliation_states ∷ audit_events ∷ []

abbrev pub indexes : List Index
indexes =
    index "ix_identity_devices_user_id" devices ("user_id" ∷ [])
    ∷ index "ix_identity_sessions_user_id_expires" sessions ("user_id" ∷ "expires_at" ∷ [])
    ∷ index "ix_identity_oidc_identities_user_id" oidc_identities ("user_id" ∷ [])
    ∷ index "ix_identity_oidc_flows_expires_at" oidc_flows ("expires_at" ∷ [])
    ∷ index "ix_identity_login_grants_expires_at" login_grants ("expires_at" ∷ [])
    ∷ index "ix_identity_websocket_tickets_expires_at" websocket_tickets ("expires_at" ∷ [])
    ∷ index "ix_identity_session_events_user_occurred" session_events
        ("user_id" ∷ "occurred_at" ∷ [])
    ∷ index "ix_personalization_notification_events_user_occurred" notification_events
        ("user_id" ∷ "occurred_at" ∷ [])
    ∷ index "ix_workspace_members_user_id" workspace_members ("user_id" ∷ [])
    ∷ index "ix_operations_health_checks_component_observed" system_health_events
        ("component" ∷ "observed_at" ∷ [])
    ∷ index "ix_market_quotes_instrument_observed" quotes ("instrument_id" ∷ "observed_at" ∷ [])
    ∷ index "ix_market_signals_workspace_generated" signals ("workspace_id" ∷ "generated_at" ∷ [])
    ∷ index "ix_market_feed_health_workspace_observed" market_feed_health_events
        ("workspace_id" ∷ "observed_at" ∷ [])
    ∷ index "ix_trading_mode_transitions_workspace_time" mode_transitions
        ("workspace_id" ∷ "transitioned_at" ∷ [])
    ∷ index "ix_trading_risk_configurations_workspace_effective" risk_configurations
        ("workspace_id" ∷ "effective_from" ∷ [])
    ∷ index "ix_trading_orders_workspace_status" orders ("workspace_id" ∷ "status" ∷ [])
    ∷ index "ix_trading_executions_order_time" executions ("order_id" ∷ "executed_at" ∷ [])
    ∷ index "ix_trading_broker_health_workspace_observed" broker_health
        ("workspace_id" ∷ "observed_at" ∷ [])
    ∷ index "ix_trading_reconciliation_workspace_time" reconciliation_states
        ("workspace_id" ∷ "reconciled_at" ∷ [])
    ∷ index "ix_audit_events_workspace_occurred" audit_events ("workspace_id" ∷ "occurred_at" ∷ [])
    ∷ index "ix_audit_events_aggregate" audit_events ("aggregate_type" ∷ "aggregate_id" ∷ [])
    ∷ []
